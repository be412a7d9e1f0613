-- ===== src/Receiver/Completion.antt =====
-- Completing a session: `complete_session` and what later uploads to it meet,
-- src/intake/local_console/receiver/service.py.
use intake.Prelude.{
  ℕ, suc, String, ◌≡◌, inl, inr, refl, true, false, some, List, [], ◌∷◌, ltb, arith, length,
  Bool-cases, str_eq, eq_iff, All, sum_of, sym, ap, ◌∙◌, if◌then◌else◌,
}
use intake.Prelude.Dict.{Dict, get, put, get-put_self}
use intake.Prelude.Result.{ok}
use intake.Receiver.Model.{
  completed, completed_session, invalid_session, LocalUploadSession, LocalUploadedFileRecord,
  LocalUploadCompleteReceipt, SessionCompleteRequest, UploadFileRequest, Receiver,
}
use intake.Receiver.Sessions.{
  get_session, is_completed, gather_receipts, finish_session, complete_session, complete_receipt,
}
use intake.Receiver.Admission.{admit}
use intake.Receiver.Uploads.{reject, process_file_upload}
use intake.Receiver.Invariant.{IsOwned, size_at, IsConsistent}

-- The receipts of a session whose files are all on record: one for each file, with its size.
gather-totals :
    (s : LocalUploadSession) (sid : String) (files : Dict LocalUploadedFileRecord)
    (ids : ℕ → String) (n : ℕ) (fids : List String)
    → s.session_id ≡ sid
    → All (IsOwned files s.session_id s.quote_id s.max_file_size_bytes) fids
    → (length (gather_receipts s sid files ids n fids) ≡ length fids)
      × (sum_of (λ f. f.size_bytes) (gather_receipts s sid files ids n fids)
          ≡ sum_of (size_at files) fids)
unfolding gather_receipts
gather-totals s sid files ids n [] key h = (refl, refl)
gather-totals s sid files ids n (fid ∷ fids) key h =
    let o = h.0 in
    let same : str_eq o.stored.session_id sid ≡ true = (eq_iff _ _).1 (o.in_session ∙ key) in
    rw (o.found, same)
      (let (count, bytes) = gather-totals s sid files ids (suc n) fids key h.1 in
        (omega (arith, count), omega (arith, bytes)))

abbrev pub completed_now : LocalUploadSession → LocalUploadSession
completed_now s = record s { status = completed }

-- What a completion has found and done.
record IsCompletion (request : SessionCompleteRequest) (now at : ℕ) (ids : ℕ → String)
    (s : LocalUploadSession) (r r' : Receiver) (receipt : LocalUploadCompleteReceipt) : Type 0 where
  early : ltb s.expires_at now ≡ false
  was_open : is_completed s.status ≡ false
  quote : s.quote_id ≡ request.quote_id
  answer :
      receipt
      ≡ complete_receipt s (gather_receipts s request.session_id r.files ids 0 s.uploaded_files) at
  marked : r' ≡ record r { sessions = put r.sessions request.session_id (completed_now s) }

IsCompletion-inversion :
    (request : SessionCompleteRequest) (now at : ℕ) (ids : ℕ → String) (s : LocalUploadSession)
    (r r' : Receiver) (receipt : LocalUploadCompleteReceipt)
    → get r.sessions request.session_id ≡ some s
    → complete_session request now at ids r ≡ (ok receipt, r')
    → IsCompletion request now at ids s r r' receipt
unfolding complete_session finish_session get_session
IsCompletion-inversion request now at ids s r r' receipt found h =
    ground (arith, eq_iff s.quote_id request.quote_id)

-- From a consistent state, the receipt of a completed session counts every file of the session
-- and their total size, and the session is marked as completed and otherwise as it was.
pub complete_session-totals :
    (request : SessionCompleteRequest) (now at : ℕ) (ids : ℕ → String) (s : LocalUploadSession)
    (r r' : Receiver) (receipt : LocalUploadCompleteReceipt)
    → IsConsistent r
    → get r.sessions request.session_id ≡ some s
    → complete_session request now at ids r ≡ (ok receipt, r')
    → (receipt.total_files ≡ length s.uploaded_files)
      × (receipt.total_bytes ≡ s.total_bytes_uploaded)
      × (get r'.sessions request.session_id ≡ some (completed_now s))
complete_session-totals request now at ids s r r' receipt h found e =
    let c = IsCompletion-inversion request now at ids s r r' receipt found e in
    let sound = h request.session_id s found in
    let (count, bytes) =
      gather-totals s request.session_id r.files ids 0 s.uploaded_files sound.key sound.owned in
    (
      ap (λ (x : LocalUploadCompleteReceipt). x.total_files) c.answer ∙ count,
      ap (λ (x : LocalUploadCompleteReceipt). x.total_bytes) c.answer ∙ bytes ∙ sym sound.accounted,
      ap (λ (x : Receiver). get x.sessions request.session_id) c.marked
          ∙ get-put_self r.sessions request.session_id (completed_now s),
    )

module _ (root : List String) (sha256 : List ℕ → String) where
  -- After a completion every upload to the session is rejected, as one to a completed session, or
  -- to an invalid one where the session's expiry has passed.
  pub process_file_upload_completed :
      (request : SessionCompleteRequest) (now at : ℕ) (ids : ℕ → String) (s : LocalUploadSession)
      (r r' : Receiver) (receipt : LocalUploadCompleteReceipt) (upload : UploadFileRequest)
      (content : List ℕ) (fid : String) (later stored_at : ℕ)
      → get r.sessions request.session_id ≡ some s
      → complete_session request now at ids r ≡ (ok receipt, r')
      → (process_file_upload root sha256 request.session_id upload content fid later stored_at r').0
        ≡ reject
            (if ltb s.expires_at later then invalid_session else completed_session)
            request.session_id
  unfolding process_file_upload admit
  process_file_upload_completed request now at ids s r r' receipt upload content fid later stored_at
        found e =
      let c = IsCompletion-inversion request now at ids s r r' receipt found e in
      let there =
        ap (λ (x : Receiver). get x.sessions request.session_id) c.marked
        ∙ get-put_self r.sessions request.session_id (completed_now s) in
      elim (Bool-cases (ltb s.expires_at later)) [
        | inl late ↦ rw (there, late)
        | inr early ↦ rw (there, early)
      ]
