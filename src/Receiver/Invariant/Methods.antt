-- ===== src/Receiver/Invariant/Methods.antt =====
-- Every call of the receiver keeps its state consistent: the methods of LocalReceiverService,
-- src/intake/local_console/receiver/service.py, whatever they answer.
use intake.Prelude.{
  ℕ, ◌+◌, ◌<◌, String, ◌≡◌, ◌⊎◌, inl, inr, refl, false, Option, none, some, List, ltb, arith,
  length, Bool-cases, Option-cases,
}
use intake.Prelude.Int.{exceeds, reaches}
use intake.Prelude.Dict.{get}
use intake.Prelude.Result.{Result, ok, err}
use intake.Receiver.Model.{
  FileRejectionReason, empty_file, Disk, LocalUploadSession, UploadFileRequest, Receiver,
}
use intake.Receiver.Disk.{
  Read, StoreError, outside_root, read_value_error, read_other, store_file, stream_store_file,
}
use intake.Receiver.Sessions.{
  Exception, session_not_found, session_expired, get_session, is_completed,
}
use intake.Receiver.Admission.{admit}
use intake.Receiver.Uploads.{
  file_record, store_upload, store_admitted, after_recheck, after_stream, stream_admitted,
  process_file_upload, recheck, stream_upload, process_streamed_file_upload,
}
use intake.Receiver.Invariant.{IsConsistent, IsConsistent-mark}
use intake.Receiver.Invariant.Uploads.{Fits, record_upload-IsConsistent}

module _ (sid : String) (now : ℕ) (r : Receiver) where
  -- A session that is found has not expired, and finding it changes nothing.
  pub get_session-cases :
      ((s : LocalUploadSession) × (get_session sid now r ≡ (ok s, r))
        × (get r.sessions sid ≡ some s)
        × (ltb s.expires_at now ≡ false))
      ⊎ ((e : Exception) × ((get_session sid now r).0 ≡ err e))
  unfolding get_session
  get_session-cases = elim (Option-cases (get r.sessions sid)) [
    | inl gone ↦ inr (session_not_found, rw gone)
    | inr (s, found) ↦ elim (Bool-cases (ltb s.expires_at now)) [
      | inl late ↦ inr (session_expired, rw (found, late))
      | inr early ↦ inl (s, rw (found, early), found, early)
    ]
  ]

  pub get_session-IsConsistent : IsConsistent r → IsConsistent (get_session sid now r).1
  unfolding get_session
  get_session-IsConsistent h = elim (Option-cases (get r.sessions sid)) [
    | inl gone ↦ rw gone h
    | inr (s, found) ↦ elim (Bool-cases (ltb s.expires_at now)) [
      | inl late ↦ rw (found, late) (IsConsistent-mark r sid s _ h found)
      | inr early ↦ rw (found, early) h
    ]
  ]

-- What an admitted size has passed.
pub record IsAdmitted (s : LocalUploadSession) (size : ℕ) : Type 0 where
  pub not_completed : is_completed s.status ≡ false
  pub not_empty : 0 < size
  pub within_size : exceeds size s.max_file_size_bytes ≡ false
  pub within_total : exceeds (s.total_bytes_uploaded + size) s.max_total_bytes ≡ false
  pub within_count : reaches (length s.uploaded_files) s.max_files ≡ false

pub admit-IsAdmitted :
    (s : LocalUploadSession) (request : UploadFileRequest) (size : ℕ) (ext : Option String)
    → admit s request size ≡ ok ext
    → IsAdmitted s size
unfolding admit
admit-IsAdmitted s request size ext h = ground arith

-- A file of an admitted size fits the session.
IsAdmitted-Fits :
    (sid : String) (s : LocalUploadSession) (request : UploadFileRequest) (fid : String)
    (ext : Option String) (size : ℕ) (hash : String) (at : ℕ)
    → IsAdmitted s size
    → Fits sid s (file_record sid s request fid ext size hash at)
IsAdmitted-Fits sid s request fid ext size hash at a = record {
  in_session = refl;
  for_quote = refl;
  not_empty = a.not_empty;
  within_size = a.within_size;
  within_total = a.within_total;
  within_count = a.within_count;
}

module _ (root : List String) (sha256 : List ℕ → String) where
  store_upload-IsConsistent :
      (sid : String) (request : UploadFileRequest) (content : List ℕ) (fid : String)
      (ext : Option String) (at : ℕ) (s : LocalUploadSession) (r : Receiver)
      → IsConsistent r
      → get r.sessions sid ≡ some s
      → get r.files fid ≡ none
      → IsAdmitted s (length content)
      → IsConsistent (store_upload root sha256 sid request content fid ext at s r).1
  unfolding store_upload
  store_upload-IsConsistent sid request content fid ext at s r h found fresh a =
      let (stored, disk) = store_file root r.disk sid fid ext content in
      elim (Bool-cases stored) [
        | inl done ↦ rw done (
            record_upload-IsConsistent (record r { disk = disk }) sid s _ h found fresh
              (IsAdmitted-Fits sid s request fid ext _ _ at a))
        | inr failed ↦ rw failed h
      ]

  -- The validated upload, by the verdict on it.
  store_admitted-IsConsistent :
      (verdict : Result FileRejectionReason (Option String)) (sid : String)
      (request : UploadFileRequest) (content : List ℕ) (fid : String) (at : ℕ)
      (s : LocalUploadSession) (r : Receiver)
      → admit s request (length content) ≡ verdict
      → IsConsistent r
      → get r.sessions sid ≡ some s
      → get r.files fid ≡ none
      → IsConsistent (store_admitted root sha256 verdict sid request content fid at r).1
  store_admitted-IsConsistent (err reason) sid request content fid at s r v h found fresh = h
  store_admitted-IsConsistent (ok ext) sid request content fid at s r v h found fresh = rw found (
      store_upload-IsConsistent sid request content fid ext at s r h found fresh
        (admit-IsAdmitted s request _ ext v))

  -- `process_file_upload` keeps a consistent state consistent, whether it stores the file, rejects
  -- it or raises, if the generated file identifier is new.
  pub process_file_upload-IsConsistent :
      (sid : String) (request : UploadFileRequest) (content : List ℕ) (fid : String) (now at : ℕ)
      (r : Receiver)
      → IsConsistent r
      → get r.files fid ≡ none
      → IsConsistent (process_file_upload root sha256 sid request content fid now at r).1
  unfolding process_file_upload
  process_file_upload-IsConsistent sid request content fid now at r h fresh =
      elim (get_session-cases sid now r) [
        | inl (s, e, found, early) ↦ rw e (
            store_admitted-IsConsistent (admit s request (length content)) sid request content fid
              at s r refl h found fresh)
        | inr (x, e) ↦ rw e (get_session-IsConsistent sid now r h)
      ]

  -- The rejected stream: the deletion is of a file, and the sessions stay.
  after_recheck-IsConsistent :
      (verdict : Option FileRejectionReason) (sid : String) (request : UploadFileRequest)
      (content : List ℕ) (fid : String) (ext : Option String) (at : ℕ) (s : LocalUploadSession)
      (r : Receiver)
      → recheck s (length content) ≡ verdict
      → is_completed s.status ≡ false
      → IsConsistent r
      → get r.sessions sid ≡ some s
      → get r.files fid ≡ none
      → IsConsistent (after_recheck root sha256 verdict sid request content fid ext at s r).1
  unfolding recheck
  after_recheck-IsConsistent none sid request content fid ext at s r v open_ h found fresh =
      record_upload-IsConsistent r sid s _ h found fresh
        (IsAdmitted-Fits sid s request fid ext (length content) _ at (ground arith))
  after_recheck-IsConsistent (some empty_file) sid request content fid ext at s r v open_ h found
        fresh =
      h
  after_recheck-IsConsistent (some _) sid request content fid ext at s r v open_ h found fresh = h

  stream_upload-IsConsistent :
      (sid : String) (request : UploadFileRequest) (reads : List Read) (fid : String)
      (ext : Option String) (at : ℕ) (s : LocalUploadSession) (r : Receiver)
      → is_completed s.status ≡ false
      → IsConsistent r
      → get r.sessions sid ≡ some s
      → get r.files fid ≡ none
      → IsConsistent (stream_upload root sha256 sid request reads fid ext at s r).1
  unfolding stream_upload
  stream_upload-IsConsistent sid request reads fid ext at s r open_ h found fresh =
      go (stream_store_file root r.disk sid fid ext reads)
    where
      go :
          (streamed : Result StoreError (List ℕ) × Disk)
          → IsConsistent
              (after_stream root sha256 streamed.0 sid request fid ext at s
                (record r { disk = streamed.1 })).1
      go (ok content, disk) =
          after_recheck-IsConsistent (recheck s (length content)) sid request content fid ext at s
            (record r { disk = disk }) refl open_ h found fresh
      go (err outside_root, disk) = h
      go (err read_value_error, disk) = h
      go (err read_other, disk) = h

  stream_admitted-IsConsistent :
      (verdict : Result FileRejectionReason (Option String)) (sid : String)
      (request : UploadFileRequest) (size : ℕ) (reads : List Read) (fid : String) (at : ℕ)
      (s : LocalUploadSession) (r : Receiver)
      → admit s request size ≡ verdict
      → IsConsistent r
      → get r.sessions sid ≡ some s
      → get r.files fid ≡ none
      → IsConsistent (stream_admitted root sha256 verdict sid request reads fid at r).1
  unfolding admit
  stream_admitted-IsConsistent (ok ext) sid request size reads fid at s r v h found fresh =
      rw found
        (stream_upload-IsConsistent sid request reads fid ext at s r (ground arith) h found fresh)
  stream_admitted-IsConsistent (err empty_file) sid request size reads fid at s r v h found fresh =
      rw found
        (stream_upload-IsConsistent sid request reads fid none at s r (ground arith) h found fresh)
  stream_admitted-IsConsistent (err _) sid request size reads fid at s r v h found fresh = h

  -- `process_streamed_file_upload` keeps a consistent state consistent, whatever size the client
  -- reports and whatever its stream yields, if the generated file identifier is new.
  pub process_streamed_file_upload-IsConsistent :
      (sid : String) (request : UploadFileRequest) (size : ℕ) (reads : List Read) (fid : String)
      (now at : ℕ) (r : Receiver)
      → IsConsistent r
      → get r.files fid ≡ none
      → IsConsistent
          (process_streamed_file_upload root sha256 sid request size reads fid now at r).1
  unfolding process_streamed_file_upload
  process_streamed_file_upload-IsConsistent sid request size reads fid now at r h fresh =
      elim (get_session-cases sid now r) [
        | inl (s, e, found, early) ↦
            rw e (stream_admitted-IsConsistent _ sid request _ reads fid at s r refl h found fresh)
        | inr (x, e) ↦ rw e (get_session-IsConsistent sid now r h)
      ]
