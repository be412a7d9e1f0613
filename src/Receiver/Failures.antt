-- ===== src/Receiver/Failures.antt =====
-- Uploads that fail: an expired session, and a stream that is read and then turned away,
-- src/intake/local_console/receiver/service.py.
use intake.Prelude.{
  ℕ, String, ◌≡◌, refl, true, false, Option, none, some, List, [], arith, ap, ◌∙◌, Option-cases,
  inl, inr, eq_iff, length, ltb, ◌==◌, if◌then◌else◌,
}
use intake.Prelude.Dict.{get, put, get-put_self, get-del}
use intake.Prelude.Result.{ok}
use intake.Receiver.Model.{
  expired, invalid_session, empty_file, FileRejectionReason, LocalUploadSession, UploadFileRequest,
  Receiver, Disk,
}
use intake.Receiver.Paths.{sanitize_path_component, generate_storage_name}
use intake.Receiver.Disk.{
  files_or_empty, files_in, write_file, create_session_directory, Read, stream_store_file,
  path_under_root, read_chunks, delete_file,
}
use intake.Receiver.Admission.{admit}
use intake.Receiver.Uploads.{
  reject, process_file_upload, stream_upload, recheck, after_recheck, process_streamed_file_upload,
}
use intake.Receiver.Stored.{bytes_at, bytes_at-write}

-- A file that is deleted is gone.
bytes_at-delete :
    (disk : Disk) (sid fid : String) (ext : Option String)
    → bytes_at
        (delete_file disk sid fid ext).1
        (sanitize_path_component sid)
        (generate_storage_name fid ext)
      ≡ none
unfolding delete_file
bytes_at-delete disk sid fid ext =
    let dir = sanitize_path_component sid in
    let name = generate_storage_name fid ext in
    elim (Option-cases (get (files_in disk dir) name)) [
      | inl gone ↦ rw gone gone
      | inr (content, there) ↦ rw there (
          ap (λ o. get (files_or_empty o) name) (get-put_self disk dir _)
          ∙ ground (arith, get-del (files_in disk dir) name name, eq_iff name name))
    ]

module _ (root : List String) (sha256 : List ℕ → String) where
  -- An upload to a session past its expiry is rejected as one to an invalid session, and never as
  -- one to an expired session; the session is marked as expired, and nothing else changes.
  pub process_file_upload_expired :
      (sid : String) (request : UploadFileRequest) (content : List ℕ) (fid : String) (now at : ℕ)
      (r : Receiver) (s : LocalUploadSession)
      → get r.sessions sid ≡ some s
      → ltb s.expires_at now ≡ true
      → process_file_upload root sha256 sid request content fid now at r ≡ (
        reject invalid_session sid,
        record r { sessions = put r.sessions sid (record s { status = expired }) },
      )
  unfolding process_file_upload
  process_file_upload_expired sid request content fid now at r s found late = rw (found, late)

  -- What a stream leaves that was read to its end and then turned away.
  pub record IsTurnedAway (sid : String) (reason : FileRejectionReason) (name : String)
      (content : List ℕ) (r r' : Receiver) : Type 0 where
    pub sessions : r'.sessions ≡ r.sessions
    pub files : r'.files ≡ r.files
    pub on_disk :
        bytes_at r'.disk (sanitize_path_component sid) name
        ≡ (if length content == 0 then some content else none)

  after_recheck_rejected :
      (reason : FileRejectionReason) (sid : String) (request : UploadFileRequest) (content : List ℕ)
      (fid : String) (ext : Option String) (at : ℕ) (s : LocalUploadSession) (r : Receiver)
      (disk : Disk)
      → recheck s (length content) ≡ some reason
      → bytes_at disk (sanitize_path_component sid) (generate_storage_name fid ext) ≡ some content
      → ((after_recheck root sha256
            (some reason)
            sid
            request
            content
            fid
            ext
            at
            s
            (record r { disk = disk })).0
          ≡ reject reason sid)
        × IsTurnedAway sid reason
            (generate_storage_name fid ext)
            content
            r
            (after_recheck root sha256
              (some reason)
              sid
              request
              content
              fid
              ext
              at
              s
              (record r { disk = disk })).1
  unfolding recheck
  after_recheck_rejected empty_file sid request content fid ext at s r disk v there =
      let zero_size : (length content == 0) ≡ true = ground arith in
      (refl, record { sessions = refl; files = refl; on_disk = rw zero_size there })
  after_recheck_rejected _ sid request content fid ext at s r disk v there =
      let some_size : (length content == 0) ≡ false = ground arith in
      (
        refl,
        record {
          sessions = refl;
          files = refl;
          on_disk = rw some_size (bytes_at-delete disk sid fid ext);
        },
      )

  stream_upload_rejected :
      (reason : FileRejectionReason) (sid : String) (request : UploadFileRequest)
      (reads : List Read) (content : List ℕ) (fid : String) (ext : Option String) (at : ℕ)
      (s : LocalUploadSession) (r : Receiver)
      → path_under_root root (sanitize_path_component sid) (generate_storage_name fid ext) ≡ true
      → read_chunks reads [] ≡ ok content
      → recheck s (length content) ≡ some reason
      → ((stream_upload root sha256 sid request reads fid ext at s r).0 ≡ reject reason sid)
        × IsTurnedAway sid reason
            (generate_storage_name fid ext)
            content
            r
            (stream_upload root sha256 sid request reads fid ext at s r).1
  unfolding stream_upload stream_store_file
  stream_upload_rejected reason sid request reads content fid ext at s r inside read v =
      rw (inside, read, v)
        (after_recheck_rejected reason sid request content fid ext at s r
          (write_file (create_session_directory r.disk sid) (sanitize_path_component sid)
            (generate_storage_name fid ext) content)
          v (bytes_at-write _ _ _ content))

  -- A stream that was admitted, written below the root and then found to break a limit is
  -- rejected for that reason, and neither the sessions nor the records change. Its file is
  -- deleted, unless it is empty: then it stays on disk, without a record.
  pub process_streamed_file_upload_rejected :
      (reason : FileRejectionReason) (sid : String) (request : UploadFileRequest) (size : ℕ)
      (reads : List Read) (content : List ℕ) (fid : String) (ext : Option String) (now at : ℕ)
      (s : LocalUploadSession) (r : Receiver)
      → get r.sessions sid ≡ some s
      → ltb s.expires_at now ≡ false
      → admit s request (if size == 0 then 1 else size) ≡ ok ext
      → path_under_root root (sanitize_path_component sid) (generate_storage_name fid ext) ≡ true
      → read_chunks reads [] ≡ ok content
      → recheck s (length content) ≡ some reason
      → ((process_streamed_file_upload root sha256 sid request size reads fid now at r).0
          ≡ reject reason sid)
        × IsTurnedAway sid reason
            (generate_storage_name fid ext)
            content
            r
            (process_streamed_file_upload root sha256 sid request size reads fid now at r).1
  unfolding process_streamed_file_upload
  process_streamed_file_upload_rejected reason sid request size reads content fid ext now at s r
        found early admitted inside read v =
      rw (found, early, admitted, found)
        (stream_upload_rejected reason sid request reads content fid ext at s r inside read v)
