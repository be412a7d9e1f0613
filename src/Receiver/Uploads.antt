-- ===== src/Receiver/Uploads.antt =====
-- Uploads to the receiver: `process_file_upload` and `process_streamed_file_upload` of
-- src/intake/local_console/receiver/service.py. The upload root and SHA-256 are parameters; the
-- clock's readings and the random file identifier are arguments. Error texts are left out.
use Prim.Native.String.{◌++◌}
use mathlib.Core.List.{◌++◌ as append}
use intake.Prelude.{
  ℕ, ◌+◌, String, true, Option, none, some, List, [], ◌∷◌, if◌then◌else◌, ◌==◌, length,
}
use intake.Prelude.Int.{exceeds, reaches}
use intake.Prelude.Dict.{get, put}
use intake.Prelude.Result.{Result, ok, err}
use intake.Receiver.Model.{
  uploaded, FileRejectionReason, empty_file, over_size_limit, max_total_bytes_exceeded,
  max_files_exceeded, invalid_session, LocalUploadSession, LocalUploadedFileRecord,
  UploadFileRequest, Receiver,
}
use intake.Receiver.Paths.{sanitize_path_component, generate_storage_name}
use intake.Receiver.Disk.{
  starts_with_slash, store_file, Read, StoreError, outside_root, read_value_error, read_other,
  stream_store_file, delete_file,
}
use intake.Receiver.Sessions.{Exception, key_error, validation_error, read_failed, Method}
use intake.Receiver.Admission.{validate_file_upload}

-- UploadRejectionResponse: its reason and its session.
pub record UploadRejectionResponse : Type 0 where
  pub reason : FileRejectionReason
  pub session_id : String

-- The pair of a record and a rejection of which one is None.
abbrev pub Upload : Type 0
Upload = Result UploadRejectionResponse LocalUploadedFileRecord

abbrev pub reject : FileRejectionReason → String → Result Exception Upload
reject reason session_id = ok (err (record { reason = reason; session_id = session_id }))

-- `extension if extension else ""`
abbrev pub extension_text : Option String → String
extension_text none = ""
extension_text (some e) = e

-- `get_storage_ref`: the path relative to the root. An absolute name is not below it.
unfoldable pub get_storage_ref : String → String → Option String → String
get_storage_ref session_id file_id extension =
    let filename = generate_storage_name file_id extension in
    if starts_with_slash filename
    then session_id ++ "/" ++ file_id
    else sanitize_path_component session_id ++ "/" ++ filename

-- The record of a stored file.
abbrev pub file_record :
    String
    → LocalUploadSession
    → UploadFileRequest
    → String
    → Option String
    → ℕ
    → String
    → ℕ
    → LocalUploadedFileRecord
file_record session_id session request file_id extension size sha256 stored_at = record {
  file_id = file_id;
  session_id = session_id;
  quote_id = session.quote_id;
  original_filename_redacted = true;
  declared_content_type = request.declared_content_type;
  detected_content_type = none;
  extension = extension_text extension;
  size_bytes = size;
  sha256 = sha256;
  status = uploaded;
  stored_at = stored_at;
  storage_provider = "local_loopback_dev";
  storage_ref = get_storage_ref session_id file_id extension;
}

-- The session and the record are written where a file has been accepted.
unfoldable pub record_upload :
    String → LocalUploadSession → LocalUploadedFileRecord → Receiver → Receiver
record_upload session_id session stored r = record r {
  sessions = put r.sessions session_id (record session {
    uploaded_files = append session.uploaded_files (stored.file_id ∷ []);
    total_bytes_uploaded = session.total_bytes_uploaded + stored.size_bytes;
  });
  files = put r.files stored.file_id stored;
}

abbrev pub or_key_error :
    Option LocalUploadSession → (LocalUploadSession → Method Upload) → Method Upload
or_key_error none k r = (err key_error, r)
or_key_error (some session) k r = k session r

-- `self._sessions[session_id]`
abbrev pub with_session : String → (LocalUploadSession → Method Upload) → Method Upload
with_session session_id k r = or_key_error (get r.sessions session_id) k r

-- The session's limits against the size that has been read. A file over a limit is deleted; an
-- empty one stays on disk.
unfoldable pub recheck : LocalUploadSession → ℕ → Option FileRejectionReason
recheck session actual_size =
    if actual_size == 0
    then some empty_file
    else if exceeds actual_size session.max_file_size_bytes
    then some over_size_limit
    else if exceeds (session.total_bytes_uploaded + actual_size) session.max_total_bytes
    then some max_total_bytes_exceeded
    else if reaches (length session.uploaded_files) session.max_files
    then some max_files_exceeded
    else none

module _ (root : List String) (sha256 : List ℕ → String) where
  -- The end of `process_file_upload`. After a ValueError of the storage the handler builds a
  -- record from a file identifier alone, which pydantic refuses.
  unfoldable pub store_upload :
      String
      → UploadFileRequest
      → List ℕ
      → String
      → Option String
      → ℕ
      → LocalUploadSession
      → Method Upload
  store_upload session_id request content file_id extension stored_at session r =
      let (stored, disk) = store_file root r.disk session_id file_id extension content in
      if stored
      then (
        ok (
            ok (
              file_record session_id session request file_id extension (length content)
                (sha256 content) stored_at)),
        record_upload session_id session
            (file_record session_id session request file_id extension (length content)
              (sha256 content) stored_at)
            (record r { disk = disk }),
      )
      else (err validation_error, record r { disk = disk })

  -- What follows the validation.
  abbrev pub store_admitted :
      Result FileRejectionReason (Option String)
      → String
      → UploadFileRequest
      → List ℕ
      → String
      → ℕ
      → Method Upload
  store_admitted (err reason) session_id request content file_id stored_at r =
      (reject reason session_id, r)
  store_admitted (ok extension) session_id request content file_id stored_at r =
      with_session session_id (store_upload session_id request content file_id extension stored_at)
        r

  -- `process_file_upload`, with the clock read by the validation and for `stored_at`.
  unfoldable pub process_file_upload :
      String → UploadFileRequest → List ℕ → String → (now stored_at : ℕ) → Method Upload
  unfolding validate_file_upload store_upload record_upload
  process_file_upload session_id request content file_id now stored_at r =
      let (verdict, r') = validate_file_upload session_id request (length content) now r in
      store_admitted verdict session_id request content file_id stored_at r'

  abbrev pub after_recheck :
      Option FileRejectionReason
      → String
      → UploadFileRequest
      → List ℕ
      → String
      → Option String
      → ℕ
      → LocalUploadSession
      → Method Upload
  after_recheck none session_id request content file_id extension stored_at session r = (
    ok (
        ok (
          file_record session_id session request file_id extension (length content) (sha256 content)
            stored_at)),
    record_upload session_id session
        (file_record session_id session request file_id extension (length content) (sha256 content)
          stored_at)
        r,
  )
  after_recheck (some empty_file) session_id request content file_id extension stored_at session r =
      (reject empty_file session_id, r)
  after_recheck (some reason) session_id request content file_id extension stored_at session r = (
    reject reason session_id,
    record r { disk = (delete_file r.disk session_id file_id extension).1 },
  )

  -- What the storage's stream call came back with. Its ValueErrors are a rejection.
  abbrev pub after_stream :
      Result StoreError (List ℕ)
      → String
      → UploadFileRequest
      → String
      → Option String
      → ℕ
      → LocalUploadSession
      → Method Upload
  after_stream (ok content) session_id request file_id extension stored_at session r =
      after_recheck (recheck session (length content)) session_id request content file_id extension
        stored_at session r
  after_stream (err outside_root) session_id request file_id extension stored_at session r =
      (reject invalid_session session_id, r)
  after_stream (err read_value_error) session_id request file_id extension stored_at session r =
      (reject invalid_session session_id, r)
  after_stream (err read_other) session_id request file_id extension stored_at session r =
      (err read_failed, r)

  unfoldable pub stream_upload :
      String
      → UploadFileRequest
      → List Read
      → String
      → Option String
      → ℕ
      → LocalUploadSession
      → Method Upload
  unfolding recheck
  stream_upload session_id request reads file_id extension stored_at session r =
      let (streamed, disk) = stream_store_file root r.disk session_id file_id extension reads in
      after_stream streamed session_id request file_id extension stored_at session
        (record r { disk = disk })

  -- `rejection and rejection != EMPTY_FILE`: after that reason the upload goes on.
  abbrev pub stream_admitted :
      Result FileRejectionReason (Option String)
      → String
      → UploadFileRequest
      → List Read
      → String
      → ℕ
      → Method Upload
  stream_admitted (ok extension) session_id request reads file_id stored_at r =
      with_session session_id (stream_upload session_id request reads file_id extension stored_at) r
  stream_admitted (err empty_file) session_id request reads file_id stored_at r =
      with_session session_id (stream_upload session_id request reads file_id none stored_at) r
  stream_admitted (err reason) session_id request reads file_id stored_at r =
      (reject reason session_id, r)

  -- `process_streamed_file_upload`. `file_size` is the size that the file object reports, 0 where
  -- it has none; the validation takes 1 for 0.
  unfoldable pub process_streamed_file_upload :
      String
      → UploadFileRequest
      → (file_size : ℕ) → List Read
      → String
      → (now stored_at : ℕ) → Method Upload
  unfolding validate_file_upload stream_upload record_upload
  process_streamed_file_upload session_id request file_size reads file_id now stored_at r =
      let (verdict, r') =
        validate_file_upload session_id request (if file_size == 0 then 1 else file_size) now r in
      stream_admitted verdict session_id request reads file_id stored_at r'
