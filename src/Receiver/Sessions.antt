-- ===== src/Receiver/Sessions.antt =====
-- Sessions of the receiver: `create_session`, `_validate_session_request`, `get_session` and
-- `complete_session` of src/intake/local_console/receiver/service.py. Each reading of the clock is
-- an argument, and so are the random identifiers.
use intake.Prelude.{
  ℕ, suc, is_some, String, Bool, true, false, Option, none, some, List, [], ◌∷◌, str_eq, ltb,
  if◌then◌else◌, length, sum_of,
}
use intake.Prelude.Int.{le_zero}
use intake.Prelude.Text.{is_empty, lower}
use intake.Prelude.Dict.{Dict, get, put}
use intake.Prelude.Result.{Result, ok, err, Exec, after, raise_if}
use intake.Receiver.Model.{
  SessionStatus, active, completed, expired, allowed_content_types, allowed_extensions,
  LocalUploadSessionCreate, LocalUploadSession, LocalUploadedFileRecord, LocalUploadReceipt,
  LocalUploadCompleteReceipt, SessionCompleteRequest, Receiver,
}
use intake.Receiver.Disk.{create_session_directory}

-- The exceptions of the service: the messages of its ValueErrors, and the other kinds.
pub data Exception : Type 0 where
  quote_id_required expiry_in_past size_limit_not_positive file_limit_not_positive : Exception
  total_limit_not_positive session_not_found session_expired already_completed : Exception
  quote_id_mismatch : Exception
  content_type_not_allowed extension_not_allowed : String → Exception
  attribute_error key_error validation_error read_failed : Exception

abbrev pub Method : Type 0 → Type 0
Method = Exec Receiver Exception

-- A key of the dictionary.
abbrev pub has_key {ℓ} : {V : Type ℓ} → Dict V → String → Bool
has_key d k = is_some (get d k)

-- The loop over the requested content types.
unfoldable pub check_content_types : List String → Result Exception (Unit {0})
unfolding get
check_content_types [] = ok tt
check_content_types (ct ∷ cts) =
    if has_key allowed_content_types ct
    then check_content_types cts
    else err (content_type_not_allowed ct)

-- The loop over the requested extensions.
unfoldable pub check_extensions : List String → Result Exception (Unit {0})
unfolding get lower allowed_extensions
check_extensions [] = ok tt
check_extensions (ext ∷ exts) =
    if has_key allowed_extensions (lower ext)
    then check_extensions exts
    else err (extension_not_allowed ext)

-- The second of two checks is made where the first has passed.
abbrev pub and_then :
    Result Exception (Unit {0}) → Result Exception (Unit {0}) → Result Exception (Unit {0})
and_then (ok u) next = next
and_then (err e) next = err e

unfoldable pub validate_session_request : LocalUploadSessionCreate → ℕ → Result Exception (Unit {0})
validate_session_request request now = raise_if (is_empty request.quote_id) quote_id_required (
    raise_if (ltb request.expires_at now) expiry_in_past (
      raise_if (le_zero request.max_file_size_bytes) size_limit_not_positive (
        raise_if (le_zero request.max_files) file_limit_not_positive (
          raise_if (le_zero request.max_total_bytes) total_limit_not_positive (
            and_then (check_content_types request.allowed_content_types)
              (check_extensions request.allowed_extensions))))))

-- The session object of `create_session`.
abbrev pub new_session : LocalUploadSessionCreate → String → ℕ → LocalUploadSession
new_session request session_id created_at = record {
  session_id = session_id;
  quote_id = request.quote_id;
  account_id = request.account_id;
  status = active;
  created_at = created_at;
  expires_at = request.expires_at;
  allowed_content_types = request.allowed_content_types;
  allowed_extensions = request.allowed_extensions;
  max_file_size_bytes = request.max_file_size_bytes;
  max_files = request.max_files;
  max_total_bytes = request.max_total_bytes;
  uploaded_files = [];
  total_bytes_uploaded = 0;
  one_time_token_hash = request.one_time_token_hash;
}

-- What `create_session` does after the validation. The default expiry is written with
-- `timezone.timedelta`, an attribute that `datetime.timezone` lacks, so that branch raises.
unfoldable pub open_session : LocalUploadSessionCreate → String → ℕ → ℕ → Method LocalUploadSession
open_session request session_id now created_at r =
    if ltb now request.expires_at
    then (
      ok (new_session request session_id created_at),
      record r {
        sessions = put r.sessions session_id (new_session request session_id created_at);
        disk = create_session_directory r.disk session_id;
      },
    )
    else (err attribute_error, r)

-- `create_session`, with the clock read by the validation, by the test of the expiry and for
-- `created_at`.
unfoldable pub create_session :
    LocalUploadSessionCreate
    → String
    → (validated_at now created_at : ℕ) → Method LocalUploadSession
unfolding open_session
create_session request session_id validated_at now created_at r =
    after (validate_session_request request validated_at) r
      (λ checked. open_session request session_id now created_at)

-- `get_session`, after the look-up. A session found past its expiry is marked.
abbrev pub check_found : String → ℕ → Option LocalUploadSession → Method LocalUploadSession
check_found session_id now none r = (err session_not_found, r)
check_found session_id now (some session) r =
    if ltb session.expires_at now
    then (
      err session_expired,
      record r { sessions = put r.sessions session_id (record session { status = expired }) },
    )
    else (ok session, r)

unfoldable pub get_session : String → ℕ → Method LocalUploadSession
get_session session_id now r = check_found session_id now (get r.sessions session_id) r

abbrev pub is_completed : SessionStatus → Bool
is_completed completed = true
is_completed _ = false

abbrev pub is_expired_status : SessionStatus → Bool
is_expired_status expired = true
is_expired_status _ = false

-- The public form of a file record.
abbrev pub receipt_of : LocalUploadSession → LocalUploadedFileRecord → String → LocalUploadReceipt
receipt_of session file_record upload_id = record {
  upload_id = upload_id;
  session_id = session.session_id;
  quote_id = session.quote_id;
  file_id = file_record.file_id;
  size_bytes = file_record.size_bytes;
  sha256 = file_record.sha256;
  declared_content_type = file_record.declared_content_type;
  extension = file_record.extension;
  stored_at = file_record.stored_at;
  storage_provider = "local_loopback_dev";
}

-- One round of the loop over the session's file identifiers: the record, if it is there and names
-- the requested session.
abbrev pub belongs_to : Option LocalUploadedFileRecord → String → Bool
belongs_to none session_id = false
belongs_to (some file_record) session_id = str_eq file_record.session_id session_id

abbrev pub add_receipt :
    LocalUploadSession
    → String
    → String
    → Option LocalUploadedFileRecord
    → List LocalUploadReceipt
    → List LocalUploadReceipt
add_receipt session session_id upload_id none rest = rest
add_receipt session session_id upload_id (some file_record) rest =
    if str_eq file_record.session_id session_id
    then receipt_of session file_record upload_id ∷ rest
    else rest

-- The loop. `upload_ids` gives the identifiers that are generated for the receipts, by position.
unfoldable pub gather_receipts :
    LocalUploadSession
    → String
    → Dict LocalUploadedFileRecord
    → (ℕ → String)
    → ℕ
    → List String
    → List LocalUploadReceipt
unfolding get
gather_receipts session session_id files upload_ids n [] = []
gather_receipts session session_id files upload_ids n (file_id ∷ file_ids) =
    add_receipt session session_id (upload_ids n) (get files file_id) (
      gather_receipts session session_id files upload_ids
        (if belongs_to (get files file_id) session_id then suc n else n) file_ids)

abbrev pub complete_receipt :
    LocalUploadSession → List LocalUploadReceipt → ℕ → LocalUploadCompleteReceipt
complete_receipt session file_receipts now = record {
  session_id = session.session_id;
  quote_id = session.quote_id;
  total_files = length file_receipts;
  total_bytes = sum_of (λ f. f.size_bytes) file_receipts;
  completed_at = now;
  file_receipts = file_receipts;
  storage_provider = "local_loopback_dev";
}

-- `complete_session`, once the session has been found.
unfoldable pub finish_session :
    SessionCompleteRequest
    → ℕ
    → (ℕ → String)
    → LocalUploadSession
    → Method LocalUploadCompleteReceipt
unfolding gather_receipts
finish_session request now upload_ids session r =
    if is_completed session.status
    then (err already_completed, r)
    else if str_eq session.quote_id request.quote_id
    then (
      ok (
          complete_receipt session
            (gather_receipts session request.session_id r.files upload_ids 0 session.uploaded_files)
            now),
      record r {
        sessions = put r.sessions request.session_id (record session { status = completed });
      },
    )
    else (err quote_id_mismatch, r)

-- `complete_session`
unfoldable pub complete_session :
    SessionCompleteRequest
    → (now completed_at : ℕ) → (ℕ → String)
    → Method LocalUploadCompleteReceipt
unfolding get_session finish_session
complete_session request now completed_at upload_ids r =
    let (found, r') = get_session request.session_id now r in
    after found r' (finish_session request completed_at upload_ids)
