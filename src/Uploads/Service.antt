-- ===== src/Uploads/Service.antt =====
-- UploadService: src/intake/services/upload_service.py. The encryption and the upload root are
-- parameters; identifiers and times are arguments. The size of a file is its number of bytes,
-- which comes with its content.
use Prim.Native.String.{◌++◌}
use intake.Prelude.{
  ℕ, String, Bool, true, false, not, ◌&&◌, Option, none, some, is_some, List, length, keep_if,
  sum_of, str_eq, if◌then◌else◌,
}
use intake.Prelude.Int.{pos}
use intake.Prelude.Text.{decimal, is_empty}
use intake.Prelude.Http.{HttpException, http}
use intake.Prelude.Result.{Result, ok, err, Exec}
use intake.Quotes.Model.{
  Quote, Account, EncryptedPayload, EventActorType, quote_upload_accepted, for_quote,
}
use intake.Quotes.Repository.{get_by_id, get_account, append_event}
use intake.Quotes.EventLog.{Stamp}
use intake.Uploads.Model.{accepted, Upload, is_accepted, Depot, load_uploads, add_upload}
use intake.Uploads.Validation.{validate_file, can_upload_to_quote}
use intake.Uploads.Storage.{store_file}

abbrev pub Reply : Type 0 → Type 0
Reply = Exec Depot HttpException

-- FastAPI's UploadFile
pub record UploadFile : Type 0 where
  pub filename : String
  pub content_type : String
  pub content : String
  pub size_bytes : ℕ

abbrev pub is_owner : Option String → String → Bool
is_owner none account_id = false
is_owner (some owner) account_id = str_eq owner account_id

-- `not account or not account.email_verified_at`
abbrev pub is_unverified : Option Account → Bool
is_unverified none = true
is_unverified (some a) = not (is_some a.email_verified_at)

-- `sum(u.size_bytes for u in quote.uploads if u.status == UploadStatus.ACCEPTED)`
unfoldable pub accepted_bytes : List Upload → ℕ
accepted_bytes rows = sum_of (λ u. u.size_bytes) (keep_if (λ u. is_accepted u.status) rows)

-- What is generated for an upload, and the times that are read.
pub record UploadStamp : Type 0 where
  pub id : String
  pub object_id : String
  pub created_at : ℕ
  pub event : Stamp

module _ (root : String) (encrypt_string : String → EncryptedPayload) where
  unfoldable pub new_upload : String → String → UploadFile → String → String → UploadStamp → Upload
  new_upload account_id quote_id file extension path stamp = record {
    id = stamp.id;
    quote_id = quote_id;
    account_id = account_id;
    storage_object_id = stamp.object_id;
    storage_relative_path = path;
    encrypted_original_filename = encrypt_string file.filename;
    declared_content_type =
        if is_empty file.content_type then "application/octet-stream" else file.content_type;
    extension = extension;
    size_bytes = file.size_bytes;
    status = accepted;
    created_at = stamp.created_at;
    deleted_at = none;
  }

  -- Persistence and the event.
  unfoldable pub persist : Upload → UploadStamp → Depot → Upload × Depot
  unfolding add_upload append_event for_quote decimal
  persist u stamp s =
      let s' = add_upload u s in
      (
        u,
        record s' {
          hosted =
              append_event
                (for_quote stamp.event.id stamp.event.at u.quote_id quote_upload_accepted
                  (some EventActorType.account) (some u.account_id)
                  ("File upload accepted: "
                    ++ u.extension
                    ++ " ("
                    ++ decimal (pos u.size_bytes)
                    ++ " bytes)")
                  none)
                s.hosted;
        },
      )

  abbrev pub keep_file :
      Result String String × (List (String × String))
      → String
      → String
      → UploadFile
      → String
      → UploadStamp
      → Reply Upload
  keep_file (err e, files) account_id quote_id file extension stamp s =
      (err (http 500 "Storage failure"), s)
  keep_file (ok path, files) account_id quote_id file extension stamp s =
      let (u, s') =
        persist (new_upload account_id quote_id file extension path stamp) stamp
          (record s { files = files }) in
      (ok u, s')

  abbrev pub store_valid :
      Result String String → String → String → UploadFile → UploadStamp → Reply Upload
  store_valid (err e) account_id quote_id file stamp s = (err (http 400 e), s)
  store_valid (ok extension) account_id quote_id file stamp s =
      keep_file (store_file root quote_id file.content extension stamp.object_id s.files) account_id
        quote_id file extension stamp s

  abbrev pub check_file : Option String → String → String → UploadFile → UploadStamp → Reply Upload
  check_file (some e) account_id quote_id file stamp s = (err (http 400 e), s)
  check_file none account_id quote_id file stamp s =
      store_valid (validate_file file.filename file.content_type file.size_bytes) account_id
        quote_id file stamp s

  abbrev pub with_quote : Option Quote → String → String → UploadFile → UploadStamp → Reply Upload
  with_quote none account_id quote_id file stamp s = (err (http 404 "Quote not found"), s)
  with_quote (some q) account_id quote_id file stamp s =
      let uploads = load_uploads q.id s.uploads in
      if not (is_owner q.account_id account_id)
      then (err (http 403 "Not authorized to upload to this quote"), s)
      else if s.hosted.require_verified_email_for_uploads
          && is_unverified (get_account s.hosted account_id)
      then (err (http 403 "Email verification required for uploads"), s)
      else check_file (can_upload_to_quote q.status (length uploads) (accepted_bytes uploads))
          account_id quote_id file stamp s

  -- `handle_upload`
  unfoldable pub handle_upload : String → String → UploadFile → UploadStamp → Reply Upload
  unfolding get_by_id get_account load_uploads accepted_bytes can_upload_to_quote validate_file
      store_file new_upload persist
  handle_upload account_id quote_id file stamp s =
      with_quote (get_by_id s.hosted quote_id) account_id quote_id file stamp s

  abbrev pub list_of : Option Quote → String → Depot → Result HttpException (List Upload)
  list_of none account_id s = err (http 404 "Quote not found")
  list_of (some q) account_id s =
      if not (is_owner q.account_id account_id)
      then err (http 403 "Not authorized to view these uploads")
      else ok (keep_if (λ u. is_accepted u.status) (load_uploads q.id s.uploads))

  -- `list_uploads`
  unfoldable pub list_uploads : String → String → Depot → Result HttpException (List Upload)
  unfolding get_by_id load_uploads
  list_uploads account_id quote_id s = list_of (get_by_id s.hosted quote_id) account_id s
