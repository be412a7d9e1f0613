-- ===== src/Receiver/Model.antt =====
-- The data of the receiver: src/intake/local_console/receiver/models.py, and the state of
-- LocalReceiverService (service.py). Timestamps are numbers on one UTC clock.
use intake.Prelude.{ℕ, ◌*◌, String, Bool, Option, List, [], ◌∷◌}
use intake.Prelude.Int.{ℤ}
use intake.Prelude.Dict.{Dict, put}
use intake.Prelude.Text.{lower}

pub data ReceiverStatus : Type 0 where
  offline online starting shutting_down error : ReceiverStatus

pub data SessionStatus : Type 0 where
  pending active completed expired cancelled : SessionStatus

pub data FileStatus : Type 0 where
  pending uploaded validated rejected : FileStatus

pub data FileRejectionReason : Type 0 where
  missing_file empty_file over_size_limit disallowed_extension : FileRejectionReason
  disallowed_content_type extension_mismatch expired_session : FileRejectionReason
  completed_session max_files_exceeded max_total_bytes_exceeded : FileRejectionReason
  invalid_session : FileRejectionReason

abbrev pub allowed_content_types : Dict (List String)
allowed_content_types =
    ("image/jpeg", ".jpg" ∷ ".jpeg" ∷ [])
    ∷ ("image/png", ".png" ∷ [])
    ∷ ("image/webp", ".webp" ∷ [])
    ∷ ("image/heic", ".heic" ∷ [])
    ∷ ("video/mp4", ".mp4" ∷ [])
    ∷ ("video/quicktime", ".mov" ∷ [])
    ∷ ("application/pdf", ".pdf" ∷ [])
    ∷ []

-- The inner loop of the reverse mapping: every extension of one content type.
reverse_extensions : String → List String → Dict String → Dict String
unfolding lower put
reverse_extensions content_type [] acc = acc
reverse_extensions content_type (ext ∷ exts) acc =
    reverse_extensions content_type exts (put acc (lower ext) content_type)

-- The outer loop, over the content types.
reverse_mapping : Dict (List String) → Dict String → Dict String
unfolding reverse_extensions
reverse_mapping [] acc = acc
reverse_mapping ((content_type, exts) ∷ rest) acc =
    reverse_mapping rest (reverse_extensions content_type exts acc)

unfoldable pub allowed_extensions : Dict String
unfolding reverse_mapping
allowed_extensions = reverse_mapping allowed_content_types []

abbrev pub default_max_file_size_bytes : ℕ
default_max_file_size_bytes = 150 * 1024 * 1024

abbrev pub default_max_files_per_session : ℕ
default_max_files_per_session = 20

abbrev pub default_max_total_bytes_per_session : ℕ
default_max_total_bytes_per_session = 500 * 1024 * 1024

pub record LocalUploadSessionCreate : Type 0 where
  pub quote_id : String
  pub account_id : Option String
  pub expires_at : ℕ
  pub allowed_content_types : List String
  pub allowed_extensions : List String
  pub max_file_size_bytes : ℤ
  pub max_files : ℤ
  pub max_total_bytes : ℤ
  pub one_time_token_hash : Option String

pub record LocalUploadSession : Type 0 where
  pub session_id : String
  pub quote_id : String
  pub account_id : Option String
  pub status : SessionStatus
  pub created_at : ℕ
  pub expires_at : ℕ
  pub allowed_content_types : List String
  pub allowed_extensions : List String
  pub max_file_size_bytes : ℤ
  pub max_files : ℤ
  pub max_total_bytes : ℤ
  pub uploaded_files : List String
  pub total_bytes_uploaded : ℕ
  pub one_time_token_hash : Option String

pub record LocalUploadedFileRecord : Type 0 where
  pub file_id : String
  pub session_id : String
  pub quote_id : String
  pub original_filename_redacted : Bool
  pub declared_content_type : String
  pub detected_content_type : Option String
  pub extension : String
  pub size_bytes : ℕ
  pub sha256 : String
  pub status : FileStatus
  pub stored_at : ℕ
  pub storage_provider : String
  pub storage_ref : String

pub record UploadFileRequest : Type 0 where
  pub session_id : String
  pub declared_content_type : String
  pub original_filename : Option String

pub record LocalUploadReceipt : Type 0 where
  pub upload_id : String
  pub session_id : String
  pub quote_id : String
  pub file_id : String
  pub size_bytes : ℕ
  pub sha256 : String
  pub declared_content_type : String
  pub extension : String
  pub stored_at : ℕ
  pub storage_provider : String

pub record LocalUploadCompleteReceipt : Type 0 where
  pub session_id : String
  pub quote_id : String
  pub total_files : ℕ
  pub total_bytes : ℕ
  pub completed_at : ℕ
  pub file_receipts : List LocalUploadReceipt
  pub storage_provider : String

pub record SessionCompleteRequest : Type 0 where
  pub session_id : String
  pub quote_id : String

-- The directories under the upload root, each with its files and their bytes.
abbrev pub Disk : Type 0
Disk = Dict (Dict (List ℕ))

-- LocalReceiverService: its status, its two dictionaries, and the disk below its storage service.
pub record Receiver : Type 0 where
  pub status : ReceiverStatus
  pub sessions : Dict LocalUploadSession
  pub files : Dict LocalUploadedFileRecord
  pub disk : Disk
