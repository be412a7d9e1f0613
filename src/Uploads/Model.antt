-- ===== src/Uploads/Model.antt =====
-- The data of uploads: Upload of src/intake/domain/quotes.py, and the tables and files that
-- src/intake/services/upload_service.py works on. The content of a file is its text.
use intake.Prelude.{ℕ, String, Bool, true, false, Option, List, append, [], ◌∷◌, keep_if, str_eq}
use intake.Prelude.Dict.{Dict}
use intake.Quotes.Model.{EncryptedPayload, Hosted}

pub data UploadStatus : Type 0 where
  accepted rejected deleted : UploadStatus

pub record Upload : Type 0 where
  pub id : String
  pub quote_id : String
  pub account_id : String
  pub storage_object_id : String
  pub storage_relative_path : String
  pub encrypted_original_filename : EncryptedPayload
  pub declared_content_type : String
  pub extension : String
  pub size_bytes : ℕ
  pub status : UploadStatus
  pub created_at : ℕ
  pub deleted_at : Option ℕ

abbrev pub is_accepted : UploadStatus → Bool
is_accepted accepted = true
is_accepted _ = false

-- The hosted tables with that of uploads, and the files below the upload root by their relative
-- paths.
pub record Depot : Type 0 where
  pub hosted : Hosted
  pub uploads : List Upload
  pub files : Dict String

-- `QuoteRepository._load_uploads`
unfoldable pub load_uploads : String → List Upload → List Upload
load_uploads quote_id rows = keep_if (λ u. str_eq u.quote_id quote_id) rows

-- `QuoteRepository.add_upload`
unfoldable pub add_upload : Upload → Depot → Depot
add_upload u s = record s { uploads = append s.uploads (u ∷ []) }
