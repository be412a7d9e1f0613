-- ===== src/Uploads/Bounds.antt =====
-- How much a quote can hold: sequences of calls of src/intake/services/upload_service.py.
use intake.Prelude.{◌+◌, ◌<◌, ◌≤◌, String, ◌≡◌, List, [], length, All}
use intake.Prelude.Dict.{Holds}
use intake.Prelude.Result.{Result}
use intake.Quotes.Model.{Quote, EncryptedPayload, Hosted}
use intake.Uploads.Model.{Upload, Depot, load_uploads}
use intake.Uploads.Validation.{global_max, max_files_per_quote, max_total_bytes_per_quote}
use intake.Uploads.Service.{UploadFile, UploadStamp, accepted_bytes, handle_upload}
use intake.Uploads.Limits.{Fits}

-- Every upload fits its extension, and each quote is within its numbers of files and of bytes: the
-- last file may go over the latter.
pub record IsBounded (rows : List Upload) : Type 0 where
  pub fitting : All (λ u. Fits u.extension u.size_bytes) rows
  pub few : (k : String) → length (load_uploads k rows) ≤ max_files_per_quote
  pub light :
      (k : String) → accepted_bytes (load_uploads k rows) ≤ max_total_bytes_per_quote + global_max

-- A quote may take another file.
abbrev HasRoom : String → Depot → Type 0
HasRoom k s =
    (length (load_uploads k s.uploads) < max_files_per_quote)
    × (accepted_bytes (load_uploads k s.uploads) < max_total_bytes_per_quote)

-- The uploads are bounded, and the quotes are as they were.
abbrev Kept : Depot → Depot → Type 0
Kept s s' = IsBounded s'.uploads × (s'.hosted.quotes ≡ s.hosted.quotes)

module _ (root : String) (encrypt_string : String → EncryptedPayload) where
  -- The quotes are stored under their identifiers.
  abbrev pub IsKeyed : Hosted → Type 0
  IsKeyed h = Holds (λ k (q : Quote). q.id ≡ k) h.quotes

  -- Uploads, and changes by others, who leave the table of uploads alone and the quotes under
  -- their identifiers.
  pub data DepotStep : Depot → Depot → Type 0 where
    uploads :
        (account_id quote_id : String) (file : UploadFile) (stamp : UploadStamp) (s : Depot)
        → DepotStep s (handle_upload root encrypt_string account_id quote_id file stamp s).1
    elsewhere : (s s' : Depot) → s'.uploads ≡ s.uploads → IsKeyed s'.hosted → DepotStep s s'

  pub data DepotReach : Depot → Type 0 where
    start : (s : Depot) → s.uploads ≡ [] → IsKeyed s.hosted → DepotReach s
    next : {s s' : Depot} → DepotReach s → DepotStep s s' → DepotReach s'
