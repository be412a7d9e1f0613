-- ===== src/Broker/Model.antt =====
-- Upload sessions and receipts of the broker: src/intake/domain/quotes.py, and the state of
-- UploadSessionBroker (src/intake/services/upload_session_broker.py), with the hosted backend's
-- tables that its repositories read and write. Timestamps are numbers on one UTC clock.
use intake.Prelude.{ℕ, ◌*◌, String, Bool, true, false, ◌&&◌, ◌||◌, not, Option, List, [], ◌∷◌, ltb}
use intake.Prelude.Int.{ℤ}
use intake.Prelude.Dict.{Dict}
use intake.Quotes.Model.{Hosted}
use intake.Routing.{UploadProviderKind, RouteService}

pub data UploadSessionStatus : Type 0 where
  pending active expired completed revoked : UploadSessionStatus

pub data UploadReceiptStatus : Type 0 where
  pending accepted rejected invalid : UploadReceiptStatus

-- The two entries of a session's `route_metadata`.
pub record RouteMetadata : Type 0 where
  pub fallback_available : Bool
  pub fallback_provider : Option String

pub record UploadSession : Type 0 where
  pub id : String
  pub quote_id : String
  pub account_id : String
  pub chosen_provider : UploadProviderKind
  pub route_priority : ℕ
  pub route_reason : String
  pub max_file_size_bytes : ℤ
  pub max_files : ℕ
  pub allowed_content_types : List String
  pub allowed_extensions : List String
  pub upload_endpoint : String
  pub expires_at : ℕ
  pub created_at : ℕ
  pub status : UploadSessionStatus
  pub route_metadata : RouteMetadata

-- The default of `allowed_content_types`.
abbrev pub session_content_types : List String
session_content_types =
    "image/jpeg" ∷ "image/png" ∷ "image/webp" ∷ "image/heic" ∷ "video/mp4" ∷ "video/quicktime"
    ∷ "application/pdf" ∷ []

-- The default of `allowed_extensions`.
abbrev pub session_extensions : List String
session_extensions = ".jpg" ∷ ".jpeg" ∷ ".png" ∷ ".webp" ∷ ".heic" ∷ ".mp4" ∷ ".mov" ∷ ".pdf" ∷ []

abbrev pub is_marked_expired : UploadSessionStatus → Bool
is_marked_expired expired = true
is_marked_expired _ = false

abbrev pub is_marked_active : UploadSessionStatus → Bool
is_marked_active active = true
is_marked_active _ = false

-- `UploadSession.is_expired`, at the given time
unfoldable pub is_expired : UploadSession → ℕ → Bool
is_expired session now = is_marked_expired session.status || ltb session.expires_at now

-- `UploadSession.is_active`
unfoldable pub is_active : UploadSession → ℕ → Bool
unfolding is_expired
is_active session now = is_marked_active session.status && not (is_expired session now)

pub record UploadReceipt : Type 0 where
  pub id : String
  pub upload_session_id : String
  pub quote_id : String
  pub account_id : String
  pub provider : UploadProviderKind
  pub storage_object_id : String
  pub size_bytes : ℤ
  pub sha256 : String
  pub declared_content_type : String
  pub extension : String
  pub status : UploadReceiptStatus
  pub received_at : ℕ
  pub processed_at : Option ℕ
  pub rejection_reason : Option String
  pub signature : Option String
  pub signed_by_device_id : Option String

-- `UploadReceipt.is_valid`
unfoldable pub is_valid : UploadReceipt → Bool
is_valid receipt = elim receipt.status [ UploadReceiptStatus.accepted ↦ true | _ ↦ false ]

-- UploadSessionBroker. Its repositories are the tables of `hosted`.
pub record Broker : Type 0 where
  pub hosted : Hosted
  pub sessions : Dict UploadSession
  pub receipts : Dict UploadReceipt
  pub quote_sessions : Dict (List String)
  pub fallback_provider : Option UploadProviderKind
  pub route_decision : RouteService

abbrev pub upload_session_default_ttl_minutes : ℕ
upload_session_default_ttl_minutes = 30

abbrev pub upload_session_max_file_size : ℕ
upload_session_max_file_size = 150 * 1024 * 1024

abbrev pub upload_session_max_files : ℕ
upload_session_max_files = 20
