-- ===== src/Sync/Model.antt =====
-- The data of src/intake/sync/models.py and of SyncRepository in src/intake/storage/repositories.py.
-- A payload of an action is its JSON text.
use intake.Prelude.{
  ℕ, String, Bool, false, ◌&&◌, Option, none, some, List, [], ◌∷◌, is_some, append, str_eq,
}
use intake.Prelude.Rows.{first_that}
use intake.Prelude.Text.{lower}
use intake.Quotes.Model.{QuoteServiceLane, EncryptedPayload, Quote, Hosted}
use intake.Quotes.EventLog.{lane_value, status_value}

pub record HostedRegisteredDevice : Type 0 where
  pub device_id : String
  pub display_name : String
  pub public_signing_key : Option String
  pub public_encryption_key : Option String
  pub registered_at : ℕ
  pub last_seen_at : ℕ
  pub revoked_at : Option ℕ
  pub trust_state : String

pub record LocalDeviceActionEnvelope : Type 0 where
  pub action_id : String
  pub device_id : String
  pub action_kind : String
  pub aggregate_type : String
  pub aggregate_id : String
  pub issued_at : ℕ
  pub nonce : String
  pub payload : String
  pub signature : String
  pub signature_algorithm : String

-- The object whose JSON is signed.
pub record CanonicalPayload : Type 0 where
  pub action_id : String
  pub device_id : String
  pub action_kind : String
  pub aggregate_type : String
  pub aggregate_id : String
  pub issued_at : ℕ
  pub nonce : String
  pub payload : String

-- `get_canonical_payload`
unfoldable pub get_canonical_payload : LocalDeviceActionEnvelope → CanonicalPayload
unfolding lower
get_canonical_payload e = record {
  action_id = e.action_id;
  device_id = e.device_id;
  action_kind = e.action_kind;
  aggregate_type = lower e.aggregate_type;
  aggregate_id = e.aggregate_id;
  issued_at = e.issued_at;
  nonce = e.nonce;
  payload = e.payload;
}

pub record HostedQuoteProjection : Type 0 where
  pub quote_id : String
  pub status : String
  pub service_lane : Option String
  pub general_service_area : String
  pub created_at : ℕ
  pub updated_at : ℕ
  pub has_encrypted_payload : Bool
  pub upload_count : ℕ
  pub email_verified : Bool
  pub decrypted : Bool

abbrev pub lane_text : Option QuoteServiceLane → Option String
lane_text none = none
lane_text (some lane) = some (lane_value lane)

-- `HostedQuoteProjection.from_domain`, with the number of the quote's uploads. A quote has no
-- `email_verified`.
unfoldable pub projection_of : Quote → (upload_count : ℕ) → HostedQuoteProjection
projection_of q upload_count = record {
  quote_id = q.id;
  status = status_value q.status;
  service_lane = lane_text q.service_lane;
  general_service_area = q.general_service_area;
  created_at = q.created_at;
  updated_at = q.updated_at;
  has_encrypted_payload = is_some q.encrypted_exact_location;
  upload_count = upload_count;
  email_verified = false;
  decrypted = false;
}

pub record EncryptedQuoteEnvelope : Type 0 where
  pub quote_id : String
  pub encrypted_exact_location : Option EncryptedPayload
  pub encrypted_access_notes : Option EncryptedPayload
  pub encrypted_questionnaire : Option EncryptedPayload
  pub encrypted_uploads : List EncryptedPayload

-- `EncryptedQuoteEnvelope.from_domain`, with the encrypted names of the quote's uploads
unfoldable pub envelope_of : Quote → List EncryptedPayload → EncryptedQuoteEnvelope
envelope_of q uploads = record {
  quote_id = q.id;
  encrypted_exact_location = q.encrypted_exact_location;
  encrypted_access_notes = q.encrypted_access_notes;
  encrypted_questionnaire = q.encrypted_questionnaire;
  encrypted_uploads = uploads;
}

-- TrackedActionModel and TrackedNonceModel
pub record TrackedAction : Type 0 where
  pub action_id : String
  pub device_id : String
  pub issued_at : ℕ

pub record TrackedNonce : Type 0 where
  pub device_id : String
  pub nonce : String
  pub issued_at : ℕ

-- The tables that an action meets.
pub record Desk : Type 0 where
  pub hosted : Hosted
  pub devices : List HostedRegisteredDevice
  pub actions : List TrackedAction
  pub nonces : List TrackedNonce

abbrev pub has_device_id : String → HostedRegisteredDevice → Bool
has_device_id device_id d = str_eq d.device_id device_id

-- `SyncRepository.get_device`
unfoldable pub get_device : String → Desk → Option HostedRegisteredDevice
unfolding first_that
get_device device_id s = first_that (has_device_id device_id) s.devices

-- `SyncRepository.create_device`
unfoldable pub create_device : HostedRegisteredDevice → Desk → Desk
create_device d s = record s { devices = append s.devices (d ∷ []) }

abbrev pub is_action : String → TrackedAction → Bool
is_action action_id a = str_eq a.action_id action_id

-- `SyncRepository.is_action_seen`
unfoldable pub is_action_seen : String → Desk → Bool
unfolding first_that
is_action_seen action_id s = is_some (first_that (is_action action_id) s.actions)

abbrev pub is_nonce : String → String → TrackedNonce → Bool
is_nonce device_id nonce n = str_eq n.device_id device_id && str_eq n.nonce nonce

-- `SyncRepository.is_nonce_seen`
unfoldable pub is_nonce_seen : String → String → Desk → Bool
unfolding first_that
is_nonce_seen device_id nonce s = is_some (first_that (is_nonce device_id nonce) s.nonces)

-- `SyncRepository.track_action`
unfoldable pub track_action : String → String → ℕ → Desk → Desk
track_action action_id device_id issued_at s = record s {
  actions =
      append s.actions
        (record { action_id = action_id; device_id = device_id; issued_at = issued_at } ∷ []);
}

-- `SyncRepository.track_nonce`
unfoldable pub track_nonce : String → String → ℕ → Desk → Desk
track_nonce device_id nonce issued_at s = record s {
  nonces =
      append s.nonces (record { device_id = device_id; nonce = nonce; issued_at = issued_at } ∷ []);
}
