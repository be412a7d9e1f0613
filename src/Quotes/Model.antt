-- ===== src/Quotes/Model.antt =====
-- Quotes, accounts and events: src/intake/domain/quotes.py, domain/accounts.py and
-- domain/events.py, and the hosted backend's tables. An encrypted payload is the JSON text that
-- its column holds. Timestamps are numbers on one UTC clock.
use intake.Prelude.{ℕ, String, Bool, true, false, ◌&&◌, Option, none, List, is_some}
use intake.Prelude.Dict.{Dict}

pub data QuoteServiceLane : Type 0 where
  software_systems photography practical_help unsure : QuoteServiceLane

pub data QuoteStatus : Type 0 where
  draft submitted needs_review reviewing quoted accepted declined closed : QuoteStatus

abbrev pub EncryptedPayload : Type 0
EncryptedPayload = String

-- Quote, without the uploads that the repository loads from their own table.
pub record Quote : Type 0 where
  pub id : String
  pub created_at : ℕ
  pub updated_at : ℕ
  pub account_id : Option String
  pub service_lane : Option QuoteServiceLane
  pub short_summary : String
  pub detailed_description : String
  pub preferred_timeline : Option String
  pub general_service_area : String
  pub encrypted_exact_location : Option EncryptedPayload
  pub encrypted_access_notes : Option EncryptedPayload
  pub encrypted_questionnaire : Option EncryptedPayload
  pub status : QuoteStatus

abbrev pub is_draft : QuoteStatus → Bool
is_draft draft = true
is_draft _ = false

unfoldable pub can_submit : Quote → Bool
can_submit q = is_draft q.status && is_some q.service_lane

pub record Account : Type 0 where
  pub id : String
  pub created_at : ℕ
  pub updated_at : ℕ
  pub encrypted_email : Option EncryptedPayload
  pub normalized_email_hash : Option String
  pub email_verified_at : Option ℕ

pub data EventAggregateType : Type 0 where
  account passkey quote cost_scenario cost_receipt : EventAggregateType

pub data EventType : Type 0 where
  account_created account_session_created account_session_ended : EventType
  account_email_verification_sent account_email_verified : EventType
  passkey_challenge_created passkey_challenge_consumed : EventType
  passkey_credential_registered passkey_authentication_success : EventType
  passkey_authentication_failure : EventType
  quote_created quote_submitted quote_needs_review quote_review_started quote_quoted : EventType
  quote_accepted quote_declined quote_closed quote_location_added quote_answers_added : EventType
  quote_upload_declared quote_upload_accepted quote_upload_deleted : EventType
  quote_upload_session_created quote_upload_session_expired : EventType
  quote_upload_receipt_received : EventType
  cost_scenario_created cost_scenario_updated cost_scenario_deleted : EventType
  cost_line_item_added cost_assumption_added cost_snapshot_created : EventType
  cost_receipt_generated : EventType

pub data EventActorType : Type 0 where
  system account operator anonymous : EventActorType

pub record Event : Type 0 where
  pub event_id : String
  pub aggregate_type : EventAggregateType
  pub aggregate_id : String
  pub event_type : EventType
  pub created_at : ℕ
  pub actor_type : Option EventActorType
  pub actor_id : Option String
  pub redacted_summary : String
  pub encrypted_payload : Option String

-- `Event.for_quote`, with the generated identifier and the clock's reading.
unfoldable pub for_quote :
    String
    → ℕ
    → String
    → EventType
    → Option EventActorType
    → Option String
    → String
    → Option String
    → Event
for_quote event_id created_at quote_id event_type actor_type actor_id redacted_summary payload =
    record {
      event_id = event_id;
      aggregate_type = EventAggregateType.quote;
      aggregate_id = quote_id;
      event_type = event_type;
      created_at = created_at;
      actor_type = actor_type;
      actor_id = actor_id;
      redacted_summary = redacted_summary;
      encrypted_payload = payload;
    }

-- `Event.for_account`, with the generated identifier and the clock's reading, without a payload.
unfoldable pub for_account :
    String → ℕ → String → EventType → Option EventActorType → Option String → String → Event
for_account event_id created_at account_id event_type actor_type actor_id redacted_summary =
    record {
      event_id = event_id;
      aggregate_type = EventAggregateType.account;
      aggregate_id = account_id;
      event_type = event_type;
      created_at = created_at;
      actor_type = actor_type;
      actor_id = actor_id;
      redacted_summary = redacted_summary;
      encrypted_payload = none;
    }

-- The hosted backend: its tables of quotes, accounts and events, and two of its settings.
pub record Hosted : Type 0 where
  pub quotes : Dict Quote
  pub accounts : Dict Account
  pub events : List Event
  pub require_verified_email_for_quote_submit : Bool
  pub require_verified_email_for_uploads : Bool
