-- ===== src/Sync/Tests.antt =====
-- Runs of the sync endpoints and of the console at concrete inputs. The signature scheme signs with
-- the text of the key.
use intake.Prelude.{
  ℕ, ◌+◌, ◌<◌, String, ◌≡◌, refl, Bool, true, false, Option, none, some, List, [], ◌∷◌, arith, inl,
  str_eq, if◌then◌else◌, eq_iff,
}
use intake.Prelude.Dict.{get}
use intake.Prelude.Result.{ok}
use intake.Quotes.Model.{Quote, submitted, reviewing}
use intake.Sync.Model.{
  HostedRegisteredDevice, LocalDeviceActionEnvelope, CanonicalPayload, HostedQuoteProjection,
  EncryptedQuoteEnvelope, Desk,
}
use intake.Sync.Signing.{genuine, forged, Ed25519}
use intake.Sync.Actions.{ReviewStamp, ActionAccepted, process_local_action}
use intake.Sync.Console.{Response, Decryption, get_decrypted_review, start_review_envelope}
use intake.Sync.Outcome.{ActionOutcome, process_local_action-Outcome}
use intake.Sync.Replay.{here, IsForbidden, process_local_action_replay}
use intake.Sync.Hidden.{
  WindowCall, unlocks, locks, reads, after_calls, last_unlock, get_decrypted_review_locked,
}
use intake.Sync.Journey.{IsWelcome, start_review_envelope-process_local_action}

abbrev scheme : Ed25519
scheme = record {
  public_key = λ key. key;
  sign = λ key m. key;
  verify = λ key signature m. if str_eq key signature then genuine else forged;
}

scheme_law :
    (key : String) (m : CanonicalPayload)
    → scheme.verify (scheme.public_key key) (scheme.sign key m) m ≡ genuine
scheme_law key m = rw ((eq_iff key key).1 refl) refl

abbrev device : HostedRegisteredDevice
device = record {
  device_id = "dev-device-1";
  display_name = "Workshop";
  public_signing_key = some "key";
  public_encryption_key = none;
  registered_at = 0;
  last_seen_at = 0;
  revoked_at = none;
  trust_state = "trusted";
}

abbrev quote : Quote
quote = record {
  id = "q1";
  created_at = 0;
  updated_at = 0;
  account_id = none;
  service_lane = none;
  short_summary = "";
  detailed_description = "";
  preferred_timeline = none;
  general_service_area = "Leith";
  encrypted_exact_location = none;
  encrypted_access_notes = none;
  encrypted_questionnaire = none;
  status = submitted;
}

abbrev desk : Desk
desk = record {
  hosted = record {
    quotes = ("q1", quote) ∷ [];
    accounts = [];
    events = [];
    require_verified_email_for_quote_submit = false;
    require_verified_email_for_uploads = false;
  };
  devices = device ∷ [];
  actions = [];
  nonces = [];
}

abbrev envelope : LocalDeviceActionEnvelope
envelope = start_review_envelope scheme "key" "act1" "n1" 100 "q1"

abbrev stamp : ReviewStamp
stamp = record { updated_at = 101; event = record { id = "e1"; at = 101 }; accepted_at = 102 }

abbrev answer : ActionAccepted
answer = record {
  action_id = "act1";
  aggregate_id = "q1";
  previous_status = submitted;
  new_status = reviewing;
  accepted_at = 102;
}

abbrev later_desk : Desk
later_desk = (process_local_action scheme 300 101 envelope stamp desk).1

process_local_action-Outcome_example :
    ActionOutcome scheme 300 101 envelope stamp desk
      (process_local_action scheme 300 101 envelope stamp desk)
process_local_action-Outcome_example =
    process_local_action-Outcome scheme 300 101 envelope stamp desk

process_local_action_replay_example :
    IsForbidden scheme 300 later_desk
      (process_local_action scheme 300 110 envelope stamp later_desk)
unfolding process_local_action start_review_envelope get
process_local_action_replay_example =
    process_local_action_replay scheme 300 desk later_desk later_desk 101 110 envelope envelope
      stamp stamp answer refl here (inl refl)

welcome : IsWelcome scheme 300 "key" "act1" "n1" 100 101 desk device
unfolding intake.Prelude.Rows.first_that intake.Sync.Model.is_action_seen
    intake.Sync.Model.is_nonce_seen
welcome = record {
  registered = refl;
  trusted = refl;
  public_key = refl;
  keyed = refl;
  near = refl;
  new_action = refl;
  new_nonce = refl;
}

start_review_envelope-process_local_action_example :
    ((process_local_action scheme 300 101 envelope stamp desk).0 ≡ ok answer)
    × (get later_desk.hosted.quotes "q1"
        ≡ some (record quote { status = reviewing; updated_at = 101 }))
unfolding get
start_review_envelope-process_local_action_example =
    start_review_envelope-process_local_action scheme scheme_law 300 "key" "act1" "n1" "q1" 100 101
      stamp desk device quote welcome refl refl

abbrev projection : HostedQuoteProjection
projection = record {
  quote_id = "q1";
  status = "submitted";
  service_lane = none;
  general_service_area = "Leith";
  created_at = 0;
  updated_at = 0;
  has_encrypted_payload = true;
  upload_count = 1;
  email_verified = false;
  decrypted = false;
}

abbrev sealed : String → Response EncryptedQuoteEnvelope
sealed text = record {
  status_code = 200;
  body = record {
    quote_id = "q1";
    encrypted_exact_location = some text;
    encrypted_access_notes = none;
    encrypted_questionnaire = none;
    encrypted_uploads = text ∷ [];
  };
}

abbrev reader : Decryption
reader = record {
  decrypt_key = λ key payload. some (some payload);
  decrypt_json = λ payload. some payload;
  decrypt_string = λ payload. some payload;
}

abbrev blind : Decryption
blind = record {
  decrypt_key = λ key payload. none;
  decrypt_json = λ payload. none;
  decrypt_string = λ payload. none;
}

abbrev pending_reply : Response (List HostedQuoteProjection)
pending_reply = record { status_code = 200; body = projection ∷ [] }

abbrev history : List WindowCall
history = reads 20 ∷ unlocks 10 ∷ locks ∷ []

history_stale : (at : ℕ) → last_unlock history ≡ some at → at + 120 < 200
unfolding last_unlock
history_stale at e = ground arith

get_decrypted_review_locked_example :
    (get_decrypted_review reader 200 200 "q1" pending_reply
      (sealed "x")
      (after_calls 120 history)).0
    ≡ (get_decrypted_review blind 200 200 "q1" pending_reply
        (sealed "y")
        (after_calls 120 history)).0
get_decrypted_review_locked_example =
    get_decrypted_review_locked 120 200 200 history "q1" reader blind pending_reply (sealed "x")
      (sealed "y") history_stale (record { status = refl; uploads = refl })
