-- ===== src/Sync/Actions.antt =====
-- The sync endpoints: src/intake/hosted/api/sync.py. The uploads of quotes are arguments.
use Prim.Native.String.{◌++◌}
use intake.Prelude.{
  ℕ, String, Bool, true, false, not, Option, none, some, List, map, keep_if, str_eq, if◌then◌else◌,
}
use intake.Prelude.Text.{lower, is_empty}
use intake.Prelude.Http.{HttpException, http}
use intake.Prelude.Result.{Result, ok, err, Exec}
use intake.Quotes.Model.{
  QuoteStatus, submitted, needs_review, reviewing, Quote, EncryptedPayload, operator,
  quote_review_started, for_quote, Hosted,
}
use intake.Quotes.Repository.{update_status, append_event}
use intake.Quotes.EventLog.{Stamp, status_value}
use intake.Quotes.Service.{get_quote, get_all_quotes}
use intake.Sync.Model.{
  HostedRegisteredDevice, LocalDeviceActionEnvelope, HostedQuoteProjection, projection_of,
  EncryptedQuoteEnvelope, envelope_of, Desk, get_device,
}
use intake.Sync.Signing.{Ed25519, verify_action}

abbrev pub Reply : Type 0 → Type 0
Reply = Exec Desk HttpException

-- `verify_sync_token`: none is a request that may go on
unfoldable pub verify_sync_token :
    (intake_enable_dev_sync_auth : Bool)
    → (intake_local_sync_token : String) → Option String
    → Option HttpException
verify_sync_token false secret given = none
verify_sync_token true secret none = some (http 401 "Missing sync token")
verify_sync_token true secret (some given) =
    if is_empty given
    then some (http 401 "Missing sync token")
    else if not (str_eq given secret)
    then some (http 401 "Invalid sync token")
    else none

-- The statuses of a quote that needs review.
abbrev pub awaits_review : QuoteStatus → Bool
awaits_review submitted = true
awaits_review needs_review = true
awaits_review reviewing = true
awaits_review _ = false

-- `get_pending_quotes`, with the number of uploads of each quote
unfoldable pub get_pending_quotes : (Quote → ℕ) → Hosted → List HostedQuoteProjection
unfolding get_all_quotes projection_of
get_pending_quotes upload_count h =
    map (λ q. projection_of q (upload_count q))
      (keep_if (λ q. awaits_review q.status) (get_all_quotes h))

abbrev pub envelope_for :
    Option Quote → (Quote → List EncryptedPayload) → Result HttpException EncryptedQuoteEnvelope
envelope_for none uploads = err (http 404 "Quote not found")
envelope_for (some q) uploads = ok (envelope_of q (uploads q))

-- `get_quote_envelope`
unfoldable pub get_quote_envelope :
    String → (Quote → List EncryptedPayload) → Hosted → Result HttpException EncryptedQuoteEnvelope
unfolding get_quote envelope_of
get_quote_envelope quote_id uploads h = envelope_for (get_quote quote_id h) uploads

-- The answer to an accepted action.
pub record ActionAccepted : Type 0 where
  pub action_id : String
  pub aggregate_id : String
  pub previous_status : QuoteStatus
  pub new_status : QuoteStatus
  pub accepted_at : ℕ

-- `allowed_from`
abbrev pub may_start : QuoteStatus → Bool
may_start submitted = true
may_start needs_review = true
may_start _ = false

-- What a request reads from the clock and generates after the verification.
pub record ReviewStamp : Type 0 where
  pub updated_at : ℕ
  pub event : Stamp
  pub accepted_at : ℕ

unfoldable pub start_review :
    LocalDeviceActionEnvelope → ReviewStamp → Quote → Desk → ActionAccepted × Desk
unfolding update_status append_event for_quote
start_review e stamp q s =
    let (updated, h) = update_status e.aggregate_id reviewing stamp.updated_at s.hosted in
    (
      record {
        action_id = e.action_id;
        aggregate_id = e.aggregate_id;
        previous_status = q.status;
        new_status = reviewing;
        accepted_at = stamp.accepted_at;
      },
      record s {
        hosted =
            append_event
              (for_quote stamp.event.id stamp.event.at e.aggregate_id quote_review_started
                (some operator) (some e.device_id)
                ("Quote moved to reviewing by device " ++ e.device_id) none)
              h;
      },
    )

abbrev pub review_quote :
    Option Quote → LocalDeviceActionEnvelope → ReviewStamp → Reply ActionAccepted
review_quote none e stamp s = (err (http 404 ("Quote " ++ e.aggregate_id ++ " not found")), s)
review_quote (some q) e stamp s =
    if not (may_start q.status)
    then (err (http 400 ("Cannot transition from " ++ status_value q.status ++ " to reviewing")), s)
    else let (answer, s') = start_review e stamp q s in (ok answer, s')

-- `handle_quote_review_start`
unfoldable pub handle_quote_review_start :
    LocalDeviceActionEnvelope → ReviewStamp → Reply ActionAccepted
unfolding lower get_quote start_review
handle_quote_review_start e stamp s =
    if not (str_eq (lower e.aggregate_type) "quote")
    then (err (http 400 "Invalid aggregate type for this action"), s)
    else review_quote (get_quote e.aggregate_id s.hosted) e stamp s

-- The dispatch on the kind of an action that has been verified.
abbrev pub dispatch :
    Result String Bool × Desk
    → LocalDeviceActionEnvelope
    → ReviewStamp
    → Result HttpException ActionAccepted × Desk
dispatch (err message, s) e stamp = (err (http 403 message), s)
dispatch (ok false, s) e stamp = (err (http 403 "Invalid action signature"), s)
dispatch (ok true, s) e stamp =
    if str_eq e.action_kind "QUOTE_REVIEW_START"
    then handle_quote_review_start e stamp s
    else (err (http 400 ("Unsupported action kind: " ++ e.action_kind)), s)

module _ (ed : Ed25519) (freshness_window_seconds : ℕ) where
  abbrev pub from_device :
      Option HostedRegisteredDevice
      → (now : ℕ) → LocalDeviceActionEnvelope
      → ReviewStamp
      → Reply ActionAccepted
  from_device none now e stamp s =
      (err (http 403 ("Device " ++ e.device_id ++ " not registered")), s)
  from_device (some d) now e stamp s =
      dispatch (verify_action ed freshness_window_seconds now e d s) e stamp

  -- `process_local_action`
  unfoldable pub process_local_action :
      (now : ℕ) → LocalDeviceActionEnvelope → ReviewStamp → Reply ActionAccepted
  unfolding get_device verify_action handle_quote_review_start
  process_local_action now e stamp s = from_device (get_device e.device_id s) now e stamp s
