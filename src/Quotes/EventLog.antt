-- ===== src/Quotes/EventLog.antt =====
-- EventLogService: src/intake/services/event_log.py. No caller hands it a payload, so the events
-- are without one. The identifier and the time of an event are arguments.
use Prim.Native.String.{◌++◌}
use intake.Prelude.{ℕ, String, Option, none, some, List}
use intake.Quotes.Model.{
  QuoteServiceLane, software_systems, photography, practical_help, unsure, QuoteStatus, draft,
  submitted, needs_review, reviewing, quoted, accepted, declined, closed, Quote, EventAggregateType,
  EventType, EventActorType, quote_created, quote_submitted, quote_needs_review,
  quote_review_started, quote_quoted, quote_accepted, quote_declined, quote_closed, Event,
  for_quote, Hosted,
}
use intake.Quotes.Repository.{append_event, get_for_aggregate}

-- What identifies a new event: `uuid4().hex` and `utc_now()`.
pub record Stamp : Type 0 where
  pub id : String
  pub at : ℕ

abbrev pub lane_value : QuoteServiceLane → String
lane_value software_systems = "software_systems"
lane_value photography = "photography"
lane_value practical_help = "practical_help"
lane_value unsure = "unsure"

abbrev pub lane_or_unknown : Option QuoteServiceLane → String
lane_or_unknown none = "unknown"
lane_or_unknown (some lane) = lane_value lane

abbrev pub status_value : QuoteStatus → String
status_value draft = "draft"
status_value submitted = "submitted"
status_value needs_review = "needs_review"
status_value reviewing = "reviewing"
status_value quoted = "quoted"
status_value accepted = "accepted"
status_value declined = "declined"
status_value closed = "closed"

-- `append_quote_event`, without a payload
unfoldable pub append_quote_event :
    Stamp → Quote → EventType → Option EventActorType → Option String → String → Hosted → Hosted
unfolding append_event for_quote
append_quote_event stamp q event_type actor_type actor_id redacted_summary h =
    append_event
      (for_quote stamp.id stamp.at q.id event_type actor_type actor_id redacted_summary none) h

-- `get_for_quote`
unfoldable pub get_for_quote : Hosted → String → List Event
unfolding get_for_aggregate
get_for_quote h quote_id = get_for_aggregate h EventAggregateType.quote quote_id

unfoldable pub log_quote_created : Stamp → Quote → EventActorType → Option String → Hosted → Hosted
unfolding append_quote_event
log_quote_created stamp q actor_type actor_id h =
    append_quote_event stamp q quote_created (some actor_type) actor_id
      ("Quote created for " ++ lane_or_unknown q.service_lane) h

unfoldable pub log_quote_submitted : Stamp → Quote → String → Hosted → Hosted
unfolding append_quote_event
log_quote_submitted stamp q actor_id h =
    append_quote_event stamp q quote_submitted (some EventActorType.account) (some actor_id)
      "Quote submitted for review" h

-- `_status_to_event_type`
abbrev pub status_to_event_type : QuoteStatus → EventType
status_to_event_type needs_review = quote_needs_review
status_to_event_type reviewing = quote_review_started
status_to_event_type quoted = quote_quoted
status_to_event_type accepted = quote_accepted
status_to_event_type declined = quote_declined
status_to_event_type closed = quote_closed
status_to_event_type _ = quote_submitted

unfoldable pub log_quote_status_change :
    Stamp → Quote → QuoteStatus → EventActorType → Option String → Hosted → Hosted
unfolding append_quote_event
log_quote_status_change stamp q new_status actor_type actor_id h =
    append_quote_event stamp q (status_to_event_type new_status) (some actor_type) actor_id
      ("Quote status changed to " ++ status_value new_status) h
