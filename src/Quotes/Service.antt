-- ===== src/Quotes/Service.antt =====
-- QuoteService: src/intake/services/quote_service.py. Each method returns what the source returns
-- beside the new state of the backend. The encryption is a parameter; identifiers and times of
-- quotes and events are arguments.
use Prim.Native.String.{◌++◌}
use intake.Prelude.{
  ℕ, String, Bool, false, not, ◌&&◌, Option, none, some, List, is_some, if◌then◌else◌,
}
use intake.Quotes.Model.{
  QuoteServiceLane, QuoteStatus, draft, submitted, needs_review, EncryptedPayload, Quote,
  can_submit, Account, EventActorType, anonymous, system, quote_location_added, quote_answers_added,
  Hosted,
}
use intake.Quotes.Repository.{get_by_id, get_all, create, update, get_account}
use intake.Quotes.EventLog.{
  Stamp, append_quote_event, log_quote_created, log_quote_submitted, log_quote_status_change,
}

abbrev pub Answer : Type 0
Answer = Option Quote × Hosted

-- The quote of `create_quote`: the model's defaults, with the lane that is given.
abbrev pub new_quote : Stamp → Option QuoteServiceLane → Quote
new_quote stamp lane = record {
  id = stamp.id;
  created_at = stamp.at;
  updated_at = stamp.at;
  account_id = none;
  service_lane = lane;
  short_summary = "";
  detailed_description = "";
  preferred_timeline = none;
  general_service_area = "";
  encrypted_exact_location = none;
  encrypted_access_notes = none;
  encrypted_questionnaire = none;
  status = draft;
}

unfoldable pub create_quote : Stamp → Stamp → Option QuoteServiceLane → Hosted → Quote × Hosted
unfolding create log_quote_created
create_quote stamp event lane h =
    let (created, h') = create h (new_quote stamp lane) in
    (created, log_quote_created event created anonymous none h')

unfoldable pub get_quote : String → Hosted → Option Quote
unfolding get_by_id
get_quote quote_id h = get_by_id h quote_id

unfoldable pub get_all_quotes : Hosted → List Quote
unfolding get_all
get_all_quotes h = get_all h

-- `if not quote: return None`, and else the rest with the quote.
abbrev pub with_quote : Option Quote → (Quote → Hosted → Answer) → Hosted → Answer
with_quote none k h = (none, h)
with_quote (some q) k h = k q h

unfoldable pub update_quote_service_lane : String → QuoteServiceLane → ℕ → Hosted → Answer
unfolding get_quote update
update_quote_service_lane quote_id lane now h =
    with_quote (get_quote quote_id h)
      (λ q. update (record q { service_lane = some lane; updated_at = now })) h

unfoldable pub add_basic_info : String → String → String → Option String → ℕ → Hosted → Answer
unfolding get_quote update
add_basic_info quote_id short_summary detailed_description preferred_timeline now h =
    with_quote (get_quote quote_id h)
      (λ q. update (record q {
        short_summary = short_summary;
        detailed_description = detailed_description;
        preferred_timeline = preferred_timeline;
        updated_at = now;
      }))
      h

-- `if updated:` an event is logged for it.
abbrev pub log_if_updated : Answer → (Quote → Hosted → Hosted) → Answer
log_if_updated (none, h) log = (none, h)
log_if_updated (some q, h) log = (some q, log q h)

module _ (encrypt_json : String → EncryptedPayload) where
  unfoldable pub add_location : String → String → String → ℕ → Stamp → Hosted → Answer
  unfolding get_quote update append_quote_event
  add_location quote_id general_service_area exact_location now event h =
      with_quote (get_quote quote_id h)
        (λ q h.
          log_if_updated
            (update
              (record q {
                general_service_area = general_service_area;
                encrypted_exact_location = some (encrypt_json exact_location);
                updated_at = now;
              })
              h)
            (λ updated.
              append_quote_event event updated quote_location_added (some EventActorType.account)
                none ("Location added for quote in " ++ general_service_area)))
        h

  unfoldable pub add_access_notes : String → String → ℕ → Stamp → Hosted → Answer
  unfolding get_quote update append_quote_event
  add_access_notes quote_id access_notes now event h =
      with_quote (get_quote quote_id h)
        (λ q h.
          log_if_updated
            (update
              (record q {
                encrypted_access_notes = some (encrypt_json access_notes);
                updated_at = now;
              })
              h)
            (λ updated.
              append_quote_event event updated quote_answers_added (some EventActorType.account)
                none "Access notes added"))
        h

  -- The answers are given as the JSON text that is encrypted.
  unfoldable pub add_questionnaire : String → String → ℕ → Stamp → Hosted → Answer
  unfolding get_quote update append_quote_event
  add_questionnaire quote_id answers now event h =
      with_quote (get_quote quote_id h)
        (λ q h.
          log_if_updated
            (update
              (record q { encrypted_questionnaire = some (encrypt_json answers); updated_at = now })
              h)
            (λ updated.
              append_quote_event event updated quote_answers_added (some EventActorType.account)
                none "Questionnaire answers added"))
        h

-- `not account or not account.email_verified_at`, negated
abbrev pub is_verified : Option Account → Bool
is_verified none = false
is_verified (some a) = is_some a.email_verified_at

-- The quote moves on to NEEDS_REVIEW, with two events.
abbrev pub after_submit : Answer → String → ℕ → Stamp → Stamp → Answer
after_submit (none, h) account_id now submitted_event review_event = (none, h)
after_submit (some updated, h) account_id now submitted_event review_event =
    let reviewed = record updated { status = needs_review; updated_at = now } in
    let h' = log_quote_submitted submitted_event updated account_id h in
    (
      some reviewed,
      log_quote_status_change review_event reviewed needs_review system none (update reviewed h').1,
    )

-- The times are those of the two updates.
unfoldable pub submit_quote : String → String → (now then_ : ℕ) → Stamp → Stamp → Hosted → Answer
unfolding get_quote update log_quote_submitted log_quote_status_change
submit_quote quote_id account_id now then_ submitted_event review_event h =
    with_quote (get_quote quote_id h)
      (λ q h.
        if not (can_submit q)
        then (none, h)
        else if h.require_verified_email_for_quote_submit
            && not (is_verified (get_account h account_id))
        then (none, h)
        else after_submit
            (update
              (record q { status = submitted; account_id = some account_id; updated_at = now }) h)
            account_id then_ submitted_event review_event)
      h

-- `get_quote_status`
unfoldable pub get_quote_status : String → Hosted → Option QuoteStatus
unfolding get_quote
get_quote_status quote_id h = elim (get_quote quote_id h) [ none ↦ none | some q ↦ some q.status ]
