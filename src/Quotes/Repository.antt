-- ===== src/Quotes/Repository.antt =====
-- QuoteRepository, AccountRepository and EventRepository over the hosted tables:
-- src/intake/storage/repositories.py.
use mathlib.Core.List.{◌++◌}
use intake.Prelude.{
  ℕ, String, Bool, true, false, ◌&&◌, Option, none, some, List, [], ◌∷◌, keep_if, str_eq,
}
use intake.Prelude.Dict.{get, put, values}
use intake.Quotes.Model.{
  Quote, QuoteStatus, Account, EventAggregateType, account, passkey, quote, cost_scenario,
  cost_receipt, Event, Hosted,
}

-- `QuoteRepository.get_by_id`
unfoldable pub get_by_id : Hosted → String → Option Quote
get_by_id h quote_id = get h.quotes quote_id

-- `QuoteRepository.get_all`
unfoldable pub get_all : Hosted → List Quote
get_all h = values h.quotes

-- `QuoteRepository.create`
unfoldable pub create : Hosted → Quote → Quote × Hosted
create h q = (q, record h { quotes = put h.quotes q.id q })

-- A payload is written only where the quote has one.
abbrev pub or_kept : Option String → Option String → Option String
or_kept none kept = kept
or_kept (some payload) kept = some payload

-- The row that `QuoteRepository.update` writes: of the old row stay the identifier, the account,
-- the creation time, and payloads that the quote lacks.
unfoldable pub updated_row : Quote → Quote → Quote
updated_row row q = record row {
  service_lane = q.service_lane;
  short_summary = q.short_summary;
  detailed_description = q.detailed_description;
  preferred_timeline = q.preferred_timeline;
  general_service_area = q.general_service_area;
  status = q.status;
  updated_at = q.updated_at;
  encrypted_exact_location = or_kept q.encrypted_exact_location row.encrypted_exact_location;
  encrypted_access_notes = or_kept q.encrypted_access_notes row.encrypted_access_notes;
  encrypted_questionnaire = or_kept q.encrypted_questionnaire row.encrypted_questionnaire;
}

abbrev pub update_row : Option Quote → Quote → Hosted → Option Quote × Hosted
update_row none q h = (none, h)
update_row (some row) q h =
    (some (updated_row row q), record h { quotes = put h.quotes q.id (updated_row row q) })

-- `QuoteRepository.update`
unfoldable pub update : Quote → Hosted → Option Quote × Hosted
update q h = update_row (get h.quotes q.id) q h

abbrev pub set_status : Option Quote → String → QuoteStatus → ℕ → Hosted → Bool × Hosted
set_status none quote_id status now h = (false, h)
set_status (some row) quote_id status now h = (
  true,
  record h { quotes = put h.quotes quote_id (record row { status = status; updated_at = now }) },
)

-- `QuoteRepository.update_status`
unfoldable pub update_status : String → QuoteStatus → ℕ → Hosted → Bool × Hosted
update_status quote_id status now h = set_status (get h.quotes quote_id) quote_id status now h

-- `AccountRepository.get_by_id`
unfoldable pub get_account : Hosted → String → Option Account
get_account h account_id = get h.accounts account_id

-- `AccountRepository.create`
unfoldable pub create_account : Account → Hosted → Hosted
create_account a h = record h { accounts = put h.accounts a.id a }

-- `EventRepository.append`
unfoldable pub append_event : Event → Hosted → Hosted
append_event event h = record h { events = h.events ++ event ∷ [] }

-- The two aggregate types are the same.
abbrev pub same_aggregate : EventAggregateType → EventAggregateType → Bool
same_aggregate account account = true
same_aggregate passkey passkey = true
same_aggregate quote quote = true
same_aggregate cost_scenario cost_scenario = true
same_aggregate cost_receipt cost_receipt = true
same_aggregate _ _ = false

-- `EventRepository.get_for_aggregate`
unfoldable pub get_for_aggregate : Hosted → EventAggregateType → String → List Event
get_for_aggregate h aggregate_type aggregate_id =
    keep_if
      (λ e. same_aggregate e.aggregate_type aggregate_type && str_eq e.aggregate_id aggregate_id)
      h.events
