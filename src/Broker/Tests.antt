-- ===== src/Broker/Tests.antt =====
-- Runs of src/intake/services/upload_session_broker.py at concrete inputs.
use mathlib.Core.Option.{some-injective}
use mathlib.Core.List.{Memᴰ}
use intake.Prelude.{
  ℕ, String, ◌≡◌, ◌↔◌, refl, true, false, none, some, [], ◌∷◌, inl, inr, sym, ap, ◌∙◌, eq_iff,
  str_eq, Bool-cases,
}
use intake.Prelude.Int.{pos}
use intake.Prelude.Dict.{get, values}
use intake.Prelude.Http.{HttpException}
use intake.Prelude.Result.{err}
use intake.Quotes.Model.{Quote, Account, Hosted, software_systems}
use intake.Quotes.EventLog.{Stamp}
use intake.Quotes.Service.{new_quote, create_quote, submit_quote}
use intake.Quotes.Owners.{QuoteStep, QuoteReach}
use intake.Routing.{hosted_buffer_future}
use intake.Broker.Model.{UploadReceipt, UploadSession, Broker, is_expired}
use intake.Broker.Grants.{create_upload_route, new_session, route_for}
use intake.Broker.Receipts.{ReceiptRequest, process_upload_receipt}
use intake.Broker.Listing.{live_sessions, list_upload_sessions, list_upload_receipts}
use intake.Broker.Access.{Answered, create_upload_route-Answered}
use intake.Broker.Acceptance.{Taken, process_upload_receipt-Taken}
use intake.Broker.Owners.{create_upload_route_unserved}
use intake.Broker.Soundness.{IsKeyed, IsSound}
use intake.Broker.Reach.{new_broker, BrokerStep, BrokerReach, BrokerReach-IsSound}
use intake.Broker.Views.{list_upload_sessions-Mem}
use intake.Broker.Order.{IsLatestFirst, list_upload_receipts-IsLatestFirst}

abbrev stamp : String → ℕ → Stamp
stamp id at = record { id = id; at = at }

-- A quote that an account owns, written by another program.
abbrev quote : Quote
quote = record (new_quote (stamp "q1" 1) (some software_systems)) { account_id = some "a1" }

abbrev account : Account
account = record {
  id = "a1";
  created_at = 1;
  updated_at = 1;
  encrypted_email = some "sealed";
  normalized_email_hash = some "h1";
  email_verified_at = some 1;
}

abbrev tables : Hosted
tables = record {
  quotes = ("q1", quote) ∷ [];
  accounts = ("a1", account) ∷ [];
  events = [];
  require_verified_email_for_quote_submit = true;
  require_verified_email_for_uploads = true;
}

abbrev broker : Broker
broker = new_broker tables

abbrev routed : Broker
routed =
    (create_upload_route "q1" "a1" ("image/png" ∷ []) (some (pos 9)) 2 3 4 (stamp "s1" 5)
      (stamp "e1" 5) broker).1

create_upload_route-Answered_example :
    Answered "q1" "a1" ("image/png" ∷ []) (some (pos 9)) 3 4 broker (
      create_upload_route "q1" "a1"
        ("image/png" ∷ [])
        (some (pos 9))
        2
        3
        4
        (stamp "s1" 5)
        (stamp "e1" 5)
        broker)
create_upload_route-Answered_example =
    create_upload_route-Answered "q1" "a1" ("image/png" ∷ []) (some (pos 9)) 2 3 4 (stamp "s1" 5)
      (stamp "e1" 5) broker

abbrev session : UploadSession
session =
    new_session "q1" "a1" (route_for ("image/png" ∷ []) (some (pos 9)) 2 3 broker) (some (pos 9)) 4
      (stamp "s1" 5)

abbrev receipt : ReceiptRequest
receipt = record {
  upload_session_id = "s1";
  provider = hosted_buffer_future;
  storage_object_id = "o1";
  size_bytes = pos 9;
  sha256 = "0123456789abcdef0123456789abcdef0123456789abcdef0123456789abcdef";
  declared_content_type = "image/png";
  extension = "png";
  quote_id = none;
  account_id = none;
  signature = none;
  signed_by_device_id = none;
}

abbrev received : Broker
received = (process_upload_receipt receipt 6 7 8 (stamp "r1" 6) (stamp "e2" 8) routed).1

process_upload_receipt-Taken_example :
    Taken receipt 6 7 8
      (stamp "r1" 6)
      (stamp "e2" 8)
      routed
      (process_upload_receipt receipt 6 7 8 (stamp "r1" 6) (stamp "e2" 8) routed)
process_upload_receipt-Taken_example =
    process_upload_receipt-Taken receipt 6 7 8 (stamp "r1" 6) (stamp "e2" 8) routed

tables-IsKeyed : IsKeyed tables
unfolding get
tables-IsKeyed k q e = elim (Bool-cases (str_eq "q1" k)) [
  | inl same ↦
      let this = some-injective quote q (rw same at e) in
      ap (λ x. x.id) (sym this) ∙ (eq_iff "q1" k).0 same
  | inr other ↦ let no_way = rw other at e in cc no_way
]

reach_received : BrokerReach received
unfolding get new_broker
reach_received =
    BrokerReach.next
      (BrokerReach.next (BrokerReach.start tables tables-IsKeyed) (
        BrokerStep.routes broker "q1" "a1" ("image/png" ∷ []) (some (pos 9)) 2 3 4 (stamp "s1" 5)
          (stamp "e1" 5) refl))
      (BrokerStep.takes routed receipt 6 7 8 (stamp "r1" 6) (stamp "e2" 8))

BrokerReach-IsSound_example : IsSound received
BrokerReach-IsSound_example = BrokerReach-IsSound reach_received

list_upload_sessions-Mem_example : Memᴰ session (live_sessions "q1" 9 received) ↔ (
    (get received.sessions "s1" ≡ some session)
    × (session.quote_id ≡ "q1")
    × (is_expired session 9 ≡ false))
unfolding list_upload_sessions process_upload_receipt create_upload_route new_broker
    intake.Quotes.Repository.get_account is_expired intake.Quotes.Repository.updated_row
list_upload_sessions-Mem_example =
    list_upload_sessions-Mem received BrokerReach-IsSound_example "q1" "a1" 9
      (live_sessions "q1" 9 received) refl session

list_upload_receipts-IsLatestFirst_example :
    IsLatestFirst (values received.receipts)
    × ((r : UploadReceipt) → Memᴰ r (values received.receipts) → Memᴰ r (values received.receipts))
    × ((r : UploadReceipt)
        → get received.receipts r.id ≡ some r
        → Memᴰ r (values received.receipts) ↔ (r.quote_id ≡ "q1"))
unfolding list_upload_receipts get process_upload_receipt create_upload_route new_broker
    intake.Quotes.Repository.get_account is_expired intake.Quotes.Repository.updated_row
list_upload_receipts-IsLatestFirst_example =
    list_upload_receipts-IsLatestFirst received BrokerReach-IsSound_example "q1" "a1"
      (values received.receipts) refl

-- A quote is created and submitted by an account, which then asks for a session.
abbrev empty : Hosted
empty = record tables { quotes = [] }

abbrev seal : String → String
seal text = "sealed"

abbrev drafted : Hosted
drafted = (create_quote (stamp "q1" 1) (stamp "e1" 1) (some software_systems) empty).1

abbrev handed_in : Hosted
handed_in = (submit_quote "q1" "a1" 2 3 (stamp "e2" 2) (stamp "e3" 3) drafted).1

reach_handed_in : QuoteReach seal handed_in
reach_handed_in =
    QuoteReach.next
      (QuoteReach.next (QuoteReach.start empty refl)
        (QuoteStep.creates (stamp "q1" 1) (stamp "e1" 1) (some software_systems) empty))
      (QuoteStep.submits "q1" "a1" 2 3 (stamp "e2" 2) (stamp "e3" 3) drafted)

create_upload_route_unserved_example :
    (e : HttpException) × (create_upload_route "q1" "a1" [] none 4 5 6
        (stamp "s1" 7)
        (stamp "e4" 7)
        (new_broker handed_in)
      ≡ (err e, new_broker handed_in))
unfolding new_broker submit_quote
create_upload_route_unserved_example =
    create_upload_route_unserved seal "q1" "a1" [] none 4 5 6 (stamp "s1" 7) (stamp "e4" 7)
      (new_broker handed_in) reach_handed_in
