-- ===== src/Broker/Reach.antt =====
-- The states that the broker of src/intake/services/upload_session_broker.py reaches, beside a
-- backend whose tables others write.
use intake.Prelude.{ℕ, String, ◌≡◌, Option, none, some, List, []}
use intake.Prelude.Int.{ℤ}
use intake.Prelude.Dict.{get}
use intake.Prelude.Http.{HttpException}
use intake.Prelude.Result.{Result, ok, err, after}
use intake.Quotes.Model.{Quote, Hosted}
use intake.Quotes.Repository.{append_event, get_by_id}
use intake.Quotes.EventLog.{Stamp}
use intake.Routing.{UploadProviderKind, google_drive_fallback_future}
use intake.Broker.Model.{UploadSession, UploadReceipt, Broker}
use intake.Broker.Grants.{
  set_broker_fallback, check_upload, new_session, route_for, grant, log_event, create_upload_route,
}
use intake.Broker.Receipts.{ReceiptRequest, process_upload_receipt}
use intake.Broker.Acceptance.{Taken, taken, turned_down, process_upload_receipt-Taken}
use intake.Broker.Soundness.{IsKeyed, IsSound, store_session-IsSound, stored-IsSound}

-- A new UploadSessionBroker on the tables, with a route service that has no receiver.
unfoldable pub new_broker : Hosted → Broker
new_broker h = record {
  hosted = h;
  sessions = [];
  receipts = [];
  quote_sessions = [];
  fallback_provider = some google_drive_fallback_future;
  route_decision = record { receiver_service = none; fallback_provider = none };
}

-- The calls of the broker, and the writes of others to the tables. A session's identifier is new.
pub data BrokerStep : Broker → Broker → Type 0 where
  writes : (b : Broker) (h : Hosted) → IsKeyed h → BrokerStep b (record b { hosted = h })
  falls_back : (b : Broker) (p : Option UploadProviderKind) → BrokerStep b (set_broker_fallback p b)
  routes :
      (b : Broker) (quote_id account_id : String) (content_types : List String) (size : Option ℤ)
      (shaken_at decided_at now : ℕ) (stamp event : Stamp)
      → get b.sessions stamp.id ≡ none
      → BrokerStep b
          (create_upload_route quote_id account_id content_types size shaken_at decided_at now stamp
            event b).1
  takes :
      (b : Broker) (r : ReceiptRequest) (now processed_at updated_at : ℕ) (stamp event : Stamp)
      → BrokerStep b (process_upload_receipt r now processed_at updated_at stamp event b).1

pub data BrokerReach : Broker → Type 0 where
  start : (h : Hosted) → IsKeyed h → BrokerReach (new_broker h)
  next : {b b' : Broker} → BrokerReach b → BrokerStep b b' → BrokerReach b'

grant-IsSound :
    (s : UploadSession) (event : Stamp) (b : Broker)
    → get b.sessions s.id ≡ none
    → IsSound b
    → IsSound (grant s event b).1
unfolding grant log_event append_event
grant-IsSound s event b fresh sound =
    let stored = store_session-IsSound s b fresh sound in
    record {
      quotes = stored.quotes;
      listed = stored.listed;
      indexed = stored.indexed;
      backed = stored.backed;
    }

after_checks :
    (s : Broker → UploadSession) (event : Stamp) (b : Broker) (checks : Result HttpException Quote)
    → get b.sessions (s b).id ≡ none
    → IsSound b
    → IsSound
        (after checks b (λ q b. let (session, b') = grant (s b) event b in (ok session, b'))).1
after_checks s event b (ok q) fresh sound = grant-IsSound (s b) event b fresh sound
after_checks s event b (err e) fresh sound = sound

taken-IsSound :
    {r : ReceiptRequest} {now processed_at updated_at : ℕ} {stamp event : Stamp} {b : Broker}
    {answer : Result HttpException UploadReceipt × Broker}
    → IsSound b
    → Taken r now processed_at updated_at stamp event b answer
    → IsSound answer.1
taken-IsSound {r} {now} {processed_at} {updated_at} {stamp} {event} {b} sound
      (taken session q b' due stored) =
    stored-IsSound r now processed_at updated_at stamp event b b' session q sound due stored
taken-IsSound sound (turned_down e why) = sound

BrokerStep-IsSound : {b b' : Broker} → BrokerStep b b' → IsSound b → IsSound b'
unfolding set_broker_fallback create_upload_route
BrokerStep-IsSound (writes b h keyed) sound = record {
  quotes = keyed;
  listed = sound.listed;
  indexed = sound.indexed;
  backed = sound.backed;
}
BrokerStep-IsSound (falls_back b p) sound = record {
  quotes = sound.quotes;
  listed = sound.listed;
  indexed = sound.indexed;
  backed = sound.backed;
}
BrokerStep-IsSound
      (routes b quote_id account_id content_types size shaken_at decided_at now stamp event fresh)
      sound =
    after_checks
      (λ b.
        new_session quote_id account_id (route_for content_types size shaken_at decided_at b) size
          now stamp)
      event b (check_upload (get_by_id b.hosted quote_id) account_id b.hosted) fresh sound
BrokerStep-IsSound (takes b r now processed_at updated_at stamp event) sound =
    taken-IsSound sound (process_upload_receipt-Taken r now processed_at updated_at stamp event b)

-- After any calls, and whatever others write to the tables, every session is stored under its
-- identifier and listed by its quote, and no quote lists any other; and every receipt is of a
-- stored session, by the session's provider, for the session's quote, of a positive size and
-- with a digest of 64 characters.
pub BrokerReach-IsSound : {b : Broker} → BrokerReach b → IsSound b
unfolding new_broker get
BrokerReach-IsSound (start h keyed) = record {
  quotes = keyed;
  listed = λ k s e. cc e;
  indexed = λ k s e. cc e;
  backed = λ k r e. cc e;
}
BrokerReach-IsSound (next reach step) = BrokerStep-IsSound step (BrokerReach-IsSound reach)
