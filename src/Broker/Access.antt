-- ===== src/Broker/Access.antt =====
-- Who is granted an upload session: `create_upload_route` of
-- src/intake/services/upload_session_broker.py.
use intake.Prelude.{
  ℕ, ◌+◌, String, ◌≡◌, inl, inr, refl, true, false, Option, none, some, List, [], ◌∷◌, zero, suc,
  leb, is_some, arith, eq_iff, Bool-cases, contains, append,
}
use intake.Prelude.Int.{ℤ, pos, negsuc}
use intake.Prelude.Dict.{get, get-put_self}
use intake.Prelude.Http.{HttpException}
use intake.Prelude.Result.{Result, ok, err, after, passed, failed}
use intake.Quotes.Model.{Quote}
use intake.Quotes.Repository.{get_by_id}
use intake.Quotes.EventLog.{Stamp}
use intake.Routing.{UploadRouteDecision, is_over}
use intake.Routing.Priority.{Routed, decide_upload_route-Routed}
use intake.Broker.Model.{UploadSession, Broker, is_active, is_expired, upload_session_max_file_size}
use intake.Broker.Grants.{
  size_limit, or_zero, or_empty, store_session, log_event, new_session, route_for, grant,
  create_upload_route,
}
use intake.Broker.Checks.{MayUpload, Refused, Verdict, check_upload-Verdict}

-- What the broker has done with a session that it grants.
pub record Granted (quote_id account_id : String) (content_types : List String) (size : Option ℤ)
    (decided_at now : ℕ) (b : Broker) (session : UploadSession) (b' : Broker) : Type 0 where
  pub route : UploadRouteDecision
  pub routed :
      Routed b.route_decision content_types
        (or_zero size)
        (is_some b.fallback_provider)
        decided_at
        route
  pub provider : session.chosen_provider ≡ route.chosen_provider
  pub for_quote : session.quote_id ≡ quote_id
  pub for_account : session.account_id ≡ account_id
  pub until : session.expires_at ≡ now + 1800
  pub active_now : is_active session now ≡ true
  pub limited : is_over session.max_file_size_bytes upload_session_max_file_size ≡ false
  pub stored : get b'.sessions session.id ≡ some session
  pub listed : contains (or_empty (get b'.quote_sessions quote_id)) session.id ≡ true
  pub quotes : b'.hosted.quotes ≡ b.hosted.quotes
  pub receipts : b'.receipts ≡ b.receipts

-- An answer of the broker to a request for a session, with its new state.
pub data Answered (quote_id account_id : String) (content_types : List String) (size : Option ℤ)
    (decided_at now : ℕ) (b : Broker) : Result HttpException UploadSession × Broker → Type 0 where
  granted :
      MayUpload b quote_id account_id
      → (session : UploadSession) (b' : Broker)
      → Granted quote_id account_id content_types size decided_at now b session b'
      → Answered quote_id account_id content_types size decided_at now b (ok session, b')
  refused :
      (e : HttpException)
      → Refused b quote_id account_id e.status_code
      → Answered quote_id account_id content_types size decided_at now b (err e, b)

size_limit-fits : (size : Option ℤ) → is_over (size_limit size) upload_session_max_file_size ≡ false
size_limit-fits none = refl
size_limit-fits (some (pos zero)) = refl
size_limit-fits (some (pos (suc n))) =
    elim (Bool-cases (leb (suc n) upload_session_max_file_size)) [
      | inl e ↦ rw e (ground arith)
      | inr e ↦ rw e refl
    ]
size_limit-fits (some (negsuc n)) = refl

contains-append : (xs : List String) (k : String) → contains (append xs (k ∷ [])) k ≡ true
contains-append [] k = ground (arith, eq_iff k k)
contains-append (x ∷ xs) k = ground (arith, contains-append xs k)

grant-Granted :
    (quote_id account_id : String) (content_types : List String) (size : Option ℤ)
    (shaken_at decided_at now : ℕ) (stamp event : Stamp) (b : Broker)
    → let session =
        new_session quote_id account_id
          (route_for content_types size shaken_at decided_at b)
          size
          now
          stamp in
      Granted quote_id account_id content_types size decided_at now b session
        (grant session event b).1
unfolding grant route_for store_session log_event is_active is_expired
grant-Granted quote_id account_id content_types size shaken_at decided_at now stamp event b =
    record {
      route = _;
      routed =
          decide_upload_route-Routed b.route_decision content_types (or_zero size)
            (is_some b.fallback_provider) shaken_at decided_at;
      provider = refl;
      for_quote = refl;
      for_account = refl;
      until = refl;
      active_now = ground arith;
      limited = size_limit-fits size;
      stored = get-put_self b.sessions stamp.id _;
      listed =
          rw get-put_self (contains-append (or_empty (get b.quote_sessions quote_id)) stamp.id);
      quotes = refl;
      receipts = refl;
    }

-- A session is granted after checks that pass.
answer :
    (quote_id account_id : String) (content_types : List String) (size : Option ℤ)
    (shaken_at decided_at now : ℕ) (stamp event : Stamp) (b : Broker)
    {checks : Result HttpException Quote}
    → Verdict b quote_id account_id checks
    → Answered quote_id account_id content_types size decided_at now b (
        after checks b (λ q b.
          let (session, b') =
            grant
              (new_session quote_id account_id
                (route_for content_types size shaken_at decided_at b)
                size
                now
                stamp)
              event
              b in
          (ok session, b')))
unfolding grant
answer quote_id account_id content_types size shaken_at decided_at now stamp event b
      (passed q may) =
    granted may _ _
      (grant-Granted quote_id account_id content_types size shaken_at decided_at now stamp event b)
answer quote_id account_id content_types size shaken_at decided_at now stamp event b
      (failed e why) =
    refused e why

-- Every request for a session is answered by the rules. It is granted only to the owner of a stored
-- quote in an open status who, where verification is asked for, has a verified address or no row in
-- the table of accounts at all: the session is active for half an hour, takes files of at most 150
-- MB, goes by the route of the route service, and is stored and listed under its quote. Or else the
-- answer is an error whose reason holds, and nothing has changed.
pub create_upload_route-Answered :
    (quote_id account_id : String) (content_types : List String) (size : Option ℤ)
    (shaken_at decided_at now : ℕ) (stamp event : Stamp) (b : Broker)
    → Answered quote_id account_id content_types size decided_at now b (
        create_upload_route quote_id account_id content_types size shaken_at decided_at now stamp
          event b)
unfolding create_upload_route get_by_id
create_upload_route-Answered quote_id account_id content_types size shaken_at decided_at now stamp
      event b =
    answer quote_id account_id content_types size shaken_at decided_at now stamp event b
      (check_upload-Verdict b quote_id account_id _ refl)
