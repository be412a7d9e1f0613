-- ===== src/Broker/Grants.antt =====
-- `create_upload_route` of src/intake/services/upload_session_broker.py: the checks, in their
-- order, and the session that is created. The random identifiers and the readings of the clock are
-- arguments.
use Prim.Native.String.{◌++◌}
use mathlib.Core.Option.{map}
use intake.Prelude.{
  ℕ, zero, suc, ◌+◌, String, Bool, true, false, not, ◌&&◌, Option, none, some, List, [], ◌∷◌,
  is_some, str_eq, leb, if◌then◌else◌, append,
}
use intake.Prelude.Int.{ℤ, pos, negsuc}
use intake.Prelude.Dict.{get, put}
use intake.Prelude.Http.{HttpException, http}
use intake.Prelude.Result.{Result, ok, err, Exec, after, raise_if}
use intake.Quotes.Model.{
  QuoteStatus, draft, submitted, needs_review, reviewing, Quote, Account, account, EventType,
  quote_upload_session_created, Hosted, for_quote,
}
use intake.Quotes.Repository.{get_by_id, get_account, append_event}
use intake.Quotes.EventLog.{Stamp, status_value}
use intake.Routing.{
  UploadProviderKind, provider_value, UploadRouteDecision, set_fallback_provider,
  decide_upload_route, minutes,
}
use intake.Broker.Model.{
  UploadSession, active, session_content_types, session_extensions, Broker,
  upload_session_default_ttl_minutes, upload_session_max_file_size, upload_session_max_files,
}

abbrev pub Reply : Type 0 → Type 0
Reply = Exec Broker HttpException

-- `UploadSessionBroker.set_fallback_provider`
unfoldable pub set_broker_fallback : Option UploadProviderKind → Broker → Broker
unfolding set_fallback_provider
set_broker_fallback provider b = record b {
  fallback_provider = provider;
  route_decision = set_fallback_provider provider b.route_decision;
}

-- `quote.account_id == account_id`
abbrev pub is_owner : Option String → String → Bool
is_owner none account_id = false
is_owner (some owner) account_id = str_eq owner account_id

-- `quote.status in UPLOAD_ALLOWED_STATUSES`
abbrev pub allows_uploads : QuoteStatus → Bool
allows_uploads draft = true
allows_uploads submitted = true
allows_uploads needs_review = true
allows_uploads reviewing = true
allows_uploads _ = false

-- `account and not account.email_verified_at`
abbrev pub is_unverified : Option Account → Bool
is_unverified none = false
is_unverified (some a) = not (is_some a.email_verified_at)

-- The checks of a caller's right to upload, on the quote that the repository finds.
abbrev pub check_upload : Option Quote → String → Hosted → Result HttpException Quote
check_upload none account_id h = err (http 404 "Quote not found")
check_upload (some q) account_id h =
    raise_if (not (is_owner q.account_id account_id))
      (http 403 "Not authorized to upload to this quote")
      (raise_if (is_unverified (get_account h account_id) && h.require_verified_email_for_uploads)
        (http 403 "Email verification required for uploads")
        (raise_if (not (allows_uploads q.status))
          (http 400 ("Uploads not allowed for quotes with status: " ++ status_value q.status))
          (ok q)))

-- `requested or 0`
abbrev pub or_zero : Option ℤ → ℤ
or_zero none = pos 0
or_zero (some size) = size

-- `min(requested or UPLOAD_SESSION_MAX_FILE_SIZE, UPLOAD_SESSION_MAX_FILE_SIZE)`
abbrev pub size_limit : Option ℤ → ℤ
size_limit none = pos upload_session_max_file_size
size_limit (some (pos zero)) = pos upload_session_max_file_size
size_limit (some (pos (suc n))) =
    if leb (suc n) upload_session_max_file_size
    then pos (suc n)
    else pos upload_session_max_file_size
size_limit (some (negsuc n)) = negsuc n

abbrev pub new_session :
    String → String → UploadRouteDecision → Option ℤ → (now : ℕ) → Stamp → UploadSession
new_session quote_id account_id route requested_max_file_size now stamp = record {
  id = stamp.id;
  quote_id = quote_id;
  account_id = account_id;
  chosen_provider = route.chosen_provider;
  route_priority = route.route_priority;
  route_reason = route.route_reason;
  max_file_size_bytes = size_limit requested_max_file_size;
  max_files = upload_session_max_files;
  allowed_content_types = session_content_types;
  allowed_extensions = session_extensions;
  upload_endpoint = route.upload_endpoint;
  expires_at = now + minutes upload_session_default_ttl_minutes;
  created_at = stamp.at;
  status = active;
  route_metadata = record {
    fallback_available = route.fallback_available;
    fallback_provider = map provider_value route.fallback_provider;
  };
}

abbrev pub or_empty : Option (List String) → List String
or_empty none = []
or_empty (some ids) = ids

-- `_log_event`, whose write does not fail here
unfoldable pub log_event : Stamp → String → String → EventType → String → Broker → Broker
unfolding append_event for_quote
log_event stamp quote_id account_id event_type summary b = record b {
  hosted =
      append_event
        (for_quote stamp.id stamp.at quote_id event_type (some account) (some account_id) summary
          none)
        b.hosted;
}

-- The session is stored under its identifier, which joins those of its quote.
unfoldable pub store_session : UploadSession → Broker → Broker
store_session session b = record b {
  sessions = put b.sessions session.id session;
  quote_sessions =
      put b.quote_sessions session.quote_id
        (append (or_empty (get b.quote_sessions session.quote_id)) (session.id ∷ []));
}

unfoldable pub route_for :
    List String → Option ℤ → (shaken_at decided_at : ℕ) → Broker → UploadRouteDecision
unfolding decide_upload_route
route_for requested_content_types requested_max_file_size shaken_at decided_at b =
    decide_upload_route b.route_decision requested_content_types (or_zero requested_max_file_size)
      (is_some b.fallback_provider) shaken_at decided_at

unfoldable pub grant : UploadSession → Stamp → Broker → UploadSession × Broker
unfolding store_session log_event
grant session event b = (
  session,
  log_event event session.quote_id session.account_id quote_upload_session_created
      ("Upload session created for " ++ provider_value session.chosen_provider)
      (store_session session b),
)

-- A missing list of content types is an empty one.
unfoldable pub create_upload_route :
    String
    → String
    → List String
    → Option ℤ
    → (shaken_at decided_at now : ℕ) → (stamp event : Stamp) → Reply UploadSession
unfolding get_by_id grant route_for
create_upload_route quote_id account_id content_types max_file_size shaken_at decided_at now stamp
      event b =
    after (check_upload (get_by_id b.hosted quote_id) account_id b.hosted) b (λ q b.
      let (session, b') =
        grant
          (new_session quote_id account_id
            (route_for content_types max_file_size shaken_at decided_at b) max_file_size now stamp)
          event b in
      (ok session, b'))
