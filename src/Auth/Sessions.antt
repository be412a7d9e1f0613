-- ===== src/Auth/Sessions.antt =====
-- Sessions of accounts: Session of src/intake/domain/accounts.py, SessionRepository of
-- src/intake/storage/repositories.py and SessionService of src/intake/services/session_service.py.
-- The table is the list of its rows in the order of insertion, in which a query finds them; an
-- identifier is a primary key, so an update of the row that has it is one of all that have it.
-- SHA-256 is a parameter; tokens, identifiers and the clock's readings are arguments.
use Prim.Native.String.{◌++◌}
use intake.Prelude.{
  ℕ, ◌+◌, String, Bool, true, false, not, ◌&&◌, Option, none, some, List, [], ◌∷◌, is_some, length,
  append, keep_if, ltb, str_eq, if◌then◌else◌,
}
use intake.Prelude.Rows.{first_that, change_if}

pub record Session : Type 0 where
  pub id : String
  pub account_id : String
  pub token_hash : String
  pub created_at : ℕ
  pub expires_at : ℕ
  pub revoked_at : Option ℕ
  pub last_seen_at : Option ℕ

-- `Session.is_revoked`
unfoldable pub is_revoked : Session → Bool
is_revoked s = is_some s.revoked_at

-- `Session.is_active`, at the given time
unfoldable pub is_active : Session → (now : ℕ) → Bool
is_active s now = not (is_some s.revoked_at) && ltb now s.expires_at

-- `Session.is_expired`, at the given time
unfoldable pub is_expired : Session → (now : ℕ) → Bool
is_expired s now = ltb s.expires_at now

abbrev pub Table : Type 0
Table = List Session

-- The clauses `revoked_at IS NULL AND expires_at > now`
abbrev pub live : Session → ℕ → Bool
live s now = not (is_some s.revoked_at) && ltb now s.expires_at

abbrev pub has_id : String → Session → Bool
has_id session_id s = str_eq s.id session_id

-- `SessionRepository.get`
unfoldable pub get : String → Table → Option Session
unfolding first_that
get session_id rows = first_that (has_id session_id) rows

-- `SessionRepository.get_active_by_token_hash`
unfoldable pub get_active_by_token_hash : String → (now : ℕ) → Table → Option Session
unfolding first_that
get_active_by_token_hash token_hash now rows =
    first_that (λ s. str_eq s.token_hash token_hash && live s now) rows

-- `SessionRepository.get_active_sessions_by_account`
unfoldable pub get_active_sessions_by_account : String → (now : ℕ) → Table → Table
get_active_sessions_by_account account_id now rows =
    keep_if (λ s. str_eq s.account_id account_id && live s now) rows

-- `SessionRepository.create`: `false` is the ValueError of a token hash in use.
unfoldable pub create : Session → (now : ℕ) → Table → Bool × Table
unfolding get_active_by_token_hash
create s now rows =
    if is_some (get_active_by_token_hash s.token_hash now rows)
    then (false, rows)
    else (true, append rows (s ∷ []))

abbrev pub revoke_found : Option Session → String → (now : ℕ) → Table → Bool × Table
unfolding change_if
revoke_found none session_id now rows = (false, rows)
revoke_found (some s) session_id now rows =
    if is_some s.revoked_at
    then (false, rows)
    else (true, change_if (has_id session_id) (λ s. record s { revoked_at = some now }) rows)

-- `SessionRepository.revoke`
unfoldable pub revoke : String → (now : ℕ) → Table → Bool × Table
unfolding get change_if
revoke session_id now rows = revoke_found (get session_id rows) session_id now rows

-- The clauses of the bulk update.
abbrev pub revocable : String → Session → Bool
revocable account_id s = str_eq s.account_id account_id && not (is_some s.revoked_at)

-- `SessionRepository.revoke_all_for_account`
unfoldable pub revoke_all_for_account : String → (now : ℕ) → Table → ℕ × Table
unfolding change_if
revoke_all_for_account account_id now rows = (
  length (keep_if (revocable account_id) rows),
  change_if (revocable account_id) (λ s. record s { revoked_at = some now }) rows,
)

-- `SessionRepository.update_last_seen`
unfoldable pub update_last_seen : String → (now : ℕ) → Table → Bool × Table
unfolding get change_if
update_last_seen session_id now rows = (
  is_some (get session_id rows),
  change_if (has_id session_id) (λ s. record s { last_seen_at = some now }) rows,
)

-- `SessionRepository.cleanup_expired`
unfoldable pub cleanup_expired : (now : ℕ) → Table → ℕ × Table
cleanup_expired now rows = (
  length (keep_if (λ s. ltb s.expires_at now) rows),
  keep_if (λ s. not (ltb s.expires_at now)) rows,
)

module _ (sha256 : String → String) (session_ttl_seconds : ℕ) where
  -- `SessionService.hash_token`
  unfoldable pub hash_token : String → String
  hash_token token = sha256 ("session_token|" ++ token)

  unfoldable pub new_session : (id : String) (created_at starts_at : ℕ) → String → String → Session
  unfolding hash_token
  new_session id created_at starts_at account_id token = record {
    id = id;
    account_id = account_id;
    token_hash = hash_token token;
    created_at = created_at;
    expires_at = starts_at + session_ttl_seconds;
    revoked_at = none;
    last_seen_at = none;
  }

  abbrev pub created : Session → Bool × Table → Option Session × Table
  created s (true, rows) = (some s, rows)
  created s (false, rows) = (none, rows)

  -- `SessionService.create_session`, with the clock read for the two times of the session and by
  -- the repository. None is the ValueError.
  unfoldable pub create_session :
      (id : String) (created_at starts_at now : ℕ)
      → String
      → String
      → Table
      → Option Session × Table
  unfolding create new_session
  create_session id created_at starts_at now account_id token rows =
      let s = new_session id created_at starts_at account_id token in created s (create s now rows)

  -- `SessionService.get_session_by_token`
  unfoldable pub get_session_by_token : String → (now : ℕ) → Table → Option Session
  unfolding get_active_by_token_hash hash_token
  get_session_by_token raw_token now rows = get_active_by_token_hash (hash_token raw_token) now rows
