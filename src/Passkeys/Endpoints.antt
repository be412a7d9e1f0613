-- ===== src/Passkeys/Endpoints.antt =====
-- The endpoints of src/intake/hosted/auth/passkeys.py (and its copy, src/intake/api/
-- auth_passkeys.py) that work on sessions. A cookie is the text that the browser holds, if any.
use intake.Prelude.{ℕ, String, Option, none, some, if◌then◌else◌}
use intake.Prelude.Text.{is_empty}
use intake.Prelude.Http.{http}
use intake.Prelude.Result.{ok, err, after}
use intake.Quotes.Model.{Account}
use intake.Auth.Sessions
use intake.Auth.Sessions.{Session, Table, is_active, revoke}
use intake.Passkeys.Model.{CredentialData, WebAuthn}
use intake.Passkeys.Registration.{Answer}
use intake.Passkeys.Login.{LoginStamp, verify_authentication}

-- PasskeyLoginVerifyResponse, with the cookie that is set
pub record LoginResponse : Type 0 where
  pub account_id : String
  pub cookie : String

abbrev pub with_session : Option Session → Account → String → Answer LoginResponse
with_session none a session_id g = (err (http 500 "Session not found"), g)
with_session (some session) a session_id g =
    (ok (record { account_id = a.id; cookie = session_id }), g)

module _ (sha256 : String → String) (session_ttl_seconds : ℕ) (w : WebAuthn) where
  abbrev pub respond : Account × String → Answer LoginResponse
  unfolding Sessions.get
  respond (a, session_id) g = with_session (Sessions.get session_id g.sessions) a session_id g

  -- `login_verify`
  unfoldable pub login_verify : CredentialData → LoginStamp → Answer LoginResponse
  unfolding verify_authentication Sessions.get
  login_verify d stamp g =
      let (answer, g') = verify_authentication sha256 session_ttl_seconds w d stamp g in
      after answer g' respond

-- `logout`: the sessions after it
unfoldable pub logout : Option String → (now : ℕ) → Table → Table
unfolding revoke
logout none now rows = rows
logout (some session_id) now rows =
    if is_empty session_id then rows else (revoke session_id now rows).1

abbrev pub account_of : Option Session → (now : ℕ) → Option String
unfolding is_active
account_of none now = none
account_of (some s) now = if is_active s now then some s.account_id else none

-- `get_session`: the account that is authenticated
unfoldable pub get_session : Option String → (now : ℕ) → Table → Option String
unfolding Sessions.get is_active
get_session none now rows = none
get_session (some session_id) now rows =
    if is_empty session_id then none else account_of (Sessions.get session_id rows) now
