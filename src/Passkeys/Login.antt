-- ===== src/Passkeys/Login.antt =====
-- Login: `verify_authentication` of src/intake/services/passkey_service.py, and the endpoints
-- that use its session, src/intake/hosted/auth/passkeys.py. SHA-256 and the webauthn library are
-- parameters. The text of a library's exception is left out of the answer's detail.
use Prim.Native.String.{◌++◌}
use intake.Prelude.{ℕ, String, ◌&&◌, Option, none, some, if◌then◌else◌}
use intake.Prelude.Http.{http}
use intake.Prelude.Result.{Result, ok, err}
use intake.Quotes.Model.{
  Account, EventActorType, anonymous, EventType, passkey_authentication_success,
  passkey_authentication_failure, for_account,
}
use intake.Quotes.Repository.{get_account, append_event}
use intake.Quotes.EventLog.{Stamp}
use intake.Auth.Sessions.{Session, Table, create_session}
use intake.Passkeys.Model.{
  login, PasskeyChallenge, PasskeyCredential, CredentialData, VerifiedAuthentication, WebAuthn,
  Gate,
}
use intake.Passkeys.Challenges.{mark_consumed, increment_attempt}
use intake.Passkeys.Credentials.{get_credential, update_after_login}
use intake.Passkeys.Registration.{
  Answer, challenge_of, find_challenge_for_verification, consumes, counts, with_challenge,
}

-- What a login generates and reads from the clock.
pub record LoginStamp : Type 0 where
  pub now : ℕ
  pub used_at : ℕ
  pub consumed_at : ℕ
  pub session_id : String
  pub token : String
  pub created_at : ℕ
  pub starts_at : ℕ
  pub stored_at : ℕ
  pub event : Stamp

abbrev pub log_event :
    Stamp → EventType → EventActorType → Option String → String → String → Gate → Gate
log_event stamp event_type actor_type actor_id account_id summary g = record g {
  hosted =
      append_event
        (for_account stamp.id stamp.at account_id event_type (some actor_type) actor_id summary)
        g.hosted;
}

-- The handler of the last `try` statement, for an exception of that type.
unfoldable pub fail :
    String → LoginStamp → PasskeyChallenge → PasskeyCredential → Answer (Account × String)
unfolding increment_attempt append_event for_account
fail exception stamp c credential g = (
  err (http 401 "Authentication failed"),
  log_event stamp.event passkey_authentication_failure anonymous none credential.account_id
      ("Authentication failed: " ++ exception) (counts c.id g),
)

-- The session, or the ValueError of `create_session`.
abbrev pub finish :
    Option Session × Table
    → LoginStamp
    → PasskeyChallenge
    → PasskeyCredential
    → Account
    → Answer (Account × String)
finish (none, sessions) stamp c credential a g =
    fail "ValueError" stamp c credential (record g { sessions = sessions })
finish (some session, sessions) stamp c credential a g = (
  ok (a, session.id),
  log_event stamp.event passkey_authentication_success EventActorType.account (some a.id) a.id
      "Passkey authentication successful" (record g { sessions = sessions }),
)

-- The credential's row and the challenge after the library has accepted the response.
abbrev pub accepted :
    VerifiedAuthentication → LoginStamp → PasskeyChallenge → PasskeyCredential → Gate → Gate
accepted v stamp c credential g = consumes c.id stamp.consumed_at (record g {
  credentials =
      (update_after_login credential.credential_id v.new_sign_count stamp.used_at v.multi_device
        v.credential_backed_up g.credentials).1;
})

module _ (sha256 : String → String) (session_ttl_seconds : ℕ) (w : WebAuthn) where
  -- The library's answer: `base64url_to_bytes` of the public key and of the challenge may raise
  -- `binascii.Error`, in the same `try`.
  abbrev pub library_answer :
      CredentialData → String → PasskeyCredential → Result String VerifiedAuthentication
  library_answer d value credential =
      if w.decodes credential.public_key && w.decodes value
      then w.verify_authentication_response d value credential.public_key credential.sign_count
      else err "Error"

  abbrev pub open_session :
      Result String VerifiedAuthentication
      → LoginStamp
      → PasskeyChallenge
      → PasskeyCredential
      → Account
      → Answer (Account × String)
  open_session (err exception) stamp c credential a g = fail exception stamp c credential g
  open_session (ok v) stamp c credential a g =
      let g' = accepted v stamp c credential g in
      finish
        (create_session sha256 session_ttl_seconds stamp.session_id stamp.created_at stamp.starts_at
          stamp.stored_at a.id stamp.token g'.sessions)
        stamp c credential a g'

  abbrev pub with_account :
      Option Account
      → CredentialData
      → LoginStamp
      → String
      → PasskeyChallenge
      → PasskeyCredential
      → Answer (Account × String)
  with_account none d stamp value c credential g =
      (err (http 400 "Account not found"), counts c.id g)
  with_account (some a) d stamp value c credential g =
      open_session (library_answer d value credential) stamp c credential a g

  abbrev pub with_credential :
      Option PasskeyCredential
      → CredentialData
      → LoginStamp
      → String
      → PasskeyChallenge
      → Answer (Account × String)
  with_credential none d stamp value c g = (err (http 400 "Credential not found"), counts c.id g)
  with_credential (some credential) d stamp value c g =
      with_account (get_account g.hosted credential.account_id) d stamp value c credential g

  abbrev pub check_credential :
      CredentialData → LoginStamp → String → PasskeyChallenge → Answer (Account × String)
  check_credential d stamp value c g =
      if w.decodes d.id
      then with_credential (get_credential d.id g.credentials) d stamp value c g
      else (err (http 400 "Invalid credential ID format"), counts c.id g)

  -- `verify_authentication`
  unfoldable pub verify_authentication : CredentialData → LoginStamp → Answer (Account × String)
  unfolding challenge_of find_challenge_for_verification get_credential get_account create_session
      fail update_after_login mark_consumed increment_attempt append_event for_account
  verify_authentication d stamp g =
      let value = challenge_of w d.client_data in
      with_challenge (find_challenge_for_verification value login g.challenges) stamp.now
        stamp.consumed_at (check_credential d stamp value) g
