-- ===== src/Passkeys/Tests.antt =====
-- Runs of src/intake/services/passkey_service.py at concrete inputs, with a library that accepts
-- every response.
use intake.Prelude.{
  ℕ, String, ◌≡◌, ◌≢◌, refl, Bool, true, false, Option, none, some, List, [], ◌∷◌, arith, ltb,
}
use intake.Prelude.Dict.{get}
use intake.Prelude.Result.{ok}
use intake.Quotes.Model.{Account}
use intake.Auth.Sessions
use intake.Passkeys.Model.{
  login, PasskeyChallenge, PasskeyCredential, encoded, CredentialData, VerifiedAuthentication,
  WebAuthn, Settings, Gate,
}
use intake.Passkeys.Challenges.{new_challenge}
use intake.Passkeys.Credentials.{revoke_credential}
use intake.Passkeys.Registration.{RegistrationStamp, verify_registration}
use intake.Passkeys.Login.{LoginStamp, verify_authentication}
use intake.Passkeys.SingleUse.{IsRefused}
use intake.Passkeys.Replay.{logged_in, here, Accepted-IsRefused}
use intake.Passkeys.Entry.{MayEnter, Entry, verify_authentication-Entry}
use intake.Passkeys.Revoked.{revoke_credential-verify_authentication}
use intake.Passkeys.Endpoints.{login_verify, logout, get_session}
use intake.Passkeys.Visits.{login_verify-get_session}

abbrev digest : String → String
digest text = text

abbrev settings : Settings
settings = record {
  intake_rp_id = "localhost";
  intake_rp_name = "Intake";
  intake_origin = "http://localhost";
  intake_challenge_expiry = 300;
  intake_session_ttl_seconds = 60;
}

abbrev verdict : VerifiedAuthentication
verdict = record { new_sign_count = 8; multi_device = false; credential_backed_up = false }

abbrev library : WebAuthn
library = record {
  parse_client_data = λ text. some text;
  decodes = λ text. true;
  to_base64url = λ text. text;
  transport_value = λ text. text;
  verify_registration_response = λ d challenge. none;
  verify_authentication_response = λ d challenge public_key sign_count. ok verdict;
}

abbrev account : Account
account = record {
  id = "a1";
  created_at = 0;
  updated_at = 0;
  encrypted_email = none;
  normalized_email_hash = none;
  email_verified_at = none;
}

abbrev credential : PasskeyCredential
credential = record {
  id = "p1";
  credential_id = "key1";
  public_key = "pub1";
  sign_count = 7;
  account_id = "a1";
  registered_at = 0;
  last_used_at = none;
  name = none;
  transports = "usb" ∷ [];
  backup_eligible = false;
  backup_state = false;
  device_label = none;
  revoked_at = none;
}

abbrev challenge : PasskeyChallenge
challenge =
    new_challenge login "localhost" "http://localhost" none 300
      (record { id = "c1"; challenge = "nonce1"; created_at = 1; starts_at = 1 })

abbrev gate : Gate
gate = record {
  hosted = record {
    quotes = [];
    accounts = ("a1", account) ∷ [];
    events = [];
    require_verified_email_for_quote_submit = false;
    require_verified_email_for_uploads = false;
  };
  challenges = challenge ∷ [];
  credentials = credential ∷ [];
  sessions = [];
}

abbrev response : CredentialData
response = record {
  id = "key1";
  client_data = encoded "nonce1=";
  transports = [];
  authenticator_attachment = none;
  name = none;
  rest = "";
}

abbrev stamp : LoginStamp
stamp = record {
  now = 10;
  used_at = 10;
  consumed_at = 10;
  session_id = "s1";
  token = "t1";
  created_at = 10;
  starts_at = 10;
  stored_at = 10;
  event = record { id = "e1"; at = 10 };
}

abbrev registration : RegistrationStamp
registration = record {
  now = 20;
  consumed_at = 20;
  account = record { id = "a2"; at = 20 };
  account_updated_at = 20;
  credential = record { id = "p2"; at = 20 };
  event = record { id = "e2"; at = 20 };
}

abbrev entered_gate : Gate
entered_gate = (verify_authentication digest 60 library response stamp gate).1

may_enter : MayEnter digest 60 library response stamp gate challenge credential account verdict
unfolding intake.Prelude.Rows.first_that new_challenge intake.Passkeys.Registration.challenge_of get
    Sessions.get_active_by_token_hash
may_enter = record {
  challenge = refl;
  action = refl;
  pending = refl;
  early = omega arith;
  format = refl;
  known = refl;
  account = refl;
  key = refl;
  nonce = refl;
  library = refl;
  token = refl;
}

Accepted-IsRefused_example :
    IsRefused entered_gate (verify_registration library response registration entered_gate)
    × IsRefused entered_gate (verify_authentication digest 60 library response stamp entered_gate)
unfolding intake.Passkeys.Registration.challenge_of verify_authentication new_challenge get
Accepted-IsRefused_example =
    Accepted-IsRefused digest settings library {value = "nonce1"} {g = gate} {g' = entered_gate}
      {g'' = entered_gate} response registration stamp
      (logged_in response stamp (account, "s1") refl refl) here refl

verify_authentication-Entry_example :
    Entry digest 60 library response stamp gate
      (verify_authentication digest 60 library response stamp gate)
verify_authentication-Entry_example =
    verify_authentication-Entry digest 60 library response stamp gate

revoke_credential-verify_authentication_example :
    (verify_authentication digest 60 library response stamp
      (record gate { credentials = (revoke_credential "key1" 5 gate.credentials).1 })).0
    ≡ ok (account, "s1")
revoke_credential-verify_authentication_example =
    revoke_credential-verify_authentication digest 60 library response stamp 5 gate challenge
      credential account verdict may_enter

login_verify-get_session_example :
    ((later : ℕ)
      → ltb later 70 ≡ true
      → get_session (some "s1") later entered_gate.sessions ≡ some "a1")
    × ((now later : ℕ)
        → get_session (some "s1") later (logout (some "s1") now entered_gate.sessions) ≡ none)
unfolding Sessions.get login_verify new_challenge get
login_verify-get_session_example =
    login_verify-get_session digest 60 library response stamp gate entered_gate
      (record { account_id = "a1"; cookie = "s1" }) refl refl refl
