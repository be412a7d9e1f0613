-- ===== src/Passkeys/Registration.antt =====
-- Registration: `verify_registration` of src/intake/services/passkey_service.py. The webauthn
-- library is a parameter. What is generated and what the clock reads are arguments. The copy that
-- `_normalize_credential_data` makes lacks a field that nothing here reads.
use intake.Prelude.{ℕ, String, Bool, true, false, not, Option, none, some, List, if◌then◌else◌}
use intake.Prelude.Text.{rstrip, is_char, is_empty}
use intake.Prelude.Http.{HttpException, http}
use intake.Prelude.Result.{ok, err, Exec}
use intake.Quotes.Model.{Account, anonymous, passkey_credential_registered, for_account, Hosted}
use intake.Quotes.Repository.{get_account, create_account, append_event}
use intake.Quotes.EventLog.{Stamp}
use intake.Passkeys.Model.{
  ChallengeAction, register, PasskeyChallenge, is_pending_status, same_action, is_past,
  PasskeyCredential, ClientData, encoded, object, other, CredentialData, VerifiedRegistration,
  WebAuthn, Gate,
}
use intake.Passkeys.Challenges.{get_by_challenge_value, mark_consumed, increment_attempt}
use intake.Passkeys.Credentials.{create_credential}

abbrev pub Answer : Type 0 → Type 0
Answer A = Exec Gate HttpException A

-- `client_data_parsed.get("challenge", "").rstrip('=')`, and "" where that raises
unfoldable pub unpadded : Option String → String
unfolding rstrip
unpadded none = ""
unpadded (some challenge) = rstrip (λ c. is_char c "=") challenge

-- The challenge of the client data: the `try` statement before the look-up.
unfoldable pub challenge_of : WebAuthn → ClientData → String
unfolding unpadded
challenge_of w (encoded text) = if is_empty text then "" else unpadded (w.parse_client_data text)
challenge_of w (object challenge) = unpadded challenge
challenge_of w other = ""

abbrev pub with_action : ChallengeAction → Option PasskeyChallenge → Option PasskeyChallenge
with_action expected_action none = none
with_action expected_action (some c) = if same_action c.action expected_action then some c else none

-- `_find_challenge_for_verification`
unfoldable pub find_challenge_for_verification :
    String → ChallengeAction → List PasskeyChallenge → Option PasskeyChallenge
unfolding get_by_challenge_value
find_challenge_for_verification value expected_action rows =
    with_action expected_action (get_by_challenge_value value rows)

abbrev pub consumes : String → (now : ℕ) → Gate → Gate
consumes challenge_id now g = record g {
  challenges = (mark_consumed challenge_id now g.challenges).1;
}

abbrev pub counts : String → Gate → Gate
counts challenge_id g = record g { challenges = (increment_attempt challenge_id g.challenges).1 }

-- The tests of a challenge that both ceremonies make, and what follows them.
abbrev pub with_challenge :
    {A : Type 0}
    → Option PasskeyChallenge
    → (now consumed_at : ℕ) → (PasskeyChallenge → Answer A)
    → Answer A
with_challenge none now consumed_at k g = (err (http 400 "Invalid or missing challenge"), g)
with_challenge (some c) now consumed_at k g =
    if not (is_pending_status c.status)
    then (err (http 400 "Challenge already used or expired"), g)
    else if is_past c now
    then (err (http 400 "Challenge expired"), consumes c.id consumed_at g)
    else k c g

-- What a registration generates and reads from the clock.
pub record RegistrationStamp : Type 0 where
  pub now : ℕ
  pub consumed_at : ℕ
  pub account : Stamp
  pub account_updated_at : ℕ
  pub credential : Stamp
  pub event : Stamp

abbrev pub new_account : String → RegistrationStamp → Account
new_account account_id stamp = record {
  id = account_id;
  created_at = stamp.account.at;
  updated_at = stamp.account_updated_at;
  encrypted_email = none;
  normalized_email_hash = none;
  email_verified_at = none;
}

abbrev pub found_or_created :
    Option Account → String → RegistrationStamp → Hosted → Account × Hosted
found_or_created (some a) account_id stamp h = (a, h)
found_or_created none account_id stamp h =
    (new_account account_id stamp, create_account (new_account account_id stamp) h)

-- `if challenge_model.account_id: ... else: ...`
abbrev pub account_for : Option String → RegistrationStamp → Hosted → Account × Hosted
account_for none stamp h = found_or_created none stamp.account.id stamp h
account_for (some account_id) stamp h =
    if is_empty account_id
    then found_or_created none stamp.account.id stamp h
    else found_or_created (get_account h account_id) account_id stamp h

unfoldable pub new_credential :
    CredentialData → VerifiedRegistration → String → Stamp → PasskeyCredential
new_credential d v account_id stamp = record {
  id = stamp.id;
  credential_id = v.credential_id;
  public_key = v.credential_public_key;
  sign_count = v.sign_count;
  account_id = account_id;
  registered_at = stamp.at;
  last_used_at = none;
  name = d.name;
  transports = d.transports;
  backup_eligible = v.multi_device;
  backup_state = v.credential_backed_up;
  device_label = d.authenticator_attachment;
  revoked_at = none;
}

-- The part of `verify_registration` after the response has been verified.
unfoldable pub enrol :
    CredentialData
    → VerifiedRegistration
    → RegistrationStamp
    → PasskeyChallenge
    → Answer (PasskeyCredential × Account)
unfolding get_account create_account create_credential new_credential mark_consumed append_event
    for_account
enrol d v stamp c g =
    let (a, h) = account_for c.account_id stamp g.hosted in
    let credential = new_credential d v a.id stamp.credential in
    let event =
      for_account stamp.event.id stamp.event.at a.id passkey_credential_registered (some anonymous)
        none "Passkey credential registered" in
    (
      ok (credential, a),
      record g {
        hosted = append_event event h;
        credentials = create_credential credential g.credentials;
        challenges = (mark_consumed c.id stamp.consumed_at g.challenges).1;
      },
    )

-- `base64url_to_bytes(challenge_value)` raises inside of the same `try`.
abbrev pub verified : Option VerifiedRegistration → Bool → Option VerifiedRegistration
verified v true = v
verified v false = none

abbrev pub register_with :
    CredentialData
    → RegistrationStamp
    → Option VerifiedRegistration
    → PasskeyChallenge
    → Answer (PasskeyCredential × Account)
register_with d stamp none c g = (err (http 400 "Registration failed"), counts c.id g)
register_with d stamp (some v) c g = enrol d v stamp c g

module _ (w : WebAuthn) where
  -- `verify_registration`
  unfoldable pub verify_registration :
      CredentialData → RegistrationStamp → Answer (PasskeyCredential × Account)
  unfolding challenge_of find_challenge_for_verification enrol mark_consumed increment_attempt
  verify_registration d stamp g =
      let value = challenge_of w d.client_data in
      with_challenge (find_challenge_for_verification value register g.challenges) stamp.now
        stamp.consumed_at
        (register_with d stamp
          (verified (w.verify_registration_response d value) (w.decodes value)))
        g
