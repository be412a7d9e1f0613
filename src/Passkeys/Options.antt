-- ===== src/Passkeys/Options.antt =====
-- The options for the browser: `create_registration_options` and `create_authentication_options`
-- of src/intake/services/passkey_service.py. The stored identifiers of credentials are base64url
-- without padding, which `base64.urlsafe_b64decode` takes only where none is missing.
use Prim.Native.String.{count, ◌++◌}
use intake.Prelude.{
  ℕ, zero, suc, ◌%◌, String, Bool, true, false, Option, none, some, List, [], ◌∷◌, map, all, ◌==◌,
  if◌then◌else◌,
}
use intake.Prelude.Text.{is_empty}
use intake.Prelude.Result.{ok, err, Exec}
use intake.Quotes.Model.{Account}
use intake.Quotes.Repository.{get_account}
use intake.Passkeys.Model.{
  register, login, PasskeyChallenge, PasskeyCredential, WebAuthn, Settings, Gate,
}
use intake.Passkeys.Challenges.{ChallengeStamp, new_challenge, create}
use intake.Passkeys.Credentials.{get_active_credentials_by_account}

-- A user of the options: identifier, name and display name.
pub record OptionsUser : Type 0 where
  pub id : String
  pub name : String
  pub display_name : String

pub record AllowedCredential : Type 0 where
  pub id : String
  pub transports : List String

-- PasskeyRegistrationOptions, with the fields that the two methods set; `algorithms` has the
-- magnitudes of the negative COSE numbers.
pub record PasskeyRegistrationOptions : Type 0 where
  pub challenge : String
  pub rp_id : String
  pub rp_name : String
  pub user : Option OptionsUser
  pub algorithms : List ℕ
  pub require_resident_key : Bool
  pub timeout : ℕ
  pub allow_credentials : Option (List AllowedCredential)
  pub user_verification : Option String

-- `s[:n]`
unfoldable pub prefix : ℕ → String → String
prefix zero s = ""
prefix (suc n) String.[] = String.[]
prefix (suc n) (String.◌∷◌ c s) = String.◌∷◌ c (prefix n s)

-- `_store_challenge`
abbrev pub store_challenge : PasskeyChallenge → Gate → Gate
unfolding create
store_challenge c g = record g { challenges = create c g.challenges }

abbrev pub account_id_of : Option Account → Option String
account_id_of none = none
account_id_of (some a) = some a.id

abbrev pub user_of : WebAuthn → String → Option Account → OptionsUser
unfolding prefix
user_of w random_id none = record { id = random_id; name = "anonymous"; display_name = "New User" }
user_of w random_id (some a) = record {
  id = w.to_base64url a.id;
  name = a.id;
  display_name = "User " ++ prefix 8 a.id;
}

-- `create_registration_options`, with the base64url text of the random user handle
unfoldable pub create_registration_options :
    Settings
    → WebAuthn
    → ChallengeStamp
    → (random_id : String) → Option Account
    → Gate
    → PasskeyRegistrationOptions × Gate
unfolding new_challenge create prefix
create_registration_options s w stamp random_id account g =
    let c =
      new_challenge register s.intake_rp_id s.intake_origin (account_id_of account)
        s.intake_challenge_expiry stamp in
    (
      record {
        challenge = c.challenge;
        rp_id = s.intake_rp_id;
        rp_name = s.intake_rp_name;
        user = some (user_of w random_id account);
        algorithms = 7 ∷ 257 ∷ [];
        require_resident_key = true;
        timeout = 60000;
        allow_credentials = none;
        user_verification = none;
      },
      store_challenge c g,
    )

-- `base64.urlsafe_b64decode` of base64url text without padding
abbrev pub decodes_strictly : String → Bool
decodes_strictly text = count text % 4 == 0

abbrev pub allowed : WebAuthn → PasskeyCredential → AllowedCredential
allowed w c = record { id = c.credential_id; transports = map w.transport_value c.transports }

-- `if account_id: account = self._account_repo.get_by_id(account_id)`
abbrev pub hinted : Gate → Option String → Option Account
hinted g none = none
hinted g (some account_id) = if is_empty account_id then none else get_account g.hosted account_id

abbrev pub candidates : Gate → Option Account → List PasskeyCredential
candidates g none = []
candidates g (some a) = get_active_credentials_by_account a.id g.credentials

-- `allowed_credentials or None`
abbrev pub some_or_none : List AllowedCredential → Option (List AllowedCredential)
some_or_none [] = none
some_or_none (c ∷ cs) = some (c ∷ cs)

abbrev pub login_options :
    Settings → PasskeyChallenge → List AllowedCredential → PasskeyRegistrationOptions
login_options s c allow = record {
  challenge = c.challenge;
  rp_id = s.intake_rp_id;
  rp_name = s.intake_rp_name;
  user = none;
  algorithms = 257 ∷ [];
  require_resident_key = false;
  timeout = 60000;
  allow_credentials = some_or_none allow;
  user_verification = some "preferred";
}

-- `binascii.Error`, after the challenge has been stored
pub data OptionsError : Type 0 where
  incorrect_padding : OptionsError

-- `create_authentication_options`
unfoldable pub create_authentication_options :
    Settings
    → WebAuthn
    → ChallengeStamp
    → Option String
    → Exec Gate OptionsError PasskeyRegistrationOptions
unfolding new_challenge create get_account get_active_credentials_by_account
create_authentication_options s w stamp account_id g =
    let c =
      new_challenge login s.intake_rp_id s.intake_origin account_id s.intake_challenge_expiry
        stamp in
    let credentials = candidates g (hinted g account_id) in
    if all (λ x. decodes_strictly x.credential_id) credentials
    then (ok (login_options s c (map (allowed w) credentials)), store_challenge c g)
    else (err incorrect_padding, store_challenge c g)
