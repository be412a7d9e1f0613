-- ===== src/Passkeys/Model.antt =====
-- Passkeys: src/intake/domain/passkeys.py, the challenge and credential tables of
-- src/intake/storage/models.py, and what src/intake/services/passkey_service.py takes from the
-- browser and from the webauthn library. The bytes that the library handles are their base64url
-- text, as the service stores them; the column of transports is its list.
use intake.Prelude.{ℕ, String, Bool, true, false, not, Option, List, is_some, ltb}
use intake.Prelude.Result.{Result}
use intake.Quotes.Model.{Hosted}
use intake.Auth.Sessions.{Table}

pub data ChallengeAction : Type 0 where
  register login : ChallengeAction

pub data PasskeyChallengeStatus : Type 0 where
  pending consumed expired : PasskeyChallengeStatus

pub record PasskeyChallenge : Type 0 where
  pub id : String
  pub challenge : String
  pub rp_id : String
  pub origin : String
  pub action : ChallengeAction
  pub status : PasskeyChallengeStatus
  pub created_at : ℕ
  pub expires_at : ℕ
  pub consumed_at : Option ℕ
  pub attempt_count : ℕ
  pub account_id : Option String

-- `status == PasskeyChallengeStatus.PENDING`
abbrev pub is_pending_status : PasskeyChallengeStatus → Bool
is_pending_status pending = true
is_pending_status _ = false

-- `action == expected_action`
abbrev pub same_action : ChallengeAction → ChallengeAction → Bool
same_action register register = true
same_action login login = true
same_action _ _ = false

-- `utc_is_expired(challenge.expires_at)`, at the given time
abbrev pub is_past : PasskeyChallenge → (now : ℕ) → Bool
is_past c now = ltb c.expires_at now

pub record PasskeyCredential : Type 0 where
  pub id : String
  pub credential_id : String
  pub public_key : String
  pub sign_count : ℕ
  pub account_id : String
  pub registered_at : ℕ
  pub last_used_at : Option ℕ
  pub name : Option String
  pub transports : List String
  pub backup_eligible : Bool
  pub backup_state : Bool
  pub device_label : Option String
  pub revoked_at : Option ℕ

-- `PasskeyCredential.is_active`
unfoldable pub is_active : PasskeyCredential → Bool
is_active c = not (is_some c.revoked_at)

-- `clientDataJSON` of a response: a text, an object with its challenge if that is a text, or
-- anything else.
pub data ClientData : Type 0 where
  encoded : String → ClientData
  object : Option String → ClientData
  other : ClientData

-- `credential_data`: the fields that the service reads, and the rest of the response.
pub record CredentialData : Type 0 where
  pub id : String
  pub client_data : ClientData
  pub transports : List String
  pub authenticator_attachment : Option String
  pub name : Option String
  pub rest : String

-- What the library answers to a registration and to an authentication.
pub record VerifiedRegistration : Type 0 where
  pub credential_id : String
  pub credential_public_key : String
  pub sign_count : ℕ
  pub multi_device : Bool
  pub credential_backed_up : Bool

pub record VerifiedAuthentication : Type 0 where
  pub new_sign_count : ℕ
  pub multi_device : Bool
  pub credential_backed_up : Bool

-- The webauthn library, at the relying party and origin of the settings. `parse_client_data` is
-- the challenge of an encoded client data, if that decodes to an object whose challenge is a text;
-- `decodes` says whether a text is base64url. The verification of a registration is none where it
-- raises; that of an authentication is the exception's type name there.
pub record WebAuthn : Type 0 where
  pub parse_client_data : String → Option String
  pub decodes : String → Bool
  pub to_base64url : String → String
  pub transport_value : String → String
  pub verify_registration_response :
      CredentialData → (challenge : String) → Option VerifiedRegistration
  pub verify_authentication_response :
      CredentialData
      → (challenge public_key : String) → (sign_count : ℕ) → Result String VerifiedAuthentication

-- The settings that the service reads.
pub record Settings : Type 0 where
  pub intake_rp_id : String
  pub intake_rp_name : String
  pub intake_origin : String
  pub intake_challenge_expiry : ℕ
  pub intake_session_ttl_seconds : ℕ

-- The tables that the service works on: accounts and events are those of `hosted`.
pub record Gate : Type 0 where
  pub hosted : Hosted
  pub challenges : List PasskeyChallenge
  pub credentials : List PasskeyCredential
  pub sessions : Table
