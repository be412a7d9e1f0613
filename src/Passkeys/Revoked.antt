-- ===== src/Passkeys/Revoked.antt =====
-- What revoking a passkey does to logins: `revoke_credential` of src/intake/storage/repositories.py
-- and `verify_authentication` of src/intake/services/passkey_service.py.
use intake.Prelude.{ℕ, String, ◌≡◌, refl, false, arith}
use intake.Prelude.Result.{ok}
use intake.Quotes.Model.{Account}
use intake.Quotes.Repository.{get_account}
use intake.Auth.Sessions.{create_session}
use intake.Passkeys.Model.{
  is_past, PasskeyChallenge, PasskeyCredential, CredentialData, VerifiedAuthentication, WebAuthn,
  Gate,
}
use intake.Passkeys.Challenges.{get_by_challenge_value}
use intake.Passkeys.Credentials.{has_credential_id, get_credential, revoke, revoke_credential}
use intake.Passkeys.Registration.{find_challenge_for_verification}
use intake.Passkeys.Login.{LoginStamp, verify_authentication}
use intake.Passkeys.Entered.{first_that-change_first}
use intake.Passkeys.Entry.{MayEnter}

module _ (sha256 : String → String) (ttl : ℕ) (w : WebAuthn) (d : CredentialData)
    (stamp : LoginStamp) where
  MayEnter-verify_authentication :
      (g : Gate) (c : PasskeyChallenge) (credential : PasskeyCredential) (a : Account)
      (v : VerifiedAuthentication)
      → MayEnter sha256 ttl w d stamp g c credential a v
      → (verify_authentication sha256 ttl w d stamp g).0 ≡ ok (a, stamp.session_id)
  unfolding verify_authentication find_challenge_for_verification get_by_challenge_value
      get_credential get_account create_session
  MayEnter-verify_authentication g c credential a v m =
      let in_time = m.early in
      let early : is_past c stamp.now ≡ false = ground arith in
      rw
        (
          m.challenge, m.action, m.pending, early, m.format, m.known, m.account, m.key, m.nonce,
          m.library, m.token,
        )
        refl

  -- A credential by which a response may enter still lets it in after the credential has been
  -- revoked: a revocation does not keep anyone out.
  pub revoke_credential-verify_authentication :
      (at : ℕ) (g : Gate) (c : PasskeyChallenge) (credential : PasskeyCredential) (a : Account)
      (v : VerifiedAuthentication)
      → MayEnter sha256 ttl w d stamp g c credential a v
      → (verify_authentication sha256 ttl w d stamp
          (record g { credentials = (revoke_credential d.id at g.credentials).1 })).0
        ≡ ok (a, stamp.session_id)
  unfolding revoke_credential
  revoke_credential-verify_authentication at g c credential a v m =
      MayEnter-verify_authentication
        (record g { credentials = (revoke_credential d.id at g.credentials).1 }) c
        (revoke at credential) a v
        (record {
          challenge = m.challenge;
          action = m.action;
          pending = m.pending;
          early = m.early;
          format = m.format;
          known =
              first_that-change_first (has_credential_id d.id) (revoke at) g.credentials credential
                (λ x. refl) m.known;
          account = m.account;
          key = m.key;
          nonce = m.nonce;
          library = m.library;
          token = m.token;
        })
