-- ===== src/Passkeys/Ceremonies.antt =====
-- What the ceremonies of src/intake/services/passkey_service.py do to challenges.
use intake.Prelude.{ℕ, String, ◌≡◌, refl, true, Option, none, some, inl, inr, Bool-cases}
use intake.Prelude.Http.{HttpException}
use intake.Prelude.Result.{Result, ok, err}
use intake.Quotes.Model.{Account}
use intake.Auth.Sessions.{Session, Table}
use intake.Passkeys.Model.{
  ChallengeAction, register, login, PasskeyChallenge, is_pending_status, is_past, PasskeyCredential,
  CredentialData, VerifiedRegistration, VerifiedAuthentication, WebAuthn, Gate,
}
use intake.Passkeys.Challenges.{mark_consumed}
use intake.Passkeys.Registration.{
  Answer, challenge_of, find_challenge_for_verification, consumes, counts, with_challenge,
  RegistrationStamp, enrol, register_with, verify_registration,
}
use intake.Passkeys.Login.{
  LoginStamp, fail, finish, accepted, open_session, with_account, with_credential, check_credential,
  verify_authentication,
}
use intake.Passkeys.SingleUse.{
  IsSpent, mark_consumed-IsSpent, increment_attempt-IsSpent, mark_consumed_spends,
  find_challenge-eq,
}

-- Every spent challenge stays spent, and the ceremony's own is spent where it succeeds.
pub record Spends {A : Type 0} (own : String) (g : Gate) (answer : Result HttpException A × Gate)
    : Type 0 where
  pub kept : (value : String) → IsSpent value g.challenges → IsSpent value answer.1.challenges
  pub spent : (a : A) → answer.0 ≡ ok a → IsSpent own answer.1.challenges

-- An answer with an error that leaves spent challenges so.
failing :
    {A : Type 0} (own : String) (g g' : Gate) (e : HttpException)
    → ((value : String) → IsSpent value g.challenges → IsSpent value g'.challenges)
    → Spends {A = A} own g (err e, g')
failing own g g' e kept = record { kept = kept; spent = λ a h. cc h }

counting :
    {A : Type 0} (own id : String) (g : Gate) (e : HttpException)
    → Spends {A = A} own g (err e, counts id g)
counting own id g e =
    failing own g (counts id g) e (λ value. increment_attempt-IsSpent value id g.challenges)

-- The tests before a ceremony.
with_challenge-Spends :
    {A : Type 0} (own : String) (found : Option PasskeyChallenge) (now consumed_at : ℕ)
    (k : PasskeyChallenge → Answer A) (g : Gate)
    → ((c : PasskeyChallenge)
        → found ≡ some c
        → is_pending_status c.status ≡ true
        → Spends own g (k c g))
    → Spends own g (with_challenge found now consumed_at k g)
with_challenge-Spends own none now consumed_at k g h = failing own g g _ (λ value s. s)
with_challenge-Spends own (some c) now consumed_at k g h =
    elim (Bool-cases (is_pending_status c.status)) [
      | inr closed ↦ rw closed (failing own g g _ (λ value s. s))
      | inl open_ ↦ elim (Bool-cases (is_past c now)) [
        | inl late ↦
            rw (open_, late)
              (failing own g (consumes c.id consumed_at g) _
                (λ value. mark_consumed-IsSpent value c.id consumed_at g.challenges))
        | inr early ↦ rw (open_, early) (h c refl open_)
      ]
    ]

-- Both ceremonies, from the part that follows the tests.
ceremony-Spends :
    {A : Type 0} (value : String) (action : ChallengeAction) (now consumed_at : ℕ)
    (k : PasskeyChallenge → Answer A) (g : Gate)
    → ((c : PasskeyChallenge)
        → ((at : ℕ) → IsSpent value (mark_consumed c.id at g.challenges).1)
        → Spends value g (k c g))
    → Spends value g (
        with_challenge
          (find_challenge_for_verification value action g.challenges)
          now
          consumed_at
          k
          g)
ceremony-Spends value action now consumed_at k g h =
    with_challenge-Spends value _ now consumed_at k g (λ c found open_. h c (λ at.
      mark_consumed_spends value at g.challenges c
        (find_challenge-eq value action g.challenges c found) open_))

register_with-Spends :
    (d : CredentialData) (stamp : RegistrationStamp) (v : Option VerifiedRegistration)
    (own : String) (c : PasskeyChallenge) (g : Gate)
    → ((at : ℕ) → IsSpent own (mark_consumed c.id at g.challenges).1)
    → Spends own g (register_with d stamp v c g)
unfolding enrol
register_with-Spends d stamp none own c g h = counting own c.id g _
register_with-Spends d stamp (some v) own c g h = record {
  kept = λ value. mark_consumed-IsSpent value c.id stamp.consumed_at g.challenges;
  spent = λ a e. h stamp.consumed_at;
}

pub verify_registration-Spends :
    (w : WebAuthn) (d : CredentialData) (stamp : RegistrationStamp) (g : Gate)
    → Spends (challenge_of w d.client_data) g (verify_registration w d stamp g)
unfolding verify_registration
verify_registration-Spends w d stamp g =
    ceremony-Spends (challenge_of w d.client_data) register stamp.now stamp.consumed_at _ g
      (λ c h. register_with-Spends d stamp _ (challenge_of w d.client_data) c g h)

finish-Spends :
    (r : Option Session × Table) (own : String) (stamp : LoginStamp) (c : PasskeyChallenge)
    (credential : PasskeyCredential) (a : Account) (v : VerifiedAuthentication) (g : Gate)
    → ((at : ℕ) → IsSpent own (mark_consumed c.id at g.challenges).1)
    → Spends own g (finish r stamp c credential a (accepted v stamp c credential g))
unfolding fail
finish-Spends (none, sessions) own stamp c credential a v g h = failing own g _ _ (λ value s.
    increment_attempt-IsSpent value c.id _
      (mark_consumed-IsSpent value c.id stamp.consumed_at g.challenges s))
finish-Spends (some session, sessions) own stamp c credential a v g h = record {
  kept = λ value. mark_consumed-IsSpent value c.id stamp.consumed_at g.challenges;
  spent = λ a e. h stamp.consumed_at;
}

module _ (sha256 : String → String) (session_ttl_seconds : ℕ) (w : WebAuthn) where
  open_session-Spends :
      (answer : Result String VerifiedAuthentication) (own : String) (stamp : LoginStamp)
      (c : PasskeyChallenge) (credential : PasskeyCredential) (a : Account) (g : Gate)
      → ((at : ℕ) → IsSpent own (mark_consumed c.id at g.challenges).1)
      → Spends own g (open_session sha256 session_ttl_seconds w answer stamp c credential a g)
  unfolding fail
  open_session-Spends (err exception) own stamp c credential a g h =
      failing own g _ _ (λ value. increment_attempt-IsSpent value c.id g.challenges)
  open_session-Spends (ok v) own stamp c credential a g h =
      finish-Spends _ own stamp c credential a v g h

  with_account-Spends :
      (found : Option Account) (d : CredentialData) (stamp : LoginStamp) (own value : String)
      (c : PasskeyChallenge) (credential : PasskeyCredential) (g : Gate)
      → ((at : ℕ) → IsSpent own (mark_consumed c.id at g.challenges).1)
      → Spends own g (with_account sha256 session_ttl_seconds w found d stamp value c credential g)
  with_account-Spends none d stamp own value c credential g h = counting own c.id g _
  with_account-Spends (some a) d stamp own value c credential g h =
      open_session-Spends _ own stamp c credential a g h

  with_credential-Spends :
      (found : Option PasskeyCredential) (d : CredentialData) (stamp : LoginStamp)
      (own value : String) (c : PasskeyChallenge) (g : Gate)
      → ((at : ℕ) → IsSpent own (mark_consumed c.id at g.challenges).1)
      → Spends own g (with_credential sha256 session_ttl_seconds w found d stamp value c g)
  with_credential-Spends none d stamp own value c g h = counting own c.id g _
  with_credential-Spends (some credential) d stamp own value c g h =
      with_account-Spends _ d stamp own value c credential g h

  check_credential-Spends :
      (d : CredentialData) (stamp : LoginStamp) (own value : String) (c : PasskeyChallenge)
      (g : Gate)
      → ((at : ℕ) → IsSpent own (mark_consumed c.id at g.challenges).1)
      → Spends own g (check_credential sha256 session_ttl_seconds w d stamp value c g)
  check_credential-Spends d stamp own value c g h = elim (Bool-cases (w.decodes d.id)) [
    | inr bad ↦ rw bad (counting own c.id g _)
    | inl good ↦ rw good (with_credential-Spends _ d stamp own value c g h)
  ]

  pub verify_authentication-Spends :
      (d : CredentialData) (stamp : LoginStamp) (g : Gate)
      → Spends
          (challenge_of w d.client_data)
          g
          (verify_authentication sha256 session_ttl_seconds w d stamp g)
  unfolding verify_authentication
  verify_authentication-Spends d stamp g =
      ceremony-Spends (challenge_of w d.client_data) login stamp.now stamp.consumed_at _ g
        (λ c h. check_credential-Spends d stamp _ (challenge_of w d.client_data) c g h)
