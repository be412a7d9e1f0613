-- ===== src/Passkeys/Replay.antt =====
-- No response serves twice: sequences of calls of src/intake/services/passkey_service.py.
use intake.Prelude.{ℕ, String, ◌≡◌, sym, ap, subst, Option, inl, inr, Bool-cases, all}
use intake.Prelude.Result.{ok}
use intake.Quotes.Model.{Account}
use intake.Passkeys.Model.{
  register, login, PasskeyCredential, CredentialData, WebAuthn, Settings, Gate,
}
use intake.Passkeys.Challenges.{ChallengeStamp, new_challenge, mark_consumed, invalidate_expired}
use intake.Passkeys.Registration.{challenge_of, RegistrationStamp, verify_registration}
use intake.Passkeys.Login.{LoginStamp, verify_authentication}
use intake.Passkeys.Options.{
  create_registration_options, create_authentication_options, candidates, hinted, decodes_strictly,
}
use intake.Passkeys.SingleUse.{
  IsSpent, mark_consumed-IsSpent, invalidate_expired-IsSpent, create-IsSpent, IsRefused,
  with_challenge-IsRefused,
}
use intake.Passkeys.Ceremonies.{verify_registration-Spends, verify_authentication-Spends}

module _ (sha256 : String → String) (s : Settings) (w : WebAuthn) where
  -- The service's calls that change its tables, a clean-up, and changes by others, who leave the
  -- challenges alone.
  pub data GateStep : Gate → Gate → Type 0 where
    offers_registration :
        (stamp : ChallengeStamp) (random_id : String) (account : Option Account) (g : Gate)
        → GateStep g (create_registration_options s w stamp random_id account g).1
    offers_login :
        (stamp : ChallengeStamp) (account_id : Option String) (g : Gate)
        → GateStep g (create_authentication_options s w stamp account_id g).1
    registers :
        (d : CredentialData) (stamp : RegistrationStamp) (g : Gate)
        → GateStep g (verify_registration w d stamp g).1
    logs_in :
        (d : CredentialData) (stamp : LoginStamp) (g : Gate)
        → GateStep g (verify_authentication sha256 s.intake_session_ttl_seconds w d stamp g).1
    invalidates :
        (id : String) (now : ℕ) (g : Gate)
        → GateStep g (record g { challenges = (mark_consumed id now g.challenges).1 })
    expires :
        (now : ℕ) (g : Gate)
        → GateStep g (record g { challenges = (invalidate_expired now g.challenges).1 })
    elsewhere : (g g' : Gate) → g'.challenges ≡ g.challenges → GateStep g g'

  pub data GateSteps (g : Gate) : Gate → Type 0 where
    here : GateSteps g g
    next : {g₁ g₂ : Gate} → GateSteps g g₁ → GateStep g₁ g₂ → GateSteps g g₂

  offered-IsSpent :
      (value : String) (stamp : ChallengeStamp) (account_id : Option String) (g : Gate)
      → IsSpent value g.challenges
      → IsSpent value (create_authentication_options s w stamp account_id g).1.challenges
  unfolding create_authentication_options
  offered-IsSpent value stamp account_id g h =
      let kept = create-IsSpent value (new_challenge login _ _ account_id _ stamp) g.challenges h in
      elim (Bool-cases
        (all (λ x. decodes_strictly x.credential_id) (candidates g (hinted g account_id)))) [
          | inl e ↦ rw e kept
          | inr e ↦ rw e kept
        ]

  GateStep-IsSpent :
      {g g' : Gate} (value : String)
      → GateStep g g'
      → IsSpent value g.challenges
      → IsSpent value g'.challenges
  unfolding create_registration_options
  GateStep-IsSpent value (offers_registration stamp random_id account g) h =
      create-IsSpent value _ g.challenges h
  GateStep-IsSpent value (offers_login stamp account_id g) h =
      offered-IsSpent value stamp account_id g h
  GateStep-IsSpent value (registers d stamp g) h =
      (verify_registration-Spends w d stamp g).kept value h
  GateStep-IsSpent value (logs_in d stamp g) h =
      (verify_authentication-Spends sha256 s.intake_session_ttl_seconds w d stamp g).kept value h
  GateStep-IsSpent value (invalidates id now g) h =
      mark_consumed-IsSpent value id now g.challenges h
  GateStep-IsSpent value (expires now g) h = invalidate_expired-IsSpent value now g.challenges h
  GateStep-IsSpent value (elsewhere g g' e) h = subst (IsSpent value) (sym e) h

  GateSteps-IsSpent :
      {g g' : Gate} (value : String)
      → GateSteps g g'
      → IsSpent value g.challenges
      → IsSpent value g'.challenges
  GateSteps-IsSpent value here h = h
  GateSteps-IsSpent value (next steps step) h =
      GateStep-IsSpent value step (GateSteps-IsSpent value steps h)

  -- A response that was accepted: its challenge, and the tables before and after.
  pub data Accepted (value : String) (g g' : Gate) : Type 0 where
    registered :
        (d : CredentialData) (stamp : RegistrationStamp) (x : PasskeyCredential × Account)
        → challenge_of w d.client_data ≡ value
        → verify_registration w d stamp g ≡ (ok x, g')
        → Accepted value g g'
    logged_in :
        (d : CredentialData) (stamp : LoginStamp) (x : Account × String)
        → challenge_of w d.client_data ≡ value
        → verify_authentication sha256 s.intake_session_ttl_seconds w d stamp g ≡ (ok x, g')
        → Accepted value g g'

  Accepted-IsSpent :
      {value : String} {g g' : Gate} → Accepted value g g' → IsSpent value g'.challenges
  Accepted-IsSpent {value} {g} {g'} (registered d stamp x same e) =
      subst (λ v. IsSpent v g'.challenges) same
        (subst (λ r. IsSpent (challenge_of w d.client_data) r.1.challenges) e
          ((verify_registration-Spends w d stamp g).spent x (ap (λ r. r.0) e)))
  Accepted-IsSpent {value} {g} {g'} (logged_in d stamp x same e) =
      subst (λ v. IsSpent v g'.challenges) same
        (subst (λ r. IsSpent (challenge_of w d.client_data) r.1.challenges) e
          ((verify_authentication-Spends sha256 s.intake_session_ttl_seconds w d stamp g).spent x
            (ap (λ r. r.0) e)))

  -- After a registration or a login has been accepted, and any further calls, every response with
  -- the same challenge is refused with status 400, for a registration and for a login, and changes
  -- nothing.
  pub Accepted-IsRefused :
      {value : String} {g g' g'' : Gate} (d : CredentialData) (r : RegistrationStamp)
      (l : LoginStamp)
      → Accepted value g g'
      → GateSteps g' g''
      → challenge_of w d.client_data ≡ value
      → IsRefused g'' (verify_registration w d r g'')
        × IsRefused g'' (verify_authentication sha256 s.intake_session_ttl_seconds w d l g'')
  unfolding verify_registration verify_authentication
  Accepted-IsRefused {value} {g} {g'} {g''} d r l done steps same =
      let spent =
        subst (λ v. IsSpent v g''.challenges) (sym same)
          (GateSteps-IsSpent value steps (Accepted-IsSpent done)) in
      (
        with_challenge-IsRefused (challenge_of w d.client_data) register r.now r.consumed_at _ g''
            spent,
        with_challenge-IsRefused (challenge_of w d.client_data) login l.now l.consumed_at _ g''
            spent,
      )
