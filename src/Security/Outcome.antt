-- ===== src/Security/Outcome.antt =====
-- Who opens the authorization window: `perform_unlock` of
-- src/intake/local_console/api/security.py by its rules.
use intake.Prelude.{
  ℕ, ◌+◌, ◌<◌, ◌≤◌, String, ◌≡◌, refl, Bool, true, false, not, ◌&&◌, Option, none, some, ◌⊎◌, inl,
  inr, arith, leb, ltb, str_eq, if◌then◌else◌, Bool-cases, Option-cases,
}
use intake.Prelude.Dict.{get, put}
use intake.Prelude.Http.{HttpException}
use intake.Prelude.Result.{Result, ok}
use intake.Sync.Unlock.{unlock, is_unlocked, remaining_seconds}
use intake.Security.Model.{
  StoredChallenge, Settings, SecurityState, is_given, get_native_capability,
}
use intake.Security.Unlocking.{
  UnlockStatus, Clock, forbidden, is_loopback, consume, show_window, open_window, with_challenge,
  text_of, perform_unlock,
}

-- A challenge that is stored, was not used and is in time.
abbrev pub is_live : Option StoredChallenge → (now : ℕ) → Bool
is_live none now = false
is_live (some challenge) now = leb now challenge.expires_at && not challenge.consumed

-- The window has been opened: unless its time is over before the answer is made, it is open until
-- the time that is set, and the answer says so.
pub record IsOpened (settings : Settings) (unlock_mode : String) (clock : Clock)
    (answer : UnlockStatus) (s' : SecurityState) : Type 0 where
  pub mode : answer.unlock_mode ≡ unlock_mode
  pub open_until :
      clock.look ≤ clock.opening + settings.intake_local_unlock_ttl_seconds
      → clock.test ≤ clock.opening + settings.intake_local_unlock_ttl_seconds
      → (answer.is_unlocked ≡ true)
        × (s'.auth_window.unlocked_until
            ≡ some (clock.opening + settings.intake_local_unlock_ttl_seconds))

open_window-IsOpened :
    (settings : Settings) (unlock_mode : String) (native : Bool) (clock : Clock) (s : SecurityState)
    → (answer : UnlockStatus) × (s' : SecurityState) × (open_window settings unlock_mode native
          clock s
        ≡ (ok answer, s'))
      × (s'.challenge_store ≡ s.challenge_store)
      × IsOpened settings unlock_mode clock answer s'
unfolding open_window show_window unlock is_unlocked remaining_seconds
open_window-IsOpened settings unlock_mode native clock s = (
  _,
  _,
  refl,
  refl,
  record {
    mode = refl;
    open_until = λ look test.
        let until = clock.opening + settings.intake_local_unlock_ttl_seconds in
        let seen : ltb until clock.look ≡ false = ground arith in
        let tested : ltb until clock.test ≡ false = ground arith in
        (rw seen refl, rw (seen, tested) refl);
  },
)

module _ (settings : Settings) (generated : String) where
  abbrev pub secret : SecurityState → String
  secret s = (get_native_capability settings generated s).0

  -- The window and the capability are as they were, and so are the challenges, but for one that is
  -- past its time.
  pub record IsUnopened (now : ℕ) (s s' : SecurityState) : Type 0 where
    pub window : s'.auth_window ≡ s.auth_window
    pub challenges :
        (s'.challenge_store ≡ s.challenge_store)
        ⊎ ((token : String) × (challenge : StoredChallenge) × (get s.challenge_store token
              ≡ some challenge)
            × (challenge.expires_at < now)
            × (s'.challenge_store
                ≡ put s.challenge_store token (record challenge { consumed = true })))
    pub capability : secret s' ≡ secret s

  -- Who may open the window: from this machine, with a live challenge and the capability, or with
  -- neither where insecure unlocking is enabled.
  abbrev pub admits :
      (client_host challenge_token native_proof : Option String) → (now : ℕ) → SecurityState → Bool
  admits client_host challenge_token native_proof now s =
      is_loopback client_host
      && (if is_given challenge_token && is_given native_proof
          then is_live (get s.challenge_store (text_of settings generated challenge_token)) now
            && str_eq (secret s) (text_of settings generated native_proof)
          else not (is_given challenge_token)
            && not (is_given native_proof)
            && settings.intake_enable_insecure_dev_unlock)

  pub data UnlockOutcome (client_host challenge_token native_proof : Option String) (clock : Clock)
      (s : SecurityState) : Result HttpException UnlockStatus × SecurityState → Type 0 where
    proven :
        (challenge : StoredChallenge) (answer : UnlockStatus) (s' : SecurityState)
        → admits client_host challenge_token native_proof clock.check s ≡ true
        → get s.challenge_store (text_of settings generated challenge_token) ≡ some challenge
        → s'.challenge_store
          ≡ put s.challenge_store
              (text_of settings generated challenge_token)
              (record challenge { consumed = true })
        → IsOpened settings "native_os_auth" clock answer s'
        → UnlockOutcome client_host challenge_token native_proof clock s (ok answer, s')
    insecure :
        (answer : UnlockStatus) (s' : SecurityState)
        → admits client_host challenge_token native_proof clock.check s ≡ true
        → is_given challenge_token ≡ false
        → settings.intake_enable_insecure_dev_unlock ≡ true
        → s'.challenge_store ≡ s.challenge_store
        → IsOpened settings "dev_insecure" clock answer s'
        → UnlockOutcome client_host challenge_token native_proof clock s (ok answer, s')
    refused :
        (detail : String) (s' : SecurityState)
        → admits client_host challenge_token native_proof clock.check s ≡ false
        → IsUnopened clock.check s s'
        → UnlockOutcome client_host challenge_token native_proof clock s (forbidden detail, s')

  same : (now : ℕ) (s : SecurityState) → IsUnopened now s s
  unfolding get_native_capability
  same now s = record { window = refl; challenges = inl refl; capability = refl }

  -- A request that comes with a token and a proof.
  with_challenge-Outcome :
      (client_host : Option String) (token proof : String) (clock : Clock) (s : SecurityState)
      → is_loopback client_host ≡ true
      → is_given (some token) ≡ true
      → is_given (some proof) ≡ true
      → UnlockOutcome client_host (some token) (some proof) clock s (
          with_challenge settings generated
            (get s.challenge_store token)
            token
            (some proof)
            clock
            s)
  unfolding get_native_capability
  with_challenge-Outcome client_host token proof clock s local named proved =
      elim (Option-cases (get s.challenge_store token)) [
        | inl gone ↦ rw gone (
            refused "Invalid or expired challenge token" s (rw (local, named, proved, gone) refl)
              (same clock.check s))
        | inr (challenge, found) ↦ elim (Bool-cases (ltb challenge.expires_at clock.check)) [
          | inl late ↦
              let over : challenge.expires_at < clock.check = ground arith in
              let out : leb clock.check challenge.expires_at ≡ false = ground arith in
              rw (found, late)
                (refused "Challenge token expired" _ (rw (local, named, proved, found, out) refl)
                  (record {
                    window = refl;
                    challenges = inr (token, challenge, found, over, refl);
                    capability = refl;
                  }))
          | inr early ↦ elim (Bool-cases challenge.consumed) [
            | inl used ↦
                rw (found, early, used)
                  (refused "Challenge token already used" s (ground arith) (same clock.check s))
            | inr unused ↦ elim (Bool-cases (str_eq (secret s) proof)) [
              | inl right ↦
                  let s' = consume token challenge (get_native_capability settings generated s).1 in
                  let (answer, opened, e, store, done) =
                    open_window-IsOpened settings "native_os_auth" true clock s' in
                  rw (found, early, unused, right, e)
                    (proven challenge answer opened (ground arith) found store done)
              | inr wrong ↦
                  rw (found, early, unused, wrong)
                    (refused
                      "Native capability proof validation failed. Native capability confirmed: no."
                      _ (ground arith)
                      (record { window = refl; challenges = inl refl; capability = refl }))
            ]
          ]
        ]
      ]

  -- Every request to unlock is answered by the rules: the window is opened exactly if the request
  -- comes from this machine and has a challenge that is stored, unused and in time together with the
  -- process's capability, and then the challenge is used up, or if insecure unlocking is enabled and
  -- the request has neither. Any other request gets status 403 and leaves the window and the
  -- challenges as they are, but that one past its time is marked as used.
  pub perform_unlock-Outcome :
      (client_host challenge_token native_proof : Option String) (clock : Clock) (s : SecurityState)
      → UnlockOutcome client_host challenge_token native_proof clock s
          (perform_unlock settings generated client_host challenge_token native_proof clock s)
  unfolding perform_unlock
  perform_unlock-Outcome client_host token proof clock s =
      elim (Bool-cases (is_loopback client_host)) [
        | inr remote ↦
            rw remote (
              refused "Unlock only permitted from loopback" s (rw remote refl) (same clock.check s))
        | inl local ↦ elim (Bool-cases (is_given token)) [
          | inl named ↦ elim (Bool-cases (is_given proof)) [
            | inr unproved ↦
                rw (local, named, unproved)
                  (refused _ s (rw (local, named, unproved) refl) (same clock.check s))
            | inl proved ↦ given_both token proof local named proved
          ]
          | inr unnamed ↦ elim (Bool-cases (is_given proof)) [
            | inl proved ↦
                rw (local, unnamed, proved)
                  (refused _ s (rw (local, unnamed, proved) refl) (same clock.check s))
            | inr unproved ↦
                rw (local, unnamed, unproved)
                  (neither settings.intake_enable_insecure_dev_unlock refl local unnamed unproved)
          ]
        ]
      ]
    where
      neither :
          (dev : Bool)
          → settings.intake_enable_insecure_dev_unlock ≡ dev
          → is_loopback client_host ≡ true
          → is_given token ≡ false
          → is_given proof ≡ false
          → UnlockOutcome client_host token proof clock s (
              if dev then open_window settings "dev_insecure" false clock s else (
                forbidden
                    "Secure unlock requires native OS authentication. Both challenge_token AND native_proof are required. No partial credentials accepted.",
                s,
              ))
      neither true dev local unnamed unproved =
          let (answer, opened, e, store, done) =
            open_window-IsOpened settings "dev_insecure" false clock s in
          rw e (insecure answer opened (ground arith) unnamed dev store done)
      neither false off local unnamed unproved = refused _ s (ground arith) (same clock.check s)

      given_both :
          (token proof : Option String)
          → is_loopback client_host ≡ true
          → is_given token ≡ true
          → is_given proof ≡ true
          → UnlockOutcome client_host token proof clock s
              (perform_unlock settings generated client_host token proof clock s)
      given_both (some token) (some proof) local named proved =
          rw (local, named, proved)
            (with_challenge-Outcome client_host token proof clock s local named proved)
      given_both none proof local named proved = ground arith
      given_both (some token) none local named proved = ground arith
