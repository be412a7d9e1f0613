-- ===== src/Security/SingleUse.antt =====
-- A challenge unlocks once: src/intake/local_console/api/security.py.
use intake.Prelude.{
  String, ◌≡◌, refl, true, false, Option, some, List, All, inl, inr, ◌≢◌, arith, Bool-cases, str_eq,
  eq_iff,
}
use intake.Prelude.Dict.{get, put, get-put, get-put_self}
use intake.Prelude.Http.{HttpException}
use intake.Prelude.Result.{Result, ok}
use intake.Security.Model.{
  StoredChallenge, Settings, SecurityState, is_given, get_native_capability, generate_challenge,
  cleanup_expired_challenges, expired_tokens,
}
use intake.Security.Unlocking.{
  UnlockStatus, Clock, forbidden, is_loopback, show_window, open_window, text_of, get_unlock_status,
  get_unlock_challenge, perform_unlock, perform_lock,
}
use intake.Security.Capabilities.{get_capabilities}
use intake.Security.Outcome.{UnlockOutcome, proven, insecure, refused, perform_unlock-Outcome}
use intake.Security.Calls.{
  SecurityCall, asks_status, asks_capabilities, asks_challenge, unlocks, locks, after_call,
  after_calls, after_calls-kept, get-del_all,
}

-- The request is refused with status 403.
abbrev pub IsForbidden {ℓ} : {A : Type ℓ} → Result HttpException A → Type ℓ
IsForbidden r = (detail : String) × (r ≡ forbidden detail)

-- The challenge of the token, if it is still there, has been used.
record IsSpent (token : String) (s : SecurityState) : Type 0 where
  used : (c : StoredChallenge) → get s.challenge_store token ≡ some c → c.consumed ≡ true

-- The call does not generate the token.
abbrev pub Unlike : String → SecurityCall → Type 0
Unlike token (asks_challenge fresh clock) = fresh ≢ token
Unlike token _ = Unit {0}

consumed-IsSpent :
    (token other : String) (c : StoredChallenge) (s s' : SecurityState)
    → s'.challenge_store ≡ put s.challenge_store other (record c { consumed = true })
    → IsSpent token s
    → IsSpent token s'
consumed-IsSpent token other c s s' e h = record {
  used = λ d found. elim (Bool-cases (str_eq other token)) [
    | inl same ↦ let there = rw (e, get-put, same) at found in ground arith
    | inr apart ↦ h.used d (rw (e, get-put, apart) at found)
  ];
}

module _ (settings : Settings) (generated : String) where
  outcome-IsSpent :
      (spent : String) (host token proof : Option String) (clock : Clock) (s : SecurityState)
      → IsSpent spent s
      → (r : Result HttpException UnlockStatus × SecurityState)
      → UnlockOutcome settings generated host token proof clock s r
      → IsSpent spent r.1
  unfolding open_window show_window get_native_capability
  outcome-IsSpent spent host token proof clock s h r
        (proven challenge answer s' admitted found store done) =
      consumed-IsSpent spent (text_of settings generated token) challenge s s' store h
  outcome-IsSpent spent host token proof clock s h r
        (insecure answer s' admitted unnamed dev store done) =
      record { used = λ c found. h.used c (rw store at found) }
  outcome-IsSpent spent host token proof clock s h r (refused detail s' unadmitted kept) =
      elim kept.challenges [
        | inl same ↦ record { used = λ c found. h.used c (rw same at found) }
        | inr (other, c, found, over, changed) ↦ consumed-IsSpent spent other c s s' changed h
      ]

  call-IsSpent :
      (spent : String) (call : SecurityCall) (s : SecurityState)
      → Unlike spent call
      → IsSpent spent s
      → IsSpent spent (after_call settings generated call s)
  unfolding get_unlock_status get_unlock_challenge get_capabilities perform_lock
      cleanup_expired_challenges show_window generate_challenge
  call-IsSpent spent (asks_status host clock) s unlike h = elim (Bool-cases (is_loopback host)) [
    | inr remote ↦ rw (after_call, remote) h
    | inl local ↦
        rw (after_call, local)
          (record {
            used = λ c found. h.used c (
                get-del_all (expired_tokens clock.check s.challenge_store) s.challenge_store spent c
                  found);
          })
  ]
  call-IsSpent spent (asks_capabilities host user_agent) s unlike h =
      elim (Bool-cases (is_loopback host)) [
        | inr remote ↦ rw (after_call, remote) h
        | inl local ↦ rw (after_call, local) (record { used = h.used })
      ]
  call-IsSpent spent (asks_challenge fresh clock) s unlike h = record {
    used = λ c found.
        let s' = (generate_challenge fresh settings.intake_challenge_expiry clock.opening s).1 in
        let there =
          get-del_all (expired_tokens clock.check s'.challenge_store) s'.challenge_store spent c
            found in
        let other : str_eq fresh spent ≡ false = ground (arith, eq_iff fresh spent) in
        h.used c (rw (get-put, other) at there);
  }
  call-IsSpent spent (unlocks host token proof clock) s unlike h =
      outcome-IsSpent spent host token proof clock s h _
        (perform_unlock-Outcome settings generated host token proof clock s)
  call-IsSpent spent locks s unlike h = record { used = h.used }

  -- A token that has been used unlocks nothing.
  spent-IsForbidden :
      (token : String) (host proof : Option String) (clock : Clock) (s : SecurityState)
      → is_given (some token) ≡ true
      → IsSpent token s
      → (r : Result HttpException UnlockStatus × SecurityState)
      → UnlockOutcome settings generated host (some token) proof clock s r
      → IsForbidden r.0
  spent-IsForbidden token host proof clock s named h r
        (proven challenge answer s' admitted found store done) =
      let used = h.used challenge found in ground arith
  spent-IsForbidden token host proof clock s named h r
        (insecure answer s' admitted unnamed dev store done) =
      ground arith
  spent-IsForbidden token host proof clock s named h r (refused detail s' unadmitted kept) =
      (detail, refl)

  accepted-IsSpent :
      (token : String) (host proof : Option String) (clock : Clock) (s : SecurityState)
      (status : UnlockStatus)
      → is_given (some token) ≡ true
      → (r : Result HttpException UnlockStatus × SecurityState) → r.0 ≡ ok status
      → UnlockOutcome settings generated host (some token) proof clock s r
      → IsSpent token r.1
  unfolding open_window show_window get_native_capability
  accepted-IsSpent token host proof clock s status named r e
        (proven challenge answer s' admitted found store done) =
      record { used = λ c there. let same = rw (store, get-put_self) at there in ground arith }
  accepted-IsSpent token host proof clock s status named r e
        (insecure answer s' admitted unnamed dev store done) =
      ground arith
  accepted-IsSpent token host proof clock s status named r e (refused detail s' unadmitted kept) =
      ground arith

  -- A challenge that has unlocked the window unlocks it no more: after any further calls, none of
  -- which generates the same token, every request with the token is refused with status 403,
  -- whatever proof it shows.
  pub perform_unlock_single_use :
      (token : String) (host host' proof proof' : Option String) (clock clock' : Clock)
      (calls : List SecurityCall) (s : SecurityState) (status : UnlockStatus)
      → is_given (some token) ≡ true
      → (perform_unlock settings generated host (some token) proof clock s).0 ≡ ok status
      → All (Unlike token) calls
      → IsForbidden
          (perform_unlock settings generated host' (some token) proof' clock' (
            after_calls settings generated calls
              (perform_unlock settings generated host (some token) proof clock s).1)).0
  perform_unlock_single_use token host host' proof proof' clock clock' calls s status named accepted
        unlike =
      let spent =
        accepted-IsSpent token host proof clock s status named _ accepted
          (perform_unlock-Outcome settings generated host (some token) proof clock s) in
      let later =
        after_calls-kept settings generated (IsSpent token) (Unlike token) (call-IsSpent token)
          calls _ unlike spent in
      spent-IsForbidden token host' proof' clock' _ named later _
        (perform_unlock-Outcome settings generated host' (some token) proof' clock' _)
