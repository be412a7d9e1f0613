-- ===== src/Security/Secrecy.antt =====
-- Without the capability the window stays shut: src/intake/local_console/api/security.py.
use intake.Prelude.{
  String, ◌≡◌, refl, sym, ap, ◌∙◌, true, false, ◌&&◌, Option, none, some, List, All, inl, inr, ◌≢◌,
  arith, Bool-cases, str_eq, eq_iff,
}
use intake.Prelude.Http.{HttpException}
use intake.Prelude.Result.{Result}
use intake.Security.Model.{Settings, SecurityState, is_given, given_or, get_native_capability}
use intake.Security.Unlocking.{
  UnlockStatus, Clock, is_loopback, show_window, text_of, get_unlock_status, get_unlock_challenge,
  perform_lock,
}
use intake.Security.Capabilities.{get_capabilities}
use intake.Security.Outcome.{
  secret, UnlockOutcome, proven, insecure, refused, perform_unlock-Outcome,
}
use intake.Security.Calls.{
  SecurityCall, asks_status, asks_capabilities, asks_challenge, unlocks, locks, after_call,
  after_calls, after_calls-kept,
}

abbrev pub IsLocked : SecurityState → Type 0
IsLocked s = s.auth_window.unlocked_until ≡ none

module _ (settings : Settings) (generated : String) where
  -- The capability of the process: the configured one, or the one that is generated.
  abbrev pub process_capability : String
  process_capability = given_or settings.intake_native_unlock_capability generated

  -- The call does not show the capability.
  abbrev pub Unknowing : SecurityCall → Type 0
  Unknowing (unlocks host token proof clock) = proof ≢ some process_capability
  Unknowing _ = Unit {0}

  record IsShut (s : SecurityState) : Type 0 where
    shut : IsLocked s
    known : secret settings generated s ≡ process_capability

  proof_shown :
      (proof : Option String) (capability : String)
      → is_given proof ≡ true
      → str_eq capability (text_of settings generated proof) ≡ true
      → proof ≡ some capability
  proof_shown (some proof) capability given same = ap some (sym ((eq_iff capability proof).0 same))
  proof_shown none capability given same = ground arith

  outcome-IsShut :
      (host token proof : Option String) (clock : Clock) (s : SecurityState)
      → settings.intake_enable_insecure_dev_unlock ≡ false
      → proof ≢ some process_capability
      → IsShut s
      → (r : Result HttpException UnlockStatus × SecurityState)
      → UnlockOutcome settings generated host token proof clock s r
      → IsShut r.1
  outcome-IsShut host token proof clock s off unknown h r
        (proven challenge answer s' admitted found store done) =
      elim (Bool-cases (is_given token && is_given proof)) [
        | inr lacking ↦ ground arith
        | inl both ↦
            let proved : is_given proof ≡ true = ground arith in
            let right : str_eq (secret settings generated s) (text_of settings generated proof)
                ≡ true =
              ground arith in
            let shown = proof_shown proof _ proved right in
            absurd (unknown (shown ∙ ap some h.known))
      ]
  outcome-IsShut host token proof clock s off unknown h r
        (insecure answer s' admitted unnamed dev store done) =
      ground arith
  outcome-IsShut host token proof clock s off unknown h r (refused detail s' unadmitted kept) =
      record {
        shut = ap (λ w. w.unlocked_until) kept.window ∙ h.shut;
        known = kept.capability ∙ h.known;
      }

  call-IsShut :
      settings.intake_enable_insecure_dev_unlock ≡ false
      → (call : SecurityCall) (s : SecurityState) → Unknowing call
      → IsShut s
      → IsShut (after_call settings generated call s)
  unfolding show_window get_unlock_status get_unlock_challenge get_capabilities perform_lock
  call-IsShut off (asks_status host clock) s unknowing h = elim (Bool-cases (is_loopback host)) [
    | inr remote ↦ rw (after_call, remote) h
    | inl local ↦ rw (after_call, local) (record { shut = rw h.shut refl; known = h.known })
  ]
  call-IsShut off (asks_capabilities host user_agent) s unknowing h =
      elim (Bool-cases (is_loopback host)) [
        | inr remote ↦ rw (after_call, remote) h
        | inl local ↦ rw (after_call, local) (record { shut = h.shut; known = h.known })
      ]
  call-IsShut off (asks_challenge token clock) s unknowing h = record {
    shut = h.shut;
    known = h.known;
  }
  call-IsShut off (unlocks host token proof clock) s unknowing h =
      outcome-IsShut host token proof clock s off unknowing h _
        (perform_unlock-Outcome settings generated host token proof clock s)
  call-IsShut off locks s unknowing h = record { shut = refl; known = h.known }

  -- Where insecure unlocking is off, no calls open the window as long as none of them shows the
  -- process's capability, whatever challenges they use.
  pub after_calls_without_capability :
      (calls : List SecurityCall) (s : SecurityState)
      → settings.intake_enable_insecure_dev_unlock ≡ false
      → s.native_capability ≡ none
      → IsLocked s
      → All Unknowing calls
      → IsLocked (after_calls settings generated calls s)
  unfolding get_native_capability
  after_calls_without_capability calls s off fresh shut unknowing =
      (after_calls-kept settings generated IsShut Unknowing (call-IsShut off) calls s unknowing
        (record { shut = shut; known = rw fresh refl })).shut
