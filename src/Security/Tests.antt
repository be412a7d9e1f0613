-- ===== src/Security/Tests.antt =====
-- Runs of src/intake/local_console/api/security.py at concrete inputs.
use intake.Prelude.{ℕ, String, refl, Option, none, some, [], ◌∷◌, true, false, arith, eq_iff}
use mathlib.Core.Option.{some-injective}
use intake.Prelude.Dict.{get, put}
use intake.Sync.Unlock.{locked}
use intake.Security.Model.{Settings, SecurityState}
use intake.Security.Unlocking.{UnlockStatus, Clock, get_unlock_challenge, perform_unlock}
use intake.Security.Outcome.{UnlockOutcome, perform_unlock-Outcome}
use intake.Security.Calls.{asks_status, asks_challenge, unlocks, locks, after_calls}
use intake.Security.Secrecy.{IsLocked, after_calls_without_capability}
use intake.Security.SingleUse.{IsForbidden, perform_unlock_single_use}

abbrev settings : Settings
settings = record {
  intake_native_unlock_capability = some "cap";
  intake_challenge_expiry = 300;
  intake_enable_insecure_dev_unlock = false;
  intake_local_unlock_ttl_seconds = 120;
}

abbrev idle : SecurityState
idle = record { challenge_store = []; native_capability = none; auth_window = locked }

abbrev at : ℕ → Clock
at now = record { check = now; opening = now; look = now; test = now; rest = now }

abbrev home : Option String
home = some "127.0.0.1"

abbrev challenged : SecurityState
challenged = (get_unlock_challenge settings "t1" (at 10) idle).1

abbrev opened : UnlockStatus
opened = record {
  is_unlocked = true;
  remaining_seconds = 120;
  unlock_mode = "native_os_auth";
  requires_native_auth = true;
}

perform_unlock-Outcome_example :
    UnlockOutcome settings "gen" home
      (some "t1")
      (some "cap")
      (at 20)
      challenged
      (perform_unlock settings "gen" home (some "t1") (some "cap") (at 20) challenged)
perform_unlock-Outcome_example =
    perform_unlock-Outcome settings "gen" home (some "t1") (some "cap") (at 20) challenged

perform_unlock_single_use_example :
    IsForbidden
      (perform_unlock settings "gen" home (some "t1") (some "cap") (at 40) (
        after_calls settings "gen"
          (asks_status home (at 30) ∷ locks ∷ [])
          (perform_unlock settings "gen" home (some "t1") (some "cap") (at 20) challenged).1)).0
unfolding perform_unlock get_unlock_challenge get put intake.Security.Model.get_native_capability
perform_unlock_single_use_example =
    perform_unlock_single_use settings "gen" "t1" home home (some "cap") (some "cap") (at 20)
      (at 40) (asks_status home (at 30) ∷ locks ∷ []) challenged opened refl refl (tt, (tt, tt))

after_calls_without_capability_example : IsLocked (
    after_calls settings "gen"
      (asks_challenge "t1" (at 10) ∷ unlocks home (some "t1") (some "guess") (at 20) ∷ [])
      idle)
after_calls_without_capability_example =
    after_calls_without_capability settings "gen"
      (asks_challenge "t1" (at 10) ∷ unlocks home (some "t1") (some "guess") (at 20) ∷ []) idle refl
      refl refl
      (tt, ((λ e. ground (arith, some-injective "guess" "cap" e, eq_iff "guess" "cap")), tt))
