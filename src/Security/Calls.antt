-- ===== src/Security/Calls.antt =====
-- Sequences of calls of src/intake/local_console/api/security.py.
use intake.Prelude.{String, ◌≡◌, Option, some, List, [], ◌∷◌, All, arith}
use intake.Prelude.Dict.{Dict, get, del, get-del}
use intake.Security.Model.{StoredChallenge, Settings, SecurityState, del_all}
use intake.Security.Unlocking.{
  Clock, get_unlock_status, get_unlock_challenge, perform_unlock, perform_lock,
}
use intake.Security.Capabilities.{get_capabilities}

-- A call, with what it generates and reads.
pub data SecurityCall : Type 0 where
  asks_status : (client_host : Option String) → Clock → SecurityCall
  asks_capabilities : (client_host : Option String) → (user_agent : String) → SecurityCall
  asks_challenge : (token : String) → Clock → SecurityCall
  unlocks : (client_host challenge_token native_proof : Option String) → Clock → SecurityCall
  locks : SecurityCall

module _ (settings : Settings) (generated : String) where
  abbrev pub after_call : SecurityCall → SecurityState → SecurityState
  after_call (asks_status host clock) s = (get_unlock_status host clock s).1
  after_call (asks_capabilities host user_agent) s =
      (get_capabilities settings generated host user_agent s).1
  after_call (asks_challenge token clock) s = (get_unlock_challenge settings token clock s).1
  after_call (unlocks host token proof clock) s =
      (perform_unlock settings generated host token proof clock s).1
  after_call locks s = (perform_lock s).1

  unfoldable pub after_calls : List SecurityCall → SecurityState → SecurityState
  after_calls [] s = s
  after_calls (call ∷ calls) s = after_calls calls (after_call call s)

  -- What every call keeps, all calls keep.
  pub after_calls-kept :
      (P : SecurityState → Type 0) (Q : SecurityCall → Type 0)
      → ((call : SecurityCall) (s : SecurityState) → Q call → P s → P (after_call call s))
      → (calls : List SecurityCall) (s : SecurityState) → All Q calls
      → P s
      → P (after_calls calls s)
  unfolding after_calls
  after_calls-kept P Q step [] s q p = p
  after_calls-kept P Q step (call ∷ calls) s (q, qs) p =
      after_calls-kept P Q step calls (after_call call s) qs (step call s q p)

-- What is left after a clean-up was there before.
pub get-del_all :
    (tokens : List String) (store : Dict StoredChallenge) (k : String) (c : StoredChallenge)
    → get (del_all tokens store) k ≡ some c
    → get store k ≡ some c
unfolding del_all
get-del_all [] store k c h = h
get-del_all (token ∷ tokens) store k c h =
    let rest = get-del_all tokens (del store token) k c h in ground (arith, get-del store token k)
