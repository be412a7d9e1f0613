-- ===== src/Sync/Unlock.antt =====
-- The authorization window of the local console: src/intake/local_console/security/unlock.py.
use intake.Prelude.{ℕ, ◌+◌, ◌-◌, Bool, true, false, Option, none, some, ltb, if◌then◌else◌}

-- LocalAuthorizationWindow: `_unlocked_until`
pub record LocalAuthorizationWindow : Type 0 where
  pub unlocked_until : Option ℕ

abbrev pub locked : LocalAuthorizationWindow
locked = record { unlocked_until = none }

-- `unlock`: the expiry, and the window
unfoldable pub unlock :
    (intake_local_unlock_ttl_seconds now : ℕ)
    → LocalAuthorizationWindow
    → ℕ × LocalAuthorizationWindow
unlock ttl now w = (now + ttl, record w { unlocked_until = some (now + ttl) })

-- `lock`
unfoldable pub lock : LocalAuthorizationWindow → LocalAuthorizationWindow
lock w = record w { unlocked_until = none }

abbrev pub open_until :
    Option ℕ → (now : ℕ) → LocalAuthorizationWindow → Bool × LocalAuthorizationWindow
unfolding lock
open_until none now w = (false, w)
open_until (some until) now w = if ltb until now then (false, lock w) else (true, w)

-- `is_unlocked`
unfoldable pub is_unlocked : (now : ℕ) → LocalAuthorizationWindow → Bool × LocalAuthorizationWindow
unfolding lock
is_unlocked now w = open_until w.unlocked_until now w

abbrev pub left : Option ℕ → (now : ℕ) → ℕ
left none now = 0
left (some until) now = until - now

-- `remaining_seconds`, which reads the clock once for the test and once more
unfoldable pub remaining_seconds :
    (now then_ : ℕ) → LocalAuthorizationWindow → ℕ × LocalAuthorizationWindow
unfolding is_unlocked
remaining_seconds now then_ w =
    let (is_open, w') = is_unlocked now w in
    if is_open then (left w'.unlocked_until then_, w') else (0, w')
