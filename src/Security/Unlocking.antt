-- ===== src/Security/Unlocking.antt =====
-- The endpoints that show, open and close the authorization window:
-- src/intake/local_console/api/security.py. The body of a request is its fields.
use intake.Prelude.{
  ℕ, String, Bool, true, false, not, ◌&&◌, Option, none, some, [], ◌∷◌, contains, ltb,
  if◌then◌else◌,
}
use intake.Prelude.Dict.{get, put}
use intake.Prelude.Http.{HttpException, http}
use intake.Prelude.Result.{Result, ok, err, Exec}
use intake.Sync.Unlock.{unlock, lock, is_unlocked, remaining_seconds}
use intake.Security.Model.{
  StoredChallenge, Settings, SecurityState, is_given, validate_native_proof, generate_challenge,
  cleanup_expired_challenges,
}

pub record UnlockStatus : Type 0 where
  pub is_unlocked : Bool
  pub remaining_seconds : ℕ
  pub unlock_mode : String
  pub requires_native_auth : Bool

pub record UnlockChallenge : Type 0 where
  pub challenge_token : String
  pub expires_at : ℕ
  pub requires_native_proof : Bool

-- The times that a call reads: for the challenge, for the opening, and for the answer.
pub record Clock : Type 0 where
  pub check : ℕ
  pub opening : ℕ
  pub look : ℕ
  pub test : ℕ
  pub rest : ℕ

abbrev pub Reply : Type 0 → Type 0
Reply = Exec SecurityState HttpException

abbrev pub forbidden {ℓ} : {A : Type ℓ} → String → Result HttpException A
forbidden detail = err (http 403 detail)

-- `client_host in ["127.0.0.1", "::1", "localhost", "testclient"]`
abbrev pub is_loopback : Option String → Bool
is_loopback none = false
is_loopback (some host) = contains ("127.0.0.1" ∷ "::1" ∷ "localhost" ∷ "testclient" ∷ []) host

-- The answer on a window, which is closed when it is found to be past its time.
unfoldable pub show_window :
    (unlock_mode : String)
    → (requires_native_auth : Bool) → Clock
    → SecurityState
    → UnlockStatus × SecurityState
unfolding is_unlocked remaining_seconds
show_window unlock_mode requires_native_auth clock s =
    let (is_open, w) = is_unlocked clock.look s.auth_window in
    let (remaining, w') = remaining_seconds clock.test clock.rest w in
    (
      record {
        is_unlocked = is_open;
        remaining_seconds = remaining;
        unlock_mode = unlock_mode;
        requires_native_auth = requires_native_auth;
      },
      record s { auth_window = w' },
    )

-- `get_unlock_status`, which tests the window once more, for the mode
unfoldable pub get_unlock_status : (client_host : Option String) → Clock → Reply UnlockStatus
unfolding cleanup_expired_challenges is_unlocked show_window
get_unlock_status client_host clock s =
    if not (is_loopback client_host)
    then (forbidden "Status check only permitted from loopback", s)
    else let (_, s') = cleanup_expired_challenges clock.check s in
      let (is_open, w) = is_unlocked clock.opening s'.auth_window in
      let (answer, s'') =
        show_window (if is_open then "native_os_auth" else "none") true clock
          (record s' { auth_window = w }) in
      (ok answer, s'')

-- `get_unlock_challenge`, with the generated token
unfoldable pub get_unlock_challenge :
    Settings → (token : String) → Clock → SecurityState → UnlockChallenge × SecurityState
unfolding generate_challenge cleanup_expired_challenges
get_unlock_challenge settings token clock s =
    let (expires_at, s') =
      generate_challenge token settings.intake_challenge_expiry clock.opening s in
    let (_, s'') = cleanup_expired_challenges clock.check s' in
    (record { challenge_token = token; expires_at = expires_at; requires_native_proof = true }, s'')

-- `challenge["consumed"] = True`
abbrev pub consume : String → StoredChallenge → SecurityState → SecurityState
consume token challenge s = record s {
  challenge_store = put s.challenge_store token (record challenge { consumed = true });
}

-- The window is opened, and shown.
unfoldable pub open_window :
    Settings → (unlock_mode : String) → (requires_native_auth : Bool) → Clock → Reply UnlockStatus
unfolding unlock show_window
open_window settings unlock_mode requires_native_auth clock s =
    let (_, w) = unlock settings.intake_local_unlock_ttl_seconds clock.opening s.auth_window in
    let (answer, s') =
      show_window unlock_mode requires_native_auth clock (record s { auth_window = w }) in
    (ok answer, s')

module _ (settings : Settings) (generated : String) where
  -- What follows the validation of the proof.
  abbrev pub after_proof :
      Bool × SecurityState → (token : String) → StoredChallenge → Clock → Reply UnlockStatus
  after_proof (valid, s') token challenge clock s =
      if not valid
      then (
        forbidden "Native capability proof validation failed. Native capability confirmed: no.",
        s',
      )
      else open_window settings "native_os_auth" true clock (consume token challenge s')

  abbrev pub with_challenge :
      Option StoredChallenge
      → (token : String) → (proof : Option String) → Clock
      → Reply UnlockStatus
  with_challenge none token proof clock s = (forbidden "Invalid or expired challenge token", s)
  with_challenge (some challenge) token proof clock s =
      if ltb challenge.expires_at clock.check
      then (forbidden "Challenge token expired", consume token challenge s)
      else if challenge.consumed
      then (forbidden "Challenge token already used", s)
      else after_proof (validate_native_proof settings generated proof s) token challenge clock s

  abbrev pub text_of : Option String → String
  text_of none = ""
  text_of (some text) = text

  -- `perform_unlock`
  unfoldable pub perform_unlock :
      (client_host challenge_token native_proof : Option String) → Clock → Reply UnlockStatus
  unfolding get open_window put
  perform_unlock client_host challenge_token native_proof clock s =
      if not (is_loopback client_host)
      then (forbidden "Unlock only permitted from loopback", s)
      else if is_given challenge_token && not (is_given native_proof)
      then (
        forbidden
            "Native proof is required alongside challenge token. Challenge alone is insufficient.",
        s,
      )
      else if is_given native_proof && not (is_given challenge_token)
      then (
        forbidden
            "Challenge token is required alongside native proof. Proof alone is insufficient.",
        s,
      )
      else if is_given challenge_token && is_given native_proof
      then with_challenge (get s.challenge_store (text_of challenge_token))
          (text_of challenge_token) native_proof clock s
      else if settings.intake_enable_insecure_dev_unlock
      then open_window settings "dev_insecure" false clock s
      else (
        forbidden
            "Secure unlock requires native OS authentication. Both challenge_token AND native_proof are required. No partial credentials accepted.",
        s,
      )

-- `perform_lock`
unfoldable pub perform_lock : SecurityState → UnlockStatus × SecurityState
unfolding lock
perform_lock s = (
  record {
    is_unlocked = false;
    remaining_seconds = 0;
    unlock_mode = "none";
    requires_native_auth = true;
  },
  record s { auth_window = lock s.auth_window },
)
