-- ===== src/Security/Model.antt =====
-- Challenges and the native capability of src/intake/local_console/api/security.py. Texts that are
-- generated, and the times that are read, are arguments.
use intake.Prelude.{
  ℕ, ◌+◌, String, Bool, false, not, Option, none, some, List, [], ◌∷◌, map, length, keep_if, ltb,
  str_eq, if◌then◌else◌,
}
use intake.Prelude.Text.{is_empty}
use intake.Prelude.Dict.{Dict, put, del}
use intake.Sync.Unlock.{LocalAuthorizationWindow}

-- An entry of `_challenge_store`
pub record StoredChallenge : Type 0 where
  pub created_at : ℕ
  pub expires_at : ℕ
  pub consumed : Bool

-- The settings that are read.
pub record Settings : Type 0 where
  pub intake_native_unlock_capability : Option String
  pub intake_challenge_expiry : ℕ
  pub intake_enable_insecure_dev_unlock : Bool
  pub intake_local_unlock_ttl_seconds : ℕ

-- The module's variables, and the authorization window.
pub record SecurityState : Type 0 where
  pub challenge_store : Dict StoredChallenge
  pub native_capability : Option String
  pub auth_window : LocalAuthorizationWindow

-- `if text`
abbrev pub is_given : Option String → Bool
is_given none = false
is_given (some text) = not (is_empty text)

abbrev pub given_or : Option String → String → String
given_or none other = other
given_or (some text) other = if is_empty text then other else text

abbrev pub cached_or : Option String → String → String
cached_or none other = other
cached_or (some text) other = text

-- `_get_native_capability`, with the text that token_hex would generate: the cached capability, or
-- the configured one, or the generated one, which is then cached.
unfoldable pub get_native_capability :
    Settings → (generated : String) → SecurityState → String × SecurityState
get_native_capability settings generated s =
    let capability =
      cached_or s.native_capability (given_or settings.intake_native_unlock_capability generated) in
    (capability, record s { native_capability = some capability })

-- `_generate_challenge`
unfoldable pub generate_challenge :
    (token : String) (expiry_seconds now : ℕ) → SecurityState → ℕ × SecurityState
generate_challenge token expiry_seconds now s = (
  now + expiry_seconds,
  record s {
    challenge_store =
        put s.challenge_store token
          (record { created_at = now; expires_at = now + expiry_seconds; consumed = false });
  },
)

-- `_validate_native_proof`
abbrev pub validate_native_proof :
    Settings
    → (generated : String) → (native_proof : Option String) → SecurityState
    → Bool × SecurityState
validate_native_proof settings generated none s = (false, s)
validate_native_proof settings generated (some native_proof) s =
    let (capability, s') = get_native_capability settings generated s in
    (str_eq capability native_proof, s')

-- The entries of the tokens go.
unfoldable pub del_all : List String → Dict StoredChallenge → Dict StoredChallenge
unfolding del
del_all [] store = store
del_all (token ∷ tokens) store = del_all tokens (del store token)

abbrev pub expired_tokens : ℕ → Dict StoredChallenge → List String
expired_tokens now store =
    map (λ entry. entry.0) (keep_if (λ entry. ltb entry.1.expires_at now) store)

-- `_cleanup_expired_challenges`
unfoldable pub cleanup_expired_challenges : (now : ℕ) → SecurityState → ℕ × SecurityState
unfolding del_all
cleanup_expired_challenges now s =
    let tokens = expired_tokens now s.challenge_store in
    (length tokens, record s { challenge_store = del_all tokens s.challenge_store })
