-- ===== src/Passkeys/Credentials.antt =====
-- PasskeyRepository of src/intake/storage/repositories.py. The table has no unique column but its
-- primary key, so the methods that select by `credential_id` work on the first row that has it.
use intake.Prelude.{
  ℕ, String, Bool, false, not, ◌&&◌, Option, none, some, List, [], ◌∷◌, is_some, append, keep_if,
  str_eq, if◌then◌else◌,
}
use intake.Prelude.Rows.{first_that}
use intake.Passkeys.Model.{PasskeyCredential, is_active}

abbrev pub has_credential_id : String → PasskeyCredential → Bool
has_credential_id credential_id c = str_eq c.credential_id credential_id

-- `PasskeyRepository.get_credential`
unfoldable pub get_credential : String → List PasskeyCredential → Option PasskeyCredential
unfolding first_that
get_credential credential_id rows = first_that (has_credential_id credential_id) rows

-- `PasskeyRepository.get_active_credentials_by_account`
unfoldable pub get_active_credentials_by_account :
    String → List PasskeyCredential → List PasskeyCredential
unfolding is_active
get_active_credentials_by_account account_id rows =
    keep_if (λ c. str_eq c.account_id account_id && is_active c) rows

-- `PasskeyRepository.create_credential`
unfoldable pub create_credential :
    PasskeyCredential → List PasskeyCredential → List PasskeyCredential
create_credential c rows = append rows (c ∷ [])

-- `model = session.exec(statement).first()`, and a change of that row
unfoldable pub change_first :
    (PasskeyCredential → Bool)
    → (PasskeyCredential → PasskeyCredential)
    → List PasskeyCredential
    → List PasskeyCredential
change_first p f [] = []
change_first p f (c ∷ rows) =
    let rest = change_first p f rows in if p c then f c ∷ rows else c ∷ rest

-- What a login writes to a row, where that is not revoked.
abbrev pub use_credential :
    (new_sign_count now : ℕ)
    → (backup_eligible backup_state : Bool) → PasskeyCredential
    → PasskeyCredential
use_credential new_sign_count now backup_eligible backup_state c =
    if is_some c.revoked_at then c else record c {
      sign_count = new_sign_count;
      last_used_at = some now;
      backup_eligible = backup_eligible;
      backup_state = backup_state;
    }

-- `model and model.revoked_at is None`
abbrev pub is_usable : Option PasskeyCredential → Bool
is_usable none = false
is_usable (some c) = not (is_some c.revoked_at)

-- `PasskeyRepository.update_after_login`, with both of the optional values
unfoldable pub update_after_login :
    String
    → (new_sign_count now : ℕ) → (backup_eligible backup_state : Bool) → List PasskeyCredential
    → Bool × List PasskeyCredential
unfolding get_credential change_first
update_after_login credential_id new_sign_count now backup_eligible backup_state rows = (
  is_usable (get_credential credential_id rows),
  change_first (has_credential_id credential_id)
      (use_credential new_sign_count now backup_eligible backup_state) rows,
)

abbrev pub revoke : (now : ℕ) → PasskeyCredential → PasskeyCredential
revoke now c = record c { revoked_at = some now }

-- `PasskeyRepository.revoke_credential`
unfoldable pub revoke_credential :
    String → (now : ℕ) → List PasskeyCredential → Bool × List PasskeyCredential
unfolding get_credential change_first
revoke_credential credential_id now rows = (
  is_some (get_credential credential_id rows),
  change_first (has_credential_id credential_id) (revoke now) rows,
)
