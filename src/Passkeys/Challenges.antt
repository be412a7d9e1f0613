-- ===== src/Passkeys/Challenges.antt =====
-- ChallengeRepository of src/intake/storage/repositories.py, and the making of challenges of
-- src/intake/domain/passkeys.py. Identifiers and values of challenges are arguments.
use intake.Prelude.{
  ℕ, suc, ◌+◌, ◌-◌, String, Bool, false, ◌&&◌, Option, none, some, List, [], ◌∷◌, is_some, length,
  append, keep_if, ltb, str_eq,
}
use intake.Prelude.Rows.{first_that, change_if}
use intake.Passkeys.Model.{
  ChallengeAction, pending, consumed, expired, PasskeyChallenge, is_pending_status,
}

-- `PasskeyChallenge.is_valid`
unfoldable pub is_valid : (intake_challenge_expiry : ℕ) → PasskeyChallenge → (now : ℕ) → Bool
is_valid intake_challenge_expiry c now =
    is_pending_status c.status
    && ltb now c.expires_at
    && ltb (now - c.created_at) intake_challenge_expiry

-- What is generated for a new challenge.
pub record ChallengeStamp : Type 0 where
  pub id : String
  pub challenge : String
  pub created_at : ℕ
  pub starts_at : ℕ

-- `create_registration_challenge` and `create_authentication_challenge`, with the default expiry
unfoldable pub new_challenge :
    ChallengeAction
    → (rp_id origin : String) → (account_id : Option String) → (expiry_seconds : ℕ) → ChallengeStamp
    → PasskeyChallenge
new_challenge action rp_id origin account_id expiry_seconds stamp = record {
  id = stamp.id;
  challenge = stamp.challenge;
  rp_id = rp_id;
  origin = origin;
  action = action;
  status = pending;
  created_at = stamp.created_at;
  expires_at = stamp.starts_at + expiry_seconds;
  consumed_at = none;
  attempt_count = 0;
  account_id = account_id;
}

abbrev pub has_id : String → PasskeyChallenge → Bool
has_id challenge_id c = str_eq c.id challenge_id

abbrev pub has_value : String → PasskeyChallenge → Bool
has_value value c = str_eq c.challenge value

-- `ChallengeRepository.get_by_challenge_value`
unfoldable pub get_by_challenge_value : String → List PasskeyChallenge → Option PasskeyChallenge
unfolding first_that
get_by_challenge_value value rows = first_that (has_value value) rows

abbrev pub is_for : String → Option String → Bool
is_for account_id none = false
is_for account_id (some a) = str_eq a account_id

-- `ChallengeRepository.get_pending_by_account`
unfoldable pub get_pending_by_account :
    String → (now : ℕ) → List PasskeyChallenge → List PasskeyChallenge
get_pending_by_account account_id now rows =
    keep_if
      (λ c. is_for account_id c.account_id && is_pending_status c.status && ltb now c.expires_at)
      rows

-- `ChallengeRepository.create`
unfoldable pub create : PasskeyChallenge → List PasskeyChallenge → List PasskeyChallenge
create c rows = append rows (c ∷ [])

-- The row with the identifier, where it is pending.
abbrev pub is_consumable : String → PasskeyChallenge → Bool
is_consumable challenge_id c = str_eq c.id challenge_id && is_pending_status c.status

abbrev pub consume : (now : ℕ) → PasskeyChallenge → PasskeyChallenge
consume now c = record c { status = consumed; consumed_at = some now }

-- `ChallengeRepository.mark_consumed`
unfoldable pub mark_consumed :
    String → (now : ℕ) → List PasskeyChallenge → Bool × List PasskeyChallenge
unfolding first_that change_if
mark_consumed challenge_id now rows = (
  is_some (first_that (is_consumable challenge_id) rows),
  change_if (is_consumable challenge_id) (consume now) rows,
)

abbrev pub attempt : PasskeyChallenge → PasskeyChallenge
attempt c = record c { attempt_count = suc c.attempt_count }

-- `ChallengeRepository.increment_attempt`
unfoldable pub increment_attempt : String → List PasskeyChallenge → Bool × List PasskeyChallenge
unfolding first_that change_if
increment_attempt challenge_id rows =
    (is_some (first_that (has_id challenge_id) rows), change_if (has_id challenge_id) attempt rows)

-- The clauses of the bulk update.
abbrev pub is_stale : (now : ℕ) → PasskeyChallenge → Bool
is_stale now c = is_pending_status c.status && ltb c.expires_at now

abbrev pub expire : PasskeyChallenge → PasskeyChallenge
expire c = record c { status = expired }

-- `ChallengeRepository.invalidate_expired`
unfoldable pub invalidate_expired : (now : ℕ) → List PasskeyChallenge → ℕ × List PasskeyChallenge
unfolding change_if
invalidate_expired now rows =
    (length (keep_if (is_stale now) rows), change_if (is_stale now) expire rows)
