-- ===== src/Passkeys/SingleUse.antt =====
-- A challenge serves one ceremony: src/intake/services/passkey_service.py over the challenge table
-- of src/intake/storage/repositories.py.
use intake.Prelude.{
  ℕ, String, ◌≡◌, refl, ◌∙◌, Bool, true, false, some, List, [], ◌∷◌, inl, inr, eq_iff, Bool-cases,
  Option-cases, if◌then◌else◌,
}
use intake.Prelude.Rows.{first_that, change_if, first_that-append_found, first_that-change_if}
use intake.Prelude.Http.{HttpException, http}
use intake.Prelude.Result.{Result, err}
use intake.Passkeys.Model.{ChallengeAction, PasskeyChallenge, is_pending_status, same_action, Gate}
use intake.Passkeys.Challenges.{
  has_value, get_by_challenge_value, create, is_consumable, consume, mark_consumed, attempt,
  increment_attempt, expire, invalidate_expired,
}
use intake.Passkeys.Registration.{Answer, find_challenge_for_verification, with_challenge}

-- The challenge of that value, the first where values coincide, is no longer pending.
pub record IsSpent (value : String) (rows : List PasskeyChallenge) : Type 0 where
  pub challenge : PasskeyChallenge
  pub found : first_that (has_value value) rows ≡ some challenge
  pub spent : is_pending_status challenge.status ≡ false

-- A change of rows that leaves values alone and makes no row pending.
change_if-IsSpent :
    (value : String) (q : PasskeyChallenge → Bool) (f : PasskeyChallenge → PasskeyChallenge)
    (rows : List PasskeyChallenge)
    → ((x : PasskeyChallenge) → has_value value (f x) ≡ has_value value x)
    → ((x : PasskeyChallenge)
        → is_pending_status x.status ≡ false
        → is_pending_status (f x).status ≡ false)
    → IsSpent value rows
    → IsSpent value (change_if q f rows)
change_if-IsSpent value q f rows blind stays h = record {
  challenge = if q h.challenge then f h.challenge else h.challenge;
  found = first_that-change_if (has_value value) q f rows h.challenge (λ x e. blind x) h.found;
  spent = elim (Bool-cases (q h.challenge)) [
    | inl e ↦ rw e (stays h.challenge h.spent)
    | inr e ↦ rw e h.spent
  ];
}

pub mark_consumed-IsSpent :
    (value id : String) (now : ℕ) (rows : List PasskeyChallenge)
    → IsSpent value rows
    → IsSpent value (mark_consumed id now rows).1
unfolding mark_consumed
mark_consumed-IsSpent value id now rows h =
    change_if-IsSpent value _ (consume now) rows (λ x. refl) (λ x e. refl) h

pub increment_attempt-IsSpent :
    (value id : String) (rows : List PasskeyChallenge)
    → IsSpent value rows
    → IsSpent value (increment_attempt id rows).1
unfolding increment_attempt
increment_attempt-IsSpent value id rows h =
    change_if-IsSpent value _ attempt rows (λ x. refl) (λ x e. e) h

pub invalidate_expired-IsSpent :
    (value : String) (now : ℕ) (rows : List PasskeyChallenge)
    → IsSpent value rows
    → IsSpent value (invalidate_expired now rows).1
unfolding invalidate_expired
invalidate_expired-IsSpent value now rows h =
    change_if-IsSpent value _ expire rows (λ x. refl) (λ x e. refl) h

pub create-IsSpent :
    (value : String) (c : PasskeyChallenge) (rows : List PasskeyChallenge)
    → IsSpent value rows
    → IsSpent value (create c rows)
unfolding create
create-IsSpent value c rows h = record {
  challenge = h.challenge;
  found = first_that-append_found (has_value value) rows (c ∷ []) h.challenge h.found;
  spent = h.spent;
}

-- A pending challenge that is found is spent when it is marked.
pub mark_consumed_spends :
    (value : String) (now : ℕ) (rows : List PasskeyChallenge) (c : PasskeyChallenge)
    → first_that (has_value value) rows ≡ some c
    → is_pending_status c.status ≡ true
    → IsSpent value (mark_consumed c.id now rows).1
unfolding mark_consumed
mark_consumed_spends value now rows c found open_ = record {
  challenge = consume now c;
  found =
      first_that-change_if (has_value value) (is_consumable c.id) (consume now) rows c (λ x e. refl)
        found
      ∙ rw ((eq_iff c.id c.id).1 refl, open_) refl;
  spent = refl;
}

-- The challenge that a ceremony works with is the first of its value.
pub find_challenge-eq :
    (value : String) (action : ChallengeAction) (rows : List PasskeyChallenge)
    (c : PasskeyChallenge)
    → find_challenge_for_verification value action rows ≡ some c
    → first_that (has_value value) rows ≡ some c
unfolding find_challenge_for_verification get_by_challenge_value
find_challenge-eq value action rows c e = elim (Option-cases (first_that (has_value value) rows)) [
  | inl gone ↦ let no_way = rw gone at e in cc no_way
  | inr (x, there) ↦ elim (Bool-cases (same_action x.action action)) [
    | inr other ↦ let no_way = rw (there, other) at e in cc no_way
    | inl same ↦ there ∙ rw (there, same) at e
  ]
]

-- An answer with an error and no change.
abbrev pub IsRefused : {A : Type 0} → Gate → Result HttpException A × Gate → Type 0
IsRefused g answer = (detail : String) × (answer ≡ (err (http 400 detail), g))

pub with_challenge-IsRefused :
    {A : Type 0} (value : String) (action : ChallengeAction) (now consumed_at : ℕ)
    (k : PasskeyChallenge → Answer A) (g : Gate)
    → IsSpent value g.challenges
    → IsRefused g (
        with_challenge
          (find_challenge_for_verification value action g.challenges)
          now
          consumed_at
          k
          g)
unfolding find_challenge_for_verification get_by_challenge_value
with_challenge-IsRefused value action now consumed_at k g h =
    elim (Bool-cases (same_action h.challenge.action action)) [
      | inr other ↦ ("Invalid or missing challenge", rw (h.found, other) refl)
      | inl same ↦ ("Challenge already used or expired", rw (h.found, same, h.spent) refl)
    ]
