-- ===== src/Auth/Verification.antt =====
-- What a code verifies: src/intake/services/email_verification_service.py.
use intake.Prelude.{
  ℕ, String, ◌≡◌, refl, sym, ap, ◌∙◌, false, ◌&&◌, some, List, [], ◌∷◌, inl, inr, Bool-cases,
  Option-cases, str_eq, All, Bool, arith, not, is_some, ltb,
}
use mathlib.Core.Option.{some-injective}
use intake.Prelude.Text.{lower, strip}
use intake.Prelude.Result.{ok}
use intake.Quotes.Model.{Account, EncryptedPayload}
use intake.Auth.Codes.{
  EmailVerificationCode, can_attempt, Mailroom, normalize_email, hash_email,
  get_active_by_email_hash, target_of, try_codes, codes_for, verify_code,
}

-- A code that the given one may not verify.
abbrev pub IsNoUse : String → ℕ → EmailVerificationCode → Type 0
IsNoUse code_hash at c = (str_eq c.code_hash code_hash && can_attempt c at) ≡ false

module _ (sha256 : String → String) (encrypt_json : String → EncryptedPayload)
    (code_ttl_seconds max_attempts : ℕ) where
  target_of-IsNoUse :
      (hash : String) (at : ℕ) (codes : List EmailVerificationCode) (c : EmailVerificationCode)
      → All (IsNoUse hash at) codes
      → target_of sha256 encrypt_json code_ttl_seconds max_attempts hash codes ≡ some c
      → can_attempt c at ≡ false
  unfolding target_of
  target_of-IsNoUse hash at [] c h e = cc e
  target_of-IsNoUse hash at (x ∷ codes) c h e = elim (Bool-cases (str_eq x.code_hash hash)) [
    | inr other ↦ target_of-IsNoUse hash at codes c h.1 (rw other at e)
    | inl match ↦
        let same = some-injective x c (rw match at e) in
        ap (λ y. can_attempt y at) (sym same) ∙ rw match at h.0
  ]

  try_codes_no_use :
      (codes : List EmailVerificationCode) (hash account_id : String)
      (tried_at consumed_at verified_at : ℕ) (m : Mailroom)
      → All (IsNoUse hash tried_at) codes
      → ((try_codes sha256 encrypt_json code_ttl_seconds max_attempts codes hash account_id tried_at
            consumed_at verified_at m).0
          ≡ ok false)
        × ((try_codes sha256 encrypt_json code_ttl_seconds max_attempts codes hash account_id
              tried_at consumed_at verified_at m).1.accounts
            ≡ m.accounts)
  try_codes_no_use [] hash account_id tried_at consumed_at verified_at m h = (refl, refl)
  try_codes_no_use (c ∷ codes) hash account_id tried_at consumed_at verified_at m h =
      elim (Option-cases
        (target_of sha256 encrypt_json code_ttl_seconds max_attempts hash (c ∷ codes))) [
          | inl missing ↦ rw missing (refl, refl)
          | inr (x, found) ↦
              rw (found, target_of-IsNoUse hash tried_at (c ∷ codes) x h found) (refl, refl)
        ]

  -- A row that the call can verify: of that account and address, not consumed, not expired at
  -- either reading of the clock, of the code's digest, and with attempts left.
  abbrev pub verifies :
      (now tried_at : ℕ) → (account_id email code : String) → EmailVerificationCode → Bool
  verifies now tried_at account_id email code c =
      str_eq c.account_id account_id
      && str_eq c.email_hash (sha256 (lower (strip (lower (strip email)))))
      && not (is_some c.consumed_at)
      && ltb now c.expires_at
      && not (ltb c.expires_at tried_at)
      && str_eq c.code_hash (sha256 code)
      && ltb c.attempts c.max_attempts

  -- The codes that are looked through are of no use where no row can be verified.
  verifies-IsNoUse :
      (now tried_at : ℕ) (account_id email code : String) (rows : List EmailVerificationCode)
      → All (λ c. verifies now tried_at account_id email code c ≡ false) rows
      → All
          (IsNoUse (sha256 code) tried_at)
          (codes_for sha256 encrypt_json code_ttl_seconds max_attempts account_id email now rows)
  unfolding codes_for get_active_by_email_hash can_attempt hash_email normalize_email
  verifies-IsNoUse now tried_at account_id email code [] h = tt
  verifies-IsNoUse now tried_at account_id email code (c ∷ rows) (unused, h) =
      let rest = verifies-IsNoUse now tried_at account_id email code rows h in
      let active =
        str_eq c.email_hash (sha256 (lower (strip (lower (strip email)))))
        && not (is_some c.consumed_at)
        && ltb now c.expires_at in
      elim (Bool-cases active) [
        | inr other ↦ rw other rest
        | inl yes_ ↦ elim (Bool-cases (str_eq c.account_id account_id)) [
          | inr other ↦ rw (yes_, other) rest
          | inl own ↦ rw (yes_, own) (ground (arith, unused, yes_, own), rest)
        ]
      ]

  -- A code verifies nothing where no row of the table can be verified: none of that account and
  -- address that is not consumed, not expired, has the code's digest and attempts left. The answer
  -- is False, and the accounts are as they were.
  pub verify_code_refused :
      (now tried_at consumed_at verified_at : ℕ) (account_id email code : String) (m : Mailroom)
      → All (λ c. verifies now tried_at account_id email code c ≡ false) m.codes
      → ((verify_code sha256 encrypt_json code_ttl_seconds max_attempts now tried_at consumed_at
            verified_at account_id email code m).0
          ≡ ok false)
        × ((verify_code sha256 encrypt_json code_ttl_seconds max_attempts now tried_at consumed_at
              verified_at account_id email code m).1.accounts
            ≡ m.accounts)
  unfolding verify_code
  verify_code_refused now tried_at consumed_at verified_at account_id email code m h =
      try_codes_no_use
        (codes_for sha256 encrypt_json code_ttl_seconds max_attempts account_id email now m.codes)
        (sha256 code) account_id tried_at consumed_at verified_at m
        (verifies-IsNoUse now tried_at account_id email code m.codes h)

  -- The account's row after `start_verification`.
  abbrev pub pending : Account → String → Account
  pending a email = record a {
    encrypted_email = some (encrypt_json (normalize_email email));
    normalized_email_hash =
        some (hash_email sha256 encrypt_json code_ttl_seconds max_attempts (normalize_email email));
  }
