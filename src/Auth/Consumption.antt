-- ===== src/Auth/Consumption.antt =====
-- A code that verifies is used up: `verify_code` of src/intake/services/
-- email_verification_service.py.
use intake.Prelude.{
  ℕ, String, ◌≡◌, refl, sym, ap, ◌∙◌, subst, Bool, true, some, List, [], ◌∷◌, inl, inr, eq_iff,
  Bool-cases, is_some, str_eq, All,
}
use intake.Prelude.Dict.{get, get-put_self}
use intake.Prelude.Result.{Result, err}
use intake.Quotes.Model.{Account, EncryptedPayload}
use intake.Auth.Codes.{
  EmailVerificationCode, can_attempt, Mailroom, MailError, attribute_error, update_code,
  update_account, target_of, try_codes, codes_for, verify_code,
}

-- A row that has been used up, if it is the code's.
abbrev pub IsUsedUp : EmailVerificationCode → EmailVerificationCode → Type 0
IsUsedUp c row = row.id ≡ c.id → is_some row.consumed_at ≡ true

update_code-IsUsedUp :
    (c : EmailVerificationCode) (at : ℕ) (rows : List EmailVerificationCode)
    → All (IsUsedUp c) (update_code (record c { consumed_at = some at }) rows)
unfolding update_code
update_code-IsUsedUp c at [] = tt
update_code-IsUsedUp c at (row ∷ rows) = elim (Bool-cases (str_eq row.id c.id)) [
  | inl same ↦ rw same ((λ key. refl), update_code-IsUsedUp c at rows)
  | inr other ↦ rw other (
    (λ key. let no_way = sym other ∙ (eq_iff row.id c.id).1 key in cc no_way),
    update_code-IsUsedUp c at rows,
  )
]

module _ (sha256 : String → String) (encrypt_json : String → EncryptedPayload)
    (code_ttl_seconds max_attempts : ℕ) where
  -- What a code that matches and has attempts left leaves behind.
  pub record IsVerified (a : Account) (c : EmailVerificationCode) (verified_at : ℕ)
      (answer : Result MailError Bool × Mailroom) : Type 0 where
    pub raised : answer.0 ≡ err attribute_error
    pub row : get answer.1.accounts a.id ≡ some (record a { email_verified_at = some verified_at })
    pub used_up : All (IsUsedUp c) answer.1.codes

  try_at_id :
      (codes : List EmailVerificationCode) (hash : String) (tried_at consumed_at verified_at : ℕ)
      (m : Mailroom) (a : Account) (c : EmailVerificationCode)
      → get m.accounts a.id ≡ some a
      → target_of sha256 encrypt_json code_ttl_seconds max_attempts hash codes ≡ some c
      → can_attempt c tried_at ≡ true
      → IsVerified a c verified_at (
          try_codes sha256 encrypt_json code_ttl_seconds max_attempts codes hash a.id tried_at
            consumed_at verified_at m)
  unfolding target_of update_account
  try_at_id [] hash tried_at consumed_at verified_at m a c stored e can = cc e
  try_at_id (x ∷ codes) hash tried_at consumed_at verified_at m a c stored e can =
      rw (e, can, stored, stored)
        (record {
          raised = refl;
          row = get-put_self m.accounts a.id _;
          used_up = update_code-IsUsedUp c consumed_at m.codes;
        })

  -- A code of which the first match may be attempted marks its stored account as verified and is
  -- used up: each row with its identifier is marked as consumed. Then the method of the event log
  -- that does not exist raises, so the caller gets no answer.
  pub verify_code-IsVerified :
      (now tried_at consumed_at verified_at : ℕ) (account_id email code : String) (m : Mailroom)
      (a : Account) (c : EmailVerificationCode)
      → get m.accounts account_id ≡ some a
      → a.id ≡ account_id
      → target_of sha256 encrypt_json code_ttl_seconds max_attempts
          (sha256 code)
          (codes_for sha256 encrypt_json code_ttl_seconds max_attempts account_id email now m.codes)
        ≡ some c
      → can_attempt c tried_at ≡ true
      → IsVerified a c verified_at (
          verify_code sha256 encrypt_json code_ttl_seconds max_attempts now tried_at consumed_at
            verified_at account_id email code m)
  unfolding verify_code
  verify_code-IsVerified now tried_at consumed_at verified_at account_id email code m a c stored key
        found can =
      let codes =
        codes_for sha256 encrypt_json code_ttl_seconds max_attempts account_id email now m.codes in
      subst
        (λ k. IsVerified a c verified_at (
          try_codes sha256 encrypt_json code_ttl_seconds max_attempts codes (sha256 code) k tried_at
            consumed_at verified_at m))
        key
        (try_at_id codes (sha256 code) tried_at consumed_at verified_at m a c
          (ap (get m.accounts) key ∙ stored) found can)
