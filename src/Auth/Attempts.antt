-- ===== src/Auth/Attempts.antt =====
-- How wrong codes are counted: `verify_code` of src/intake/services/
-- email_verification_service.py.
use intake.Prelude.{
  ℕ, suc, String, ◌≡◌, refl, ap, ◌∙◌, Bool, false, none, List, [], ◌∷◌, map, inl, inr, arith,
  eq_iff, Bool-cases, keep_if, str_eq, All, if◌then◌else◌, ◌&&◌, not, ltb, is_some,
}
use intake.Prelude.Result.{ok}
use intake.Quotes.Model.{EncryptedPayload}
use intake.Auth.Codes.{
  EmailVerificationCode, Mailroom, update_code, target_of, count_attempts, codes_for, try_codes,
  hash_email, normalize_email, get_active_by_email_hash, verify_code,
}

-- No row has the identifier of the given one.
abbrev pub IsApart : EmailVerificationCode → List EmailVerificationCode → Type 0
IsApart c rows = All (λ row. str_eq row.id c.id ≡ false) rows

-- The identifier is a primary key.
abbrev pub IsKeyed : List EmailVerificationCode → Type 0
IsKeyed [] = Unit
IsKeyed (c ∷ rows) = IsApart c rows × IsKeyed rows

abbrev pub count_if : (EmailVerificationCode → Bool) → EmailVerificationCode → EmailVerificationCode
count_if p c = if p c then record c { attempts = suc c.attempts } else c

update_code_apart :
    (c c' : EmailVerificationCode) (rows : List EmailVerificationCode)
    → c'.id ≡ c.id
    → IsApart c rows
    → update_code c' rows ≡ rows
unfolding update_code
update_code_apart c c' [] same h = refl
update_code_apart c c' (x ∷ rows) same h =
    rw (same, h.0) (ap (λ r. x ∷ r) (update_code_apart c c' rows same h.1))

update_code_first :
    (c c' : EmailVerificationCode) (rows : List EmailVerificationCode)
    → c'.id ≡ c.id
    → IsApart c rows
    → update_code c' (c ∷ rows)
      ≡ record c { attempts = c'.attempts; consumed_at = c'.consumed_at } ∷ rows
unfolding update_code
update_code_first c c' rows same h =
    rw (same, (eq_iff c.id c.id).1 refl)
      (ap (λ r. record c { attempts = c'.attempts; consumed_at = c'.consumed_at } ∷ r)
        (update_code_apart c c' rows same h))

IsApart-keep_if :
    (c : EmailVerificationCode) (p : EmailVerificationCode → Bool)
    (rows : List EmailVerificationCode)
    → IsApart c rows
    → IsApart c (keep_if p rows)
IsApart-keep_if c p [] h = tt
IsApart-keep_if c p (x ∷ rows) h = elim (Bool-cases (p x)) [
  | inl e ↦ rw e (h.0, IsApart-keep_if c p rows h.1)
  | inr e ↦ rw e (IsApart-keep_if c p rows h.1)
]

keep_if-keep_if :
    (p q : EmailVerificationCode → Bool) (rows : List EmailVerificationCode)
    → keep_if p (keep_if q rows) ≡ keep_if (λ c. p c && q c) rows
keep_if-keep_if p q [] = refl
keep_if-keep_if p q (x ∷ rows) =
    let rest = keep_if-keep_if p q rows in
    elim (Bool-cases (q x)) [
      | inl e ↦ elim (Bool-cases (p x)) [
        | inl f ↦ rw (e, f) (ap (λ r. x ∷ r) rest)
        | inr f ↦ rw (e, f) rest
      ]
      | inr e ↦ elim (Bool-cases (p x)) [ inl f ↦ rw (e, f) rest | inr f ↦ rw (e, f) rest ]
    ]

str_eq_swap : (s t : String) → str_eq s t ≡ false → str_eq t s ≡ false
str_eq_swap s t h = ground (arith, eq_iff s t, eq_iff t s)

module _ (sha256 : String → String) (encrypt_json : String → EncryptedPayload)
    (code_ttl_seconds max_attempts : ℕ) where
  count_attempts_apart :
      (x : EmailVerificationCode) (codes rows : List EmailVerificationCode)
      → IsApart x codes
      → count_attempts sha256 encrypt_json code_ttl_seconds max_attempts codes (x ∷ rows)
        ≡ x ∷ count_attempts sha256 encrypt_json code_ttl_seconds max_attempts codes rows
  unfolding count_attempts update_code
  count_attempts_apart x [] rows h = refl
  count_attempts_apart x (c ∷ codes) rows h =
      rw (str_eq_swap c.id x.id h.0) (count_attempts_apart x codes _ h.1)

  count_attempts-keep_if :
      (p : EmailVerificationCode → Bool) (rows : List EmailVerificationCode)
      → IsKeyed rows
      → count_attempts sha256 encrypt_json code_ttl_seconds max_attempts (keep_if p rows) rows
        ≡ map (count_if p) rows
  unfolding count_attempts update_code
  count_attempts-keep_if p [] h = refl
  count_attempts-keep_if p (x ∷ rows) h =
      let apart = IsApart-keep_if x p rows h.0 in
      let rest = count_attempts-keep_if p rows h.1 in
      elim (Bool-cases (p x)) [
        | inr e ↦ rw e (count_attempts_apart x _ rows apart ∙ ap (λ r. x ∷ r) rest)
        | inl e ↦
            let x' : EmailVerificationCode = record x { attempts = suc x.attempts } in
            rw e (
              ap (count_attempts sha256 encrypt_json code_ttl_seconds max_attempts (keep_if p rows))
                (update_code_first x x' rows refl h.0)
              ∙ count_attempts_apart x' _ rows apart
              ∙ ap (λ r. x' ∷ r) rest)
      ]

  -- A code of that account and address which is neither used up nor past its expiry.
  abbrev pub is_live_for : String → String → ℕ → EmailVerificationCode → Bool
  is_live_for account_id email now c =
      str_eq c.account_id account_id
      && (str_eq c.email_hash
            (hash_email sha256 encrypt_json code_ttl_seconds max_attempts (normalize_email email))
          && not (is_some c.consumed_at)
          && ltb now c.expires_at)

  codes_for_counted :
      (account_id email : String) (now : ℕ) (rows : List EmailVerificationCode)
      → IsKeyed rows
      → count_attempts sha256 encrypt_json code_ttl_seconds max_attempts
          (codes_for sha256 encrypt_json code_ttl_seconds max_attempts account_id email now rows)
          rows
        ≡ map (count_if (is_live_for account_id email now)) rows
  unfolding codes_for get_active_by_email_hash
  codes_for_counted account_id email now rows keyed =
      ap (λ codes. count_attempts sha256 encrypt_json code_ttl_seconds max_attempts codes rows)
        (keep_if-keep_if _ _ rows)
      ∙ count_attempts-keep_if (is_live_for account_id email now) rows keyed

  try_codes_wrong :
      (codes : List EmailVerificationCode) (hash account_id : String)
      (tried_at consumed_at verified_at : ℕ) (m : Mailroom)
      → target_of sha256 encrypt_json code_ttl_seconds max_attempts hash codes ≡ none
      → try_codes sha256 encrypt_json code_ttl_seconds max_attempts codes hash account_id tried_at
          consumed_at verified_at m
        ≡ (
          ok false,
          record m {
            codes = count_attempts sha256 encrypt_json code_ttl_seconds max_attempts codes m.codes;
          },
        )
  unfolding count_attempts
  try_codes_wrong [] hash account_id tried_at consumed_at verified_at m h = refl
  try_codes_wrong (c ∷ codes) hash account_id tried_at consumed_at verified_at m h = rw h refl

  -- Where the identifiers of the codes are distinct and no live code of that account and address
  -- has the digest of the code, the answer is False, each such live code has one more attempt, and
  -- nothing else changes.
  pub verify_code_counted :
      (now tried_at consumed_at verified_at : ℕ) (account_id email code : String) (m : Mailroom)
      → IsKeyed m.codes
      → target_of sha256 encrypt_json code_ttl_seconds max_attempts
          (sha256 code)
          (codes_for sha256 encrypt_json code_ttl_seconds max_attempts account_id email now m.codes)
        ≡ none
      → verify_code sha256 encrypt_json code_ttl_seconds max_attempts now tried_at consumed_at
          verified_at account_id email code m
        ≡ (ok false, record m { codes = map (count_if (is_live_for account_id email now)) m.codes })
  unfolding verify_code
  verify_code_counted now tried_at consumed_at verified_at account_id email code m keyed wrong =
      try_codes_wrong _ (sha256 code) account_id tried_at consumed_at verified_at m wrong
      ∙ ap (λ rows. (ok false, record m { codes = rows }))
          (codes_for_counted account_id email now m.codes keyed)
