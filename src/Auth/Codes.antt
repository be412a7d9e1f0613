-- ===== src/Auth/Codes.antt =====
-- E-mail verification: EmailVerificationCode of src/intake/domain/accounts.py,
-- EmailVerificationRepository and AccountRepository of src/intake/storage/repositories.py, and
-- EmailVerificationService of src/intake/services/email_verification_service.py. The tables of
-- codes are lists of rows as those of sessions. SHA-256 and the encryption are parameters; the
-- random code and identifier and the clock's readings are arguments. A mail that is sent is the
-- address and the code in the outbox.
use intake.Prelude.{
  ℕ, suc, ◌+◌, String, Bool, true, false, not, ◌&&◌, Option, none, some, List, [], ◌∷◌, ◌++◌,
  is_some, keep_if, ltb, str_eq, if◌then◌else◌,
}
use intake.Prelude.Dict.{Dict, get, put}
use intake.Prelude.Text.{lower, strip}
use intake.Prelude.Result.{ok, err, Exec}
use intake.Quotes.Model.{Account, EncryptedPayload}

pub record EmailVerificationCode : Type 0 where
  pub id : String
  pub account_id : String
  pub email_hash : String
  pub code_hash : String
  pub attempts : ℕ
  pub max_attempts : ℕ
  pub created_at : ℕ
  pub expires_at : ℕ
  pub consumed_at : Option ℕ

-- `EmailVerificationCode.can_attempt`, at the given time
unfoldable pub can_attempt : EmailVerificationCode → (now : ℕ) → Bool
can_attempt c now =
    ltb c.attempts c.max_attempts && not (is_some c.consumed_at) && not (ltb c.expires_at now)

-- The tables that the service works on, and the mails that it has sent.
pub record Mailroom : Type 0 where
  pub accounts : Dict Account
  pub codes : List EmailVerificationCode
  pub outbox : List (String × String)

-- The exception of a method that the event log lacks: `append_account_event`.
pub data MailError : Type 0 where
  attribute_error : MailError

abbrev pub Mail : Type 0
Mail = Exec Mailroom MailError Bool

-- `EmailVerificationRepository.get_active_by_email_hash`
unfoldable pub get_active_by_email_hash :
    String → (now : ℕ) → List EmailVerificationCode → List EmailVerificationCode
get_active_by_email_hash email_hash now codes =
    keep_if
      (λ c. str_eq c.email_hash email_hash && not (is_some c.consumed_at) && ltb now c.expires_at)
      codes

-- `EmailVerificationRepository.update`
unfoldable pub update_code :
    EmailVerificationCode → List EmailVerificationCode → List EmailVerificationCode
update_code c [] = []
update_code c (row ∷ rows) =
    (if str_eq row.id c.id
      then record row { attempts = c.attempts; consumed_at = c.consumed_at }
      else row)
    ∷ update_code c rows

abbrev pub update_found : Option Account → Account → Mailroom → Mailroom
update_found none a m = m
update_found (some row) a m = record m {
  accounts = put m.accounts a.id (record row {
    updated_at = a.updated_at;
    email_verified_at = a.email_verified_at;
    normalized_email_hash = a.normalized_email_hash;
    encrypted_email = a.encrypted_email;
  });
}

-- `AccountRepository.update`
unfoldable pub update_account : Account → Mailroom → Mailroom
unfolding get
update_account a m = update_found (get m.accounts a.id) a m

-- `_normalize_email`
unfoldable pub normalize_email : String → String
unfolding lower strip
normalize_email email = lower (strip email)

module _ (sha256 : String → String) (encrypt_json : String → EncryptedPayload)
    (code_ttl_seconds max_attempts : ℕ) where
  -- `_hash_email`
  unfoldable pub hash_email : String → String
  unfolding normalize_email
  hash_email email = sha256 (normalize_email email)

  unfoldable pub new_code :
      (id : String) (created_at starts_at : ℕ) → String → String → String → EmailVerificationCode
  new_code id created_at starts_at account_id email_hash code_raw = record {
    id = id;
    account_id = account_id;
    email_hash = email_hash;
    code_hash = sha256 code_raw;
    attempts = 0;
    max_attempts = max_attempts;
    created_at = created_at;
    expires_at = starts_at + code_ttl_seconds;
    consumed_at = none;
  }

  -- `start_verification`, for the account that is found. The event log lacks the method that is
  -- called at the end.
  abbrev pub start_for :
      Option Account → (id : String) (created_at starts_at : ℕ) → String → String → String → Mail
  start_for none id created_at starts_at account_id email code_raw m = (ok false, m)
  start_for (some account) id created_at starts_at account_id email code_raw m =
      let normalized_email = normalize_email email in
      let email_hash = hash_email normalized_email in
      let code = new_code id created_at starts_at account_id email_hash code_raw in
      let stored =
        update_account
          (record account {
            encrypted_email = some (encrypt_json normalized_email);
            normalized_email_hash = some email_hash;
          })
          (record m { codes = m.codes ++ code ∷ [] }) in
      (
        err attribute_error,
        record stored { outbox = stored.outbox ++ (normalized_email, code_raw) ∷ [] },
      )

  unfoldable pub start_verification :
      (id code_raw : String) (created_at starts_at : ℕ) → String → String → Mail
  unfolding get normalize_email hash_email new_code update_account
  start_verification id code_raw created_at starts_at account_id email m =
      start_for (get m.accounts account_id) id created_at starts_at account_id email code_raw m

  -- `for c in codes: if c.code_hash == code_hash: ...; break`
  unfoldable pub target_of : String → List EmailVerificationCode → Option EmailVerificationCode
  target_of code_hash [] = none
  target_of code_hash (c ∷ codes) =
      let rest = target_of code_hash codes in if str_eq c.code_hash code_hash then some c else rest

  -- A wrong code counts as an attempt on each of the codes.
  unfoldable pub count_attempts :
      List EmailVerificationCode → List EmailVerificationCode → List EmailVerificationCode
  unfolding update_code
  count_attempts [] rows = rows
  count_attempts (c ∷ codes) rows =
      count_attempts codes (update_code (record c { attempts = suc c.attempts }) rows)

  -- The account is marked as verified. The event log lacks the method that is called then.
  abbrev pub mark_verified : Option Account → (verified_at : ℕ) → Mail
  mark_verified none verified_at m = (ok true, m)
  mark_verified (some a) verified_at m =
      (err attribute_error, update_account (record a { email_verified_at = some verified_at }) m)

  abbrev pub try_code :
      Option EmailVerificationCode
      → List EmailVerificationCode
      → String
      → (tried_at consumed_at verified_at : ℕ) → Mail
  try_code none codes account_id tried_at consumed_at verified_at m =
      (ok false, record m { codes = count_attempts codes m.codes })
  try_code (some c) codes account_id tried_at consumed_at verified_at m =
      if can_attempt c tried_at
      then mark_verified (get m.accounts account_id) verified_at
          (record m { codes = update_code (record c { consumed_at = some consumed_at }) m.codes })
      else (ok false, m)

  -- `if not codes: return False`
  abbrev pub try_codes :
      List EmailVerificationCode → String → String → (tried_at consumed_at verified_at : ℕ) → Mail
  try_codes [] code_hash account_id tried_at consumed_at verified_at m = (ok false, m)
  try_codes (c ∷ codes) code_hash account_id tried_at consumed_at verified_at m =
      try_code (target_of code_hash (c ∷ codes)) (c ∷ codes) account_id tried_at consumed_at
        verified_at m

  -- The codes that are looked at.
  unfoldable pub codes_for :
      String → String → (now : ℕ) → List EmailVerificationCode → List EmailVerificationCode
  unfolding get_active_by_email_hash normalize_email hash_email
  codes_for account_id email now codes =
      keep_if (λ c. str_eq c.account_id account_id)
        (get_active_by_email_hash (hash_email (normalize_email email)) now codes)

  -- `verify_code`, with the clock read by the query, by the test of the code, and for the two
  -- times that are written.
  unfoldable pub verify_code :
      (now tried_at consumed_at verified_at : ℕ) → String → String → String → Mail
  unfolding codes_for target_of can_attempt count_attempts update_code get update_account
  verify_code now tried_at consumed_at verified_at account_id email code m =
      try_codes (codes_for account_id email now m.codes) (sha256 code) account_id tried_at
        consumed_at verified_at m
