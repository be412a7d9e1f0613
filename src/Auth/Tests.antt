-- ===== src/Auth/Tests.antt =====
-- Runs of src/intake/services/session_service.py and email_verification_service.py at concrete
-- inputs.
use intake.Prelude.{String, ◌≡◌, ◌≢◌, arith, refl, false, none, some, [], ◌∷◌}
use intake.Auth.Sessions.{
  Session, Table, create_session, new_session, get_session_by_token, revoke_all_for_account,
}
use intake.Prelude.Dict.{get}
use intake.Prelude.Result.{ok}
use intake.Quotes.Model.{Account, EncryptedPayload}
use intake.Auth.Codes.{
  EmailVerificationCode, Mailroom, new_code, codes_for, target_of, can_attempt, verify_code,
}
use intake.Auth.Verification.{verify_code_refused}
use intake.Auth.Consumption.{IsVerified, verify_code-IsVerified}
use intake.Auth.Attempts.{verify_code_counted}
use intake.Auth.Lookup.{create_session-get_session_by_token}
use intake.Auth.Revocation.{revoke_all_for_account-get_session_by_token}

abbrev digest : String → String
digest text = text

abbrev session : Session
session = new_session digest 60 "s1" 1 2 "a1" "t1"

abbrev other : Session
other = new_session digest 60 "s2" 1 2 "a2" "t2"

abbrev rows : Table
rows = session ∷ other ∷ []

abbrev revoked : Table
revoked = record session { revoked_at = some 5 } ∷ other ∷ []

create_session-get_session_by_token_example :
    get_session_by_token digest 60 "t2" 30 rows ≡ some other
unfolding create_session
create_session-get_session_by_token_example =
    create_session-get_session_by_token digest 60 "s2" 1 2 3 30 "a2" "t2" (session ∷ []) rows other
      refl (omega arith) refl

revoke_all_for_account-get_session_by_token_example :
    (get_session_by_token digest 60 "t2" 9 (revoke_all_for_account "a1" 5 rows).1 ≡ some other
      → other.account_id ≢ "a1")
    × (get_session_by_token digest 60 "t2" 9 rows ≡ some other
        → other.account_id ≢ "a1"
        → get_session_by_token digest 60 "t2" 9 (revoke_all_for_account "a1" 5 rows).1 ≡ some other)
revoke_all_for_account-get_session_by_token_example =
    revoke_all_for_account-get_session_by_token digest 60 "a1" 5 9 "t2" rows other

abbrev seal : String → EncryptedPayload
seal text = "sealed"

abbrev account : Account
account = record {
  id = "a1";
  created_at = 0;
  updated_at = 0;
  encrypted_email = none;
  normalized_email_hash = none;
  email_verified_at = some 1;
}

abbrev code : EmailVerificationCode
code = new_code digest seal 600 5 "c1" 1 2 "a1" "a@b.c" "123456"

abbrev mailroom : Mailroom
mailroom = record { accounts = ("a1", account) ∷ []; codes = code ∷ []; outbox = [] }

verify_code_refused_example :
    ((verify_code digest seal 600 5 9 9 9 9 "a1" " A@b.c" "000000" mailroom).0 ≡ ok false)
    × ((verify_code digest seal 600 5 9 9 9 9 "a1" " A@b.c" "000000" mailroom).1.accounts
        ≡ mailroom.accounts)
unfolding codes_for new_code
verify_code_refused_example =
    verify_code_refused digest seal 600 5 9 9 9 9 "a1" " A@b.c" "000000" mailroom (refl, tt)

verify_code-IsVerified_example :
    IsVerified digest seal 600 5 account code 9
      (verify_code digest seal 600 5 9 9 9 9 "a1" " A@b.c" "123456" mailroom)
unfolding get target_of codes_for new_code can_attempt
verify_code-IsVerified_example =
    verify_code-IsVerified digest seal 600 5 9 9 9 9 "a1" " A@b.c" "123456" mailroom account code
      refl refl refl refl

abbrev other_code : EmailVerificationCode
other_code = new_code digest seal 600 5 "c2" 1 2 "a2" "a@b.c" "777777"

abbrev two_codes : Mailroom
two_codes = record mailroom { codes = code ∷ other_code ∷ [] }

verify_code_counted_example :
    verify_code digest seal 600 5 9 9 9 9 "a1" " A@b.c" "000000" two_codes
    ≡ (ok false, record two_codes { codes = record code { attempts = 1 } ∷ other_code ∷ [] })
unfolding new_code target_of codes_for
verify_code_counted_example =
    verify_code_counted digest seal 600 5 9 9 9 9 "a1" " A@b.c" "000000" two_codes
      ((refl, tt), (tt, tt)) refl
