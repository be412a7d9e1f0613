-- ===== src/Broker/Checks.antt =====
-- Who may upload to a quote: the checks of `create_upload_route`,
-- src/intake/services/upload_session_broker.py.
use intake.Prelude.{
  ℕ, String, ◌≡◌, ◌≢◌, inl, inr, refl, true, false, not, ◌&&◌, Option, none, some, arith, eq_iff,
  Option-cases, ap, ◌↔◌,
}
use intake.Prelude.Dict.{get}
use intake.Prelude.Http.{HttpException}
use intake.Prelude.Result.{Result, Judged, passed, failed, raise_if-Judged}
use intake.Quotes.Model.{
  Account, Quote, QuoteStatus, draft, submitted, needs_review, reviewing, quoted, declined,
}
use intake.Quotes.Repository.{get_account}
use intake.Broker.Model.{Broker}
use intake.Broker.Grants.{is_owner, allows_uploads, is_unverified, check_upload}

-- The statuses of quotes that take uploads.
pub data IsOpen : QuoteStatus → Type 0 where
  is_draft : IsOpen draft
  is_submitted : IsOpen submitted
  is_needs_review : IsOpen needs_review
  is_reviewing : IsOpen reviewing

IsOpen-allows : {status : QuoteStatus} → IsOpen status → allows_uploads status ≡ true
IsOpen-allows is_draft = refl
IsOpen-allows is_submitted = refl
IsOpen-allows is_needs_review = refl
IsOpen-allows is_reviewing = refl

allows-IsOpen : (status : QuoteStatus) → allows_uploads status ≡ true → IsOpen status
allows-IsOpen draft e = is_draft
allows-IsOpen submitted e = is_submitted
allows-IsOpen needs_review e = is_needs_review
allows-IsOpen reviewing e = is_reviewing
allows-IsOpen quoted e = cc e
allows-IsOpen QuoteStatus.accepted e = cc e
allows-IsOpen declined e = cc e
allows-IsOpen QuoteStatus.closed e = cc e

-- What is asked of the account's verification: nothing where it is not required, or a verified
-- address, or that the account has no row.
pub data IsCleared (b : Broker) (account_id : String) : Type 0 where
  not_required : b.hosted.require_verified_email_for_uploads ≡ false → IsCleared b account_id
  with_address :
      (a : Account) (at : ℕ)
      → get b.hosted.accounts account_id ≡ some a
      → a.email_verified_at ≡ some at
      → IsCleared b account_id
  rowless : get b.hosted.accounts account_id ≡ none → IsCleared b account_id

-- The account may upload to the quote.
pub record MayUpload (b : Broker) (quote_id account_id : String) : Type 0 where
  pub quote : Quote
  pub stored : get b.hosted.quotes quote_id ≡ some quote
  pub owned : quote.account_id ≡ some account_id
  pub open_status : IsOpen quote.status
  pub cleared : IsCleared b account_id

-- A refusal: its status code, and why.
pub data Refused (b : Broker) (quote_id account_id : String) : ℕ → Type 0 where
  unknown : get b.hosted.quotes quote_id ≡ none → Refused b quote_id account_id 404
  foreign :
      (q : Quote)
      → get b.hosted.quotes quote_id ≡ some q
      → q.account_id ≢ some account_id
      → Refused b quote_id account_id 403
  unverified :
      (a : Account)
      → b.hosted.require_verified_email_for_uploads ≡ true
      → get b.hosted.accounts account_id ≡ some a
      → a.email_verified_at ≡ none
      → Refused b quote_id account_id 403
  closed :
      (q : Quote)
      → get b.hosted.quotes quote_id ≡ some q
      → ¬ IsOpen q.status
      → Refused b quote_id account_id 400

is_owner_iff : (o : Option String) (a : String) → (is_owner o a ≡ true) ↔ (o ≡ some a)
is_owner_iff none a = ((λ e. cc e), (λ e. cc e))
is_owner_iff (some owner) a =
    (λ e. ap some ((eq_iff owner a).0 e), λ e. ground (arith, eq_iff owner a))

-- The outcome of the checks.
abbrev pub Verdict : Broker → String → String → Result HttpException Quote → Type 0
Verdict b quote_id account_id =
    Judged (λ q. MayUpload b quote_id account_id) (λ e. Refused b quote_id account_id e.status_code)

IsCleared-from :
    (b : Broker) (account_id : String)
    → (is_unverified (get_account b.hosted account_id)
        && b.hosted.require_verified_email_for_uploads)
      ≡ false
    → IsCleared b account_id
unfolding get_account
IsCleared-from b account_id h = elim (Option-cases (get b.hosted.accounts account_id)) [
  | inl gone ↦ rowless gone
  | inr (a, stored) ↦ elim (Option-cases a.email_verified_at) [
    | inr (at, verified) ↦ with_address a at stored verified
    | inl never ↦ not_required (rw (stored, never) at h)
  ]
]

must_verify :
    (b : Broker) (quote_id account_id : String)
    → (is_unverified (get_account b.hosted account_id)
        && b.hosted.require_verified_email_for_uploads)
      ≡ true
    → Refused b quote_id account_id 403
unfolding get_account
must_verify b quote_id account_id h = elim (Option-cases (get b.hosted.accounts account_id)) [
  | inl gone ↦ let no_way = rw gone at h in cc no_way
  | inr (a, stored) ↦ elim (Option-cases a.email_verified_at) [
    | inr (at, verified) ↦ let no_way = rw (stored, verified) at h in cc no_way
    | inl never ↦ unverified a (rw (stored, never) at h) stored never
  ]
]

check_found :
    (b : Broker) (quote_id account_id : String) (q : Quote)
    → get b.hosted.quotes quote_id ≡ some q
    → Verdict b quote_id account_id (check_upload (some q) account_id b.hosted)
check_found b quote_id account_id q found =
    let owner_iff = is_owner_iff q.account_id account_id in
    raise_if-Judged (not (is_owner q.account_id account_id)) _ _
      (λ other. foreign q found (λ e. let own = owner_iff.1 e in ground arith))
      (λ own.
        raise_if-Judged
          (is_unverified (get_account b.hosted account_id)
            && b.hosted.require_verified_email_for_uploads)
          _ _ (must_verify b quote_id account_id)
          (λ may.
            raise_if-Judged (not (allows_uploads q.status)) _ _
              (λ shut. closed q found (λ o. let open_now = IsOpen-allows o in ground arith))
              (λ open_now. passed q (record {
                quote = q;
                stored = found;
                owned = owner_iff.0 (ground arith);
                open_status = allows-IsOpen q.status (ground arith);
                cleared = IsCleared-from b account_id may;
              }))))

pub check_upload-Verdict :
    (b : Broker) (quote_id account_id : String) (o : Option Quote)
    → get b.hosted.quotes quote_id ≡ o
    → Verdict b quote_id account_id (check_upload o account_id b.hosted)
check_upload-Verdict b quote_id account_id none gone = failed _ (unknown gone)
check_upload-Verdict b quote_id account_id (some q) found =
    check_found b quote_id account_id q found
