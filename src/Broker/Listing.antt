-- ===== src/Broker/Listing.antt =====
-- The listings of src/intake/services/upload_session_broker.py: `list_upload_sessions` and
-- `list_upload_receipts`.
use intake.Prelude.{
  ℕ, String, not, Option, none, some, List, [], ◌∷◌, ◌++◌, str_eq, ltb, if◌then◌else◌, keep_if,
}
use intake.Prelude.Dict.{Dict, get, values}
use intake.Prelude.Http.{HttpException, http}
use intake.Prelude.Result.{Result, ok, err, raise_if}
use intake.Quotes.Model.{Quote}
use intake.Quotes.Repository.{get_by_id}
use intake.Broker.Model.{UploadSession, UploadReceipt, Broker, is_expired}
use intake.Broker.Grants.{is_owner, or_empty}

-- The checks of a caller's right to see the quote's uploads.
abbrev pub check_view : Option Quote → String → String → Result HttpException (Unit {0})
check_view none account_id detail = err (http 404 "Quote not found")
check_view (some q) account_id detail =
    raise_if (not (is_owner q.account_id account_id)) (http 403 detail) (ok tt)

-- The value of an `if sid in d` in a comprehension: the entry, before the rest.
abbrev pub found_first {ℓ} : {A : Type ℓ} → Option A → List A → List A
found_first none rest = rest
found_first (some a) rest = a ∷ rest

-- `[self._sessions[sid] for sid in session_ids if sid in self._sessions]`
unfoldable pub sessions_of : Dict UploadSession → List String → List UploadSession
unfolding get
sessions_of d [] = []
sessions_of d (sid ∷ sids) = found_first (get d sid) (sessions_of d sids)

abbrev pub then_return {ℓ} :
    {A : Type ℓ} → Result HttpException (Unit {0}) → A → Result HttpException A
then_return (ok checked) answer = ok answer
then_return (err e) answer = err e

abbrev pub ids_of : String → Broker → List String
unfolding get
ids_of quote_id b = or_empty (get b.quote_sessions quote_id)

unfoldable pub live_sessions : String → (now : ℕ) → Broker → List UploadSession
unfolding get sessions_of
live_sessions quote_id now b =
    keep_if (λ s. not (is_expired s now)) (sessions_of b.sessions (ids_of quote_id b))

unfoldable pub list_upload_sessions :
    String → String → (now : ℕ) → Broker → Result HttpException (List UploadSession)
unfolding get_by_id live_sessions
list_upload_sessions quote_id account_id now b =
    then_return
      (check_view (get_by_id b.hosted quote_id) account_id
        "Not authorized to view these upload sessions")
      (live_sessions quote_id now b)

-- The receipts of one session, in the dictionary's order.
abbrev pub of_session : List UploadReceipt → String → List UploadReceipt
of_session receipts sid = keep_if (λ r. str_eq r.upload_session_id sid) receipts

-- The two loops that collect the receipts.
unfoldable pub receipts_of : List UploadReceipt → List String → List UploadReceipt
receipts_of receipts [] = []
receipts_of receipts (sid ∷ sids) = of_session receipts sid ++ receipts_of receipts sids

-- The insertion of a stable sort by `received_at`, the latest first.
unfoldable pub insert_latest : UploadReceipt → List UploadReceipt → List UploadReceipt
insert_latest r [] = r ∷ []
insert_latest r (x ∷ xs) =
    let rest = insert_latest r xs in
    if ltb r.received_at x.received_at then x ∷ rest else r ∷ x ∷ xs

-- `receipts.sort(key=lambda r: r.received_at, reverse=True)`
unfoldable pub sort_latest : List UploadReceipt → List UploadReceipt
unfolding insert_latest
sort_latest [] = []
sort_latest (r ∷ rs) = insert_latest r (sort_latest rs)

unfoldable pub list_upload_receipts :
    String → String → Broker → Result HttpException (List UploadReceipt)
unfolding get_by_id values receipts_of sort_latest
list_upload_receipts quote_id account_id b =
    then_return
      (check_view (get_by_id b.hosted quote_id) account_id
        "Not authorized to view these upload receipts")
      (sort_latest (receipts_of (values b.receipts) (ids_of quote_id b)))
