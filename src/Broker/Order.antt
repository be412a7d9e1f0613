-- ===== src/Broker/Order.antt =====
-- The order of `list_upload_receipts` of src/intake/services/upload_session_broker.py.
use mathlib.Core.List.{Memᴰ}
use mathlib.Core.List.Memᴰ
use mathlib.Core.Option.{some-injective}
use intake.Prelude.{
  ℕ, ◌≤◌, String, ◌≡◌, sym, ap, ◌∙◌, ◌⊎◌, ◌↔◌, true, some, eq_iff, str_eq, contains, subst, List,
  [], ◌∷◌, inl, inr, arith, ltb, Bool-cases, All,
}
use intake.Prelude.Dict.{Dict, get, values}
use intake.Prelude.Result.{ok}
use intake.Broker.Model.{UploadReceipt, Broker}
use intake.Broker.Listing.{
  ids_of, of_session, receipts_of, insert_latest, sort_latest, list_upload_receipts,
}
use intake.Broker.Soundness.{IsSound}
use intake.Broker.Views.{keep_if-to, keep_if-from, then_return-ok}

-- The latest first.
abbrev pub IsLatestFirst : List UploadReceipt → Type 0
IsLatestFirst [] = Unit
IsLatestFirst (r ∷ rs) = All (λ x. x.received_at ≤ r.received_at) rs × IsLatestFirst rs

insert_latest-All :
    (n : ℕ) (r : UploadReceipt) (xs : List UploadReceipt)
    → r.received_at ≤ n
    → All (λ x. x.received_at ≤ n) xs
    → All (λ x. x.received_at ≤ n) (insert_latest r xs)
unfolding insert_latest
insert_latest-All n r [] h hs = (h, tt)
insert_latest-All n r (x ∷ xs) h hs = elim (Bool-cases (ltb r.received_at x.received_at)) [
  | inl e ↦ rw e (hs.0, insert_latest-All n r xs h hs.1)
  | inr e ↦ rw e (h, hs)
]

All-weaken :
    (m n : ℕ) (xs : List UploadReceipt)
    → m ≤ n
    → All (λ x. x.received_at ≤ m) xs
    → All (λ x. x.received_at ≤ n) xs
All-weaken m n [] h hs = tt
All-weaken m n (x ∷ xs) h hs = (omega (arith, hs.0, h), All-weaken m n xs h hs.1)

insert_latest-IsLatestFirst :
    (r : UploadReceipt) (xs : List UploadReceipt)
    → IsLatestFirst xs
    → IsLatestFirst (insert_latest r xs)
unfolding insert_latest
insert_latest-IsLatestFirst r [] h = (tt, tt)
insert_latest-IsLatestFirst r (x ∷ xs) h = elim (Bool-cases (ltb r.received_at x.received_at)) [
  | inl e ↦
      let before : r.received_at ≤ x.received_at = ground arith in
      rw e (insert_latest-All x.received_at r xs before h.0, insert_latest-IsLatestFirst r xs h.1)
  | inr e ↦
      let after : x.received_at ≤ r.received_at = ground arith in
      rw e ((after, All-weaken x.received_at r.received_at xs after h.0), h)
]

insert_latest-to :
    (r : UploadReceipt) (xs : List UploadReceipt) (x : UploadReceipt)
    → Memᴰ x (insert_latest r xs)
    → (x ≡ r) ⊎ Memᴰ x xs
unfolding insert_latest
insert_latest-to r [] x m = Memᴰ.cases_cons m
insert_latest-to r (y ∷ ys) x m = elim (Bool-cases (ltb r.received_at y.received_at)) [
  | inr e ↦ Memᴰ.cases_cons (rw e at m)
  | inl e ↦ elim (Memᴰ.cases_cons (rw e at m)) [
    | inl here ↦ inr (Memᴰ.head here)
    | inr later ↦ elim (insert_latest-to r ys x later) [
      | inl new ↦ inl new
      | inr there ↦ inr (Memᴰ.tail there)
    ]
  ]
]

insert_latest-from :
    (r : UploadReceipt) (xs : List UploadReceipt) (x : UploadReceipt)
    → (x ≡ r) ⊎ Memᴰ x xs
    → Memᴰ x (insert_latest r xs)
unfolding insert_latest
insert_latest-from r [] x (inl e) = Memᴰ.head e
insert_latest-from r [] x (inr m) = elim m [ ]
insert_latest-from r (y ∷ ys) x m = elim (Bool-cases (ltb r.received_at y.received_at)) [
  | inr e ↦ rw e (elim m [ inl new ↦ Memᴰ.head new | inr there ↦ Memᴰ.tail there ])
  | inl e ↦ rw e (elim m [
    | inl new ↦ Memᴰ.tail (insert_latest-from r ys x (inl new))
    | inr there ↦ elim (Memᴰ.cases_cons there) [
      | inl here ↦ Memᴰ.head here
      | inr later ↦ Memᴰ.tail (insert_latest-from r ys x (inr later))
    ]
  ])
]

sort_latest-IsLatestFirst : (xs : List UploadReceipt) → IsLatestFirst (sort_latest xs)
unfolding sort_latest
sort_latest-IsLatestFirst [] = tt
sort_latest-IsLatestFirst (x ∷ xs) =
    insert_latest-IsLatestFirst x (sort_latest xs) (sort_latest-IsLatestFirst xs)

sort_latest-to : (xs : List UploadReceipt) (x : UploadReceipt) → Memᴰ x (sort_latest xs) → Memᴰ x xs
unfolding sort_latest
sort_latest-to [] x m = elim m [ ]
sort_latest-to (y ∷ ys) x m = elim (insert_latest-to y (sort_latest ys) x m) [
  | inl here ↦ Memᴰ.head here
  | inr later ↦ Memᴰ.tail (sort_latest-to ys x later)
]

sort_latest-from :
    (xs : List UploadReceipt) (x : UploadReceipt) → Memᴰ x xs → Memᴰ x (sort_latest xs)
unfolding sort_latest
sort_latest-from [] x m = elim m [ ]
sort_latest-from (y ∷ ys) x m = elim (Memᴰ.cases_cons m) [
  | inl here ↦ insert_latest-from y (sort_latest ys) x (inl here)
  | inr later ↦ insert_latest-from y (sort_latest ys) x (inr (sort_latest-from ys x later))
]

-- The receipts of the sessions: those whose session is listed.
receipts_of-to :
    (receipts : List UploadReceipt) (sids : List String) (r : UploadReceipt)
    → Memᴰ r (receipts_of receipts sids)
    → Memᴰ r receipts × (contains sids r.upload_session_id ≡ true)
unfolding receipts_of
receipts_of-to receipts [] r m = elim m [ ]
receipts_of-to receipts (sid ∷ sids) r m = elim (Memᴰ.append_cases (of_session receipts sid) m) [
  | inl here ↦
      let (there, same) = keep_if-to (λ x. str_eq x.upload_session_id sid) receipts r here in
      (there, ground (arith, eq_iff r.upload_session_id sid, eq_iff sid r.upload_session_id))
  | inr later ↦ let (there, listed) = receipts_of-to receipts sids r later in (there, ground arith)
]

receipts_of-from :
    (receipts : List UploadReceipt) (sids : List String) (r : UploadReceipt)
    → Memᴰ r receipts
    → contains sids r.upload_session_id ≡ true
    → Memᴰ r (receipts_of receipts sids)
unfolding receipts_of
receipts_of-from receipts [] r m listed = cc listed
receipts_of-from receipts (sid ∷ sids) r m listed =
    elim (Bool-cases (str_eq sid r.upload_session_id)) [
      | inl same ↦ Memᴰ.append_left (receipts_of receipts sids) (
          keep_if-from (λ x. str_eq x.upload_session_id sid) receipts r m
            (ground (arith, eq_iff r.upload_session_id sid, eq_iff sid r.upload_session_id)))
      | inr other ↦
          Memᴰ.append_right (of_session receipts sid)
            (receipts_of-from receipts sids r m (ground arith))
    ]

values-Mem :
    (d : Dict UploadReceipt) (k : String) (r : UploadReceipt) → get d k ≡ some r → Memᴰ r (values d)
unfolding get values
values-Mem [] k r e = cc e
values-Mem ((j, x) ∷ d) k r e = elim (Bool-cases (str_eq j k)) [
  | inl same ↦ Memᴰ.head (sym (some-injective x r (rw same at e)))
  | inr other ↦ Memᴰ.tail (values-Mem d k r (rw other at e))
]

module _ (b : Broker) (sound : IsSound b) (quote_id : String) where
  -- A receipt that is stored is among those that are collected exactly if it is for the quote.
  collected_iff :
      (r : UploadReceipt)
      → get b.receipts r.id ≡ some r
      → Memᴰ r (receipts_of (values b.receipts) (ids_of quote_id b)) ↔ (r.quote_id ≡ quote_id)
  unfolding get
  collected_iff r stored =
      let backed = sound.backed r.id r stored in
      (
        λ m.
            let (there, listed) = receipts_of-to (values b.receipts) (ids_of quote_id b) r m in
            let (s, found, same) = sound.indexed quote_id r.upload_session_id listed in
            let this = some-injective s backed.session (sym found ∙ backed.session_stored) in
            backed.same_quote ∙ ap (λ x. x.quote_id) (sym this) ∙ same,
        λ same.
            receipts_of-from (values b.receipts) (ids_of quote_id b) r
              (values-Mem b.receipts r.id r stored)
              (ap (λ q. contains (ids_of q b) r.upload_session_id) (sym same ∙ backed.same_quote)
                ∙ (sound.listed r.upload_session_id backed.session backed.session_stored).1),
      )

  -- A listing of receipts of a sound broker shows stored receipts only, each receipt that is stored
  -- under its identifier exactly if it is for the quote, and the latest first.
  pub list_upload_receipts-IsLatestFirst :
      (account_id : String) (shown : List UploadReceipt)
      → list_upload_receipts quote_id account_id b ≡ ok shown
      → IsLatestFirst shown
        × ((r : UploadReceipt) → Memᴰ r shown → Memᴰ r (values b.receipts))
        × ((r : UploadReceipt)
            → get b.receipts r.id ≡ some r
            → Memᴰ r shown ↔ (r.quote_id ≡ quote_id))
  unfolding list_upload_receipts
  list_upload_receipts-IsLatestFirst account_id shown e =
      let receipts = receipts_of (values b.receipts) (ids_of quote_id b) in
      subst
        (λ xs.
          IsLatestFirst xs
          × ((r : UploadReceipt) → Memᴰ r xs → Memᴰ r (values b.receipts))
          × ((r : UploadReceipt)
              → get b.receipts r.id ≡ some r
              → Memᴰ r xs ↔ (r.quote_id ≡ quote_id)))
        (then_return-ok _ (sort_latest receipts) shown e)
        (
          sort_latest-IsLatestFirst receipts,
          λ r m.
              (receipts_of-to (values b.receipts) (ids_of quote_id b) r
                (sort_latest-to receipts r m)).0,
          λ r stored.
              let (to, from) = collected_iff r stored in
              (
                λ m. to (sort_latest-to receipts r m),
                λ same. sort_latest-from receipts r (from same),
              ),
        )
