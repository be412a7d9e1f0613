-- ===== src/Quotes/Owners.antt =====
-- Whose a stored quote is: no operation of src/intake/services/quote_service.py writes a quote's
-- account to its row, since `update` of src/intake/storage/repositories.py has no such column.
use intake.Prelude.{
  ℕ, String, ◌≡◌, refl, sym, str_eq, eq_iff, ◌≢◌, ap, ◌∙◌, subst, Option, none, some, [], inl, inr,
  Bool-cases, Option-cases,
}
use mathlib.Core.Option.{some-injective}
use intake.Prelude.Dict.{Dict, get, put, Holds, Holds-put}
use intake.Quotes.Model.{Quote, QuoteServiceLane, QuoteStatus, EncryptedPayload, Hosted}
use intake.Quotes.Repository.{create, updated_row, update, update_status}
use intake.Quotes.EventLog.{Stamp}
use intake.Quotes.Submission.{
  in_review, may_submit, IsSubmitted, submit_quote-IsSubmitted, submit_quote_refused,
}
use intake.Quotes.Service.{
  create_quote, update_quote_service_lane, add_basic_info, add_location, add_access_notes,
  add_questionnaire, submit_quote,
}

-- Each quote is stored under its identifier, and is nobody's.
abbrev pub Nobodys : Dict Quote → Type 0
Nobodys = Holds (λ k q. (q.id ≡ k) × (q.account_id ≡ none))

abbrev pub IsOwnerless : Hosted → Type 0
IsOwnerless h = Nobodys h.quotes

-- A row that is written over.
row-Nobodys :
    (quotes : Dict Quote) (k : String) (row q : Quote)
    → get quotes k ≡ some row
    → Nobodys quotes
    → Nobodys (put quotes k (updated_row row q))
unfolding updated_row
row-Nobodys quotes k row q found kept =
    Holds-put _ quotes k (updated_row row q) kept (kept k row found)

pub update-IsOwnerless : (q : Quote) (h : Hosted) → IsOwnerless h → IsOwnerless (update q h).1
unfolding update
update-IsOwnerless q h kept = elim (Option-cases (get h.quotes q.id)) [
  | inl gone ↦ rw gone kept
  | inr (row, found) ↦ rw found (row-Nobodys h.quotes q.id row q found kept)
]

-- An edit of a quote: the quote is not there, or its row is not, or both are.
edit-cases {ℓ} :
    {G : Type ℓ} (h : Hosted) (id : String)
    → (get h.quotes id ≡ none → G)
    → ((q : Quote) → get h.quotes id ≡ some q → get h.quotes q.id ≡ none → G)
    → ((q row : Quote) → get h.quotes id ≡ some q → get h.quotes q.id ≡ some row → G)
    → G
edit-cases h id missing unwritten written = elim (Option-cases (get h.quotes id)) [
  | inl gone ↦ missing gone
  | inr (q, found) ↦ elim (Option-cases (get h.quotes q.id)) [
    | inl gone ↦ unwritten q found gone
    | inr (row, there) ↦ written q row found there
  ]
]

IsSubmitted-Nobodys :
    {id account_id : String} {q : Quote} {now : ℕ} {e₁ e₂ : Stamp} {h : Hosted} (h' : Hosted)
    → IsOwnerless h
    → get h.quotes id ≡ some q
    → IsSubmitted id q account_id now e₁ e₂ h h'
    → IsOwnerless h'
IsSubmitted-Nobodys {id} {account_id} {q} {now} h' kept found done k r e =
    let (same_id, nobodys) = kept id q found in
    elim (Bool-cases (str_eq id k)) [
      | inl same ↦
          let key = (eq_iff id k).0 same in
          let there = sym done.row ∙ ap (get h'.quotes) key ∙ e in
          subst (λ x. (x.id ≡ k) × (x.account_id ≡ none)) (some-injective (in_review q now) r there)
            (same_id ∙ key, nobodys)
      | inr other ↦
          let apart : id ≢ k = λ key. let no_way = sym other ∙ (eq_iff id k).1 key in cc no_way in
          kept k r (sym (done.others k apart) ∙ e)
    ]

-- The calls of the quote service that change the backend.
module _ (encrypt_json : String → EncryptedPayload) where
  pub data QuoteStep : Hosted → Hosted → Type 0 where
    creates :
        (stamp event : Stamp) (lane : Option QuoteServiceLane) (h : Hosted)
        → QuoteStep h (create_quote stamp event lane h).1
    chooses :
        (id : String) (lane : QuoteServiceLane) (now : ℕ) (h : Hosted)
        → QuoteStep h (update_quote_service_lane id lane now h).1
    describes :
        (id short long : String) (timeline : Option String) (now : ℕ) (h : Hosted)
        → QuoteStep h (add_basic_info id short long timeline now h).1
    locates :
        (id area exact : String) (now : ℕ) (event : Stamp) (h : Hosted)
        → QuoteStep h (add_location encrypt_json id area exact now event h).1
    gives_access :
        (id notes : String) (now : ℕ) (event : Stamp) (h : Hosted)
        → QuoteStep h (add_access_notes encrypt_json id notes now event h).1
    answers :
        (id text : String) (now : ℕ) (event : Stamp) (h : Hosted)
        → QuoteStep h (add_questionnaire encrypt_json id text now event h).1
    submits :
        (id account_id : String) (now then_ : ℕ) (e₁ e₂ : Stamp) (h : Hosted)
        → QuoteStep h (submit_quote id account_id now then_ e₁ e₂ h).1
    moves :
        (id : String) (status : QuoteStatus) (now : ℕ) (h : Hosted)
        → QuoteStep h (update_status id status now h).1

  created-kept :
      (stamp event : Stamp) (lane : Option QuoteServiceLane) (h : Hosted)
      → IsOwnerless h
      → IsOwnerless (create_quote stamp event lane h).1
  unfolding create_quote create
  created-kept stamp event lane h kept = Holds-put _ h.quotes stamp.id _ kept (refl, refl)

  chosen-kept :
      (id : String) (lane : QuoteServiceLane) (now : ℕ) (h : Hosted)
      → IsOwnerless h
      → IsOwnerless (update_quote_service_lane id lane now h).1
  unfolding update_quote_service_lane
  chosen-kept id lane now h kept =
      edit-cases h id (λ gone. rw gone kept) (λ q found gone. rw (found, gone) kept)
        (λ q row found there. rw (found, there) (row-Nobodys h.quotes q.id row _ there kept))

  described-kept :
      (id short long : String) (timeline : Option String) (now : ℕ) (h : Hosted)
      → IsOwnerless h
      → IsOwnerless (add_basic_info id short long timeline now h).1
  unfolding add_basic_info
  described-kept id short long timeline now h kept =
      edit-cases h id (λ gone. rw gone kept) (λ q found gone. rw (found, gone) kept)
        (λ q row found there. rw (found, there) (row-Nobodys h.quotes q.id row _ there kept))

  located-kept :
      (id area exact : String) (now : ℕ) (event : Stamp) (h : Hosted)
      → IsOwnerless h
      → IsOwnerless (add_location encrypt_json id area exact now event h).1
  unfolding add_location
  located-kept id area exact now event h kept =
      edit-cases h id (λ gone. rw gone kept) (λ q found gone. rw (found, gone) kept)
        (λ q row found there. rw (found, there) (row-Nobodys h.quotes q.id row _ there kept))

  access-kept :
      (id notes : String) (now : ℕ) (event : Stamp) (h : Hosted)
      → IsOwnerless h
      → IsOwnerless (add_access_notes encrypt_json id notes now event h).1
  unfolding add_access_notes
  access-kept id notes now event h kept =
      edit-cases h id (λ gone. rw gone kept) (λ q found gone. rw (found, gone) kept)
        (λ q row found there. rw (found, there) (row-Nobodys h.quotes q.id row _ there kept))

  answers-kept :
      (id text : String) (now : ℕ) (event : Stamp) (h : Hosted)
      → IsOwnerless h
      → IsOwnerless (add_questionnaire encrypt_json id text now event h).1
  unfolding add_questionnaire
  answers-kept id text now event h kept =
      edit-cases h id (λ gone. rw gone kept) (λ q found gone. rw (found, gone) kept)
        (λ q row found there. rw (found, there) (row-Nobodys h.quotes q.id row _ there kept))

  moved-kept :
      (id : String) (status : QuoteStatus) (now : ℕ) (h : Hosted)
      → IsOwnerless h
      → IsOwnerless (update_status id status now h).1
  unfolding update_status
  moved-kept id status now h kept = elim (Option-cases (get h.quotes id)) [
    | inl gone ↦ rw gone kept
    | inr (row, found) ↦ rw found (Holds-put _ h.quotes id _ kept (kept id row found))
  ]

  -- A submission that is refused changes nothing, and else two rows are written.
  submitted-kept :
      (id account_id : String) (now then_ : ℕ) (e₁ e₂ : Stamp) (h : Hosted)
      → IsOwnerless h
      → IsOwnerless (submit_quote id account_id now then_ e₁ e₂ h).1
  unfolding submit_quote
  submitted-kept id account_id now then_ e₁ e₂ h kept = elim (Option-cases (get h.quotes id)) [
    | inl gone ↦ rw gone kept
    | inr (q, found) ↦ elim (Bool-cases (may_submit h q account_id)) [
      | inr refused ↦ rw (submit_quote_refused id q account_id now then_ e₁ e₂ h found refused) kept
      | inl may ↦
          let same = (kept id q found).0 in
          let done = submit_quote-IsSubmitted id q account_id now then_ e₁ e₂ h found same may in
          IsSubmitted-Nobodys _ kept found done.1
    ]
  ]

  QuoteStep-IsOwnerless : {h h' : Hosted} → QuoteStep h h' → IsOwnerless h → IsOwnerless h'
  QuoteStep-IsOwnerless (creates stamp event lane h) kept = created-kept stamp event lane h kept
  QuoteStep-IsOwnerless (chooses id lane now h) kept = chosen-kept id lane now h kept
  QuoteStep-IsOwnerless (describes id short long timeline now h) kept =
      described-kept id short long timeline now h kept
  QuoteStep-IsOwnerless (locates id area exact now event h) kept =
      located-kept id area exact now event h kept
  QuoteStep-IsOwnerless (gives_access id notes now event h) kept =
      access-kept id notes now event h kept
  QuoteStep-IsOwnerless (answers id text now event h) kept = answers-kept id text now event h kept
  QuoteStep-IsOwnerless (submits id account_id now then_ e₁ e₂ h) kept =
      submitted-kept id account_id now then_ e₁ e₂ h kept
  QuoteStep-IsOwnerless (moves id status now h) kept = moved-kept id status now h kept

  -- The states of a backend that starts without quotes.
  pub data QuoteReach : Hosted → Type 0 where
    start : (h : Hosted) → h.quotes ≡ [] → QuoteReach h
    next : {h h' : Hosted} → QuoteReach h → QuoteStep h h' → QuoteReach h'

  -- In a backend that started without quotes, after any calls of the quote service each quote is
  -- stored under its identifier and has no account.
  pub QuoteReach-IsOwnerless : {h : Hosted} → QuoteReach h → IsOwnerless h
  unfolding get
  QuoteReach-IsOwnerless (start h none_yet) = λ k q e. let no_way = rw none_yet at e in cc no_way
  QuoteReach-IsOwnerless (next reach step) =
      QuoteStep-IsOwnerless step (QuoteReach-IsOwnerless reach)
