-- ===== src/Quotes/Submission.antt =====
-- What `submit_quote` does: src/intake/services/quote_service.py over the repository's `update`,
-- src/intake/storage/repositories.py.
use mathlib.Core.List.{◌++◌, append_assoc}
use intake.Prelude.{
  ℕ, String, ◌≡◌, ◌≢◌, refl, Bool, true, false, not, ◌&&◌, Option, none, some, [], ◌∷◌, arith,
  str_eq, eq_iff, ap, ◌∙◌, subst,
}
use intake.Prelude.Dict.{get, get-put_self, get-put_ne}
use intake.Quotes.Model.{
  QuoteStatus, submitted, needs_review, quote_submitted, quote_needs_review, Quote, can_submit,
  Event, Hosted,
}
use intake.Quotes.Repository.{updated_row, get_account, or_kept}
use intake.Quotes.EventLog.{Stamp}
use intake.Quotes.Service.{is_verified, submit_quote}

-- The quote, moved on to its review.
abbrev pub in_review : Quote → ℕ → Quote
in_review q now = record q { status = needs_review; updated_at = now }

-- The conditions under which a quote may be submitted.
abbrev pub may_submit : Hosted → Quote → String → Bool
may_submit h q account_id =
    can_submit q
    && not
        (h.require_verified_email_for_quote_submit && not (is_verified (get_account h account_id)))

-- What a submission has done to the backend.
pub record IsSubmitted (quote_id : String) (q : Quote) (account_id : String) (now : ℕ)
    (e₁ e₂ : Stamp) (h h' : Hosted) : Type 0 where
  pub row : get h'.quotes quote_id ≡ some (in_review q now)
  pub others : (j : String) → quote_id ≢ j → get h'.quotes j ≡ get h.quotes j
  pub accounts : h'.accounts ≡ h.accounts
  pub logged :
      (x y : Event) × (h'.events ≡ h.events ++ x ∷ y ∷ [])
      × (x.event_type ≡ quote_submitted)
      × (x.actor_id ≡ some account_id)
      × (y.event_type ≡ quote_needs_review)

pub or_kept_self : (o : Option String) → or_kept o o ≡ o
or_kept_self none = refl
or_kept_self (some payload) = refl

-- A quote that is written over its own row changes in status and time alone; the account that it
-- carries is dropped.
pub updated_row_self :
    (q : Quote) (status : QuoteStatus) (account_id : Option String) (now : ℕ)
    → updated_row q (record q { status = status; account_id = account_id; updated_at = now })
      ≡ record q { status = status; updated_at = now }
unfolding updated_row
updated_row_self q status account_id now = λ i. record q {
  status = status;
  updated_at = now;
  encrypted_exact_location = or_kept_self q.encrypted_exact_location i;
  encrypted_access_notes = or_kept_self q.encrypted_access_notes i;
  encrypted_questionnaire = or_kept_self q.encrypted_questionnaire i;
}

-- The same with the quote's own identifier for the key.
submit_at_id :
    (q : Quote) (account_id : String) (now then_ : ℕ) (e₁ e₂ : Stamp) (h : Hosted)
    → get h.quotes q.id ≡ some q
    → may_submit h q account_id ≡ true
    → ((submit_quote q.id account_id now then_ e₁ e₂ h).0 ≡ some (in_review q then_))
      × IsSubmitted q.id q account_id then_ e₁ e₂ h
          (submit_quote q.id account_id now then_ e₁ e₂ h).1
unfolding submit_quote
submit_at_id q account_id now then_ e₁ e₂ h found may =
    let can : can_submit q ≡ true = ground arith in
    let allowed : (h.require_verified_email_for_quote_submit
          && not (is_verified (get_account h account_id)))
        ≡ false =
      ground arith in
    let first = updated_row_self q submitted (some account_id) now in
    let second =
      updated_row_self (record q { status = submitted; updated_at = now }) needs_review q.account_id
        then_ in
    rw (found, can, allowed, found, first, get-put_self, second)
      (
        refl,
        record {
          row = get-put_self _ q.id _;
          others = λ j apart.
              let ne : str_eq q.id j ≡ false = ground (arith, eq_iff q.id j) in
              get-put_ne _ q.id j _ ne ∙ get-put_ne _ q.id j _ ne;
          accounts = refl;
          logged = (_, _, append_assoc h.events (_ ∷ []) (_ ∷ []), refl, refl, refl);
        },
      )

-- A quote that may be submitted is returned in review, and stored so, with the account that it
-- had before: the submitter's account is not written. The other quotes and the accounts stay, and
-- the log ends with the submission, by the submitter, and the review.
pub submit_quote-IsSubmitted :
    (quote_id : String) (q : Quote) (account_id : String) (now then_ : ℕ) (e₁ e₂ : Stamp)
    (h : Hosted)
    → get h.quotes quote_id ≡ some q
    → q.id ≡ quote_id
    → may_submit h q account_id ≡ true
    → ((submit_quote quote_id account_id now then_ e₁ e₂ h).0 ≡ some (in_review q then_))
      × IsSubmitted quote_id q account_id then_ e₁ e₂ h
          (submit_quote quote_id account_id now then_ e₁ e₂ h).1
submit_quote-IsSubmitted quote_id q account_id now then_ e₁ e₂ h found key may =
    subst
      (λ k.
        ((submit_quote k account_id now then_ e₁ e₂ h).0 ≡ some (in_review q then_))
        × IsSubmitted k q account_id then_ e₁ e₂ h (submit_quote k account_id now then_ e₁ e₂ h).1)
      key (submit_at_id q account_id now then_ e₁ e₂ h (ap (get h.quotes) key ∙ found) may)

-- A quote that may not be submitted is left as it is, and so is all else.
pub submit_quote_refused :
    (quote_id : String) (q : Quote) (account_id : String) (now then_ : ℕ) (e₁ e₂ : Stamp)
    (h : Hosted)
    → get h.quotes quote_id ≡ some q
    → may_submit h q account_id ≡ false
    → submit_quote quote_id account_id now then_ e₁ e₂ h ≡ (none, h)
unfolding submit_quote
submit_quote_refused quote_id q account_id now then_ e₁ e₂ h found may = rw found (ground arith)
