-- ===== src/Prelude/Rows.antt =====
-- A table of the database as the list of its rows in the order of insertion, in which a query
-- finds them. An update changes every row that it selects; where it selects by a primary key, that
-- is the one row that has the key.
use mathlib.Core.Path.{◌≡◌, refl, sym, ap, ◌∙◌}
use mathlib.Core.Logic.{inl, inr}
use mathlib.Core.Bool.{Bool, true, false}
use mathlib.Core.Option.{Option, none, some, some-injective}
use mathlib.Core.List.{List, [], ◌∷◌}
use intake.Prelude.Lists.{append, keep_if}
use intake.Prelude.Tests.{Bool-cases, if◌then◌else◌}

module _ {ℓ} {A : Type ℓ} where
  -- `session.exec(statement).first()`
  unfoldable pub first_that : (A → Bool) → List A → Option A
  first_that p [] = none
  first_that p (x ∷ rows) = let rest = first_that p rows in if p x then some x else rest

  -- The rows that are selected are changed.
  unfoldable pub change_if : (A → Bool) → (A → A) → List A → List A
  change_if p f [] = []
  change_if p f (x ∷ rows) = (if p x then f x else x) ∷ change_if p f rows

  -- The first row that passes a test, of rows with one more at the end.
  pub first_that-append :
      (p : A → Bool) (rows : List A) (s : A)
      → first_that p rows ≡ none
      → p s ≡ true
      → first_that p (append rows (s ∷ [])) ≡ some s
  unfolding first_that
  first_that-append p [] s h holds = rw holds refl
  first_that-append p (x ∷ rows) s h holds = elim (Bool-cases (p x)) [
    | inl e ↦ let no_way = rw e at h in cc no_way
    | inr e ↦ rw e (first_that-append p rows s (rw e at h) holds)
  ]

  -- A row that is found is still found after rows have been added.
  pub first_that-append_found :
      (p : A → Bool) (rows more : List A) (s : A)
      → first_that p rows ≡ some s
      → first_that p (append rows more) ≡ some s
  unfolding first_that
  first_that-append_found p [] more s h = cc h
  first_that-append_found p (x ∷ rows) more s h = elim (Bool-cases (p x)) [
    | inl e ↦ rw e (rw e at h)
    | inr e ↦ rw e (first_that-append_found p rows more s (rw e at h))
  ]

  -- A row that is found passes the test.
  pub first_that-holds :
      (p : A → Bool) (rows : List A) (s : A) → first_that p rows ≡ some s → p s ≡ true
  unfolding first_that
  first_that-holds p [] s h = cc h
  first_that-holds p (x ∷ rows) s h = elim (Bool-cases (p x)) [
    | inl e ↦ ap p (sym (some-injective x s (rw e at h))) ∙ e
    | inr e ↦ first_that-holds p rows s (rw e at h)
  ]

  -- A stronger test finds nothing where a weaker one does not.
  pub first_that-none :
      (p q : A → Bool) (rows : List A)
      → ((s : A) → q s ≡ true → p s ≡ true)
      → first_that p rows ≡ none
      → first_that q rows ≡ none
  unfolding first_that
  first_that-none p q [] weaker h = refl
  first_that-none p q (x ∷ rows) weaker h = elim (Bool-cases (p x)) [
    | inl e ↦ let no_way = rw e at h in cc no_way
    | inr e ↦ elim (Bool-cases (q x)) [
      | inl f ↦ let no_way = sym e ∙ weaker x f in cc no_way
      | inr f ↦ rw f (first_that-none p q rows weaker (rw e at h))
    ]
  ]

  -- Rows that the test does not find may go.
  pub first_that-keep_if :
      (p q : A → Bool) (rows : List A)
      → ((s : A) → p s ≡ true → q s ≡ true)
      → first_that p (keep_if q rows) ≡ first_that p rows
  unfolding first_that
  first_that-keep_if p q [] h = refl
  first_that-keep_if p q (x ∷ rows) h = elim (Bool-cases (p x)) [
    | inl e ↦ rw (h x e, e) refl
    | inr e ↦ elim (Bool-cases (q x)) [
      | inl f ↦ rw (f, e) (first_that-keep_if p q rows h)
      | inr f ↦ rw (f, e) (first_that-keep_if p q rows h)
    ]
  ]

  -- A change that the test does not see: the row that is found is the one that was, changed if it
  -- is selected.
  pub first_that-change_if :
      (p q : A → Bool) (f : A → A) (rows : List A) (s : A)
      → ((x : A) → q x ≡ true → p (f x) ≡ p x)
      → first_that p rows ≡ some s
      → first_that p (change_if q f rows) ≡ some (if q s then f s else s)
  unfolding first_that change_if
  first_that-change_if p q f [] s blind h = cc h
  first_that-change_if p q f (x ∷ rows) s blind h = elim (Bool-cases (p x)) [
    | inl e ↦
        let same = some-injective x s (rw e at h) in
        elim (Bool-cases (q x)) [
          | inl g ↦
              let gs = ap q (sym same) ∙ g in rw (g, blind x g, e, gs) (ap (λ y. some (f y)) same)
          | inr g ↦ let gs = ap q (sym same) ∙ g in rw (g, e, gs) (ap some same)
        ]
    | inr e ↦ elim (Bool-cases (q x)) [
      | inl g ↦ rw (g, blind x g, e) (first_that-change_if p q f rows s blind (rw e at h))
      | inr g ↦ rw (g, e) (first_that-change_if p q f rows s blind (rw e at h))
    ]
  ]

module _ {ℓ} {A : Type ℓ} (p q : A → Bool) (f : A → A)
    (fails : (x : A) → q x ≡ true → p (f x) ≡ false) where
  -- Where changed rows fail the test, a row that is found is none that was selected.
  pub change_if-unselected :
      (rows : List A) (s : A)
      → first_that p (change_if q f rows) ≡ some s
      → (q s ≡ false) × (p s ≡ true)
  unfolding first_that change_if
  change_if-unselected [] s e = cc e
  change_if-unselected (x ∷ rows) s e = elim (Bool-cases (q x)) [
    | inl selected ↦ change_if-unselected rows s (rw (selected, fails x selected) at e)
    | inr other ↦ elim (Bool-cases (p x)) [
      | inr failed ↦ change_if-unselected rows s (rw (other, failed) at e)
      | inl holds ↦
          let same = some-injective x s (rw (other, holds) at e) in
          (ap q (sym same) ∙ other, ap p (sym same) ∙ holds)
    ]
  ]

  -- A row that was found and not selected is still found.
  pub change_if-found :
      (rows : List A) (s : A)
      → first_that p rows ≡ some s
      → q s ≡ false
      → first_that p (change_if q f rows) ≡ some s
  unfolding first_that change_if
  change_if-found [] s e other = cc e
  change_if-found (x ∷ rows) s e other = elim (Bool-cases (p x)) [
    | inl holds ↦
        let same = some-injective x s (rw holds at e) in
        let unselected : q x ≡ false = ap q same ∙ other in rw (unselected, holds) (ap some same)
    | inr failed ↦
        let rest = change_if-found rows s (rw failed at e) other in
        elim (Bool-cases (q x)) [
          | inl selected ↦ rw (selected, fails x selected) rest
          | inr unselected ↦ rw (unselected, failed) rest
        ]
  ]
