-- ===== src/Prelude/Lists.antt =====
-- Lists measured by native numbers, with the tests and predicates that the program's loops use.
use Prim.Native.Nat.{ℕ, suc, ◌+◌}
use Prim.Native.String.{String}
use mathlib.Core.Path.{◌≡◌, sym}
use mathlib.Core.Logic.{◌≢◌}
use mathlib.Core.Bool.{Bool, true, false, ◌&&◌, ◌||◌}
use mathlib.Core.List.{List, [], ◌∷◌, ◌++◌}
use native.Mathlib.Omega.{arith}
use intake.Prelude.Tests.{str_eq, if◌then◌else◌}

module _ {ℓ} {A : Type ℓ} where
  abbrev pub length : List A → ℕ
  length [] = 0
  length (x ∷ xs) = suc (length xs)

  -- `xs + ys`, beside the `++` of texts
  abbrev pub append : List A → List A → List A
  append xs ys = xs ++ ys

  pub length-append : (xs ys : List A) → length (xs ++ ys) ≡ length xs + length ys
  length-append [] ys = omega arith
  length-append (x ∷ xs) ys = omega (arith, length-append xs ys)

  abbrev pub all : (A → Bool) → List A → Bool
  all p [] = true
  all p (x ∷ xs) = p x && all p xs

  -- `[x for x in xs if p(x)]`
  abbrev pub keep_if : (A → Bool) → List A → List A
  keep_if p [] = []
  keep_if p (x ∷ xs) = let rest = keep_if p xs in if p x then x ∷ rest else rest

  abbrev pub sum_of : (A → ℕ) → List A → ℕ
  sum_of f [] = 0
  sum_of f (x ∷ xs) = f x + sum_of f xs

  pub sum_of-append : (f : A → ℕ) (xs ys : List A) → sum_of f (xs ++ ys) ≡ sum_of f xs + sum_of f ys
  sum_of-append f [] ys = omega arith
  sum_of-append f (x ∷ xs) ys = omega (arith, sum_of-append f xs ys)

module _ {ℓ κ} {A : Type ℓ} (P : A → Type κ) where
  abbrev pub All : List A → Type κ
  All [] = Unit
  All (x ∷ xs) = P x × All xs

  pub All-append : (xs ys : List A) → All xs → All ys → All (xs ++ ys)
  All-append [] ys hx hy = hy
  All-append (x ∷ xs) ys hx hy = (hx.0, All-append xs ys hx.1 hy)

-- `k in xs`, for a list of texts
abbrev pub contains : List String → String → Bool
contains [] k = false
contains (x ∷ xs) k = str_eq x k || contains xs k

-- The text `k` is no element of `xs`.
abbrev pub IsAbsent : String → List String → Type 0
IsAbsent k = All (λ x. x ≢ k)

-- No text stands twice.
abbrev pub IsDistinct : List String → Type 0
IsDistinct [] = Unit
IsDistinct (x ∷ xs) = IsAbsent x xs × IsDistinct xs

pub IsDistinct-concat :
    (xs : List String) (k : String) → IsDistinct xs → IsAbsent k xs → IsDistinct (xs ++ k ∷ [])
IsDistinct-concat [] k d a = (tt, tt)
IsDistinct-concat (x ∷ xs) k d a =
    (All-append (λ y. y ≢ x) xs (k ∷ []) d.0 (λ e. a.0 (sym e), tt), IsDistinct-concat xs k d.1 a.1)
