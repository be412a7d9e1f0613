-- ===== src/Prelude/Dict.antt =====
-- Python's `dict` with text keys, in insertion order: an assignment to a key that is there keeps
-- its place, and any other stands at the end.
use mathlib.Core.Path.{◌≡◌, refl, subst₂}
use mathlib.Core.Option.{Option, none, some}
use mathlib.Core.List.{List, [], ◌∷◌, map}
use Prim.Native.String.{String}
use native.Mathlib.Omega.{arith}
use text.Mathlib.TextEquality.{eq_iff}
use mathlib.Core.Logic.{inl, inr}
use mathlib.Core.Bool.{true, false}
use intake.Prelude.Lists.{contains}
use intake.Prelude.Tests.{Bool-cases, is_some, str_eq, if◌then◌else◌}

abbrev pub Dict {ℓ} : Type ℓ → Type ℓ
Dict V = List (String × V)

none-ne-some {ℓ} : {V : Type ℓ} {v : V} → ◌≡◌ {A = Option V} none (some v) → ⊥
none-ne-some e = cc

module _ {ℓ} {V : Type ℓ} where
  -- `d.get(k)`
  unfoldable pub get : Dict V → String → Option V
  get [] k = none
  get ((j, v) ∷ d) k = if str_eq j k then some v else get d k

  -- `d[k] = v`
  unfoldable pub put : Dict V → String → V → Dict V
  put [] k v = (k, v) ∷ []
  put ((j, w) ∷ d) k v = if str_eq j k then (j, v) ∷ d else (j, w) ∷ put d k v

  -- `del d[k]`, where the key is there
  unfoldable pub del : Dict V → String → Dict V
  del [] k = []
  del ((j, w) ∷ d) k = let rest = del d k in if str_eq j k then rest else (j, w) ∷ rest

  -- `d.keys()`
  abbrev pub keys : Dict V → List String
  keys [] = []
  keys ((j, w) ∷ d) = j ∷ keys d

  -- `d.values()`
  unfoldable pub values : Dict V → List V
  values = map (λ e. e.1)

  pub get-put :
      (d : Dict V) (k j : String) (v : V)
      → get (put d k v) j ≡ (if str_eq k j then some v else get d j)
  unfolding get put
  get-put [] k j v = refl
  get-put ((i, w) ∷ d) k j v = ground (arith, eq_iff k j, eq_iff i k, eq_iff i j, get-put d k j v)

  pub get-del :
      (d : Dict V) (k j : String) → get (del d k) j ≡ (if str_eq k j then none else get d j)
  unfolding get del
  get-del [] k j = ground arith
  get-del ((i, w) ∷ d) k j = ground (arith, eq_iff k j, eq_iff i k, eq_iff i j, get-del d k j)

  eq_of_put :
      (d : Dict V) (k j : String) (v w : V) → str_eq k j ≡ true → get (put d k v) j ≡ some w → v ≡ w
  eq_of_put d k j v w same e = ground (arith, get-put d k j v)

  -- A key that is read back after its own assignment.
  pub get-put_self : (d : Dict V) (k : String) (v : V) → get (put d k v) k ≡ some v
  get-put_self d k v = ground (arith, get-put d k k v, eq_iff k k)

  pub get-put_ne :
      (d : Dict V) (k j : String) (v : V) → str_eq k j ≡ false → get (put d k v) j ≡ get d j
  get-put_ne d k j v h = ground (arith, get-put d k j v)

  -- `k in d` by the keys, and by the look-up.
  pub contains-keys : (d : Dict V) (k : String) → contains (keys d) k ≡ is_some (get d k)
  unfolding get
  contains-keys [] k = refl
  contains-keys ((j, w) ∷ d) k = ground (arith, contains-keys d k)

-- Every entry of the dictionary satisfies the predicate.
abbrev pub Holds {ℓ κ} : {V : Type ℓ} → (String → V → Type κ) → Dict V → Type (ℓ ⊔ κ)
Holds {V} P d = (k : String) (v : V) → get d k ≡ some v → P k v

module _ {ℓ κ} {V : Type ℓ} (P : String → V → Type κ) (d : Dict V) where
  pub Holds-put : (k : String) (v : V) → Holds P d → P k v → Holds P (put d k v)
  Holds-put k v h p j w e = elim (Bool-cases (str_eq k j)) [
    | inl same ↦ subst₂ P ((eq_iff k j).0 same) (eq_of_put d k j v w same e) p
    | inr other ↦ h j w (rw (get-put, other) at e)
  ]

  pub Holds-del : (k : String) → Holds P d → Holds P (del d k)
  Holds-del k h j w e = elim (Bool-cases (str_eq k j)) [
    | inl same ↦ absurd (none-ne-some (rw (get-del, same) at e))
    | inr other ↦ h j w (rw (get-del, other) at e)
  ]

-- The laws of dictionaries, for `simp` and `grind`.
pub ruleset dict_laws = (get-put, get-del)
