-- ===== src/Receiver/Paths/Ends.antt =====
-- The loop of `_sanitize_path_component` on pairs of dots ends,
-- src/intake/local_console/receiver/storage.py.
use Prim.Native.Char.{Char, len_utf8}
use Prim.Native.String.{len}
use Prim.Native.String.len
use text.Mathlib.TextPositions.{len_utf8-pos}
use intake.Prelude.{
  ℕ, zero, suc, ◌+◌, ◌<◌, ◌≤◌, String, ◌≡◌, refl, inl, inr, true, false, ◌&&◌, arith, Bool-cases,
}
use intake.Prelude.Text.{is_dot}
use intake.Receiver.Paths.{remove_dot_pairs, has_dot_pair, remove_parents}

len_cons : (c : Char) (s : String) → len (String.◌∷◌ c s) ≡ len_utf8 c + len s
len_cons c s = len.cons c s

-- A character more is more bytes.
len-more : (c : Char) (s : String) → len s < len (String.◌∷◌ c s)
len-more c s = let (k, size) = len_utf8-pos c in omega (arith, size, len_cons c s)

-- A replacement never lengthens a text.
remove_dot_pairs-len : (s : String) → len (remove_dot_pairs s) ≤ len s
unfolding remove_dot_pairs
remove_dot_pairs-len String.[] = omega arith
remove_dot_pairs-len (String.◌∷◌ c String.[]) = omega arith
remove_dot_pairs-len (String.◌∷◌ c (String.◌∷◌ d s)) =
    let without = remove_dot_pairs-len s in
    let kept = remove_dot_pairs-len (String.◌∷◌ d s) in
    let first = len-more c (String.◌∷◌ d s) in
    let second = len-more d s in
    elim (Bool-cases (is_dot c && is_dot d)) [
      | inl pair ↦ rw pair (omega (arith, without, first, second))
      | inr other ↦
          rw (other, len_cons c (remove_dot_pairs (String.◌∷◌ d s)), len_cons c (String.◌∷◌ d s))
            (omega (arith, kept))
    ]

-- A text that has a pair of dots is shortened.
remove_dot_pairs-shorter : (s : String) → has_dot_pair s ≡ true → len (remove_dot_pairs s) < len s
unfolding remove_dot_pairs has_dot_pair
remove_dot_pairs-shorter String.[] h = ground arith
remove_dot_pairs-shorter (String.◌∷◌ c String.[]) h = ground arith
remove_dot_pairs-shorter (String.◌∷◌ c (String.◌∷◌ d s)) h =
    elim (Bool-cases (is_dot c && is_dot d)) [
      | inl pair ↦
          let without = remove_dot_pairs-len s in
          let first = len-more c (String.◌∷◌ d s) in
          let second = len-more d s in rw pair (omega (arith, without, first, second))
      | inr other ↦
          let kept = remove_dot_pairs-shorter (String.◌∷◌ d s) (rw other at h) in
          rw (other, len_cons c (remove_dot_pairs (String.◌∷◌ d s)), len_cons c (String.◌∷◌ d s))
            (omega (arith, kept))
    ]

-- Rounds in the number of characters leave no pair.
remove_parents-pairs :
    (fuel : ℕ) (s : String) → len s ≤ fuel → has_dot_pair (remove_parents fuel s) ≡ false
unfolding remove_parents has_dot_pair
remove_parents-pairs zero String.[] h = refl
remove_parents-pairs zero (String.◌∷◌ c s) h = let more = len-more c s in ground arith
remove_parents-pairs (suc fuel) s h = elim (Bool-cases (has_dot_pair s)) [
  | inl pair ↦
      let shorter = remove_dot_pairs-shorter s pair in
      rw pair (remove_parents-pairs fuel (remove_dot_pairs s) (omega (arith, shorter, h)))
  | inr other ↦ rw other other
]

-- Without a pair the loop is over.
remove_parents-over : (fuel : ℕ) (s : String) → has_dot_pair s ≡ false → remove_parents fuel s ≡ s
unfolding remove_parents
remove_parents-over zero s h = refl
remove_parents-over (suc fuel) s h = rw h refl

remove_parents-more :
    (fuel more : ℕ) (s : String)
    → fuel ≤ more
    → has_dot_pair (remove_parents fuel s) ≡ false
    → remove_parents more s ≡ remove_parents fuel s
unfolding remove_parents
remove_parents-more zero more s below h = remove_parents-over more s h
remove_parents-more (suc fuel) zero s below h = ground arith
remove_parents-more (suc fuel) (suc more) s below h = elim (Bool-cases (has_dot_pair s)) [
  | inl pair ↦
      rw pair
        (remove_parents-more fuel more (remove_dot_pairs s) (omega (arith, below)) (rw pair at h))
  | inr other ↦ rw other refl
]

-- The loop that removes pairs of dots ends: after as many rounds as the text has bytes, or more, no
-- pair is left, and the text is the same after any such number of rounds.
pub remove_parents_ends :
    (s : String) (rounds : ℕ)
    → len s ≤ rounds
    → (has_dot_pair (remove_parents rounds s) ≡ false)
      × (remove_parents rounds s ≡ remove_parents (len s) s)
remove_parents_ends s rounds enough = (
  remove_parents-pairs rounds s enough,
  remove_parents-more (len s) rounds s enough (remove_parents-pairs (len s) s (omega arith)),
)
