-- ===== src/Prelude/Parts.antt =====
-- Parts of texts: Python's startswith, endswith, `in`, split("\n") and join on texts.
use Prim.Native.Char.{code}
use Prim.Native.String.{String, [], ◌∷◌, ◌++◌}
use mathlib.Core.Path.{◌≡◌, refl}
use mathlib.Core.Bool.{Bool, true, false, ◌&&◌, ◌||◌}
use mathlib.Core.Logic.{inl, inr}
use mathlib.Core.List.{List}
use intake.Prelude.Lists.{All}
use native.Mathlib.Omega.{arith}
use intake.Prelude.Tests.{◌==◌, Bool-cases, if◌then◌else◌, str_eq}
use intake.Prelude.Text.{is_char}

-- `text.startswith(start)`
unfoldable pub starts_with : String → String → Bool
starts_with [] text = true
starts_with (c ∷ start) [] = false
starts_with (c ∷ start) (d ∷ text) = is_char c d && starts_with start text

-- `text.endswith(end)`
unfoldable pub ends_with : String → String → Bool
ends_with end [] = str_eq end []
ends_with end (c ∷ text) = str_eq end (c ∷ text) || ends_with end text

-- `part in text`
unfoldable pub has_part : String → String → Bool
unfolding starts_with
has_part part [] = starts_with part []
has_part part (c ∷ text) = starts_with part (c ∷ text) || has_part part text

-- `text.split("\n")`: its first line, and the others
unfoldable pub split_lines : String → String × List String
split_lines [] = ([], List.[])
split_lines (c ∷ text) =
    let (line, lines) = split_lines text in
    if code c == b'\n' then ([], List.◌∷◌ line lines) else (c ∷ line, lines)

-- `"\n".join(lines)`, of the first line and the others
unfoldable pub join_lines : String → List String → String
join_lines line List.[] = line
join_lines line (List.◌∷◌ next lines) = line ++ "\n" ++ join_lines next lines

-- What begins the first line begins the text.
starts_with-first :
    (part text : String)
    → starts_with part (split_lines text).0 ≡ true
    → starts_with part text ≡ true
unfolding starts_with split_lines
starts_with-first [] text h = refl
starts_with-first (c ∷ part) [] h = h
starts_with-first (c ∷ part) (d ∷ text) h = elim (Bool-cases (code d == b'\n')) [
  | inl ends ↦ let no_way = rw ends at h in ground arith
  | inr goes_on ↦
      let both = rw goes_on at h in let rest = starts_with-first part text in ground (arith, rest)
]

-- A line's part is the text's.
pub has_part-line :
    (part text : String)
    → has_part part text ≡ false
    → (has_part part (split_lines text).0 ≡ false)
      × All (λ line. has_part part line ≡ false) (split_lines text).1
unfolding has_part split_lines
has_part-line part [] h = (h, tt)
has_part-line part (c ∷ text) h =
    let (line, lines) = has_part-line part text (ground arith) in
    let not_here : starts_with part (c ∷ text) ≡ false = ground arith in
    elim (Bool-cases (code c == b'\n')) [
      | inl ends ↦ rw ends (empty_line part (c ∷ text) not_here, (line, lines))
      | inr goes_on ↦
          let first = starts_with-first part (c ∷ text) in
          rw goes_on ((let split = rw goes_on at first in ground arith), lines)
    ]
  where
    empty_line : (part text : String) → starts_with part text ≡ false → starts_with part [] ≡ false
    empty_line [] text h = h
    empty_line (c ∷ part) text h = refl
