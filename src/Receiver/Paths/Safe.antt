-- ===== src/Receiver/Paths/Safe.antt =====
-- `_sanitize_path_component` yields one safe path component,
-- src/intake/local_console/receiver/storage.py.
use Prim.Native.Char.{Char}
use Prim.Native.String.{len}
use intake.Prelude.{
  String, ◌≡◌, inl, inr, refl, Bool, true, false, ◌&&◌, arith, Bool-cases, if◌then◌else◌,
}
use intake.Prelude.Text.{is_empty, starts_with_dot, all_chars, lstrip, rstrip}
use intake.Receiver.Paths.{
  is_name_char, is_trimmed_char, mask_char, mask_chars, collapse_underscores,
  sanitize_path_component, remove_separators, remove_parents,
}

mask_char-name : (c : Char) → is_name_char (mask_char c) ≡ true
mask_char-name c = elim (Bool-cases (is_name_char c)) [ inl good ↦ rw good good | inr bad ↦ rw bad ]

-- Masked, every character is a name character.
mask_chars-all : (s : String) → all_chars is_name_char (mask_chars s) ≡ true
unfolding mask_chars all_chars
mask_chars-all String.[] = refl
mask_chars-all (String.◌∷◌ c s) = rw (mask_char-name c) (mask_chars-all s)

collapse-all :
    (s : String)
    → all_chars is_name_char s ≡ true
    → all_chars is_name_char (collapse_underscores s) ≡ true
unfolding collapse_underscores all_chars
collapse-all String.[] h = refl
collapse-all (String.◌∷◌ c s) h = ground (arith, collapse-all s)

-- Stripping keeps what every character has.
module _ (p q : Char → Bool) where
  lstrip-all : (s : String) → all_chars p s ≡ true → all_chars p (lstrip q s) ≡ true
  unfolding lstrip all_chars
  lstrip-all String.[] h = refl
  lstrip-all (String.◌∷◌ c s) h = ground (arith, lstrip-all s)

  rstrip-all : (s : String) → all_chars p s ≡ true → all_chars p (rstrip q s) ≡ true
  unfolding rstrip all_chars
  rstrip-all String.[] h = refl
  rstrip-all (String.◌∷◌ c s) h = ground (arith, rstrip-all s)

-- Stripped of dots on the left, a text does not begin with one, nor after the right side is
-- stripped too.
lstrip-no_dot : (s : String) → starts_with_dot (lstrip is_trimmed_char s) ≡ false
unfolding lstrip
lstrip-no_dot String.[] = refl
lstrip-no_dot (String.◌∷◌ c s) = ground (arith, lstrip-no_dot s)

rstrip-no_dot :
    (q : Char → Bool) (s : String)
    → starts_with_dot s ≡ false
    → starts_with_dot (rstrip q s) ≡ false
unfolding rstrip
rstrip-no_dot q String.[] h = refl
rstrip-no_dot q (String.◌∷◌ c s) h = elim (Bool-cases (is_empty (rstrip q s) && q c)) [
  | inl last ↦ rw last
  | inr kept ↦ rw kept h
]

-- A safe path component.
pub record IsSafe (s : String) : Type 0 where
  pub not_empty : is_empty s ≡ false
  pub names_only : all_chars is_name_char s ≡ true
  pub not_dotted : starts_with_dot s ≡ false

or_underscore-IsSafe :
    (s : String)
    → all_chars is_name_char s ≡ true
    → starts_with_dot s ≡ false
    → IsSafe (if is_empty s then "_" else s)
unfolding all_chars
or_underscore-IsSafe String.[] h d = record {
  not_empty = refl;
  names_only = refl;
  not_dotted = refl;
}
or_underscore-IsSafe (String.◌∷◌ c s) h d = record {
  not_empty = refl;
  names_only = h;
  not_dotted = d;
}

-- Whatever text it is given, the sanitized component is not empty, holds only letters, digits,
-- `_`, `-` and `.`, and does not begin with a dot: it has no separator and is neither "." nor "..".
pub sanitize_path_component-IsSafe :
    (component : String) → IsSafe (sanitize_path_component component)
unfolding sanitize_path_component
sanitize_path_component-IsSafe component =
    let cleaned =
      remove_parents (len (remove_separators component)) (remove_separators component) in
    let collapsed = collapse_underscores (mask_chars cleaned) in
    let stripped = lstrip is_trimmed_char collapsed in
    or_underscore-IsSafe _
      (rstrip-all is_name_char is_trimmed_char stripped (
        lstrip-all is_name_char is_trimmed_char collapsed
          (collapse-all (mask_chars cleaned) (mask_chars-all cleaned))))
      (rstrip-no_dot is_trimmed_char stripped (lstrip-no_dot collapsed))
