-- ===== src/Prelude/Text.antt =====
-- The parts of Python's `str` and `os.path` that the program uses, on texts as sequences of code
-- points. `lower` maps the ASCII letters and leaves every other character as it is.
use Prim.Native.Nat.{ℕ, zero, suc, ◌-◌, ◌/◌, ◌%◌}
use Prim.Native.Char.{Char, code}
use Prim.Native.String.{String, [], ◌∷◌, ◌++◌}
use mathlib.Core.Bool.{Bool, true, false, not, ◌&&◌, ◌||◌}
use mathlib.Core.Option.{Option, none, some}
use intake.Prelude.Int.{ℤ, pos, negsuc}
use intake.Prelude.Tests.{leb, ◌==◌, if◌then◌else◌}

-- `not s`
abbrev pub is_empty : String → Bool
is_empty [] = true
is_empty (c ∷ s) = false

-- Two characters are the same.
abbrev pub is_char : Char → Char → Bool
is_char c d = code c == code d

-- The character at a position, or the given one past the end.
unfoldable pub char_or : String → ℕ → Char → Char
char_or [] n d = d
char_or (c ∷ s) zero d = c
char_or (c ∷ s) (suc n) d = char_or s n d

unfoldable pub lower_char : Char → Char
unfolding char_or
lower_char c =
    if leb b'A' (code c) && leb (code c) b'Z'
    then char_or "abcdefghijklmnopqrstuvwxyz" (code c - b'A') c
    else c

-- `s.lower()`
unfoldable pub lower : String → String
unfolding lower_char
lower [] = []
lower (c ∷ s) = lower_char c ∷ lower s

abbrev pub is_dot : Char → Bool
is_dot c = code c == b'.'

abbrev pub is_slash : Char → Bool
is_slash c = code c == b'/'

-- Some character of the text passes the test.
unfoldable pub any_char : (Char → Bool) → String → Bool
any_char p [] = false
any_char p (c ∷ s) = p c || any_char p s

-- Every character of the text passes the test.
unfoldable pub all_chars : (Char → Bool) → String → Bool
all_chars p [] = true
all_chars p (c ∷ s) = p c && all_chars p s

-- `s.startswith(".")`
abbrev pub starts_with_dot : String → Bool
starts_with_dot [] = false
starts_with_dot (c ∷ s) = is_dot c

-- `s.lstrip(chars)`, for the characters that pass the test
unfoldable pub lstrip : (Char → Bool) → String → String
lstrip p [] = []
lstrip p (c ∷ s) = let rest = lstrip p s in if p c then rest else c ∷ s

-- `s.rstrip(chars)`
unfoldable pub rstrip : (Char → Bool) → String → String
rstrip p [] = []
rstrip p (c ∷ s) = let rest = rstrip p s in if is_empty rest && p c then [] else c ∷ rest

-- White space, as `str.strip()` reads it.
abbrev pub is_space : Char → Bool
is_space c =
    (leb 9 (code c) && leb (code c) 13)
    || (leb 28 (code c) && leb (code c) 32)
    || code c == 133
    || code c == 160
    || code c == 5760
    || (leb 8192 (code c) && leb (code c) 8202)
    || code c == 8232
    || code c == 8233
    || code c == 8239
    || code c == 8287
    || code c == 12288

-- `s.strip()`
unfoldable pub strip : String → String
unfolding lstrip rstrip
strip s = rstrip is_space (lstrip is_space s)

-- `s[1:]` of a text that begins with a dot, and any other text as it is
abbrev pub drop_dot : String → String
drop_dot [] = []
drop_dot (c ∷ s) = if is_dot c then s else c ∷ s

-- The scan of `os.path.splitext`: `body` says that the last path component has shown a character
-- other than a dot. The extension begins at that component's last dot.
unfoldable pub splitext_from : Bool → String → String
unfolding any_char
splitext_from body [] = []
splitext_from body (c ∷ s) =
    let rest = splitext_from (if is_slash c then false else body || not (is_dot c)) s in
    if body && is_dot c && not (any_char (λ d. is_dot d || is_slash d) s) then c ∷ s else rest

-- `os.path.splitext(s)[1]`
unfoldable pub splitext : String → String
unfolding splitext_from
splitext s = splitext_from false s

-- The digits of a number before a text, on fuel that bounds the number.
decimal_before : ℕ → ℕ → String → String
unfolding char_or
decimal_before zero n s = s
decimal_before (suc fuel) n s =
    let t = char_or "0123456789" (n % 10) "?" ∷ s in
    elim (n / 10) [ zero ↦ t | suc m ↦ decimal_before fuel (suc m) t ]

-- `str(n)`
unfoldable pub decimal : ℤ → String
unfolding decimal_before
decimal (pos n) = decimal_before (suc n) n []
decimal (negsuc n) = "-" ++ decimal_before (suc (suc n)) (suc n) []

-- `given or default`, for an optional text
abbrev pub text_or : Option String → String → String
text_or none default = default
text_or (some given) default = if is_empty given then default else given
