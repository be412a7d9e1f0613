-- ===== src/Receiver/Paths.antt =====
-- Names on disk: the path methods of LocalReceiverStorageService,
-- src/intake/local_console/receiver/storage.py.
pub mod Ends
pub mod Safe
use Prim.Native.Char.{Char, code}
use Prim.Native.String.{len, ◌++◌}
use intake.Prelude.{
  ℕ, zero, suc, String, Bool, false, ◌&&◌, ◌||◌, Option, none, some, leb, ◌==◌, if◌then◌else◌,
}
use intake.Prelude.Text.{is_empty, is_dot, starts_with_dot, drop_dot, lower, strip, lstrip, rstrip}

abbrev pub is_separator : Char → Bool
is_separator c = code c == b'/' || code c == b'\\'

-- `component.replace("/", "").replace("\\", "")`
unfoldable pub remove_separators : String → String
remove_separators String.[] = ""
remove_separators (String.◌∷◌ c s) =
    let rest = remove_separators s in if is_separator c then rest else String.◌∷◌ c rest

-- One `cleaned.replace("..", "")`: pairs of dots go, from the left.
unfoldable pub remove_dot_pairs : String → String
remove_dot_pairs String.[] = ""
remove_dot_pairs (String.◌∷◌ c String.[]) = String.◌∷◌ c ""
remove_dot_pairs (String.◌∷◌ c (String.◌∷◌ d s)) =
    let without = remove_dot_pairs s in
    let kept = String.◌∷◌ c (remove_dot_pairs (String.◌∷◌ d s)) in
    if is_dot c && is_dot d then without else kept

-- `".." in s`
unfoldable pub has_dot_pair : String → Bool
has_dot_pair String.[] = false
has_dot_pair (String.◌∷◌ c s) = (is_dot c && starts_with_dot s) || has_dot_pair s

-- The loop `while ".." in cleaned`, on fuel.
unfoldable pub remove_parents : ℕ → String → String
unfolding has_dot_pair remove_dot_pairs
remove_parents zero s = s
remove_parents (suc fuel) s =
    let rest = remove_parents fuel (remove_dot_pairs s) in if has_dot_pair s then rest else s

-- `[a-zA-Z0-9_\-\.]`
abbrev pub is_name_char : Char → Bool
is_name_char c =
    (leb b'a' (code c) && leb (code c) b'z')
    || (leb b'A' (code c) && leb (code c) b'Z')
    || (leb b'0' (code c) && leb (code c) b'9')
    || code c == b'_'
    || code c == b'-'
    || code c == b'.'

abbrev pub is_underscore : Char → Bool
is_underscore c = code c == b'_'

abbrev pub mask_char : Char → Char
mask_char c = if is_name_char c then c else "_"

-- `re.sub(r"[^a-zA-Z0-9_\-\.]", "_", s)`
unfoldable pub mask_chars : String → String
mask_chars String.[] = ""
mask_chars (String.◌∷◌ c s) = String.◌∷◌ (mask_char c) (mask_chars s)

abbrev pub starts_with_underscore : String → Bool
starts_with_underscore String.[] = false
starts_with_underscore (String.◌∷◌ c s) = is_underscore c

-- `re.sub(r"_+", "_", s)`: of each run of underscores one stays.
unfoldable pub collapse_underscores : String → String
collapse_underscores String.[] = ""
collapse_underscores (String.◌∷◌ c s) =
    let rest = collapse_underscores s in
    if is_underscore c && starts_with_underscore s then rest else String.◌∷◌ c rest

abbrev pub is_trimmed_char : Char → Bool
is_trimmed_char c = code c == b'_' || code c == b'.'

unfoldable pub sanitize_path_component : String → String
unfolding remove_separators remove_parents mask_chars collapse_underscores lstrip rstrip
sanitize_path_component component =
    let cleaned = remove_separators component in
    let cleaned = remove_parents (len cleaned) cleaned in
    let cleaned = collapse_underscores (mask_chars cleaned) in
    let cleaned = rstrip is_trimmed_char (lstrip is_trimmed_char cleaned) in
    if is_empty cleaned then "_" else cleaned

-- `_generate_storage_name`
unfoldable pub generate_storage_name : String → Option String → String
unfolding lower strip
generate_storage_name file_id none = file_id
generate_storage_name file_id (some extension) =
    if is_empty extension then file_id else file_id ++ "." ++ drop_dot (strip (lower extension))
