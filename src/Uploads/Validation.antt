-- ===== src/Uploads/Validation.antt =====
-- UploadValidationService: src/intake/services/upload_validation_service.py. An error is the text
-- of the ValueError.
use Prim.Native.String.{◌++◌}
use intake.Prelude.{
  ℕ, String, Bool, true, false, not, ◌&&◌, ◌||◌, Option, none, some, leb, ltb, str_eq, ◌==◌,
  if◌then◌else◌,
}
use intake.Prelude.Text.{is_empty, is_dot, is_slash, lower}
use intake.Prelude.Result.{Result, ok, err}
use intake.Quotes.Model.{QuoteStatus, draft, submitted, needs_review, reviewing}
use intake.Quotes.EventLog.{status_value}

-- ALLOWED_POLICIES: the type of an extension
unfoldable pub allowed_policy : String → Option String
allowed_policy ext =
    if str_eq ext ".jpg" || str_eq ext ".jpeg"
    then some "image/jpeg"
    else if str_eq ext ".png"
    then some "image/png"
    else if str_eq ext ".webp"
    then some "image/webp"
    else if str_eq ext ".heic"
    then some "image/heic"
    else if str_eq ext ".mp4"
    then some "video/mp4"
    else if str_eq ext ".mov"
    then some "video/quicktime"
    else if str_eq ext ".pdf"
    then some "application/pdf"
    else none

-- LIMITS, in bytes
abbrev pub image_limit : ℕ
image_limit = 15728640

abbrev pub pdf_limit : ℕ
pdf_limit = 20971520

abbrev pub video_limit : ℕ
video_limit = 157286400

abbrev pub global_max : ℕ
global_max = 157286400

abbrev pub max_files_per_quote : ℕ
max_files_per_quote = 20

abbrev pub max_total_bytes_per_quote : ℕ
max_total_bytes_per_quote = 524288000

-- ALLOWED_QUOTE_STATUSES
abbrev pub allows_uploads : QuoteStatus → Bool
allows_uploads draft = true
allows_uploads submitted = true
allows_uploads needs_review = true
allows_uploads reviewing = true
allows_uploads _ = false

abbrev pub is_pdf : String → Bool
is_pdf ext = str_eq ext ".pdf"

abbrev pub is_video : String → Bool
is_video ext = str_eq ext ".mp4" || str_eq ext ".mov"

abbrev pub is_image : String → Bool
is_image ext =
    str_eq ext ".jpg"
    || str_eq ext ".jpeg"
    || str_eq ext ".png"
    || str_eq ext ".webp"
    || str_eq ext ".heic"

-- The last component of a path that is neither empty nor ".", with the current one and the last
-- one so far: `Path(filename).name`
abbrev pub or_last : String → String → String
or_last current last = if is_empty current || str_eq current "." then last else current

unfoldable pub name_from : String → String → String → String
name_from current last String.[] = or_last current last
name_from current last (String.◌∷◌ c s) =
    name_from (if is_slash c then "" else current ++ String.◌∷◌ c String.[])
      (if is_slash c then or_last current last else last) s

-- The text from its last dot on.
unfoldable pub last_dot : String → Option String
last_dot String.[] = none
last_dot (String.◌∷◌ c s) = elim (last_dot s) [
  | some t ↦ some t
  | none ↦ if is_dot c then some (String.◌∷◌ c s) else none
]

abbrev pub longer_than_dot : Option String → String
longer_than_dot none = ""
longer_than_dot (some t) = if str_eq t "." then "" else t

abbrev pub suffix_of_name : String → String
suffix_of_name String.[] = ""
suffix_of_name (String.◌∷◌ c s) = longer_than_dot (last_dot s)

-- `Path(filename).suffix`
unfoldable pub suffix : String → String
unfolding name_from last_dot
suffix filename = suffix_of_name (name_from "" "" filename)

-- `text.split("/")[0]`
unfoldable pub before_slash : String → String
before_slash String.[] = String.[]
before_slash (String.◌∷◌ c s) =
    let rest = before_slash s in if is_slash c then String.[] else String.◌∷◌ c rest

-- The limit of the extension's kind is exceeded.
abbrev pub exceeds_kind : String → ℕ → Option String
exceeds_kind ext size =
    if is_pdf ext && ltb pdf_limit size
    then some "PDF exceeds maximum size of 20MB"
    else if is_video ext && ltb video_limit size
    then some "Video exceeds maximum size of 150MB"
    else if is_image ext && ltb image_limit size
    then some "Image exceeds maximum size of 15MB"
    else none

abbrev pub mismatch : String → String → String → Bool
mismatch content_type expected_mime ext =
    not (is_empty content_type)
    && not (str_eq content_type expected_mime)
    && not (str_eq (before_slash content_type) (before_slash expected_mime))
    && not (is_pdf ext)

abbrev pub check_kind : Option String → String → String → String → Result String String
check_kind (some error) expected_mime content_type ext = err error
check_kind none expected_mime content_type ext =
    if mismatch content_type expected_mime ext
    then err ("MIME type mismatch: declared " ++ content_type ++ " for " ++ ext)
    else ok ext

abbrev pub check_extension : Option String → String → String → ℕ → Result String String
check_extension none ext content_type size = err ("Disallowed file extension: " ++ ext)
check_extension (some expected_mime) ext content_type size =
    check_kind (exceeds_kind ext size) expected_mime content_type ext

-- `validate_file`, where None and "" are alike for the file's name and for its type
unfoldable pub validate_file : String → String → ℕ → Result String String
unfolding suffix lower allowed_policy before_slash
validate_file filename content_type size =
    let ext = lower (suffix filename) in
    if is_empty filename
    then err "Missing filename"
    else if size == 0
    then err "File is empty"
    else if ltb global_max size
    then err "File exceeds maximum size of 150MB"
    else if is_empty ext
    then err "File has no extension"
    else check_extension (allowed_policy ext) ext content_type size

-- `can_upload_to_quote`: none is True
unfoldable pub can_upload_to_quote : QuoteStatus → ℕ → ℕ → Option String
can_upload_to_quote status count total =
    if not (allows_uploads status)
    then some ("Quote status '" ++ status_value status ++ "' does not allow uploads")
    else if leb max_files_per_quote count
    then some "Quote already has maximum number of files (20)"
    else if leb max_total_bytes_per_quote total
    then some "Quote has reached total upload size limit"
    else none
