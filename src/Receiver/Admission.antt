-- ===== src/Receiver/Admission.antt =====
-- Which files a session admits: `validate_file_upload` of
-- src/intake/local_console/receiver/service.py.
use Prim.Native.String.{◌++◌}
use intake.Prelude.{
  ℕ, ◌+◌, String, Bool, true, false, not, ◌&&◌, ◌||◌, Option, none, some, List, [], ◌∷◌, map,
  str_eq, ◌==◌, if◌then◌else◌, length, contains,
}
use intake.Prelude.Int.{exceeds, reaches}
use intake.Prelude.Text.{is_empty, is_dot, starts_with_dot, lower, lstrip, splitext}
use intake.Prelude.Dict.{get}
use intake.Prelude.Result.{Result, ok, err, raise_if}
use intake.Receiver.Model.{
  FileRejectionReason, expired_session, completed_session, empty_file, over_size_limit,
  max_total_bytes_exceeded, max_files_exceeded, disallowed_content_type, disallowed_extension,
  extension_mismatch, invalid_session, allowed_content_types, allowed_extensions,
  LocalUploadSession, UploadFileRequest, Receiver,
}
use intake.Receiver.Sessions.{Exception, get_session, has_key, is_completed, is_expired_status}

-- `e if e.startswith(".") else f".{e}"`
abbrev pub with_dot : String → String
with_dot e = if starts_with_dot e then e else "." ++ e

-- The declared type is another than the one that the extension stands for.
abbrev pub is_mismatch : Option String → String → Bool
is_mismatch none declared = false
is_mismatch (some expected) declared = not (str_eq declared expected)

-- The checks of an extension that the file name has.
unfoldable pub check_extension :
    LocalUploadSession → String → String → Result FileRejectionReason (Option String)
unfolding get allowed_extensions lstrip
check_extension session declared ext =
    raise_if
      (not (contains (map with_dot session.allowed_extensions) (with_dot ext))
        && not (has_key allowed_extensions (with_dot ext)))
      disallowed_extension
      (raise_if (is_mismatch (get allowed_extensions (with_dot ext)) declared) extension_mismatch
        (ok (some (lstrip is_dot (with_dot ext)))))

-- The extension that a file name gives, none where there is no name or no extension.
unfoldable pub extension_from_name :
    LocalUploadSession → String → Option String → Result FileRejectionReason (Option String)
unfolding check_extension splitext lower
extension_from_name session declared none = ok none
extension_from_name session declared (some name) =
    let ext = lower (splitext name) in
    if is_empty name || is_empty ext then ok none else check_extension session declared ext

-- `not extension`
abbrev pub lacks : Option String → Bool
lacks none = true
lacks (some e) = is_empty e

-- `ALLOWED_CONTENT_TYPES[declared_ct][0].lstrip(".")`
unfoldable pub canonical_extension : List String → Option String
unfolding lstrip
canonical_extension [] = none
canonical_extension (ext ∷ exts) = some (lstrip is_dot ext)

-- The extension from the content type, where the name gave none.
unfoldable pub extension_or_canonical : String → Option String → Option String
unfolding canonical_extension get
extension_or_canonical declared extension =
    if lacks extension
    then elim (get allowed_content_types declared) [
      | none ↦ extension
      | some exts ↦ canonical_extension exts
    ]
    else extension

abbrev pub then_canonical :
    String → Result FileRejectionReason (Option String) → Result FileRejectionReason (Option String)
then_canonical declared (ok extension) = ok (extension_or_canonical declared extension)
then_canonical declared (err reason) = err reason

-- The checks against a session that has been found.
unfoldable pub admit :
    LocalUploadSession → UploadFileRequest → ℕ → Result FileRejectionReason (Option String)
admit session request file_size = raise_if (is_completed session.status) completed_session (
    raise_if (is_expired_status session.status) expired_session (
      raise_if (file_size == 0) empty_file (
        raise_if (exceeds file_size session.max_file_size_bytes) over_size_limit (
          raise_if (exceeds (session.total_bytes_uploaded + file_size) session.max_total_bytes)
            max_total_bytes_exceeded
            (raise_if (reaches (length session.uploaded_files) session.max_files) max_files_exceeded
              (raise_if
                (not (contains session.allowed_content_types request.declared_content_type)
                  && not (has_key allowed_content_types request.declared_content_type))
                disallowed_content_type
                (then_canonical request.declared_content_type (
                  extension_from_name session request.declared_content_type
                    request.original_filename))))))))

-- `except ValueError: return None, INVALID_SESSION`
abbrev pub admit_found :
    Result Exception LocalUploadSession
    → UploadFileRequest
    → ℕ
    → Result FileRejectionReason (Option String)
admit_found (ok session) request file_size = admit session request file_size
admit_found (err e) request file_size = err invalid_session

-- `validate_file_upload`: the validated extension or the reason of the rejection.
unfoldable pub validate_file_upload :
    String
    → UploadFileRequest
    → ℕ
    → ℕ
    → Receiver
    → Result FileRejectionReason (Option String) × Receiver
unfolding get_session admit extension_from_name extension_or_canonical
validate_file_upload session_id request file_size now r =
    let (found, r') = get_session session_id now r in (admit_found found request file_size, r')
