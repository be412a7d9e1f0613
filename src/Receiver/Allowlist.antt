-- ===== src/Receiver/Allowlist.antt =====
-- The content types that a session was opened with: `validate_file_upload` tests them by
-- `declared_ct not in session.allowed_content_types and declared_ct not in ALLOWED_CONTENT_TYPES`,
-- src/intake/local_console/receiver/service.py.
use intake.Prelude.{
  ℕ, String, ◌≡◌, inl, inr, refl, true, not, ◌&&◌, Option, none, some, List, [], ◌∷◌, arith,
  Bool-cases, str_eq, eq_iff, All, subst, contains,
}
use intake.Prelude.Result.{ok}
use intake.Receiver.Model.{allowed_content_types, LocalUploadSession, UploadFileRequest}
use intake.Receiver.Sessions.{has_key, check_content_types}
use intake.Receiver.Admission.{admit, extension_from_name, check_extension}

abbrev IsKnownType : String → Type 0
IsKnownType ct = has_key allowed_content_types ct ≡ true

check_content_types-All :
    (cts : List String) → check_content_types cts ≡ ok tt → All IsKnownType cts
unfolding check_content_types
check_content_types-All [] h = tt
check_content_types-All (ct ∷ cts) h = elim (Bool-cases (has_key allowed_content_types ct)) [
  | inl known ↦ (known, check_content_types-All cts (rw known at h))
  | inr unknown ↦ let no_way = rw unknown at h in cc no_way
]

contains-IsKnownType :
    (cts : List String) (ct : String)
    → All IsKnownType cts
    → contains cts ct ≡ true
    → IsKnownType ct
contains-IsKnownType [] ct h e = cc
contains-IsKnownType (x ∷ cts) ct h e = elim (Bool-cases (str_eq x ct)) [
  | inl same ↦ subst IsKnownType ((eq_iff x ct).0 same) h.0
  | inr other ↦ contains-IsKnownType cts ct h.1 (rw other at e)
]

-- For a list of known types the test is the global one.
type_test :
    (cts : List String) (ct : String)
    → All IsKnownType cts
    → (not (contains cts ct) && not (has_key allowed_content_types ct))
      ≡ not (has_key allowed_content_types ct)
type_test cts ct h = ground (arith, contains-IsKnownType cts ct h)

extension_from_name-types :
    (s : LocalUploadSession) (cts : List String) (declared : String) (name : Option String)
    → extension_from_name (record s { allowed_content_types = cts }) declared name
      ≡ extension_from_name s declared name
unfolding extension_from_name check_extension
extension_from_name-types s cts declared none = refl
extension_from_name-types s cts declared (some name) = refl

-- A session's own content types, once `create_session` has checked them, decide nothing: a file
-- is admitted or rejected exactly as if the session had been opened for any other checked list.
pub admit-types_irrelevant :
    (s : LocalUploadSession) (cts : List String) (request : UploadFileRequest) (size : ℕ)
    → check_content_types s.allowed_content_types ≡ ok tt
    → check_content_types cts ≡ ok tt
    → admit (record s { allowed_content_types = cts }) request size ≡ admit s request size
unfolding admit
admit-types_irrelevant s cts request size h h' = rw (
  type_test cts request.declared_content_type (check_content_types-All cts h'),
  type_test s.allowed_content_types request.declared_content_type
      (check_content_types-All s.allowed_content_types h),
  extension_from_name-types s cts request.declared_content_type request.original_filename,
)
