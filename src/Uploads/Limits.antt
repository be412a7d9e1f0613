-- ===== src/Uploads/Limits.antt =====
-- What a file that is taken looks like: src/intake/services/upload_validation_service.py.
use intake.Prelude.{
  ℕ, ◌<◌, ◌≤◌, String, ◌≡◌, refl, true, none, is_some, inl, inr, arith, Bool-cases, Option-cases,
  ltb, ◌==◌,
}
use intake.Prelude.Text.{is_empty, lower}
use intake.Prelude.Result.{Judged, passed, failed}
use intake.Quotes.Model.{QuoteStatus}
use intake.Uploads.Validation.{
  allowed_policy, image_limit, pdf_limit, global_max, max_files_per_quote,
  max_total_bytes_per_quote, is_pdf, is_image, suffix, exceeds_kind, mismatch, check_kind,
  check_extension, validate_file, can_upload_to_quote,
}

-- The extension is one of the list, and the size fits it.
pub record Fits (extension : String) (size : ℕ) : Type 0 where
  pub listed : is_some (allowed_policy extension) ≡ true
  pub positive : 0 < size
  pub small : size ≤ global_max
  pub pdf : is_pdf extension ≡ true → size ≤ pdf_limit
  pub image : is_image extension ≡ true → size ≤ image_limit

check_kind-Judged :
    (expected_mime content_type ext : String) (size : ℕ)
    → (exceeds_kind ext size ≡ none → Fits ext size)
    → Judged
        (λ e. Fits e size)
        (λ e. Unit {0})
        (check_kind (exceeds_kind ext size) expected_mime content_type ext)
check_kind-Judged expected_mime content_type ext size fits =
    elim (Option-cases (exceeds_kind ext size)) [
      | inr (e, over) ↦ rw over (failed e tt)
      | inl under ↦ elim (Bool-cases (mismatch content_type expected_mime ext)) [
        | inl bad ↦ rw (under, bad) (failed _ tt)
        | inr good ↦ rw (under, good) (passed ext (fits under))
      ]
    ]

kind-Fits :
    (ext : String) (size : ℕ)
    → is_some (allowed_policy ext) ≡ true
    → 0 < size
    → size ≤ global_max
    → exceeds_kind ext size ≡ none
    → Fits ext size
kind-Fits ext size listed positive small under = record {
  listed = listed;
  positive = positive;
  small = small;
  pdf = λ is. ground arith;
  image = λ is. ground arith;
}

extension-Judged :
    (ext content_type : String) (size : ℕ)
    → 0 < size
    → size ≤ global_max
    → Judged
        (λ e. Fits e size)
        (λ e. Unit {0})
        (check_extension (allowed_policy ext) ext content_type size)
extension-Judged ext content_type size positive small = elim (Option-cases (allowed_policy ext)) [
  | inl unlisted ↦ rw unlisted (failed _ tt)
  | inr (mime, listed) ↦ rw listed (
      check_kind-Judged mime content_type ext size
        (kind-Fits ext size (rw listed refl) positive small))
]

-- A file that is valid fits its extension.
pub validate_file-Judged :
    (filename content_type : String) (size : ℕ)
    → Judged (λ e. Fits e size) (λ e. Unit {0}) (validate_file filename content_type size)
unfolding validate_file
validate_file-Judged filename content_type size = elim (Bool-cases (is_empty filename)) [
  | inl e ↦ rw e (failed _ tt)
  | inr named ↦ elim (Bool-cases (size == 0)) [
    | inl e ↦ rw (named, e) (failed _ tt)
    | inr full ↦ elim (Bool-cases (ltb global_max size)) [
      | inl e ↦ rw (named, full, e) (failed _ tt)
      | inr small ↦ elim (Bool-cases (is_empty (lower (suffix filename)))) [
        | inl e ↦ rw (named, full, small, e) (failed _ tt)
        | inr ext ↦
            rw (named, full, small, ext)
              (extension-Judged (lower (suffix filename)) content_type size (ground arith)
                (ground arith))
      ]
    ]
  ]
]

-- A quote takes another file only below both of its limits.
pub can_upload_to_quote_bounds :
    (status : QuoteStatus) (count total : ℕ)
    → can_upload_to_quote status count total ≡ none
    → (count < max_files_per_quote) × (total < max_total_bytes_per_quote)
unfolding can_upload_to_quote
can_upload_to_quote_bounds status count total h = (ground arith, ground arith)
