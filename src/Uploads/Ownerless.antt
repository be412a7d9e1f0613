-- ===== src/Uploads/Ownerless.antt =====
-- Uploads to quotes of the quote service: src/intake/services/upload_service.py on what
-- src/intake/services/quote_service.py stores.
use intake.Prelude.{String, ◌≡◌, refl, is_some, inl, inr, Option-cases, if◌then◌else◌}
use intake.Prelude.Dict.{get}
use intake.Prelude.Http.{HttpException, http}
use intake.Prelude.Result.{err}
use intake.Quotes.Model.{EncryptedPayload}
use intake.Quotes.Repository.{get_by_id}
use intake.Quotes.Owners.{QuoteReach, QuoteReach-IsOwnerless}
use intake.Uploads.Model.{Depot}
use intake.Uploads.Service.{UploadFile, UploadStamp, handle_upload, list_uploads}

-- What a request for another's quote is told.
abbrev pub refusal : Depot → String → String → HttpException
refusal s quote_id forbidden =
    if is_some (get s.hosted.quotes quote_id)
    then http 403 forbidden
    else http 404 "Quote not found"

module _ (root : String) (encrypt_string encrypt_json : String → EncryptedPayload) where
  -- Whatever calls the quote service has answered since the backend had no quotes, submissions
  -- included, every upload and every listing of a quote's uploads is refused, with status 403 for a
  -- stored quote and 404 for any other, and an upload leaves the tables and the files alone.
  pub handle_upload_ownerless :
      (account_id quote_id : String) (file : UploadFile) (stamp : UploadStamp) (s : Depot)
      → QuoteReach encrypt_json s.hosted
      → (handle_upload root encrypt_string account_id quote_id file stamp s
          ≡ (err (refusal s quote_id "Not authorized to upload to this quote"), s))
        × (list_uploads root encrypt_string account_id quote_id s
            ≡ err (refusal s quote_id "Not authorized to view these uploads"))
  unfolding handle_upload list_uploads get_by_id
  handle_upload_ownerless account_id quote_id file stamp s reach =
      elim (Option-cases (get s.hosted.quotes quote_id)) [
        | inl gone ↦ (rw gone refl, rw gone refl)
        | inr (q, stored) ↦
            let (_, nobodys) = QuoteReach-IsOwnerless encrypt_json reach quote_id q stored in
            (rw (stored, nobodys) refl, rw (stored, nobodys) refl)
      ]
