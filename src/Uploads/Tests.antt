-- ===== src/Uploads/Tests.antt =====
-- Runs of src/intake/services/upload_service.py at concrete inputs.
use intake.Prelude.{String, ◌≡◌, refl, Option, none, some, [], ◌∷◌, List, true, false}
use intake.Prelude.Result.{err}
use intake.Quotes.Model.{Quote, EncryptedPayload, Hosted, draft, software_systems}
use intake.Quotes.Service.{create_quote}
use intake.Quotes.Owners.{QuoteReach, QuoteStep}
use intake.Uploads.Model.{Depot}
use intake.Uploads.Service.{UploadFile, UploadStamp, handle_upload, list_uploads}
use intake.Uploads.Ownerless.{refusal, handle_upload_ownerless}

abbrev seal : String → EncryptedPayload
seal text = "sealed"

abbrev owned : Quote
owned = record {
  id = "q1";
  created_at = 0;
  updated_at = 0;
  account_id = some "a1";
  service_lane = none;
  short_summary = "";
  detailed_description = "";
  preferred_timeline = none;
  general_service_area = "";
  encrypted_exact_location = none;
  encrypted_access_notes = none;
  encrypted_questionnaire = none;
  status = draft;
}

abbrev tables : List (String × Quote) → Hosted
tables quotes = record {
  quotes = quotes;
  accounts = [];
  events = [];
  require_verified_email_for_quote_submit = false;
  require_verified_email_for_uploads = false;
}

abbrev depot : Depot
depot = record { hosted = tables (("q1", owned) ∷ []); uploads = []; files = [] }

abbrev photo : UploadFile
photo = record {
  filename = "roof/north.JPG";
  content_type = "image/jpeg";
  content = "pixels";
  size_bytes = 6;
}

abbrev stamp : UploadStamp
stamp = record {
  id = "u1";
  object_id = "0a1b";
  created_at = 5;
  event = record { id = "e1"; at = 6 };
}

abbrev filled : Depot
filled = (handle_upload "/up" seal "a1" "q1" photo stamp depot).1

taken : filled.files ≡ ("quote_q1/0a1b.jpg", "pixels") ∷ []
unfolding handle_upload intake.Prelude.Dict.get intake.Prelude.Dict.put
taken = refl

abbrev fresh : Depot
fresh = record {
  hosted =
      (create_quote (record { id = "q1"; at = 1 }) (record { id = "e1"; at = 1 })
        (some software_systems) (tables [])).1;
  uploads = [];
  files = [];
}

handle_upload_ownerless_example :
    (handle_upload "/up" seal "a1" "q1" photo stamp fresh
      ≡ (err (refusal fresh "q1" "Not authorized to upload to this quote"), fresh))
    × (list_uploads "/up" seal "a1" "q1" fresh
        ≡ err (refusal fresh "q1" "Not authorized to view these uploads"))
handle_upload_ownerless_example =
    handle_upload_ownerless "/up" seal seal "a1" "q1" photo stamp fresh (
      QuoteReach.next (QuoteReach.start (tables []) refl) (
        QuoteStep.creates (record { id = "q1"; at = 1 }) (record { id = "e1"; at = 1 })
          (some software_systems) (tables [])))
