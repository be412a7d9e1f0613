-- ===== src/Sync/Console.antt =====
-- The local console's side: src/intake/local_console/sync_client.py and review_service.py. An HTTP
-- exchange is a parameter: its status and the parsed body. The two methods of the decryption that
-- the service calls are parameters; a JSON object is read by the one key that is asked for.
use intake.Prelude.{
  ℕ, suc, String, Bool, true, false, not, Option, none, some, List, [], ◌∷◌, str_eq, if◌then◌else◌,
  ◌==◌,
}
use intake.Prelude.Rows.{first_that}
use intake.Prelude.Int.{pos}
use intake.Prelude.Text.{decimal}
use intake.Prelude.Result.{Result, ok, err}
use Prim.Native.String.{◌++◌}
use intake.Quotes.Model.{EncryptedPayload}
use intake.Sync.Model.{HostedQuoteProjection, EncryptedQuoteEnvelope, LocalDeviceActionEnvelope}
use intake.Sync.Signing.{Ed25519, sign_action}
use intake.Sync.Unlock.{LocalAuthorizationWindow, is_unlocked}

-- The exceptions of the client and of the service, without the texts of responses.
pub data ConsoleError : Type 0 where
  permission_error value_error : String → ConsoleError
  runtime_error : ConsoleError
  decryption_error : ConsoleError

-- A response: its status code, and its body as the model that the method reads.
pub record Response (A : Type 0) : Type 0 where
  pub status_code : ℕ
  pub body : A

-- `fetch_pending_projections`, of the response
unfoldable pub fetch_pending_projections :
    Response (List HostedQuoteProjection) → Result ConsoleError (List HostedQuoteProjection)
fetch_pending_projections r =
    if r.status_code == 401
    then err (permission_error "Missing or invalid sync token")
    else if r.status_code == 200
    then ok r.body
    else err runtime_error

-- `fetch_quote_envelope`, of the response
unfoldable pub fetch_quote_envelope :
    String → Response EncryptedQuoteEnvelope → Result ConsoleError EncryptedQuoteEnvelope
fetch_quote_envelope quote_id r =
    if r.status_code == 404
    then err (value_error ("Quote " ++ quote_id ++ " not found on hosted backend"))
    else if r.status_code == 200
    then ok r.body
    else err runtime_error

-- `push_action`, of the response
unfoldable pub push_action : {A : Type 0} → Response A → Result ConsoleError A
push_action r =
    if r.status_code == 403
    then err (permission_error "Action rejected by hosted backend")
    else if r.status_code == 200
    then ok r.body
    else err runtime_error

pub record UploadEvidence : Type 0 where
  pub file_id : String
  pub original_filename : String
  pub content_type : String
  pub size_bytes : ℕ
  pub sha256 : String
  pub storage_provider : String
  pub stored_at : ℕ

pub record LocalDecryptedQuoteReview : Type 0 where
  pub quote_id : String
  pub status : String
  pub service_lane : Option String
  pub general_service_area : String
  pub created_at : ℕ
  pub updated_at : ℕ
  pub email_verified : Bool
  pub upload_count : ℕ
  pub is_decrypted : Bool
  pub is_locked : Bool
  pub exact_location : Option String
  pub access_notes : Option String
  pub questionnaire_answers : Option String
  pub upload_evidence : List UploadEvidence

-- What the service asks of the decryption: a key of a JSON object, a whole object, or a text. None
-- is an exception. The time that evidence is stamped with is one reading of the clock for all.
pub record Decryption : Type 0 where
  pub decrypt_key : (key : String) → EncryptedPayload → Option (Option String)
  pub decrypt_json : EncryptedPayload → Option String
  pub decrypt_string : EncryptedPayload → Option String

abbrev pub is_of : String → HostedQuoteProjection → Bool
is_of quote_id p = str_eq p.quote_id quote_id

-- A placeholder for a locked console.
abbrev pub locked_item : ℕ → (stored_at : ℕ) → UploadEvidence
locked_item i stored_at = record {
  file_id = "file-" ++ decimal (pos i);
  original_filename = "[LOCKED]";
  content_type = "image/jpeg";
  size_bytes = 0;
  sha256 = "locked";
  storage_provider = "locked";
  stored_at = stored_at;
}

-- Placeholders for the uploads, numbered from the given one.
unfoldable pub locked_evidence : ℕ → (stored_at : ℕ) → List EncryptedPayload → List UploadEvidence
unfolding decimal
locked_evidence i stored_at [] = []
locked_evidence i stored_at (name ∷ names) =
    locked_item i stored_at ∷ locked_evidence (suc i) stored_at names

-- What follows a value that may be missing.
abbrev pub or_raise :
    {A B : Type 0} → Option A → (A → Result ConsoleError B) → Result ConsoleError B
or_raise none k = err decryption_error
or_raise (some a) k = k a

abbrev pub and_then :
    {A B : Type 0} → Result ConsoleError A → (A → Result ConsoleError B) → Result ConsoleError B
and_then (err e) k = err e
and_then (ok a) k = k a

module _ (c : Decryption) where
  unfoldable pub open_evidence :
      ℕ → (stored_at : ℕ) → List EncryptedPayload → Result ConsoleError (List UploadEvidence)
  unfolding decimal
  open_evidence i stored_at [] = ok []
  open_evidence i stored_at (name ∷ names) =
      let rest = open_evidence (suc i) stored_at names in
      or_raise (c.decrypt_string name) (λ original_filename. and_then rest (λ evidence. ok (
        record {
          file_id = "file-" ++ decimal (pos i);
          original_filename = original_filename;
          content_type = "image/jpeg";
          size_bytes = 512000;
          sha256 = "sim-sha256-...";
          storage_provider = "local_loopback_dev";
          stored_at = stored_at;
        }
        ∷ evidence)))

  -- `if envelope.…: decrypted = …`
  abbrev pub key_of : String → Option EncryptedPayload → Result ConsoleError (Option String)
  key_of key none = ok none
  key_of key (some payload) = or_raise (c.decrypt_key key payload) (λ value. ok value)

  abbrev pub json_of : Option EncryptedPayload → Result ConsoleError (Option String)
  json_of none = ok none
  json_of (some payload) = or_raise (c.decrypt_json payload) (λ value. ok (some value))

  -- The review of a projection: with what has been decrypted, or locked.
  abbrev pub review_with :
      String
      → HostedQuoteProjection
      → Bool
      → Option String
      → Option String
      → Option String
      → List UploadEvidence
      → LocalDecryptedQuoteReview
  review_with quote_id p is_locked location notes questionnaire evidence = record {
    quote_id = quote_id;
    status = p.status;
    service_lane = p.service_lane;
    general_service_area = p.general_service_area;
    created_at = p.created_at;
    updated_at = p.updated_at;
    email_verified = true;
    upload_count = p.upload_count;
    is_decrypted = not is_locked;
    is_locked = is_locked;
    exact_location = location;
    access_notes = notes;
    questionnaire_answers = questionnaire;
    upload_evidence = evidence;
  }

  unfoldable pub open_review :
      (stored_at : ℕ)
      → String
      → HostedQuoteProjection
      → EncryptedQuoteEnvelope
      → Result ConsoleError LocalDecryptedQuoteReview
  unfolding open_evidence
  open_review stored_at quote_id p e =
      and_then (key_of "location" e.encrypted_exact_location) (λ location.
        and_then (key_of "notes" e.encrypted_access_notes) (λ notes.
          and_then (json_of e.encrypted_questionnaire) (λ questionnaire.
            and_then (open_evidence 0 stored_at e.encrypted_uploads) (λ evidence.
              ok (review_with quote_id p false location notes questionnaire evidence)))))

  abbrev pub review_of :
      Bool
      → (stored_at : ℕ) → String
      → HostedQuoteProjection
      → EncryptedQuoteEnvelope
      → Result ConsoleError LocalDecryptedQuoteReview
  review_of true stored_at quote_id p e = open_review stored_at quote_id p e
  review_of false stored_at quote_id p e =
      ok (
        review_with quote_id p true none none none
          (locked_evidence 0 stored_at e.encrypted_uploads))

  abbrev pub for_projection :
      Option HostedQuoteProjection
      → String
      → Bool
      → (stored_at : ℕ) → Response EncryptedQuoteEnvelope
      → Result ConsoleError LocalDecryptedQuoteReview
  for_projection none quote_id is_open stored_at reply =
      err (value_error ("Quote " ++ quote_id ++ " not found in pending list"))
  for_projection (some p) quote_id is_open stored_at reply =
      and_then (fetch_quote_envelope quote_id reply) (review_of is_open stored_at quote_id p)

  -- `get_decrypted_review`, with the responses to its two requests
  unfoldable pub get_decrypted_review :
      (now stored_at : ℕ)
      → String
      → Response (List HostedQuoteProjection)
      → Response EncryptedQuoteEnvelope
      → LocalAuthorizationWindow
      → Result ConsoleError LocalDecryptedQuoteReview × LocalAuthorizationWindow
  unfolding is_unlocked fetch_pending_projections fetch_quote_envelope first_that open_review
      locked_evidence
  get_decrypted_review now stored_at quote_id pending reply window =
      let (is_open, window') = is_unlocked now window in
      (
        and_then (fetch_pending_projections pending) (λ projections.
            for_projection (first_that (is_of quote_id) projections) quote_id is_open stored_at
              reply),
        window',
      )

-- `start_review`: the envelope that is pushed
unfoldable pub start_review_envelope :
    Ed25519
    → (private_key action_id nonce : String) → (issued_at : ℕ) → String
    → LocalDeviceActionEnvelope
unfolding sign_action
start_review_envelope ed private_key action_id nonce issued_at quote_id =
    sign_action ed private_key action_id nonce issued_at "dev-device-1" "QUOTE_REVIEW_START" "QUOTE"
      quote_id "{}"
