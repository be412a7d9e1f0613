-- ===== src/Broker/Receipts.antt =====
-- `process_upload_receipt` of src/intake/services/upload_session_broker.py: the checks, in their
-- order, and the receipt that is stored. The random identifiers and the readings of the clock are
-- arguments.
use Prim.Native.String.{◌++◌, count}
use intake.Prelude.{ℕ, String, Bool, not, Option, none, some, str_eq, ◌==◌}
use intake.Prelude.Int.{ℤ, le_zero}
use intake.Prelude.Text.{is_empty, decimal, text_or}
use intake.Prelude.Dict.{get, put}
use intake.Prelude.Http.{HttpException, http}
use intake.Prelude.Result.{Result, ok, err, after, raise_if}
use intake.Quotes.Model.{Quote, quote_upload_receipt_received}
use intake.Quotes.Repository.{get_by_id, update}
use intake.Quotes.EventLog.{Stamp}
use intake.Routing.{UploadProviderKind, provider_value}
use intake.Broker.Model.{UploadSession, UploadReceipt, UploadReceiptStatus, Broker, is_expired}
use intake.Broker.Grants.{Reply, log_event}

-- The arguments of `process_upload_receipt`.
pub record ReceiptRequest : Type 0 where
  pub upload_session_id : String
  pub provider : UploadProviderKind
  pub storage_object_id : String
  pub size_bytes : ℤ
  pub sha256 : String
  pub declared_content_type : String
  pub extension : String
  pub quote_id : Option String
  pub account_id : Option String
  pub signature : Option String
  pub signed_by_device_id : Option String

-- Two providers are the same, as the texts that they are.
abbrev pub same_provider : UploadProviderKind → UploadProviderKind → Bool
same_provider p q = str_eq (provider_value p) (provider_value q)

-- The checks of the session.
abbrev pub check_session :
    Option UploadSession → UploadProviderKind → (now : ℕ) → Result HttpException UploadSession
check_session none provider now = err (http 404 "Upload session not found")
check_session (some session) provider now =
    raise_if (is_expired session now) (http 400 "Upload session has expired") (
      raise_if (not (same_provider provider session.chosen_provider))
        (http 400 (
          "Receipt provider "
          ++ provider_value provider
          ++ " does not match session provider "
          ++ provider_value session.chosen_provider))
        (ok session))

-- The checks of the quote.
abbrev pub check_quote : Option Quote → UploadSession → Result HttpException Quote
check_quote none session = err (http 404 "Quote not found")
check_quote (some q) session =
    raise_if (not (str_eq q.id session.quote_id))
      (http 400 "Receipt quote does not match session quote") (ok q)

-- The checks of the file's metadata.
abbrev pub check_metadata : ReceiptRequest → Result HttpException (Unit {0})
check_metadata r =
    raise_if (is_empty r.storage_object_id) (http 400 "storage_object_id is required") (
      raise_if (le_zero r.size_bytes) (http 400 "size_bytes must be positive") (
        raise_if (not (count r.sha256 == 64)) (http 400 "Valid SHA256 hash is required")
          (raise_if (is_empty r.extension) (http 400 "extension is required") (ok tt))))

abbrev pub receipt_quote : ReceiptRequest → UploadSession → String
receipt_quote r session = text_or r.quote_id session.quote_id

abbrev pub receipt_account : ReceiptRequest → UploadSession → String
receipt_account r session = text_or r.account_id session.account_id

abbrev pub new_receipt : ReceiptRequest → UploadSession → (processed_at : ℕ) → Stamp → UploadReceipt
new_receipt r session processed_at stamp = record {
  id = stamp.id;
  upload_session_id = r.upload_session_id;
  quote_id = receipt_quote r session;
  account_id = receipt_account r session;
  provider = r.provider;
  storage_object_id = r.storage_object_id;
  size_bytes = r.size_bytes;
  sha256 = r.sha256;
  declared_content_type = r.declared_content_type;
  extension = r.extension;
  status = UploadReceiptStatus.accepted;
  received_at = stamp.at;
  processed_at = some processed_at;
  rejection_reason = none;
  signature = r.signature;
  signed_by_device_id = r.signed_by_device_id;
}

-- The receipt is stored, the quote's row written and the event logged. The receipt in
-- `quote.uploads` has no column: the repository's `update` does not write it.
unfoldable pub accept : UploadReceipt → Quote → (updated_at : ℕ) → (event : Stamp) → Broker → Broker
unfolding update log_event
accept receipt q updated_at event b =
    log_event event receipt.quote_id receipt.account_id quote_upload_receipt_received
      ("Upload receipt: "
        ++ receipt.extension
        ++ " ("
        ++ decimal receipt.size_bytes
        ++ " bytes) from "
        ++ provider_value receipt.provider)
      (record b {
        receipts = put b.receipts receipt.id receipt;
        hosted = (update (record q { updated_at = updated_at }) b.hosted).1;
      })

unfoldable pub process_upload_receipt :
    ReceiptRequest → (now processed_at updated_at : ℕ) → (stamp event : Stamp) → Reply UploadReceipt
unfolding get get_by_id accept
process_upload_receipt r now processed_at updated_at stamp event b =
    after (check_session (get b.sessions r.upload_session_id) r.provider now) b (λ session b.
      after (check_quote (get_by_id b.hosted (receipt_quote r session)) session) b (λ q b.
        after (check_metadata r) b (λ checked b.
          let receipt = new_receipt r session processed_at stamp in
          (ok receipt, accept receipt q updated_at event b))))
