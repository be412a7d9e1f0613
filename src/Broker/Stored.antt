-- ===== src/Broker/Stored.antt =====
-- What a receipt that is taken leaves in the tables: `process_upload_receipt` of
-- src/intake/services/upload_session_broker.py.
use intake.Prelude.{
  ℕ, String, ◌≡◌, refl, sym, ap, ◌∙◌, false, none, some, [], ◌∷◌, ◌++◌, inl, inr, str_eq,
  Option-cases,
}
use mathlib.Core.Option.{some-injective}
use intake.Prelude.Text.{text_or, decimal}
use intake.Prelude.Dict.{get, put, get-put_self, get-put_ne}
use intake.Routing.{provider_value}
use intake.Quotes.Model.{Quote, EventAggregateType, EventActorType, quote_upload_receipt_received}
use intake.Quotes.Repository.{updated_row}
use intake.Quotes.EventLog.{Stamp}
use intake.Quotes.Submission.{updated_row_self}
use intake.Broker.Model.{UploadSession, UploadReceipt, UploadReceiptStatus, Broker}
use intake.Broker.Receipts.{ReceiptRequest, accept}

-- The receipt as it is answered: what was reported, accepted.
abbrev pub accepted_receipt : ReceiptRequest → UploadSession → ℕ → Stamp → UploadReceipt
accepted_receipt r session processed_at stamp = record {
  id = stamp.id;
  upload_session_id = r.upload_session_id;
  quote_id = text_or r.quote_id session.quote_id;
  account_id = text_or r.account_id session.account_id;
  provider = r.provider;
  storage_object_id = r.storage_object_id;
  size_bytes = r.size_bytes;
  sha256 = r.sha256;
  declared_content_type = r.declared_content_type;
  extension = r.extension;
  status = UploadReceiptStatus.accepted;
  received_at = stamp.at;
  processed_at = some processed_at;
  rejection_reason = none;
  signature = r.signature;
  signed_by_device_id = r.signed_by_device_id;
}

-- The tables after a receipt that is stored: of the others, the time of the quote's row and one
-- event change.
pub record IsStored (receipt : UploadReceipt) (q : Quote) (updated_at : ℕ) (event : Stamp)
    (b b' : Broker) : Type 0 where
  pub receipts : b'.receipts ≡ put b.receipts receipt.id receipt
  pub sessions : b'.sessions ≡ b.sessions
  pub quote_sessions : b'.quote_sessions ≡ b.quote_sessions
  pub accounts : b'.hosted.accounts ≡ b.hosted.accounts
  pub row :
      get b.hosted.quotes q.id ≡ some q
      → get b'.hosted.quotes q.id ≡ some (record q { updated_at = updated_at })
  pub other_quotes :
      (k : String) → str_eq q.id k ≡ false → get b'.hosted.quotes k ≡ get b.hosted.quotes k
  pub logged :
      b'.hosted.events
      ≡ b.hosted.events
        ++ record {
          event_id = event.id;
          aggregate_type = EventAggregateType.quote;
          aggregate_id = receipt.quote_id;
          event_type = quote_upload_receipt_received;
          created_at = event.at;
          actor_type = some EventActorType.account;
          actor_id = some receipt.account_id;
          redacted_summary = Prim.Native.String.◌++◌ "Upload receipt: " (
              Prim.Native.String.◌++◌ receipt.extension (
                Prim.Native.String.◌++◌ " (" (
                  Prim.Native.String.◌++◌
                    (decimal receipt.size_bytes)
                    (Prim.Native.String.◌++◌ " bytes) from " (provider_value receipt.provider)))));
          encrypted_payload = none;
        }
          ∷ []

pub accept-IsStored :
    (receipt : UploadReceipt) (q : Quote) (updated_at : ℕ) (event : Stamp) (b : Broker)
    → IsStored receipt q updated_at event b (accept receipt q updated_at event b)
unfolding accept
accept-IsStored receipt q updated_at event b = elim (Option-cases (get b.hosted.quotes q.id)) [
  | inl gone ↦ record {
    receipts = refl;
    sessions = refl;
    quote_sessions = refl;
    accounts = rw gone refl;
    row = λ there. let no_way = sym gone ∙ there in cc no_way;
    other_quotes = λ k apart. rw gone refl;
    logged = rw gone refl;
  }
  | inr (old, found) ↦ record {
    receipts = refl;
    sessions = refl;
    quote_sessions = refl;
    accounts = rw found refl;
    row = λ there.
        rw (found, get-put_self)
          (ap (λ x. some (updated_row x (record q { updated_at = updated_at })))
              (some-injective old q (sym found ∙ there))
            ∙ ap some (updated_row_self q q.status q.account_id updated_at));
    other_quotes = λ k apart. rw found (get-put_ne b.hosted.quotes q.id k _ apart);
    logged = rw found refl;
  }
]
