-- ===== src/Broker/Owners.antt =====
-- The broker beside the quote service: `create_upload_route` of
-- src/intake/services/upload_session_broker.py on the quotes that
-- src/intake/services/quote_service.py stores.
use intake.Prelude.{ℕ, String, ◌≡◌, refl, sym, ◌∙◌, Option, List}
use intake.Prelude.Int.{ℤ}
use intake.Prelude.Http.{HttpException}
use intake.Prelude.Result.{Result, err}
use intake.Quotes.Model.{EncryptedPayload}
use intake.Quotes.EventLog.{Stamp}
use intake.Quotes.Owners.{IsOwnerless, QuoteReach, QuoteReach-IsOwnerless}
use intake.Broker.Model.{UploadSession, Broker}
use intake.Broker.Grants.{create_upload_route}
use intake.Broker.Checks.{MayUpload}
use intake.Broker.Access.{Answered, granted, refused, create_upload_route-Answered}

ownerless-not_MayUpload :
    (b : Broker) (quote_id account_id : String)
    → IsOwnerless b.hosted
    → ¬ MayUpload b quote_id account_id
ownerless-not_MayUpload b quote_id account_id kept may =
    let nobodys = (kept quote_id may.quote may.stored).1 in
    let no_way = sym nobodys ∙ may.owned in cc no_way

refused_when :
    {quote_id account_id : String} {content_types : List String} {size : Option ℤ}
    {decided_at now : ℕ} {b : Broker} {answer : Result HttpException UploadSession × Broker}
    → ¬ MayUpload b quote_id account_id
    → Answered quote_id account_id content_types size decided_at now b answer
    → (e : HttpException) × (answer ≡ (err e, b))
refused_when never (granted may session b' done) = absurd (never may)
refused_when never (refused e why) = (e, refl)

-- Whatever calls the quote service has answered since the backend had no quotes, submissions
-- included, the broker grants nobody a session: every request is answered with an error.
pub create_upload_route_unserved :
    (encrypt_json : String → EncryptedPayload) (quote_id account_id : String)
    (content_types : List String) (size : Option ℤ) (shaken_at decided_at now : ℕ)
    (stamp event : Stamp) (b : Broker)
    → QuoteReach encrypt_json b.hosted
    → (e : HttpException) × (create_upload_route quote_id account_id content_types size shaken_at
          decided_at now stamp event b
        ≡ (err e, b))
create_upload_route_unserved encrypt_json quote_id account_id content_types size shaken_at
      decided_at now stamp event b reach =
    refused_when
      (ownerless-not_MayUpload b quote_id account_id (QuoteReach-IsOwnerless encrypt_json reach))
      (create_upload_route-Answered quote_id account_id content_types size shaken_at decided_at now
        stamp event b)
