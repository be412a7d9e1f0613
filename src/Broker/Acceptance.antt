-- ===== src/Broker/Acceptance.antt =====
-- Which receipts the broker takes: `process_upload_receipt` of
-- src/intake/services/upload_session_broker.py.
use Prim.Native.String.{count}
use intake.Prelude.{
  ℕ, ◌≡◌, refl, sym, ap, ◌∙◌, subst, true, false, not, Option, none, some, arith, eq_iff, str_eq,
  ◌==◌,
}
use mathlib.Core.Option.{some-injective}
use intake.Prelude.Int.{le_zero}
use intake.Prelude.Text.{is_empty, text_or}
use intake.Prelude.Dict.{get}
use intake.Prelude.Http.{HttpException}
use intake.Prelude.Result.{Result, ok, err, after, Judged, passed, failed, raise_if-Judged}
use intake.Quotes.Model.{Quote}
use intake.Quotes.Repository.{get_by_id}
use intake.Quotes.EventLog.{Stamp}
use intake.Broker.Model.{UploadSession, UploadReceipt, Broker, is_expired}
use intake.Broker.Matches.{IsLive, same_provider_iff, expired-IsLive, IsLive-expired}
use intake.Broker.Stored.{accepted_receipt, IsStored, accept-IsStored}
use intake.Broker.Receipts.{
  ReceiptRequest, same_provider, check_session, check_quote, check_metadata, receipt_quote,
  new_receipt, accept, process_upload_receipt,
}

-- The metadata that the broker takes.
pub record IsWellFormed (r : ReceiptRequest) : Type 0 where
  pub object : is_empty r.storage_object_id ≡ false
  pub size : le_zero r.size_bytes ≡ false
  pub digest : count r.sha256 ≡ 64
  pub extension : is_empty r.extension ≡ false

-- The receipt is for a live session, by the session's provider, for the session's quote, and well
-- formed.
pub record IsDue (r : ReceiptRequest) (now : ℕ) (b : Broker) (session : UploadSession) (q : Quote)
    : Type 0 where
  pub session_stored : get b.sessions r.upload_session_id ≡ some session
  pub live : IsLive session now
  pub provider : r.provider ≡ session.chosen_provider
  pub quote_stored : get b.hosted.quotes (text_or r.quote_id session.quote_id) ≡ some q
  pub same_quote : q.id ≡ session.quote_id
  pub well_formed : IsWellFormed r

-- An answer of the broker to a receipt, with its new state.
pub data Taken (r : ReceiptRequest) (now processed_at updated_at : ℕ) (stamp event : Stamp)
    (b : Broker) : Result HttpException UploadReceipt × Broker → Type 0 where
  taken :
      (session : UploadSession) (q : Quote) (b' : Broker)
      → IsDue r now b session q
      → IsStored (accepted_receipt r session processed_at stamp) q updated_at event b b'
      → Taken r now processed_at updated_at stamp event b
          (ok (accepted_receipt r session processed_at stamp), b')
  turned_down :
      (e : HttpException)
      → ((session : UploadSession) (q : Quote) → ¬ IsDue r now b session q)
      → Taken r now processed_at updated_at stamp event b (err e, b)

metadata-Judged :
    (r : ReceiptRequest)
    → Judged (λ checked. IsWellFormed r) (λ e. ¬ IsWellFormed r) (check_metadata r)
metadata-Judged r =
    raise_if-Judged (is_empty r.storage_object_id) _ _ (λ h w. let o = w.object in ground arith)
      (λ object.
        raise_if-Judged (le_zero r.size_bytes) _ _ (λ h w. let o = w.size in ground arith)
          (λ size.
            raise_if-Judged (not (count r.sha256 == 64)) _ _
              (λ h w. let o = w.digest in ground arith)
              (λ digest.
                raise_if-Judged (is_empty r.extension) _ _
                  (λ h w. let o = w.extension in ground arith)
                  (λ extension. passed tt (record {
                    object = object;
                    size = size;
                    digest = ground arith;
                    extension = extension;
                  })))))

-- The session that the checks find.
abbrev Found : Broker → ReceiptRequest → ℕ → UploadSession → Type 0
Found b r now session =
    (get b.sessions r.upload_session_id ≡ some session)
    × (is_expired session now ≡ false)
    × (same_provider r.provider session.chosen_provider ≡ true)

session-Judged :
    (b : Broker) (r : ReceiptRequest) (now : ℕ) (o : Option UploadSession)
    → get b.sessions r.upload_session_id ≡ o
    → Judged
        (Found b r now)
        (λ e. (s : UploadSession) → ¬ Found b r now s)
        (check_session o r.provider now)
session-Judged b r now none gone = failed _ (λ s h. let no_way = sym gone ∙ h.0 in cc no_way)
session-Judged b r now (some session) found =
    let same : (s : UploadSession) → Found b r now s → session ≡ s =
      λ s h. some-injective session s (sym found ∙ h.0) in
    raise_if-Judged (is_expired session now) _ _
      (λ h s f. let no_way = sym h ∙ ap (λ x. is_expired x now) (same s f) ∙ f.1 in cc no_way)
      (λ live.
        raise_if-Judged (not (same_provider r.provider session.chosen_provider)) _ _
          (λ h s f.
            let there = ap (λ x. same_provider r.provider x.chosen_provider) (same s f) ∙ f.2 in
            ground arith)
          (λ provider. passed session (found, live, ground arith)))

-- The quote that the checks find.
abbrev Quoted : Broker → ReceiptRequest → UploadSession → Quote → Type 0
Quoted b r session q =
    (get b.hosted.quotes (receipt_quote r session) ≡ some q) × (q.id ≡ session.quote_id)

quote-Judged :
    (b : Broker) (r : ReceiptRequest) (session : UploadSession) (o : Option Quote)
    → get b.hosted.quotes (receipt_quote r session) ≡ o
    → Judged
        (Quoted b r session)
        (λ e. (q : Quote) → ¬ Quoted b r session q)
        (check_quote o session)
quote-Judged b r session none gone = failed _ (λ q h. let no_way = sym gone ∙ h.0 in cc no_way)
quote-Judged b r session (some q) found =
    raise_if-Judged (not (str_eq q.id session.quote_id)) _ _
      (λ h q' f.
        let there = ap (λ x. x.id) (some-injective q q' (sym found ∙ f.0)) ∙ f.1 in
        ground (arith, eq_iff q.id session.quote_id))
      (λ h. passed q (found, (eq_iff q.id session.quote_id).0 (ground arith)))

module _ (r : ReceiptRequest) (now processed_at updated_at : ℕ) (stamp event : Stamp)
    (b : Broker) where
  abbrev Outcome : Result HttpException UploadReceipt × Broker → Type 0
  Outcome = Taken r now processed_at updated_at stamp event b

  -- What follows the checks, from the last to the first.
  abbrev finish :
      UploadSession → Quote → Unit {0} → Broker → Result HttpException UploadReceipt × Broker
  finish session q checked b =
      let receipt = new_receipt r session processed_at stamp in
      (ok receipt, accept receipt q updated_at event b)

  abbrev check_file : UploadSession → Quote → Broker → Result HttpException UploadReceipt × Broker
  check_file session q b = after (check_metadata r) b (finish session q)

  abbrev check_rest : UploadSession → Broker → Result HttpException UploadReceipt × Broker
  check_rest session b =
      after (check_quote (get b.hosted.quotes (receipt_quote r session)) session) b
        (check_file session)

  last_stage :
      (session : UploadSession) (q : Quote) {checks : Result HttpException (Unit {0})}
      → Found b r now session
      → Quoted b r session q
      → Judged (λ checked. IsWellFormed r) (λ e. ¬ IsWellFormed r) checks
      → Outcome (after checks b (finish session q))
  last_stage session q f g (passed checked w) =
      taken session q _
        (record {
          session_stored = f.0;
          live = expired-IsLive session now f.1;
          provider = (same_provider_iff r.provider session.chosen_provider).0 f.2;
          quote_stored = g.0;
          same_quote = g.1;
          well_formed = w;
        })
        (accept-IsStored (accepted_receipt r session processed_at stamp) q updated_at event b)
  last_stage session q f g (failed e bad) = turned_down e (λ s q d. bad d.well_formed)

  middle_stage :
      (session : UploadSession) {checks : Result HttpException Quote}
      → Found b r now session
      → Judged (Quoted b r session) (λ e. (q : Quote) → ¬ Quoted b r session q) checks
      → Outcome (after checks b (check_file session))
  middle_stage session f (passed q g) = last_stage session q f g (metadata-Judged r)
  middle_stage session f (failed e bad) = turned_down e (λ s q d.
      let same = some-injective s session (sym d.session_stored ∙ f.0) in
      bad q (subst (λ x. Quoted b r x q) same (d.quote_stored, d.same_quote)))

  first_stage :
      {checks : Result HttpException UploadSession}
      → Judged (Found b r now) (λ e. (s : UploadSession) → ¬ Found b r now s) checks
      → Outcome (after checks b check_rest)
  first_stage (passed session f) = middle_stage session f (quote-Judged b r session _ refl)
  first_stage (failed e bad) = turned_down e (λ s q d. bad s (
    d.session_stored,
    IsLive-expired s now d.live,
    (same_provider_iff r.provider s.chosen_provider).1 d.provider,
  ))

  -- A receipt is taken exactly if it is due: its session is stored and not expired, its provider
  -- is the session's, the quote that it names, or else the session's, is stored and is the
  -- session's, and its metadata are well formed. It is then answered as it was reported, with the
  -- status accepted, and stored under its identifier, the quote's row has the new time and one
  -- event is logged, while sessions, accounts and other quotes stay. Any other receipt is answered
  -- with an error, and nothing changes. The account that it names and the session's limits are not
  -- looked at.
  pub process_upload_receipt-Taken :
      Outcome (process_upload_receipt r now processed_at updated_at stamp event b)
  unfolding process_upload_receipt get_by_id
  process_upload_receipt-Taken = first_stage (session-Judged b r now _ refl)
