-- ===== src/Sync/Outcome.antt =====
-- Which actions move a quote: `process_local_action` of src/intake/hosted/api/sync.py.
use intake.Prelude.{
  ℕ, String, ◌≡◌, refl, sym, ap, ◌∙◌, subst, Bool, true, false, none, some, [], ◌∷◌, ◌++◌, append,
  ◌⊎◌, ◌↔◌, inl, inr, Bool-cases, Option-cases, str_eq,
}
use mathlib.Core.Option.{some-injective}
use intake.Prelude.Dict.{get, get-put_self, get-put_ne}
use intake.Prelude.Rows.{first_that}
use intake.Prelude.Text.{lower}
use intake.Prelude.Http.{HttpException}
use intake.Prelude.Result.{Result, ok, err}
use intake.Quotes.Model.{
  Quote, QuoteStatus, draft, submitted, needs_review, reviewing, quoted, declined,
  EventAggregateType, operator, quote_review_started,
}
use intake.Quotes.Repository.{get_by_id}
use intake.Quotes.Service.{get_quote}
use intake.Sync.Model.{
  HostedRegisteredDevice, LocalDeviceActionEnvelope, Desk, has_device_id, get_device, track_nonce,
  track_action,
}
use intake.Sync.Signing.{Ed25519, mark_seen, verify_action}
use intake.Sync.Actions.{
  ReviewStamp, ActionAccepted, may_start, start_review, handle_quote_review_start, dispatch,
  process_local_action,
}
use intake.Sync.Verified.{IsVerified, Checked, verified, forgery, refused, verify_action-Checked}

may_start_iff :
    (status : QuoteStatus)
    → (may_start status ≡ true) ↔ ((status ≡ submitted) ⊎ (status ≡ needs_review))
may_start_iff status =
    (λ e. may_from status e, λ h. elim h [ inl e ↦ ap may_start e | inr e ↦ ap may_start e ])
  where
    may_from :
        (status : QuoteStatus)
        → may_start status ≡ true
        → (status ≡ submitted) ⊎ (status ≡ needs_review)
    may_from submitted e = inl refl
    may_from needs_review e = inr refl
    may_from draft e = cc e
    may_from reviewing e = cc e
    may_from quoted e = cc e
    may_from QuoteStatus.accepted e = cc e
    may_from declined e = cc e
    may_from QuoteStatus.closed e = cc e

module _ (ed : Ed25519) (window now : ℕ) (e : LocalDeviceActionEnvelope) (stamp : ReviewStamp) where
  -- The envelope is verified for its registered device, and starts the review of a stored quote
  -- that has been submitted or needs review.
  pub record IsReviewStart (s : Desk) (d : HostedRegisteredDevice) (q : Quote) : Type 0 where
    pub registered : first_that (has_device_id e.device_id) s.devices ≡ some d
    pub verified : IsVerified ed window now e d s
    pub kind : str_eq e.action_kind "QUOTE_REVIEW_START" ≡ true
    pub aggregate : str_eq (lower e.aggregate_type) "quote" ≡ true
    pub stored : get s.hosted.quotes e.aggregate_id ≡ some q
    pub may : (q.status ≡ submitted) ⊎ (q.status ≡ needs_review)

  -- The tables after the review of a quote has been started: its row has the new status and the
  -- time, one event names the device, and the action and its nonce are on record.
  pub record IsStarted (s : Desk) (q : Quote) (s' : Desk) : Type 0 where
    pub row :
        get s'.hosted.quotes e.aggregate_id
        ≡ some (record q { status = reviewing; updated_at = stamp.updated_at })
    pub other_quotes :
        (k : String)
        → str_eq e.aggregate_id k ≡ false
        → get s'.hosted.quotes k ≡ get s.hosted.quotes k
    pub logged :
        s'.hosted.events
        ≡ s.hosted.events
          ++ record {
            event_id = stamp.event.id;
            aggregate_type = EventAggregateType.quote;
            aggregate_id = e.aggregate_id;
            event_type = quote_review_started;
            created_at = stamp.event.at;
            actor_type = some operator;
            actor_id = some e.device_id;
            redacted_summary =
                Prim.Native.String.◌++◌ "Quote moved to reviewing by device " e.device_id;
            encrypted_payload = none;
          }
            ∷ []
    pub accounts : s'.hosted.accounts ≡ s.hosted.accounts
    pub devices : s'.devices ≡ s.devices
    pub actions :
        s'.actions
        ≡ append s.actions (
            record { action_id = e.action_id; device_id = e.device_id; issued_at = e.issued_at }
            ∷ [])
    pub nonces :
        s'.nonces
        ≡ append s.nonces
            (record { device_id = e.device_id; nonce = e.nonce; issued_at = e.issued_at } ∷ [])

  -- The answer to an action that moves a quote.
  abbrev pub acceptance : Quote → ActionAccepted
  acceptance q = record {
    action_id = e.action_id;
    aggregate_id = e.aggregate_id;
    previous_status = q.status;
    new_status = reviewing;
    accepted_at = stamp.accepted_at;
  }

  -- An answer of the endpoint, with the new tables.
  pub data ActionOutcome (s : Desk) : Result HttpException ActionAccepted × Desk → Type 0 where
    started :
        (d : HostedRegisteredDevice) (q : Quote) (s' : Desk)
        → IsReviewStart s d q
        → IsStarted s q s'
        → ActionOutcome s (ok (acceptance q), s')
    turned_away :
        (error : HttpException) (s' : Desk)
        → ((d : HostedRegisteredDevice) (q : Quote) → ¬ IsReviewStart s d q)
        → s'.hosted ≡ s.hosted
        → s'.devices ≡ s.devices
        → ActionOutcome s (err error, s')

  start_review-IsStarted :
      (s : Desk) (q : Quote)
      → get s.hosted.quotes e.aggregate_id ≡ some q
      → IsStarted s q (start_review e stamp q (mark_seen e s)).1
  unfolding start_review track_nonce track_action
  start_review-IsStarted s q stored = record {
    row = rw stored (get-put_self s.hosted.quotes e.aggregate_id _);
    other_quotes = λ k apart. rw stored (get-put_ne s.hosted.quotes e.aggregate_id k _ apart);
    logged = rw stored refl;
    accounts = rw stored refl;
    devices = refl;
    actions = refl;
    nonces = refl;
  }

  handle-Outcome :
      (s : Desk) (d : HostedRegisteredDevice)
      → first_that (has_device_id e.device_id) s.devices ≡ some d
      → IsVerified ed window now e d s
      → str_eq e.action_kind "QUOTE_REVIEW_START" ≡ true
      → ActionOutcome s (handle_quote_review_start e stamp (mark_seen e s))
  unfolding handle_quote_review_start get_quote get_by_id track_nonce track_action
  handle-Outcome s d found done kind = elim (Bool-cases (str_eq (lower e.aggregate_type) "quote")) [
    | inr other ↦
        rw other
          (turned_away _ _ (λ d' q' h. let no_way = sym h.aggregate ∙ other in cc no_way) refl refl)
    | inl aggregate ↦ elim (Option-cases (get s.hosted.quotes e.aggregate_id)) [
      | inl gone ↦
          rw (aggregate, gone)
            (turned_away _ _ (λ d' q' h. let no_way = sym h.stored ∙ gone in cc no_way) refl refl)
      | inr (q, stored) ↦ elim (Bool-cases (may_start q.status)) [
        | inl may ↦
            rw (aggregate, stored, may)
              (started d q _
                (record {
                  registered = found;
                  verified = done;
                  kind = kind;
                  aggregate = aggregate;
                  stored = stored;
                  may = (may_start_iff q.status).0 may;
                })
                (start_review-IsStarted s q stored))
        | inr may_not ↦
            rw (aggregate, stored, may_not)
              (turned_away _ _
                (λ d' q' h.
                  let same = some-injective q' q (sym h.stored ∙ stored) in
                  let no_way =
                    sym ((may_start_iff q'.status).1 h.may)
                    ∙ ap (λ x. may_start x.status) same
                    ∙ may_not in
                  cc no_way)
                refl refl)
      ]
    ]
  ]

  dispatch-Outcome :
      (s : Desk) (d : HostedRegisteredDevice) (checked : Result String Bool × Desk)
      → first_that (has_device_id e.device_id) s.devices ≡ some d
      → Checked ed window now e d s checked
      → ActionOutcome s (dispatch checked e stamp)
  unfolding track_nonce track_action
  dispatch-Outcome s d checked found (verified done) =
      elim (Bool-cases (str_eq e.action_kind "QUOTE_REVIEW_START")) [
        | inl kind ↦ rw kind (handle-Outcome s d found done kind)
        | inr other ↦
            rw other
              (turned_away _ _ (λ d' q' h. let no_way = sym h.kind ∙ other in cc no_way) refl refl)
      ]
  dispatch-Outcome s d checked found (forgery bad) =
      turned_away _ _
        (λ d' q' h. bad (
          subst (λ x. IsVerified ed window now e x s)
            (some-injective d' d (sym h.registered ∙ found)) h.verified))
        refl refl
  dispatch-Outcome s d checked found (refused message bad) =
      turned_away _ _
        (λ d' q' h. bad (
          subst (λ x. IsVerified ed window now e x s)
            (some-injective d' d (sym h.registered ∙ found)) h.verified))
        refl refl

  -- Every action is answered by the rules: the review of the stored quote is started, logged in the
  -- name of the device, with the action and its nonce on record and other quotes as they were,
  -- exactly if the envelope's device is registered and trusted, the envelope is fresh, new by its
  -- identifier and nonce and signed with the device's key, and its kind, its aggregate and the
  -- quote's status allow it; any other is answered with an error and changes neither quotes nor
  -- accounts, events and devices.
  pub process_local_action-Outcome :
      (s : Desk) → ActionOutcome s (process_local_action ed window now e stamp s)
  unfolding process_local_action get_device
  process_local_action-Outcome s =
      elim (Option-cases (first_that (has_device_id e.device_id) s.devices)) [
        | inl unknown ↦ rw unknown (
            turned_away _ _ (λ d q h. let no_way = sym h.registered ∙ unknown in cc no_way) refl
              refl)
        | inr (d, found) ↦ rw found (
            dispatch-Outcome s d (verify_action ed window now e d s) found
              (verify_action-Checked ed window now e d s))
      ]
