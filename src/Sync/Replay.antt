-- ===== src/Sync/Replay.antt =====
-- No action serves twice: sequences of requests to src/intake/hosted/api/sync.py.
use Prim.Native.String.{◌++◌}
use intake.Prelude.{
  ℕ, String, ◌⊎◌, ◌≡◌, refl, sym, ap, ◌∙◌, subst, Bool, true, List, [], ◌∷◌, append, inl, inr,
  eq_iff, Bool-cases, Option-cases, is_some, str_eq,
}
use intake.Prelude.Rows.{first_that, first_that-append, first_that-append_found}
use intake.Prelude.Text.{lower}
use intake.Prelude.Http.{HttpException, http}
use intake.Prelude.Result.{Result, ok, err}
use intake.Quotes.Service.{get_quote}
use intake.Sync.Model.{
  HostedRegisteredDevice, LocalDeviceActionEnvelope, Desk, get_device, is_action, is_action_seen,
  is_nonce, is_nonce_seen, track_action, track_nonce,
}
use intake.Sync.Signing.{Ed25519, mark_seen, verify_action}
use intake.Sync.Actions.{
  ReviewStamp, ActionAccepted, may_start, handle_quote_review_start, dispatch, process_local_action,
}
use intake.Sync.Verified.{IsVerified, Checked, verified, forgery, refused, verify_action-Checked}

-- Rows that grow keep what they show.
seen-append {ℓ} :
    {A : Type ℓ} (p : A → Bool) (rows more : List A)
    → is_some (first_that p rows) ≡ true
    → is_some (first_that p (append rows more)) ≡ true
seen-append p rows more h = elim (Option-cases (first_that p rows)) [
  | inl gone ↦ let no_way = rw gone at h in cc no_way
  | inr (x, found) ↦ rw (first_that-append_found p rows more x found) refl
]

-- A row that has been added is seen.
added-seen {ℓ} :
    {A : Type ℓ} (p : A → Bool) (rows : List A) (x : A)
    → p x ≡ true
    → is_some (first_that p (append rows (x ∷ []))) ≡ true
added-seen p rows x holds = elim (Option-cases (first_that p rows)) [
  | inl fresh ↦ rw (first_that-append p rows x fresh holds) refl
  | inr (y, found) ↦ rw (first_that-append_found p rows (x ∷ []) y found) refl
]

-- What a request to the endpoint does to the tables of actions and nonces: it may add the
-- envelope's own rows, and has done so where it succeeds.
pub record Tracks {A : Type 0} (e : LocalDeviceActionEnvelope) (s : Desk)
    (answer : Result HttpException A × Desk) : Type 0 where
  pub action_kept : (id : String) → is_action_seen id s ≡ true → is_action_seen id answer.1 ≡ true
  pub nonce_kept :
      (device_id nonce : String)
      → is_nonce_seen device_id nonce s ≡ true
      → is_nonce_seen device_id nonce answer.1 ≡ true
  pub action_seen : (a : A) → answer.0 ≡ ok a → is_action_seen e.action_id answer.1 ≡ true
  pub nonce_seen : (a : A) → answer.0 ≡ ok a → is_nonce_seen e.device_id e.nonce answer.1 ≡ true

failing :
    {A : Type 0} (e : LocalDeviceActionEnvelope) (s : Desk) (error : HttpException)
    → Tracks {A = A} e s (err error, s)
failing e s error = record {
  action_kept = λ id h. h;
  nonce_kept = λ device_id nonce h. h;
  action_seen = λ a h. cc h;
  nonce_seen = λ a h. cc h;
}

-- After the envelope has been marked, other tables than those of actions and nonces may change.
marking :
    {A : Type 0} (e : LocalDeviceActionEnvelope) (s s' : Desk) (r : Result HttpException A)
    → s'.actions ≡ (mark_seen e s).actions
    → s'.nonces ≡ (mark_seen e s).nonces
    → Tracks e s (r, s')
unfolding is_action_seen is_nonce_seen track_action track_nonce
marking e s s' r actions nonces = record {
  action_kept = λ id h. rw actions (seen-append (is_action id) s.actions _ h);
  nonce_kept = λ device_id nonce h. rw nonces (seen-append (is_nonce device_id nonce) s.nonces _ h);
  action_seen = λ a h.
      rw actions
        (added-seen (is_action e.action_id) s.actions _ ((eq_iff e.action_id e.action_id).1 refl));
  nonce_seen = λ a h. rw nonces (
      added-seen (is_nonce e.device_id e.nonce) s.nonces _
        (rw ((eq_iff e.device_id e.device_id).1 refl, (eq_iff e.nonce e.nonce).1 refl) refl));
}

-- The handler leaves the tables of actions and nonces alone.
handle_kept :
    (e : LocalDeviceActionEnvelope) (stamp : ReviewStamp) (s : Desk)
    → ((handle_quote_review_start e stamp s).1.actions ≡ s.actions)
      × ((handle_quote_review_start e stamp s).1.nonces ≡ s.nonces)
unfolding handle_quote_review_start
handle_kept e stamp s = elim (Bool-cases (str_eq (lower e.aggregate_type) "quote")) [
  | inr other ↦ rw other (refl, refl)
  | inl aggregate ↦ elim (Option-cases (get_quote e.aggregate_id s.hosted)) [
    | inl gone ↦ rw (aggregate, gone) (refl, refl)
    | inr (q, stored) ↦ elim (Bool-cases (may_start q.status)) [
      | inl may ↦ rw (aggregate, stored, may) (refl, refl)
      | inr may_not ↦ rw (aggregate, stored, may_not) (refl, refl)
    ]
  ]
]

module _ (ed : Ed25519) (window : ℕ) where
  dispatch-Tracks :
      (now : ℕ) (e : LocalDeviceActionEnvelope) (stamp : ReviewStamp) (s : Desk)
      (d : HostedRegisteredDevice) (checked : Result String Bool × Desk)
      → Checked ed window now e d s checked
      → Tracks e s (dispatch checked e stamp)
  dispatch-Tracks now e stamp s d checked (verified done) =
      elim (Bool-cases (str_eq e.action_kind "QUOTE_REVIEW_START")) [
        | inr other ↦ rw other (marking e s (mark_seen e s) _ refl refl)
        | inl kind ↦
            let (actions, nonces) = handle_kept e stamp (mark_seen e s) in
            rw kind
              (marking e s (handle_quote_review_start e stamp (mark_seen e s)).1 _ actions nonces)
      ]
  dispatch-Tracks now e stamp s d checked (forgery bad) = failing e s _
  dispatch-Tracks now e stamp s d checked (refused message bad) = failing e s _

  process-Tracks :
      (now : ℕ) (e : LocalDeviceActionEnvelope) (stamp : ReviewStamp) (s : Desk)
      → Tracks e s (process_local_action ed window now e stamp s)
  unfolding process_local_action
  process-Tracks now e stamp s = elim (Option-cases (get_device e.device_id s)) [
    | inl unknown ↦ rw unknown (failing e s _)
    | inr (d, found) ↦ rw found (
        dispatch-Tracks now e stamp s d (verify_action ed window now e d s)
          (verify_action-Checked ed window now e d s))
  ]

  -- Requests to the endpoint, and changes by others, who leave actions and nonces alone.
  pub data DeskStep : Desk → Desk → Type 0 where
    processes :
        (now : ℕ) (e : LocalDeviceActionEnvelope) (stamp : ReviewStamp) (s : Desk)
        → DeskStep s (process_local_action ed window now e stamp s).1
    elsewhere : (s s' : Desk) → s'.actions ≡ s.actions → s'.nonces ≡ s.nonces → DeskStep s s'

  pub data DeskSteps (s : Desk) : Desk → Type 0 where
    here : DeskSteps s s
    next : {s₁ s₂ : Desk} → DeskSteps s s₁ → DeskStep s₁ s₂ → DeskSteps s s₂

  action-DeskSteps :
      {s s' : Desk} (id : String)
      → DeskSteps s s'
      → is_action_seen id s ≡ true
      → is_action_seen id s' ≡ true
  unfolding is_action_seen
  action-DeskSteps id here h = h
  action-DeskSteps id (next steps (processes now e stamp s)) h =
      (process-Tracks now e stamp s).action_kept id (action-DeskSteps id steps h)
  action-DeskSteps id (next steps (elsewhere s s' actions nonces)) h =
      rw actions (action-DeskSteps id steps h)

  nonce-DeskSteps :
      {s s' : Desk} (device_id nonce : String)
      → DeskSteps s s'
      → is_nonce_seen device_id nonce s ≡ true
      → is_nonce_seen device_id nonce s' ≡ true
  unfolding is_nonce_seen
  nonce-DeskSteps device_id nonce here h = h
  nonce-DeskSteps device_id nonce (next steps (processes now e stamp s)) h =
      (process-Tracks now e stamp s).nonce_kept device_id nonce
        (nonce-DeskSteps device_id nonce steps h)
  nonce-DeskSteps device_id nonce (next steps (elsewhere s s' actions nonces)) h =
      rw nonces (nonce-DeskSteps device_id nonce steps h)

  -- An answer of status 403 without a change.
  abbrev pub IsForbidden : Desk → Result HttpException ActionAccepted × Desk → Type 0
  IsForbidden s answer = (detail : String) × (answer ≡ (err (http 403 detail), s))

  dispatch-IsForbidden :
      (now : ℕ) (e : LocalDeviceActionEnvelope) (stamp : ReviewStamp) (s : Desk)
      (d : HostedRegisteredDevice) (checked : Result String Bool × Desk)
      → ¬ IsVerified ed window now e d s
      → Checked ed window now e d s checked
      → IsForbidden s (dispatch checked e stamp)
  dispatch-IsForbidden now e stamp s d checked bad (verified done) = absurd (bad done)
  dispatch-IsForbidden now e stamp s d checked bad (forgery _) = ("Invalid action signature", refl)
  dispatch-IsForbidden now e stamp s d checked bad (refused message _) = (message, refl)

  unverified-IsForbidden :
      (now : ℕ) (e : LocalDeviceActionEnvelope) (stamp : ReviewStamp) (s : Desk)
      → ((d : HostedRegisteredDevice) → ¬ IsVerified ed window now e d s)
      → IsForbidden s (process_local_action ed window now e stamp s)
  unfolding process_local_action
  unverified-IsForbidden now e stamp s bad = elim (Option-cases (get_device e.device_id s)) [
    | inl unknown ↦ ("Device " ++ e.device_id ++ " not registered", rw unknown refl)
    | inr (d, found) ↦ rw found (
        dispatch-IsForbidden now e stamp s d (verify_action ed window now e d s) (bad d)
          (verify_action-Checked ed window now e d s))
  ]

  -- After an action has been accepted, and any further requests, every envelope with the action's
  -- identifier, and every envelope of its device with its nonce, is refused with status 403 and
  -- changes nothing.
  pub process_local_action_replay :
      (s s' s'' : Desk) (now later : ℕ) (e e' : LocalDeviceActionEnvelope)
      (stamp stamp' : ReviewStamp) (a : ActionAccepted)
      → process_local_action ed window now e stamp s ≡ (ok a, s')
      → DeskSteps s' s''
      → (e'.action_id ≡ e.action_id) ⊎ ((e'.device_id ≡ e.device_id) × (e'.nonce ≡ e.nonce))
      → IsForbidden s'' (process_local_action ed window later e' stamp' s'')
  unfolding is_action_seen is_nonce_seen
  process_local_action_replay s s' s'' now later e e' stamp stamp' a done steps (inl same) =
      let seen =
        subst (λ r. is_action_seen e.action_id r.1 ≡ true) done
          ((process-Tracks now e stamp s).action_seen a (ap (λ r. r.0) done)) in
      let still = action-DeskSteps e.action_id steps seen in
      unverified-IsForbidden later e' stamp' s'' (λ d h.
        let no_way = sym h.new_action ∙ ap (λ k. is_action_seen k s'') same ∙ still in cc no_way)
  process_local_action_replay s s' s'' now later e e' stamp stamp' a done steps
        (inr (device, nonce)) =
      let seen =
        subst (λ r. is_nonce_seen e.device_id e.nonce r.1 ≡ true) done
          ((process-Tracks now e stamp s).nonce_seen a (ap (λ r. r.0) done)) in
      let still = nonce-DeskSteps e.device_id e.nonce steps seen in
      unverified-IsForbidden later e' stamp' s'' (λ d h.
        let no_way =
          sym h.new_nonce
          ∙ ap (λ k. is_nonce_seen k e'.nonce s'') device
          ∙ ap (λ k. is_nonce_seen e.device_id k s'') nonce
          ∙ still in
        cc no_way)
