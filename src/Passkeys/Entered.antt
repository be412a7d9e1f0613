-- ===== src/Passkeys/Entered.antt =====
-- What a login leaves in the tables: `verify_authentication` of
-- src/intake/services/passkey_service.py.
use intake.Prelude.{
  ℕ, ◌+◌, String, ◌≡◌, refl, sym, ap, ◌∙◌, subst, Bool, true, false, none, some, List, [], ◌∷◌,
  ◌++◌, append, inl, inr, str_eq, eq_iff, arith, Bool-cases, if◌then◌else◌, is_some,
}
use mathlib.Core.Option.{some-injective}
use intake.Prelude.Rows.{first_that, change_if, first_that-change_if, first_that-holds}
use intake.Quotes.Model.{
  Account, EventAggregateType, EventActorType, passkey_authentication_success, for_account,
}
use intake.Quotes.Repository.{append_event}
use intake.Passkeys.Model.{
  pending, consumed, PasskeyChallenge, PasskeyCredential, CredentialData, VerifiedAuthentication,
  WebAuthn, Gate,
}
use intake.Passkeys.Challenges.{is_consumable, consume, mark_consumed}
use intake.Passkeys.Credentials.{
  has_credential_id, use_credential, change_first, update_after_login,
}
use intake.Passkeys.Registration.{challenge_of}
use intake.Auth.Sessions.{Session, hash_token, new_session}
use intake.Passkeys.Login.{LoginStamp, log_event, accepted}

-- The first row that is selected is the one that changes.
pub first_that-change_first :
    (p : PasskeyCredential → Bool) (f : PasskeyCredential → PasskeyCredential)
    (rows : List PasskeyCredential) (c : PasskeyCredential)
    → ((x : PasskeyCredential) → p (f x) ≡ p x)
    → first_that p rows ≡ some c
    → first_that p (change_first p f rows) ≡ some (f c)
unfolding first_that change_first
first_that-change_first p f [] c blind h = cc h
first_that-change_first p f (x ∷ rows) c blind h = elim (Bool-cases (p x)) [
  | inl e ↦ rw (e, blind x, e) (ap (λ y. some (f y)) (some-injective x c (rw e at h)))
  | inr e ↦ rw (e, e) (first_that-change_first p f rows c blind (rw e at h))
]

-- A row that is not selected, before or after, is found as it was.
first_that-change_other :
    (p q : PasskeyChallenge → Bool) (f : PasskeyChallenge → PasskeyChallenge)
    (rows : List PasskeyChallenge)
    → ((x : PasskeyChallenge) → q x ≡ true → (p x ≡ false) × (p (f x) ≡ false))
    → first_that p (change_if q f rows) ≡ first_that p rows
unfolding first_that change_if
first_that-change_other p q f [] apart = refl
first_that-change_other p q f (x ∷ rows) apart =
    let rest = first_that-change_other p q f rows apart in
    elim (Bool-cases (q x)) [
      | inl e ↦ let (before, after) = apart x e in rw (e, before, after) rest
      | inr e ↦ elim (Bool-cases (p x)) [ inl h ↦ rw (e, h) refl | inr h ↦ rw (e, h) rest ]
    ]

first_that-change_first_other :
    (p q : PasskeyCredential → Bool) (f : PasskeyCredential → PasskeyCredential)
    (rows : List PasskeyCredential)
    → ((x : PasskeyCredential) → q x ≡ true → (p x ≡ false) × (p (f x) ≡ false))
    → first_that p (change_first q f rows) ≡ first_that p rows
unfolding first_that change_first
first_that-change_first_other p q f [] apart = refl
first_that-change_first_other p q f (x ∷ rows) apart =
    let rest = first_that-change_first_other p q f rows apart in
    elim (Bool-cases (q x)) [
      | inl e ↦ let (before, after) = apart x e in rw (e, before, after) refl
      | inr e ↦ elim (Bool-cases (p x)) [ inl h ↦ rw (e, h) refl | inr h ↦ rw (e, h) rest ]
    ]

module _ (sha256 : String → String) (ttl : ℕ) (w : WebAuthn) (d : CredentialData)
    (stamp : LoginStamp) where
  -- The session of a login: live from its start on, found by the digest of its token.
  abbrev pub session_of : Account → Session
  session_of a = record {
    id = stamp.session_id;
    account_id = a.id;
    token_hash = sha256 (Prim.Native.String.◌++◌ "session_token|" stamp.token);
    created_at = stamp.created_at;
    expires_at = stamp.starts_at + ttl;
    revoked_at = none;
    last_seen_at = none;
  }

  -- The tables after a login: the challenge is consumed, the credential's row has its counter and
  -- its use, unless it is revoked, a session has joined the sessions, and one event is logged. All
  -- else is as it was.
  pub record IsEntered (c : PasskeyChallenge) (credential : PasskeyCredential) (a : Account)
      (v : VerifiedAuthentication) (g g' : Gate) : Type 0 where
    pub challenge :
        first_that (λ x. str_eq x.challenge (challenge_of w d.client_data)) g'.challenges
        ≡ some (record c { status = consumed; consumed_at = some stamp.consumed_at })
    pub other_challenges :
        (k : String)
        → str_eq c.id k ≡ false
        → first_that (λ x. str_eq x.id k) g'.challenges
          ≡ first_that (λ x. str_eq x.id k) g.challenges
    pub credential_used :
        credential.revoked_at ≡ none
        → first_that (λ x. str_eq x.credential_id d.id) g'.credentials
          ≡ some (record credential {
            sign_count = v.new_sign_count;
            last_used_at = some stamp.used_at;
            backup_eligible = v.multi_device;
            backup_state = v.credential_backed_up;
          })
    pub credential_revoked :
        (at : ℕ)
        → credential.revoked_at ≡ some at
        → first_that (λ x. str_eq x.credential_id d.id) g'.credentials ≡ some credential
    pub other_credentials :
        (k : String)
        → str_eq d.id k ≡ false
        → first_that (λ x. str_eq x.credential_id k) g'.credentials
          ≡ first_that (λ x. str_eq x.credential_id k) g.credentials
    pub sessions : g'.sessions ≡ append g.sessions (session_of a ∷ [])
    pub accounts : g'.hosted.accounts ≡ g.hosted.accounts
    pub quotes : g'.hosted.quotes ≡ g.hosted.quotes
    pub logged :
        g'.hosted.events
        ≡ g.hosted.events
          ++ record {
            event_id = stamp.event.id;
            aggregate_type = EventAggregateType.account;
            aggregate_id = a.id;
            event_type = passkey_authentication_success;
            created_at = stamp.event.at;
            actor_type = some EventActorType.account;
            actor_id = some a.id;
            redacted_summary = "Passkey authentication successful";
            encrypted_payload = none;
          }
            ∷ []

  used_id :
      (k : String) (v : VerifiedAuthentication) (x : PasskeyCredential)
      → str_eq
          (use_credential v.new_sign_count stamp.used_at v.multi_device v.credential_backed_up
            x).credential_id
          k
        ≡ str_eq x.credential_id k
  used_id k v x = elim (Bool-cases (is_some x.revoked_at)) [ inl e ↦ rw e refl | inr e ↦ rw e refl ]

  -- The tables that the code leaves.
  abbrev pub entered :
      PasskeyChallenge → PasskeyCredential → Account → VerifiedAuthentication → Gate → Gate
  entered c credential a v g =
      log_event stamp.event passkey_authentication_success EventActorType.account (some a.id) a.id
        "Passkey authentication successful"
        (record (accepted v stamp c credential g) {
          sessions = append g.sessions (
              new_session sha256 ttl stamp.session_id stamp.created_at stamp.starts_at a.id
                stamp.token
              ∷ []);
        })

  pub entered-IsEntered :
      (c : PasskeyChallenge) (credential : PasskeyCredential) (a : Account)
      (v : VerifiedAuthentication) (g : Gate)
      → first_that (λ x. str_eq x.challenge (challenge_of w d.client_data)) g.challenges ≡ some c
      → c.status ≡ pending
      → first_that (λ x. str_eq x.credential_id d.id) g.credentials ≡ some credential
      → IsEntered c credential a v g (entered c credential a v g)
  unfolding mark_consumed update_after_login append_event for_account new_session hash_token
  entered-IsEntered c credential a v g found open_ known =
      let own : is_consumable c.id c ≡ true = rw (open_, (eq_iff c.id c.id).1 refl) refl in
      let same =
        (eq_iff credential.credential_id d.id).0
          (first_that-holds (has_credential_id d.id) g.credentials credential known) in
      let written =
        use_credential v.new_sign_count stamp.used_at v.multi_device v.credential_backed_up in
      let used =
        first_that-change_first (has_credential_id d.id) written g.credentials credential
          (used_id d.id v) known in
      let here =
        subst
          (λ id.
            first_that (has_credential_id d.id)
              (change_first (has_credential_id id) written g.credentials)
            ≡ some (written credential))
          (sym same) used in
      record {
        challenge = rw own at (
            first_that-change_if (λ x. str_eq x.challenge (challenge_of w d.client_data))
              (is_consumable c.id) (consume stamp.consumed_at) g.challenges c (λ x e. refl) found);
        other_challenges = λ k apart.
            first_that-change_other (λ x. str_eq x.id k) (is_consumable c.id)
              (consume stamp.consumed_at) g.challenges
              (λ x e.
                let other : str_eq x.id k ≡ false =
                  ground (arith, eq_iff x.id c.id, eq_iff x.id k, eq_iff c.id k) in
                (other, other));
        credential_used = λ free.
            here
            ∙ ap
                (λ o. some (
                  if is_some o then credential else record credential {
                    sign_count = v.new_sign_count;
                    last_used_at = some stamp.used_at;
                    backup_eligible = v.multi_device;
                    backup_state = v.credential_backed_up;
                  }))
                free;
        credential_revoked = λ at revoked.
            here
            ∙ ap
                (λ o. some (
                  if is_some o then credential else record credential {
                    sign_count = v.new_sign_count;
                    last_used_at = some stamp.used_at;
                    backup_eligible = v.multi_device;
                    backup_state = v.credential_backed_up;
                  }))
                revoked;
        other_credentials = λ k apart. rw same (
            first_that-change_first_other (λ x. str_eq x.credential_id k) (has_credential_id d.id)
              written g.credentials
              (λ x e.
                let own_id = (eq_iff x.credential_id d.id).0 e in
                let other : str_eq x.credential_id k ≡ false = rw own_id apart in
                (other, used_id k v x ∙ other)));
        sessions = refl;
        accounts = refl;
        quotes = refl;
        logged = refl;
      }
