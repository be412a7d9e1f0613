-- ===== src/Passkeys/Entry.antt =====
-- Who is let in: `verify_authentication` of src/intake/services/passkey_service.py.
use intake.Prelude.{
  ℕ, String, ◌&&◌, ◌≡◌, ◌≤◌, refl, sym, ap, arith, ◌∙◌, subst, true, false, none, some, inl, inr,
  Bool-cases, Option-cases,
}
use mathlib.Core.Option.{some-injective}
use intake.Prelude.Dict.{get}
use intake.Prelude.Rows.{first_that}
use intake.Prelude.Http.{HttpException}
use intake.Prelude.Result.{Result, ok, err, Result-cases}
use intake.Quotes.Model.{Account}
use intake.Quotes.Repository.{get_account}
use intake.Auth.Sessions.{Session, create_session, get_active_by_token_hash, hash_token}
use intake.Passkeys.Model.{
  register, login, pending, consumed, expired, ChallengeAction, PasskeyChallengeStatus,
  PasskeyChallenge, is_pending_status, same_action, is_past, PasskeyCredential, CredentialData,
  VerifiedAuthentication, WebAuthn, Gate,
}
use intake.Passkeys.Entered.{IsEntered, entered-IsEntered}
use intake.Passkeys.Challenges.{has_value, get_by_challenge_value}
use intake.Passkeys.Credentials.{has_credential_id, get_credential}
use intake.Passkeys.Registration.{challenge_of, find_challenge_for_verification}
use intake.Passkeys.Login.{
  LoginStamp, fail, library_answer, open_session, with_account, check_credential,
  verify_authentication,
}

same_action-login : (action : ChallengeAction) → same_action action login ≡ true → action ≡ login
same_action-login register e = cc e
same_action-login login e = refl

is_pending_status-pending :
    (status : PasskeyChallengeStatus) → is_pending_status status ≡ true → status ≡ pending
is_pending_status-pending pending e = refl
is_pending_status-pending consumed e = cc e
is_pending_status-pending expired e = cc e

module _ (sha256 : String → String) (ttl : ℕ) (w : WebAuthn) (d : CredentialData)
    (stamp : LoginStamp) where
  -- The response answers a pending login challenge in time, by a stored credential of a stored
  -- account; the library accepts it; and the new session's token is not in use.
  pub record MayEnter (g : Gate) (c : PasskeyChallenge) (credential : PasskeyCredential)
      (a : Account) (v : VerifiedAuthentication) : Type 0 where
    pub challenge : first_that (has_value (challenge_of w d.client_data)) g.challenges ≡ some c
    pub action : c.action ≡ login
    pub pending : c.status ≡ pending
    pub early : stamp.now ≤ c.expires_at
    pub format : w.decodes d.id ≡ true
    pub known : first_that (has_credential_id d.id) g.credentials ≡ some credential
    pub account : get g.hosted.accounts credential.account_id ≡ some a
    pub key : w.decodes credential.public_key ≡ true
    pub nonce : w.decodes (challenge_of w d.client_data) ≡ true
    pub library :
        w.verify_authentication_response d
          (challenge_of w d.client_data)
          credential.public_key
          credential.sign_count
        ≡ ok v
    pub token :
        get_active_by_token_hash (hash_token sha256 ttl stamp.token) stamp.stored_at g.sessions
        ≡ none

  -- An answer of the service, with its new tables.
  pub data Entry (g : Gate) : Result HttpException (Account × String) × Gate → Type 0 where
    let_in :
        (c : PasskeyChallenge) (credential : PasskeyCredential) (a : Account)
        (v : VerifiedAuthentication) (g' : Gate)
        → MayEnter g c credential a v
        → IsEntered sha256 ttl w d stamp c credential a v g g'
        → Entry g (ok (a, stamp.session_id), g')
    kept_out :
        (e : HttpException) (g' : Gate)
        → ((c : PasskeyChallenge) (credential : PasskeyCredential) (a : Account)
              (v : VerifiedAuthentication)
            → ¬ MayEnter g c credential a v)
        → g'.sessions ≡ g.sessions
        → g'.hosted.accounts ≡ g.hosted.accounts
        → Entry g (err e, g')

  -- The library is asked where the key and the challenge can be decoded.
  library_answer_ok :
      (d : CredentialData) (value : String) (credential : PasskeyCredential)
      (v : VerifiedAuthentication)
      → library_answer sha256 ttl w d value credential ≡ ok v
      → (w.decodes credential.public_key ≡ true)
        × (w.decodes value ≡ true)
        × (w.verify_authentication_response d value credential.public_key credential.sign_count
            ≡ ok v)
  library_answer_ok d value credential v h =
      elim (Bool-cases (w.decodes credential.public_key && w.decodes value)) [
        | inl good ↦ (ground (arith, good), ground (arith, good), rw good at h)
        | inr bad ↦ let no_way = rw bad at h in cc no_way
      ]

  -- Whoever may enter does so by the challenge, credential and account that are found.
  by_challenge :
      (g : Gate) (c c' : PasskeyChallenge) (credential : PasskeyCredential) (a : Account)
      (v : VerifiedAuthentication)
      → first_that (has_value (challenge_of w d.client_data)) g.challenges ≡ some c
      → MayEnter g c' credential a v
      → MayEnter g c credential a v
  by_challenge g c c' credential a v found m =
      subst (λ x. MayEnter g x credential a v) (some-injective c' c (sym m.challenge ∙ found)) m

  by_credential :
      (g : Gate) (c : PasskeyChallenge) (credential credential' : PasskeyCredential) (a : Account)
      (v : VerifiedAuthentication)
      → first_that (has_credential_id d.id) g.credentials ≡ some credential
      → MayEnter g c credential' a v
      → MayEnter g c credential a v
  by_credential g c credential credential' a v found m =
      subst (λ x. MayEnter g c x a v) (some-injective credential' credential (sym m.known ∙ found))
        m

  -- The session is made, unless its token is in use.
  finish-Entry :
      (g : Gate) (c : PasskeyChallenge) (credential : PasskeyCredential) (a : Account)
      (v : VerifiedAuthentication)
      → (get_active_by_token_hash (hash_token sha256 ttl stamp.token) stamp.stored_at g.sessions
            ≡ none
          → MayEnter g c credential a v)
      → ((s : Session)
          → get_active_by_token_hash (hash_token sha256 ttl stamp.token) stamp.stored_at g.sessions
            ≡ some s
          → (c' : PasskeyChallenge) (credential' : PasskeyCredential) (a' : Account)
            (v' : VerifiedAuthentication)
          → ¬ MayEnter g c' credential' a' v')
      → Entry g (open_session sha256 ttl w (ok v) stamp c credential a g)
  unfolding create_session fail
  finish-Entry g c credential a v may not_may =
      elim (Option-cases
        (get_active_by_token_hash (hash_token sha256 ttl stamp.token) stamp.stored_at g.sessions)) [
          | inl fresh ↦
              let m = may fresh in
              rw fresh (
                let_in c credential a v _ m (
                  entered-IsEntered sha256 ttl w d stamp c credential a v g m.challenge m.pending
                    m.known))
          | inr (s, used) ↦ rw used (kept_out _ _ (not_may s used) refl refl)
        ]

  -- The library's answer.
  answer-Entry :
      (g : Gate) (c : PasskeyChallenge) (credential : PasskeyCredential) (a : Account)
      → ((v : VerifiedAuthentication)
          → library_answer sha256 ttl w d (challenge_of w d.client_data) credential ≡ ok v
          → get_active_by_token_hash (hash_token sha256 ttl stamp.token) stamp.stored_at g.sessions
            ≡ none
          → MayEnter g c credential a v)
      → ((c' : PasskeyChallenge) (credential' : PasskeyCredential) (a' : Account)
            (v' : VerifiedAuthentication)
          → MayEnter g c' credential' a' v'
          → MayEnter g c credential a' v')
      → Entry g (
          open_session sha256 ttl w
            (library_answer sha256 ttl w d (challenge_of w d.client_data) credential)
            stamp
            c
            credential
            a
            g)
  unfolding fail
  answer-Entry g c credential a may same =
      elim (Result-cases
        (library_answer sha256 ttl w d (challenge_of w d.client_data) credential)) [
          | inl (v, yes_) ↦ rw yes_ (
              finish-Entry g c credential a v (may v yes_)
                (λ s used c' credential' a' v' m. let no_way = sym m.token ∙ used in cc no_way))
          | inr (e, no_) ↦ rw no_ (
              kept_out _ _
                (λ c' credential' a' v' m.
                  let m' = same c' credential' a' v' m in
                  let no_way = rw (m'.key, m'.nonce, m'.library) at no_ in cc no_way)
                refl refl)
        ]

  -- The account and the credential.
  account-Entry :
      (g : Gate) (c : PasskeyChallenge) (credential : PasskeyCredential)
      → ((a : Account) (v : VerifiedAuthentication)
          → get g.hosted.accounts credential.account_id ≡ some a
          → library_answer sha256 ttl w d (challenge_of w d.client_data) credential ≡ ok v
          → get_active_by_token_hash (hash_token sha256 ttl stamp.token) stamp.stored_at g.sessions
            ≡ none
          → MayEnter g c credential a v)
      → ((c' : PasskeyChallenge) (credential' : PasskeyCredential) (a' : Account)
            (v' : VerifiedAuthentication)
          → MayEnter g c' credential' a' v'
          → MayEnter g c credential a' v')
      → Entry g (
          with_account sha256 ttl w
            (get g.hosted.accounts credential.account_id)
            d
            stamp
            (challenge_of w d.client_data)
            c
            credential
            g)
  account-Entry g c credential may same =
      elim (Option-cases (get g.hosted.accounts credential.account_id)) [
        | inr (a, there) ↦ rw there (answer-Entry g c credential a (λ v. may a v there) same)
        | inl gone ↦ rw gone (
            kept_out _ _
              (λ c' credential' a' v' m.
                let m' = same c' credential' a' v' m in
                let no_way = sym m'.account ∙ gone in cc no_way)
              refl refl)
      ]

  credential-Entry :
      (g : Gate) (c : PasskeyChallenge)
      → first_that (has_value (challenge_of w d.client_data)) g.challenges ≡ some c
      → same_action c.action login ≡ true
      → is_pending_status c.status ≡ true
      → is_past c stamp.now ≡ false
      → Entry g (check_credential sha256 ttl w d stamp (challenge_of w d.client_data) c g)
  unfolding get_credential get_account
  credential-Entry g c found action open_ early = elim (Bool-cases (w.decodes d.id)) [
    | inr bad ↦ rw bad (
        kept_out _ _ (λ c' credential' a' v' m. let no_way = sym m.format ∙ bad in cc no_way) refl
          refl)
    | inl good ↦ elim (Option-cases (first_that (has_credential_id d.id) g.credentials)) [
      | inl unknown ↦
          rw (good, unknown)
            (kept_out _ _
              (λ c' credential' a' v' m. let no_way = sym m.known ∙ unknown in cc no_way) refl refl)
      | inr (credential, known) ↦
          rw (good, known)
            (account-Entry g c credential
              (λ a v there yes_ fresh.
                let (key, nonce, verdict) =
                  library_answer_ok d (challenge_of w d.client_data) credential v yes_ in
                record {
                  challenge = found;
                  action = same_action-login c.action action;
                  pending = is_pending_status-pending c.status open_;
                  early = ground (arith, early);
                  format = good;
                  known = known;
                  account = there;
                  key = key;
                  nonce = nonce;
                  library = verdict;
                  token = fresh;
                })
              (λ c' credential' a' v' m.
                by_credential g c credential credential' a' v' known
                  (by_challenge g c c' credential' a' v' found m)))
    ]
  ]

  -- Every response is answered by the rules. It opens a session of the credential's account, whose
  -- identifier is returned, exactly if the challenge, the credential, the account and the library's
  -- verdict allow it and the new session's token is not in use: the challenge is then consumed, the
  -- credential's counter, flags and time of use are written unless it is revoked, the session joins
  -- the stored ones, and one event of the login is logged, while the accounts, the quotes and the
  -- other challenges and credentials stay. Any other response is answered with an error and leaves
  -- the sessions and the accounts as they were.
  pub verify_authentication-Entry :
      (g : Gate) → Entry g (verify_authentication sha256 ttl w d stamp g)
  unfolding verify_authentication find_challenge_for_verification get_by_challenge_value
  verify_authentication-Entry g =
      elim (Option-cases (first_that (has_value (challenge_of w d.client_data)) g.challenges)) [
        | inl missing ↦ rw missing (
            kept_out _ _ (λ c credential a v m. let no_way = sym m.challenge ∙ missing in cc no_way)
              refl refl)
        | inr (c, found) ↦ elim (Bool-cases (same_action c.action login)) [
          | inr other ↦
              rw (found, other)
                (kept_out _ _
                  (λ c' credential a v m.
                    let m' = by_challenge g c c' credential a v found m in
                    let no_way = sym (ap (λ x. same_action x login) m'.action) ∙ other in cc no_way)
                  refl refl)
          | inl action ↦ elim (Bool-cases (is_pending_status c.status)) [
            | inr closed ↦
                rw (found, action, closed)
                  (kept_out _ _
                    (λ c' credential a v m.
                      let m' = by_challenge g c c' credential a v found m in
                      let no_way = sym (ap is_pending_status m'.pending) ∙ closed in cc no_way)
                    refl refl)
            | inl open_ ↦ elim (Bool-cases (is_past c stamp.now)) [
              | inr early ↦
                  rw (found, action, open_, early) (credential-Entry g c found action open_ early)
              | inl late ↦
                  rw (found, action, open_, late)
                    (kept_out _ _
                      (λ c' credential a v m.
                        let m' = by_challenge g c c' credential a v found m in
                        ground (arith, m'.early, late))
                      refl refl)
            ]
          ]
        ]
      ]
