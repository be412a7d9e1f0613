-- ===== src/Passkeys/Visits.antt =====
-- From a login to a logout: the endpoints of src/intake/hosted/auth/passkeys.py over the session
-- table.
use intake.Prelude.{
  ℕ, ◌+◌, String, ◌≡◌, refl, sym, ap, ◌∙◌, subst, true, false, none, some, inl, inr, Bool-cases,
  eq_iff, ltb,
}
use intake.Prelude.Text.{is_empty}
use intake.Prelude.Rows.{first_that, first_that-append, first_that-change_if, first_that-holds}
use intake.Prelude.Http.{HttpException}
use intake.Prelude.Result.{Result, ok, err, after}
use intake.Quotes.Model.{Account}
use intake.Auth.Sessions
use intake.Auth.Sessions.{Session, Table, has_id, is_active, revoke, new_session}
use intake.Passkeys.Model.{CredentialData, WebAuthn, Gate}
use intake.Passkeys.Login.{LoginStamp, verify_authentication}
use intake.Passkeys.Endpoints.{LoginResponse, respond, login_verify, logout, get_session}
use intake.Passkeys.Entered.{session_of}
use intake.Passkeys.Entry.{Entry, let_in, kept_out, verify_authentication-Entry}

-- The session that a cookie names, which is a live one of the account until it expires.
pub record IsVisit (r : LoginResponse) (expires_at : ℕ) (rows : Table) : Type 0 where
  pub session : Session
  pub found : Sessions.get r.cookie rows ≡ some session
  pub named : is_empty r.cookie ≡ false
  pub owner : session.account_id ≡ r.account_id
  pub unrevoked : session.revoked_at ≡ none
  pub until : session.expires_at ≡ expires_at

-- While a visit lasts, its cookie authenticates the account.
IsVisit-get_session :
    (r : LoginResponse) (expires_at later : ℕ) (rows : Table)
    → IsVisit r expires_at rows
    → ltb later expires_at ≡ true
    → get_session (some r.cookie) later rows ≡ some r.account_id
unfolding get_session
IsVisit-get_session r expires_at later rows v early =
    let in_time = ap (ltb later) v.until ∙ early in
    rw (v.named, v.found, v.unrevoked, in_time) (ap some v.owner)

-- After a logout its cookie authenticates nobody.
IsVisit-logout :
    (r : LoginResponse) (expires_at now later : ℕ) (rows : Table)
    → IsVisit r expires_at rows
    → get_session (some r.cookie) later (logout (some r.cookie) now rows) ≡ none
unfolding get_session logout Sessions.get
IsVisit-logout r expires_at now later rows v =
    let stamped : Session → Session = λ s. record s { revoked_at = some now } in
    let gone =
      first_that-change_if (has_id r.cookie) (has_id r.cookie) stamped rows v.session (λ x e. refl)
        v.found in
    elim (Bool-cases (has_id r.cookie v.session)) [
      | inl own ↦ let gone' = rw own at gone in rw (v.named, v.found, v.unrevoked, gone') refl
      | inr other ↦
          let no_way = sym other ∙ first_that-holds (has_id r.cookie) rows v.session v.found in
          cc no_way
    ]

-- An answer that opens a visit, or an error.
abbrev Opens : ℕ → Result HttpException LoginResponse × Gate → Type 0
Opens expires_at answer = elim answer.0 [
  | ok r ↦ IsVisit r expires_at answer.1.sessions
  | err e ↦ Unit {0}
]

module _ (sha256 : String → String) (ttl : ℕ) (w : WebAuthn) (d : CredentialData)
    (stamp : LoginStamp) where
  -- The session that a login opens is found by its identifier, where no other has it.
  Entry-IsVisit :
      (g : Gate) (answer : Result HttpException (Account × String) × Gate) (r : LoginResponse)
      (g' : Gate)
      → Sessions.get stamp.session_id g.sessions ≡ none
      → is_empty stamp.session_id ≡ false
      → Entry sha256 ttl w d stamp g answer
      → after answer.0 answer.1 (respond sha256 ttl w) ≡ (ok r, g')
      → IsVisit r (stamp.starts_at + ttl) g'.sessions
  unfolding Sessions.get new_session
  Entry-IsVisit g answer r g' fresh named (kept_out e g₁ _ _ _) h =
      let no_way = ap (λ x. x.0) h in cc no_way
  Entry-IsVisit g answer r g' fresh named (let_in c credential a v g₁ may entered) h =
      let session = session_of sha256 ttl w d stamp a in
      let there =
        ap (first_that (has_id stamp.session_id)) entered.sessions
        ∙ first_that-append (has_id stamp.session_id) g.sessions session fresh
            ((eq_iff stamp.session_id stamp.session_id).1 refl) in
      subst (Opens (stamp.starts_at + ttl)) (rw there at h) (record {
        session = session;
        found = there;
        named = named;
        owner = refl;
        unrevoked = refl;
        until = refl;
      })

  -- Where the new session's identifier is not empty and no session has it, the cookie of an
  -- accepted login authenticates the account of the answer until the session expires, and
  -- nobody after a logout with that cookie, at any time.
  pub login_verify-get_session :
      (g g' : Gate) (r : LoginResponse)
      → Sessions.get stamp.session_id g.sessions ≡ none
      → is_empty stamp.session_id ≡ false
      → login_verify sha256 ttl w d stamp g ≡ (ok r, g')
      → ((later : ℕ)
          → ltb later (stamp.starts_at + ttl) ≡ true
          → get_session (some r.cookie) later g'.sessions ≡ some r.account_id)
        × ((now later : ℕ)
            → get_session (some r.cookie) later (logout (some r.cookie) now g'.sessions) ≡ none)
  unfolding login_verify
  login_verify-get_session g g' r fresh named h =
      let visit =
        Entry-IsVisit g (verify_authentication sha256 ttl w d stamp g) r g' fresh named
          (verify_authentication-Entry sha256 ttl w d stamp g) h in
      (
        (λ later early. IsVisit-get_session r _ later g'.sessions visit early),
        (λ now later. IsVisit-logout r _ now later g'.sessions visit),
      )
