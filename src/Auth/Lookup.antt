-- ===== src/Auth/Lookup.antt =====
-- Which session a token finds: src/intake/services/session_service.py.
use intake.Prelude.{
  ℕ, ◌≤◌, String, ◌≡◌, refl, ap, subst, ◌∙◌, Bool, true, false, ◌&&◌, none, some, inl, inr, arith,
  eq_iff, Option-cases, ltb, str_eq,
}
use mathlib.Core.Option.{some-injective}
use intake.Prelude.Rows.{first_that-append, first_that-none, first_that-keep_if}
use intake.Auth.Sessions.{
  Session, Table, live, get_active_by_token_hash, create, cleanup_expired, new_session, created,
  create_session, get_session_by_token,
}

-- The row that has been added is found by its hash, at that time and later.
create-get :
    (s : Session) (now later : ℕ) (rows rows' : Table)
    → create s now rows ≡ (true, rows')
    → s.revoked_at ≡ none
    → now ≤ later
    → ltb later s.expires_at ≡ true
    → get_active_by_token_hash s.token_hash later rows' ≡ some s
unfolding create get_active_by_token_hash
create-get s now later rows rows' e open_ after early =
    elim (Option-cases (get_active_by_token_hash s.token_hash now rows)) [
      | inr (old, found) ↦ let no_way = ap (λ x. x.0) (rw found at e) in cc no_way
      | inl none_yet ↦
          subst (λ r. get_active_by_token_hash s.token_hash later r ≡ some s)
            (ap (λ x. x.1) (rw none_yet at e))
            (first_that-append (λ x. str_eq x.token_hash s.token_hash && live x later) rows s
              (first_that-none (λ x. str_eq x.token_hash s.token_hash && live x now) _ rows
                (λ x h. ground arith) none_yet)
              (rw open_ (ground (arith, eq_iff s.token_hash s.token_hash))))
    ]

module _ (sha256 : String → String) (session_ttl_seconds : ℕ) where
  created-inversion :
      (s₀ s : Session) (b : Bool) (rows rows' : Table)
      → created sha256 session_ttl_seconds s₀ (b, rows) ≡ (some s, rows')
      → (b ≡ true) × (rows ≡ rows') × (s₀ ≡ s)
  created-inversion s₀ s true rows rows' e =
      (refl, ap (λ x. x.1) e, some-injective s₀ s (ap (λ x. x.0) e))
  created-inversion s₀ s false rows rows' e = let no_way = ap (λ x. x.0) e in cc no_way

  -- A session that has been created is the one that its token finds from then on, until it
  -- expires.
  pub create_session-get_session_by_token :
      (id : String) (created_at starts_at now later : ℕ) (account_id token : String)
      (rows rows' : Table) (s : Session)
      → create_session sha256 session_ttl_seconds id created_at starts_at now account_id token rows
        ≡ (some s, rows')
      → now ≤ later
      → ltb later s.expires_at ≡ true
      → get_session_by_token sha256 session_ttl_seconds token later rows' ≡ some s
  unfolding create_session get_session_by_token new_session
  create_session-get_session_by_token id created_at starts_at now later account_id token rows rows'
        s e after early =
      let s₀ = new_session sha256 session_ttl_seconds id created_at starts_at account_id token in
      let (done, stored, same) =
        created-inversion s₀ s (create s₀ now rows).0 (create s₀ now rows).1 rows' e in
      subst (λ x. get_session_by_token sha256 session_ttl_seconds token later rows' ≡ some x) same
        (create-get s₀ now later rows rows' (λ i. (done i, stored i)) refl after
          (ap (λ x. ltb later x.expires_at) same ∙ early))

  -- A clean-up changes no token's session, then or later.
  pub cleanup_expired-get_session_by_token :
      (now later : ℕ) (token : String) (rows : Table)
      → now ≤ later
      → get_session_by_token sha256 session_ttl_seconds token later (cleanup_expired now rows).1
        ≡ get_session_by_token sha256 session_ttl_seconds token later rows
  unfolding get_session_by_token get_active_by_token_hash cleanup_expired
  cleanup_expired-get_session_by_token now later token rows after =
      first_that-keep_if _ _ rows (λ s h. ground arith)
