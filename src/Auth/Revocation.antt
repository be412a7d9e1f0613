-- ===== src/Auth/Revocation.antt =====
-- What a revocation does: src/intake/services/session_service.py.
use intake.Prelude.{
  ℕ, String, ◌≡◌, ◌≢◌, ap, subst, true, Option, some, inl, inr, arith, eq_iff, Bool-cases,
  Option-cases, is_some,
}
use intake.Prelude.Rows.{change_if, change_if-unselected, change_if-found}
use intake.Auth.Sessions.{
  Session, Table, get, has_id, get_active_by_token_hash, revoke, revocable, revoke_all_for_account,
  get_session_by_token,
}

module _ (sha256 : String → String) (session_ttl_seconds : ℕ) where
  abbrev found_by : String → ℕ → Table → Option Session
  found_by token later rows = get_session_by_token sha256 session_ttl_seconds token later rows

  revoked_rows :
      (id : String) (now : ℕ) (rows rows' : Table)
      → revoke id now rows ≡ (true, rows')
      → change_if (has_id id) (λ s. record s { revoked_at = some now }) rows ≡ rows'
  unfolding revoke
  revoked_rows id now rows rows' e = elim (Option-cases (get id rows)) [
    | inl gone ↦ let no_way = ap (λ x. x.0) (rw gone at e) in cc no_way
    | inr (s, there) ↦ elim (Bool-cases (is_some s.revoked_at)) [
      | inl already ↦ let no_way = ap (λ x. x.0) (rw (there, already) at e) in cc no_way
      | inr fresh ↦ ap (λ x. x.1) (rw (there, fresh) at e)
    ]
  ]

  -- After a revocation that says that it has been done, no token finds a session of that
  -- identifier at any time, and a token that found any other session still finds it.
  pub revoke-get_session_by_token :
      (id : String) (now later : ℕ) (token : String) (rows rows' : Table) (s : Session)
      → revoke id now rows ≡ (true, rows')
      → (get_session_by_token sha256 session_ttl_seconds token later rows' ≡ some s → s.id ≢ id)
        × (get_session_by_token sha256 session_ttl_seconds token later rows ≡ some s
            → s.id ≢ id
            → get_session_by_token sha256 session_ttl_seconds token later rows' ≡ some s)
  unfolding get_session_by_token get_active_by_token_hash
  revoke-get_session_by_token id now later token rows rows' s e =
      subst
        (λ r.
          (found_by token later r ≡ some s → s.id ≢ id)
          × (found_by token later rows ≡ some s → s.id ≢ id → found_by token later r ≡ some s))
        (revoked_rows id now rows rows' e)
        (
          λ found key.
              let (unselected, holds) =
                change_if-unselected _ (has_id id) _ (λ x h. ground arith) rows s found in
              ground (arith, eq_iff s.id id),
          λ found apart.
              change_if-found _ (has_id id) _ (λ x h. ground arith) rows s found
                (ground (arith, eq_iff s.id id)),
        )

  -- After a revocation of all sessions of an account, no token finds a session of the account at
  -- any time, and a token that found any other session still finds it.
  pub revoke_all_for_account-get_session_by_token :
      (account_id : String) (now later : ℕ) (token : String) (rows : Table) (s : Session)
      → (get_session_by_token sha256 session_ttl_seconds token later
              (revoke_all_for_account account_id now rows).1
            ≡ some s
          → s.account_id ≢ account_id)
        × (get_session_by_token sha256 session_ttl_seconds token later rows ≡ some s
            → s.account_id ≢ account_id
            → get_session_by_token sha256 session_ttl_seconds token later
                (revoke_all_for_account account_id now rows).1
              ≡ some s)
  unfolding get_session_by_token get_active_by_token_hash revoke_all_for_account
  revoke_all_for_account-get_session_by_token account_id now later token rows s = (
    λ found key.
        let (unselected, holds) =
          change_if-unselected _ (revocable account_id) _ (λ x h. ground arith) rows s found in
        ground (arith, eq_iff s.account_id account_id),
    λ found apart.
        change_if-found _ (revocable account_id) _ (λ x h. ground arith) rows s found
          (ground (arith, eq_iff s.account_id account_id)),
  )
