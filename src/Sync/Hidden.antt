-- ===== src/Sync/Hidden.antt =====
-- What a locked console shows: src/intake/local_console/review_service.py with the window of
-- src/intake/local_console/security/unlock.py.
use intake.Prelude.{
  ℕ, suc, ◌+◌, ◌<◌, String, ◌≡◌, refl, sym, ap, ◌∙◌, true, false, Option, none, some, List, [], ◌∷◌,
  length, inl, inr, arith, Bool-cases, Option-cases, ltb, ◌==◌,
}
use mathlib.Core.Option.{some-injective}
use intake.Prelude.Rows.{first_that}
use intake.Prelude.Result.{ok, Result-cases}
use intake.Quotes.Model.{EncryptedPayload}
use intake.Sync.Model.{HostedQuoteProjection, EncryptedQuoteEnvelope}
use intake.Sync.Unlock.{LocalAuthorizationWindow, locked, unlock, lock, open_until, is_unlocked}
use intake.Sync.Console.{
  Response, Decryption, locked_item, locked_evidence, and_then, review_of, review_with,
  fetch_pending_projections, fetch_quote_envelope, is_of, get_decrypted_review,
}

-- The calls of the window, each with the clock's reading.
pub data WindowCall : Type 0 where
  unlocks : ℕ → WindowCall
  locks : WindowCall
  reads : ℕ → WindowCall

abbrev pub call : ℕ → WindowCall → LocalAuthorizationWindow → LocalAuthorizationWindow
call ttl (unlocks now) w = (unlock ttl now w).1
call ttl locks w = lock w
call ttl (reads now) w = (is_unlocked now w).1

-- A window that starts locked, after calls of which the last stands first.
unfoldable pub after_calls : ℕ → List WindowCall → LocalAuthorizationWindow
after_calls ttl [] = locked
after_calls ttl (c ∷ calls) = call ttl c (after_calls ttl calls)

-- The time of the last unlock, where no lock has followed.
unfoldable pub last_unlock : List WindowCall → Option ℕ
last_unlock [] = none
last_unlock (unlocks now ∷ calls) = some now
last_unlock (locks ∷ calls) = none
last_unlock (reads now ∷ calls) = last_unlock calls

-- A read leaves an open window as it was.
open_until_kept :
    (o : Option ℕ) (now until : ℕ) (w : LocalAuthorizationWindow)
    → (open_until o now w).1.unlocked_until ≡ some until
    → w.unlocked_until ≡ some until
unfolding lock
open_until_kept none now until w e = e
open_until_kept (some u) now until w e = elim (Bool-cases (ltb u now)) [
  | inl late ↦ let no_way = rw late at e in cc no_way
  | inr early ↦ rw early at e
]

-- An open window was opened by the last unlock, which no lock has followed.
after_calls-last_unlock :
    (ttl : ℕ) (calls : List WindowCall) (until : ℕ)
    → (after_calls ttl calls).unlocked_until ≡ some until
    → (at : ℕ) × (last_unlock calls ≡ some at) × (at + ttl ≡ until)
unfolding after_calls last_unlock unlock lock is_unlocked
after_calls-last_unlock ttl [] until e = cc e
after_calls-last_unlock ttl (unlocks now ∷ calls) until e =
    (now, refl, some-injective (now + ttl) until e)
after_calls-last_unlock ttl (locks ∷ calls) until e = cc e
after_calls-last_unlock ttl (reads now ∷ calls) until e =
    let w = after_calls ttl calls in
    after_calls-last_unlock ttl calls until (open_until_kept w.unlocked_until now until w e)

-- Without a recent unlock the window is closed.
after_calls-is_unlocked :
    (ttl now : ℕ) (calls : List WindowCall)
    → ((at : ℕ) → last_unlock calls ≡ some at → at + ttl < now)
    → (is_unlocked now (after_calls ttl calls)).0 ≡ false
unfolding is_unlocked
after_calls-is_unlocked ttl now calls stale =
    elim (Option-cases (after_calls ttl calls).unlocked_until) [
      | inl closed ↦ rw closed refl
      | inr (until, open_) ↦
          let (at, last, same) = after_calls-last_unlock ttl calls until open_ in
          let past = stale at last in
          let late : ltb until now ≡ true = ground arith in rw (open_, late) refl
    ]

-- Placeholders show how many uploads there are, and nothing of their names.
locked_evidence-eq :
    (i stored_at : ℕ) (names names' : List EncryptedPayload)
    → length names ≡ length names'
    → locked_evidence i stored_at names ≡ locked_evidence i stored_at names'
unfolding locked_evidence
locked_evidence-eq i stored_at [] [] h = refl
locked_evidence-eq i stored_at [] (y ∷ ys) h = absurd (omega arith)
locked_evidence-eq i stored_at (x ∷ xs) [] h = absurd (omega arith)
locked_evidence-eq i stored_at (x ∷ xs) (y ∷ ys) h =
    ap (λ r. locked_item i stored_at ∷ r) (locked_evidence-eq (suc i) stored_at xs ys (omega arith))

-- Two responses that differ in their ciphertexts alone.
pub record LookAlike (r r' : Response EncryptedQuoteEnvelope) : Type 0 where
  pub status : r.status_code ≡ r'.status_code
  pub uploads : length r.body.encrypted_uploads ≡ length r'.body.encrypted_uploads

closed_review-eq :
    (c c' : Decryption) (stored_at : ℕ) (quote_id : String) (p : HostedQuoteProjection)
    (r r' : Response EncryptedQuoteEnvelope)
    → LookAlike r r'
    → and_then (fetch_quote_envelope quote_id r) (review_of c false stored_at quote_id p)
      ≡ and_then (fetch_quote_envelope quote_id r') (review_of c' false stored_at quote_id p)
unfolding fetch_quote_envelope
closed_review-eq c c' stored_at quote_id p r r' alike =
    let shown =
      locked_evidence-eq 0 stored_at r.body.encrypted_uploads r'.body.encrypted_uploads
        alike.uploads in
    let status = λ (n : ℕ). ap (λ k. k == n) (sym alike.status) in
    elim (Bool-cases (r.status_code == 404)) [
      | inl gone ↦ rw (gone, status 404 ∙ gone) refl
      | inr there ↦ elim (Bool-cases (r.status_code == 200)) [
        | inr bad ↦ rw (there, bad, status 404 ∙ there, status 200 ∙ bad) refl
        | inl good ↦
            rw (there, good, status 404 ∙ there, status 200 ∙ good)
              (ap (λ evidence. ok (review_with c quote_id p true none none none evidence)) shown)
      ]
    ]

-- Whatever has been called so far, a console without a recent unlock, one that no lock has
-- followed, answers a request for a review alike whatever the decryption would answer and whatever
-- the ciphertexts are: an answer tells of them at most how many uploads there are.
pub get_decrypted_review_locked :
    (ttl now stored_at : ℕ) (calls : List WindowCall) (quote_id : String) (c c' : Decryption)
    (pending : Response (List HostedQuoteProjection)) (r r' : Response EncryptedQuoteEnvelope)
    → ((at : ℕ) → last_unlock calls ≡ some at → at + ttl < now)
    → LookAlike r r'
    → (get_decrypted_review c now stored_at quote_id pending r (after_calls ttl calls)).0
      ≡ (get_decrypted_review c' now stored_at quote_id pending r' (after_calls ttl calls)).0
unfolding get_decrypted_review
get_decrypted_review_locked ttl now stored_at calls quote_id c c' pending r r' stale alike =
    elim (Result-cases (fetch_pending_projections pending)) [
      | inr (e, failed) ↦ rw failed refl
      | inl (projections, fetched) ↦ elim (Option-cases (first_that (is_of quote_id) projections)) [
        | inl missing ↦ rw (fetched, missing) refl
        | inr (p, found) ↦
            rw (fetched, found, after_calls-is_unlocked ttl now calls stale)
              (closed_review-eq c c' stored_at quote_id p r r' alike)
      ]
    ]
