-- ===== src/Receiver/Invariant/Cleanup.antt =====
-- A clean-up that succeeds keeps the receiver's state consistent: `cleanup_expired_sessions` of
-- src/intake/local_console/receiver/service.py.
use intake.Prelude.{
  ℕ, suc, String, ◌≡◌, ◌≢◌, inl, inr, refl, true, some, List, [], ◌∷◌, arith, Bool-cases,
  Option-cases, eq_iff, All, sum_of, sym, ap, ◌∙◌, subst,
}
use intake.Prelude.Int.{ℤ}
use intake.Prelude.Dict.{Dict, get, del, get-del}
use intake.Prelude.Result.{ok}
use intake.Receiver.Model.{expired, LocalUploadSession, LocalUploadedFileRecord, Receiver}
use intake.Receiver.Sessions.{is_completed}
use intake.Receiver.Disk.{cleanup_session}
use intake.Receiver.Cleanup.{
  drop_found, drop_files, drop_directory, mark_expired, clean_found, clean_session, clean_sessions,
  cleanup_expired_sessions, expired_sessions,
}
use intake.Receiver.Invariant.{
  IsOwned, size_at, size_or_zero, IsSound, IsConsistent, IsConsistent-mark,
}

-- The record of a file, if there is one, is of this session.
abbrev IsOf : Dict LocalUploadedFileRecord → String → String → Type 0
IsOf files sid id = (f : LocalUploadedFileRecord) → get files id ≡ some f → f.session_id ≡ sid

module _ (files : Dict LocalUploadedFileRecord) (id sid : String) (of : IsOf files sid id)
    (j quote : String) (limit : ℤ) (apart : sid ≢ j) where
  found-del :
      (x : String) (o : IsOwned files j quote limit x) → get (del files id) x ≡ some o.stored
  found-del x o =
      rw get-del (ground (arith, eq_iff id x, o.found, of o.stored, o.in_session, apart))

  IsOwned-del :
      (x : String) → IsOwned files j quote limit x → IsOwned (del files id) j quote limit x
  IsOwned-del x o = record {
    stored = o.stored;
    found = found-del x o;
    named = o.named;
    in_session = o.in_session;
    for_quote = o.for_quote;
    not_empty = o.not_empty;
    within_limit = o.within_limit;
  }

  All-IsOwned-del :
      (xs : List String)
      → All (IsOwned files j quote limit) xs
      → All (IsOwned (del files id) j quote limit) xs
  All-IsOwned-del [] h = tt
  All-IsOwned-del (x ∷ xs) h = (IsOwned-del x h.0, All-IsOwned-del xs h.1)

  sizes-del :
      (xs : List String)
      → All (IsOwned files j quote limit) xs
      → sum_of (size_at (del files id)) xs ≡ sum_of (size_at files) xs
  sizes-del [] h = refl
  sizes-del (x ∷ xs) h =
      omega (arith, sizes-del xs h.1, ap size_or_zero (found-del x h.0 ∙ sym h.0.found))

-- Dropping the record leaves the sessions of another key sound.
IsSound-del :
    (files : Dict LocalUploadedFileRecord) (id sid : String)
    → IsOf files sid id
    → (j : String) (s : LocalUploadSession) → sid ≢ j
    → IsSound files j s
    → IsSound (del files id) j s
IsSound-del files id sid of j s apart h =
    let apart' : sid ≢ s.session_id = λ e. apart (e ∙ h.key) in
    record {
      key = h.key;
      size_limit = h.size_limit;
      count_limit = h.count_limit;
      total_limit = h.total_limit;
      within_total = h.within_total;
      within_count = h.within_count;
      owned = All-IsOwned-del files id sid of _ _ _ apart' s.uploaded_files h.owned;
      accounted =
          h.accounted
          ∙ sym (sizes-del files id sid of _ s.quote_id _ apart' s.uploaded_files h.owned);
      distinct = h.distinct;
    }

-- Every session but one is sound.
abbrev Others : String → Receiver → Type 0
Others sid r =
    (j : String) (s : LocalUploadSession)
    → get r.sessions j ≡ some s
    → sid ≢ j
    → IsSound r.files j s

IsOf-del :
    (files : Dict LocalUploadedFileRecord) (id sid x : String)
    → IsOf files sid x
    → IsOf (del files id) sid x
IsOf-del files id sid x of f e = of f (ground (arith, get-del files id x))

drop_found-IsOf :
    (sid id x : String) (r : Receiver)
    → IsOf r.files sid x
    → IsOf (drop_found sid id (get r.files id) r).files sid x
drop_found-IsOf sid id x r of = elim (Option-cases (get r.files id)) [
  | inl gone ↦ rw gone of
  | inr (f, there) ↦ rw there (IsOf-del r.files id sid x of)
]

drop_found-Others :
    (sid id : String) (r : Receiver)
    → IsOf r.files sid id
    → Others sid r
    → Others sid (drop_found sid id (get r.files id) r)
drop_found-Others sid id r of h = elim (Option-cases (get r.files id)) [
  | inl gone ↦ rw gone h
  | inr (f, there) ↦
      rw there (λ j s e apart. IsSound-del r.files id sid of j s apart (h j s e apart))
]

All-IsOf-drop :
    (sid id : String) (xs : List String) (r : Receiver)
    → All (IsOf r.files sid) xs
    → All (IsOf (drop_found sid id (get r.files id) r).files sid) xs
All-IsOf-drop sid id [] r h = tt
All-IsOf-drop sid id (x ∷ xs) r h = (drop_found-IsOf sid id x r h.0, All-IsOf-drop sid id xs r h.1)

drop_files-Others :
    (sid : String) (ids : List String) (r : Receiver)
    → All (IsOf r.files sid) ids
    → Others sid r
    → Others sid (drop_files sid ids r)
unfolding drop_files
drop_files-Others sid [] r of h = h
drop_files-Others sid (id ∷ ids) r of h =
    drop_files-Others sid ids (drop_found sid id (get r.files id) r)
      (All-IsOf-drop sid id ids r of.1) (drop_found-Others sid id r of.0 h)

-- The records of a sound session are of it.
All-IsOf-owned :
    (files : Dict LocalUploadedFileRecord) (sid quote : String) (limit : ℤ) (ids : List String)
    → All (IsOwned files sid quote limit) ids
    → All (IsOf files sid) ids
All-IsOf-owned files sid quote limit [] h = tt
All-IsOf-owned files sid quote limit (id ∷ ids) h =
    ((λ f e. cc (e, h.0.found, h.0.in_session)), All-IsOf-owned files sid quote limit ids h.1)

IsSound-IsOf :
    (files : Dict LocalUploadedFileRecord) (sid : String) (s : LocalUploadSession)
    → IsSound files sid s
    → All (IsOf files sid) s.uploaded_files
IsSound-IsOf files sid s h =
    subst (λ k. All (IsOf files k) s.uploaded_files) h.key
      (All-IsOf-owned files _ s.quote_id _ s.uploaded_files h.owned)

mark_expired-IsConsistent :
    (sid : String) (s : LocalUploadSession) (r : Receiver)
    → IsConsistent r
    → get r.sessions sid ≡ some s
    → IsConsistent (mark_expired sid s r)
mark_expired-IsConsistent sid s r h found = elim (Bool-cases (is_completed s.status)) [
  | inl done ↦ rw done h
  | inr open_ ↦ rw open_ (IsConsistent-mark r sid s expired h found)
]

mark_expired-files :
    (sid : String) (s : LocalUploadSession) (r : Receiver) → (mark_expired sid s r).files ≡ r.files
mark_expired-files sid s r = ground arith

-- Where the directory could be removed, so is the session, and the others are as they were.
drop_directory-IsConsistent :
    (sid : String) (r : Receiver)
    → Others sid r
    → (drop_directory sid r).0 ≡ true
    → IsConsistent (drop_directory sid r).1
drop_directory-IsConsistent sid r h e = elim (Bool-cases (cleanup_session r.disk sid).0) [
  | inl removed ↦ rw removed λ j s g.
      h j s (ground (arith, get-del r.sessions sid j))
        (ground (arith, get-del r.sessions sid j, eq_iff sid j))
  | inr failed ↦ let no_way = rw failed at e in cc no_way
]

clean_session-IsConsistent :
    (sid : String) (r : Receiver)
    → IsConsistent r
    → (clean_session sid r).0 ≡ true
    → IsConsistent (clean_session sid r).1
unfolding clean_session clean_found
clean_session-IsConsistent sid r h e = elim (Option-cases (get r.sessions sid)) [
  | inl gone ↦ let no_way = rw gone at e in cc no_way
  | inr (s, found) ↦
      let r' = mark_expired sid s r in
      let h' = mark_expired-IsConsistent sid s r h found in
      rw found (
        drop_directory-IsConsistent sid (drop_files sid s.uploaded_files r')
          (drop_files-Others sid s.uploaded_files r'
            (subst (λ fs. All (IsOf fs sid) s.uploaded_files) (sym (mark_expired-files sid s r))
              (IsSound-IsOf r.files sid s (h sid s found)))
            (λ j x g apart. h' j x g))
          (rw found at e))
]

clean_sessions-IsConsistent :
    (sids : List String) (n : ℕ) (r : Receiver) (total : ℕ)
    → IsConsistent r
    → (clean_sessions sids n r).0 ≡ ok total
    → IsConsistent (clean_sessions sids n r).1
unfolding clean_sessions
clean_sessions-IsConsistent [] n r total h e = h
clean_sessions-IsConsistent (sid ∷ sids) n r total h e = elim (Bool-cases (clean_session sid r).0) [
  | inl done ↦ rw done (
      clean_sessions-IsConsistent sids (suc n) (clean_session sid r).1 total
        (clean_session-IsConsistent sid r h done) (rw done at e))
  | inr failed ↦ let no_way = rw failed at e in cc no_way
]

-- A clean-up that returns a count keeps a consistent state consistent.
pub cleanup_expired_sessions-IsConsistent :
    (now : ℕ) (r : Receiver) (total : ℕ)
    → IsConsistent r
    → (cleanup_expired_sessions now r).0 ≡ ok total
    → IsConsistent (cleanup_expired_sessions now r).1
unfolding cleanup_expired_sessions
cleanup_expired_sessions-IsConsistent now r total h e =
    clean_sessions-IsConsistent (expired_sessions r now) 0 r total h e
