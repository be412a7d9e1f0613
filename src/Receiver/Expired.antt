-- ===== src/Receiver/Expired.antt =====
-- Which sessions a clean-up removes, and when it raises: `cleanup_expired_sessions` of
-- src/intake/local_console/receiver/service.py and `cleanup_session` of storage.py.
use intake.Prelude.{
  ℕ, suc, ◌+◌, String, ◌≡◌, ◌≢◌, ◌↔◌, refl, Bool, true, false, Option, none, some, List, [], ◌∷◌,
  arith, ap, ◌∙◌, Bool-cases, Option-cases, inl, inr, str_eq, length, if◌then◌else◌, contains, ◌||◌,
  ltb, map, keep_if, subst, eq_iff, IsAbsent, IsDistinct,
}
use mathlib.Core.Path.{fun_ext}
use intake.Prelude.Dict.{Dict, get, keys, get-put_ne, get-put_self, get-del}
use intake.Prelude.Result.{ok}
use intake.Receiver.Model.{
  SessionStatus, expired, LocalUploadSession, LocalUploadedFileRecord, Receiver, Disk,
}
use intake.Receiver.Paths.{sanitize_path_component}
use intake.Receiver.Disk.{files_or_empty, files_in, cleanup_session, cleanup_directory}
use intake.Receiver.Sessions.{is_completed, is_expired_status}
use intake.Receiver.Cleanup.{
  drop_found, drop_files, mark_expired, clean_found, clean_session, clean_sessions,
  cleanup_expired_sessions, expired_sessions,
}

drop_found-sessions :
    (sid id : String) (o : Option LocalUploadedFileRecord) (r : Receiver)
    → (drop_found sid id o r).sessions ≡ r.sessions
drop_found-sessions sid id none r = refl
drop_found-sessions sid id (some f) r = refl

drop_files-sessions :
    (sid : String) (ids : List String) (r : Receiver) → (drop_files sid ids r).sessions ≡ r.sessions
unfolding drop_files
drop_files-sessions sid [] r = refl
drop_files-sessions sid (id ∷ ids) r =
    drop_files-sessions sid ids (drop_found sid id (get r.files id) r)
    ∙ drop_found-sessions sid id (get r.files id) r

mark_expired-get :
    (sid j : String) (s : LocalUploadSession) (r : Receiver)
    → str_eq sid j ≡ false
    → get (mark_expired sid s r).sessions j ≡ get r.sessions j
mark_expired-get sid j s r apart =
    ground (arith, get-put_ne r.sessions sid j (record s { status = expired }))

-- One round that does not raise removes its session and leaves the others.
clean_session-get :
    (sid j : String) (r : Receiver)
    → (clean_session sid r).0 ≡ true
    → get (clean_session sid r).1.sessions j ≡ (if str_eq sid j then none else get r.sessions j)
unfolding clean_session clean_found
clean_session-get sid j r e = elim (Option-cases (get r.sessions sid)) [
  | inl gone ↦ let no_way = rw gone at e in cc no_way
  | inr (s, found) ↦
      let marked = mark_expired sid s r in
      let dropped = drop_files sid s.uploaded_files marked in
      elim (Bool-cases (cleanup_session dropped.disk sid).0) [
        | inl removed ↦
            rw (found, removed)
              (get-del dropped.sessions sid j
                ∙ ground (
                  arith,
                  mark_expired-get sid j s r,
                  ap (λ d. get d j) (drop_files-sessions sid s.uploaded_files marked),
                ))
        | inr failed ↦ let no_way = rw (found, failed) at e in cc no_way
      ]
]

-- The loop, where it does not raise: every listed session is gone, and counted.
clean_sessions-get :
    (sids : List String) (n total : ℕ) (j : String) (r : Receiver)
    → (clean_sessions sids n r).0 ≡ ok total
    → (total ≡ n + length sids)
      × (get (clean_sessions sids n r).1.sessions j
          ≡ (if contains sids j then none else get r.sessions j))
unfolding clean_sessions
clean_sessions-get [] n total j r e = (ground arith, refl)
clean_sessions-get (sid ∷ sids) n total j r e = elim (Bool-cases (clean_session sid r).0) [
  | inl done ↦
      let e' = rw done at e in
      let (count, later) = clean_sessions-get sids (suc n) total j (clean_session sid r).1 e' in
      rw done (omega (arith, count), ground (arith, later, clean_session-get sid j r done))
  | inr failed ↦ let no_way = rw failed at e in cc no_way
]

-- A status that is marked as expired.
abbrev pub is_marked : SessionStatus → Bool
is_marked expired = true
is_marked s = false

-- A session that is past its expiry or marked as expired.
abbrev pub is_due : (now : ℕ) → LocalUploadSession → Bool
is_due now s = ltb s.expires_at now || is_marked s.status

-- What is left of a session.
abbrev pub left_of : (now : ℕ) → Option LocalUploadSession → Option LocalUploadSession
left_of now none = none
left_of now (some s) = if is_due now s then none else some s

is_expired_status-is_marked : (s : SessionStatus) → is_expired_status s ≡ is_marked s
is_expired_status-is_marked SessionStatus.pending = refl
is_expired_status-is_marked SessionStatus.active = refl
is_expired_status-is_marked SessionStatus.completed = refl
is_expired_status-is_marked SessionStatus.expired = refl
is_expired_status-is_marked SessionStatus.cancelled = refl

-- The keys of the sessions that are due.
abbrev due_keys : (now : ℕ) → Dict LocalUploadSession → List String
due_keys now d = map (λ e. e.0) (keep_if (λ e. is_due now e.1) d)

due_keys-absent :
    (now : ℕ) (k : String) (d : Dict LocalUploadSession)
    → IsAbsent k (keys d)
    → contains (due_keys now d) k ≡ false
due_keys-absent now k [] h = refl
due_keys-absent now k ((j, s) ∷ d) (apart, h) =
    let rest = due_keys-absent now k d h in
    elim (Bool-cases (is_due now s)) [
      | inl due ↦ rw due (elim (Bool-cases (str_eq j k)) [
        | inl same ↦ absurd (apart ((eq_iff j k).0 same))
        | inr other ↦ rw other rest
      ])
      | inr kept ↦ rw kept rest
    ]

due_keys-get :
    (now : ℕ) (k : String) (d : Dict LocalUploadSession)
    → IsDistinct (keys d)
    → (if contains (due_keys now d) k then none else get d k) ≡ left_of now (get d k)
unfolding get
due_keys-get now k [] h = refl
due_keys-get now k ((j, s) ∷ d) (apart, h) = elim (Bool-cases (is_due now s)) [
  | inl due ↦ elim (Bool-cases (str_eq j k)) [
    | inl same ↦ rw (due, same, due) refl
    | inr other ↦ rw (due, other) (due_keys-get now k d h)
  ]
  | inr kept ↦ elim (Bool-cases (str_eq j k)) [
    | inl same ↦
        let gone =
          due_keys-absent now k d (subst (λ x. IsAbsent x (keys d)) ((eq_iff j k).0 same) apart) in
        rw (kept, same, gone, kept) refl
    | inr other ↦ rw (kept, other) (due_keys-get now k d h)
  ]
]

expired_sessions-due_keys :
    (now : ℕ) (r : Receiver) → expired_sessions r now ≡ due_keys now r.sessions
unfolding expired_sessions
expired_sessions-due_keys now r =
    ap (λ f. map (λ e. e.0) (keep_if (λ e. ltb e.1.expires_at now || f e.1.status) r.sessions))
      (fun_ext is_expired_status-is_marked)

length-map {ℓ κ} :
    {A : Type ℓ} {B : Type κ} (f : A → B) (xs : List A) → length (map f xs) ≡ length xs
length-map f [] = refl
length-map f (x ∷ xs) = ap suc (length-map f xs)

-- Where the table has each key once, a clean-up that returns has removed exactly the sessions that
-- were past their expiry or marked as expired, and returns their number; every other session is as
-- it was.
pub cleanup_expired_sessions-get :
    (now total : ℕ) (j : String) (r : Receiver)
    → IsDistinct (keys r.sessions)
    → (cleanup_expired_sessions now r).0 ≡ ok total
    → (total ≡ length (keep_if (λ e. is_due now e.1) r.sessions))
      × (get (cleanup_expired_sessions now r).1.sessions j ≡ left_of now (get r.sessions j))
unfolding cleanup_expired_sessions
cleanup_expired_sessions-get now total j r distinct e =
    let (count, later) = clean_sessions-get (expired_sessions r now) 0 total j r e in
    let listed = expired_sessions-due_keys now r in
    (
      omega (
        arith,
        count,
        ap length listed,
        length-map (λ (x : String × LocalUploadSession). x.0)
            (keep_if (λ (x : String × LocalUploadSession). is_due now x.1) r.sessions),
      ),
      later
          ∙ ap (λ ks. if contains ks j then none else get r.sessions j) listed
          ∙ due_keys-get now j r.sessions distinct,
    )

cleanup_directory-true_iff :
    (disk : Disk) (dir : String) (o : Option (Dict (List ℕ)))
    → ((cleanup_directory disk dir o).0 ≡ true) ↔ (files_or_empty o ≡ [])
cleanup_directory-true_iff disk dir none = (λ e. refl, λ e. refl)
cleanup_directory-true_iff disk dir (some []) = (λ e. refl, λ e. refl)
cleanup_directory-true_iff disk dir (some (f ∷ files)) = (λ e. cc e, λ e. cc e)

-- `cleanup_session` comes back exactly where the session's directory holds no file; with any file
-- left in it, it raises KeyError.
pub cleanup_session-true_iff :
    (disk : Disk) (sid : String)
    → ((cleanup_session disk sid).0 ≡ true) ↔ (files_in disk (sanitize_path_component sid) ≡ [])
unfolding cleanup_session
cleanup_session-true_iff disk sid = cleanup_directory-true_iff disk _ _

not-true→false : (b : Bool) → b ≢ true → b ≡ false
not-true→false true h = absurd (h refl)
not-true→false false h = refl

drop_files-none :
    (sid : String) (ids : List String) (r : Receiver) → ids ≡ [] → drop_files sid ids r ≡ r
unfolding drop_files
drop_files-none sid ids r e = ap (λ xs. drop_files sid xs r) e

-- A session that is not completed and has recorded no file, but whose directory holds one, is not
-- removed by its round of the clean-up: the round raises KeyError and leaves the session marked as
-- expired.
pub clean_session_orphan :
    (sid : String) (s : LocalUploadSession) (r : Receiver)
    → get r.sessions sid ≡ some s
    → s.uploaded_files ≡ []
    → is_completed s.status ≡ false
    → files_in r.disk (sanitize_path_component sid) ≢ []
    → ((clean_session sid r).0 ≡ false)
      × (get (clean_session sid r).1.sessions sid ≡ some (record s { status = expired }))
unfolding clean_session clean_found drop_files
clean_session_orphan sid s r found none_recorded open_ orphan =
    let raised =
      not-true→false (cleanup_session r.disk sid).0
        (λ e. orphan ((cleanup_session-true_iff r.disk sid).0 e)) in
    rw (found, drop_files-none sid s.uploaded_files _ none_recorded, open_, raised)
      (refl, get-put_self r.sessions sid (record s { status = expired }))
