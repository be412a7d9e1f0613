-- ===== src/Broker/Views.antt =====
-- What the listings of src/intake/services/upload_session_broker.py show.
use mathlib.Core.List.{Memᴰ}
use mathlib.Core.List.Memᴰ
use intake.Prelude.{
  ℕ, String, ◌≡◌, ◌↔◌, refl, sym, ap, ◌∙◌, subst, Bool, true, false, not, some, List, [], ◌∷◌, inl,
  inr, arith, eq_iff, str_eq, contains, keep_if, Bool-cases, Option-cases,
}
use mathlib.Core.Option.{some-injective}
use intake.Prelude.Dict.{Dict, get}
use intake.Prelude.Http.{HttpException}
use intake.Prelude.Result.{Result, ok, err}
use intake.Broker.Model.{UploadSession, Broker, is_expired}
use intake.Broker.Listing.{then_return, ids_of, sessions_of, live_sessions, list_upload_sessions}
use intake.Broker.Soundness.{IsSound}

module _ {A : Type 0} (p : A → Bool) where
  pub keep_if-to : (xs : List A) (x : A) → Memᴰ x (keep_if p xs) → Memᴰ x xs × (p x ≡ true)
  keep_if-to [] x m = elim m [ ]
  keep_if-to (y ∷ ys) x m = elim (Bool-cases (p y)) [
    | inr fails ↦ let (there, holds) = keep_if-to ys x (rw fails at m) in (Memᴰ.tail there, holds)
    | inl passes ↦ elim (Memᴰ.cases_cons (rw passes at m)) [
      | inl e ↦ (Memᴰ.head e, ap p e ∙ passes)
      | inr later ↦ let (there, holds) = keep_if-to ys x later in (Memᴰ.tail there, holds)
    ]
  ]

  pub keep_if-from : (xs : List A) (x : A) → Memᴰ x xs → p x ≡ true → Memᴰ x (keep_if p xs)
  keep_if-from [] x m holds = elim m [ ]
  keep_if-from (y ∷ ys) x (Memᴰ.head e) holds =
      let passes = ap p (sym e) ∙ holds in rw passes (Memᴰ.head e)
  keep_if-from (y ∷ ys) x (Memᴰ.tail m) holds = elim (Bool-cases (p y)) [
    | inl passes ↦ rw passes (Memᴰ.tail (keep_if-from ys x m holds))
    | inr fails ↦ rw fails (keep_if-from ys x m holds)
  ]

sessions_of-to :
    (d : Dict UploadSession) (ids : List String) (s : UploadSession)
    → Memᴰ s (sessions_of d ids)
    → (sid : String) × (contains ids sid ≡ true) × (get d sid ≡ some s)
unfolding sessions_of
sessions_of-to d [] s m = elim m [ ]
sessions_of-to d (i ∷ ids) s m = elim (Option-cases (get d i)) [
  | inl gone ↦
      let (sid, there, found) = sessions_of-to d ids s (rw gone at m) in (sid, ground arith, found)
  | inr (v, here) ↦ elim (Memᴰ.cases_cons (rw here at m)) [
    | inl e ↦ (i, ground (arith, eq_iff i i), here ∙ ap some (sym e))
    | inr later ↦
        let (sid, there, found) = sessions_of-to d ids s later in (sid, ground arith, found)
  ]
]

sessions_of-from :
    (d : Dict UploadSession) (ids : List String) (s : UploadSession) (sid : String)
    → contains ids sid ≡ true
    → get d sid ≡ some s
    → Memᴰ s (sessions_of d ids)
unfolding sessions_of
sessions_of-from d [] s sid h found = cc h
sessions_of-from d (i ∷ ids) s sid h found = elim (Bool-cases (str_eq i sid)) [
  | inl same ↦ let here = ap (get d) ((eq_iff i sid).0 same) ∙ found in rw here (Memᴰ.head refl)
  | inr other ↦
      let later = sessions_of-from d ids s sid (ground arith) found in
      elim (Option-cases (get d i)) [
        | inl gone ↦ rw gone later
        | inr (v, here) ↦ rw here (Memᴰ.tail later)
      ]
]

pub then_return-ok :
    {A : Type 0} (checks : Result HttpException (Unit {0})) (x y : A)
    → then_return checks x ≡ ok y
    → x ≡ y
then_return-ok (ok checked) x y e = cc e
then_return-ok (err f) x y e = cc e

module _ (b : Broker) (sound : IsSound b) (quote_id : String) where
  live_sessions-Mem :
      (now : ℕ) (s : UploadSession)
      → Memᴰ s (live_sessions quote_id now b)
        ↔ ((get b.sessions s.id ≡ some s) × (s.quote_id ≡ quote_id) × (is_expired s now ≡ false))
  unfolding live_sessions
  live_sessions-Mem now s =
      let live : UploadSession → Bool = λ s. not (is_expired s now) in
      let all_of_them = sessions_of b.sessions (ids_of quote_id b) in
      (
        λ m.
            let (there, alive) = keep_if-to live all_of_them s m in
            let (sid, listed, found) = sessions_of-to b.sessions (ids_of quote_id b) s there in
            let (other, found', same) = sound.indexed quote_id sid listed in
            let this = some-injective other s (sym found' ∙ found) in
            (
              ap (get b.sessions) (sound.listed sid s found).0 ∙ found,
              ap (λ x. x.quote_id) (sym this) ∙ same,
              ground arith,
            ),
        λ h.
            let (found, same, alive) = h in
            keep_if-from live all_of_them s
              (sessions_of-from b.sessions (ids_of quote_id b) s s.id
                (ap (λ q. contains (ids_of q b) s.id) (sym same) ∙ (sound.listed s.id s found).1)
                found)
              (ground arith),
      )

  -- A listing of a sound broker shows exactly the stored sessions of the quote that have not expired, each of them
  -- as it is stored.
  pub list_upload_sessions-Mem :
      (account_id : String) (now : ℕ) (shown : List UploadSession)
      → list_upload_sessions quote_id account_id now b ≡ ok shown
      → (s : UploadSession)
      → Memᴰ s shown
        ↔ ((get b.sessions s.id ≡ some s) × (s.quote_id ≡ quote_id) × (is_expired s now ≡ false))
  unfolding list_upload_sessions
  list_upload_sessions-Mem account_id now shown e s =
      subst
        (λ xs.
          Memᴰ s xs
          ↔ ((get b.sessions s.id ≡ some s) × (s.quote_id ≡ quote_id) × (is_expired s now ≡ false)))
        (then_return-ok _ (live_sessions quote_id now b) shown e) (live_sessions-Mem now s)
