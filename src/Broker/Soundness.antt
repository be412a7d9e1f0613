-- ===== src/Broker/Soundness.antt =====
-- What holds of the broker's sessions and receipts after any calls:
-- src/intake/services/upload_session_broker.py.
use Prim.Native.String.{count}
use intake.Prelude.{
  ℕ, String, ◌≡◌, refl, sym, ap, ◌∙◌, subst, subst, true, false, ◌&&◌, ◌||◌, none, some, List, [],
  ◌∷◌, inl, inr, arith, eq_iff, str_eq, contains, append, Bool-cases,
}
use intake.Prelude.Int.{le_zero}
use intake.Prelude.Dict.{Dict, get, put, get-put_self, get-put_ne, Holds, Holds-put}
use intake.Quotes.Model.{Quote, Hosted}
use intake.Quotes.EventLog.{Stamp}
use intake.Broker.Model.{UploadSession, UploadReceipt, Broker}
use intake.Broker.Grants.{or_empty, store_session}
use mathlib.Core.Option.{some-injective}
use intake.Broker.Receipts.{ReceiptRequest}
use intake.Broker.Stored.{accepted_receipt, IsStored}
use intake.Broker.Acceptance.{IsDue}

-- A session is stored under its identifier, and its quote lists it.
abbrev pub IsListed : Dict (List String) → String → UploadSession → Type 0
IsListed lists sid s = (s.id ≡ sid) × (contains (or_empty (get lists s.quote_id)) sid ≡ true)

-- A stored receipt: of a stored session, by its provider, for its quote, and well formed.
pub record IsBacked (sessions : Dict UploadSession) (rid : String) (r : UploadReceipt)
    : Type 0 where
  pub key : r.id ≡ rid
  pub session : UploadSession
  pub session_stored : get sessions r.upload_session_id ≡ some session
  pub provider : r.provider ≡ session.chosen_provider
  pub same_quote : r.quote_id ≡ session.quote_id
  pub size : le_zero r.size_bytes ≡ false
  pub digest : count r.sha256 ≡ 64

-- The identifiers listed for a quote are those of its stored sessions.
abbrev pub IsIndexed : Dict UploadSession → Dict (List String) → Type 0
IsIndexed sessions lists =
    (quote_id sid : String)
    → contains (or_empty (get lists quote_id)) sid ≡ true
    → (s : UploadSession) × (get sessions sid ≡ some s) × (s.quote_id ≡ quote_id)

abbrev pub IsKeyed : Hosted → Type 0
IsKeyed h = Holds (λ k q. q.id ≡ k) h.quotes

pub record IsSound (b : Broker) : Type 0 where
  pub quotes : IsKeyed b.hosted
  pub listed : Holds (IsListed b.quote_sessions) b.sessions
  pub indexed : IsIndexed b.sessions b.quote_sessions
  pub backed : Holds (IsBacked b.sessions) b.receipts

contains-append_iff :
    (xs : List String) (k j : String)
    → contains (append xs (k ∷ [])) j ≡ (contains xs j || str_eq k j)
contains-append_iff [] k j = ground arith
contains-append_iff (x ∷ xs) k j = ground (arith, contains-append_iff xs k j)

fresh-apart {ℓ} :
    {V : Type ℓ} (d : Dict V) (k j : String) (v : V)
    → get d k ≡ none
    → get d j ≡ some v
    → str_eq k j ≡ false
fresh-apart d k j v fresh there = elim (Bool-cases (str_eq k j)) [
  | inl same ↦ let no_way = sym fresh ∙ ap (get d) ((eq_iff k j).0 same) ∙ there in cc no_way
  | inr other ↦ other
]

-- The lists of identifiers after one has joined those of a quote.
abbrev joined : Dict (List String) → String → String → Dict (List String)
joined d quote_id sid = put d quote_id (append (or_empty (get d quote_id)) (sid ∷ []))

contains-joined :
    (d : Dict (List String)) (quote_id sid j k : String)
    → contains (or_empty (get (joined d quote_id sid) j)) k
      ≡ (contains (or_empty (get d j)) k || (str_eq quote_id j && str_eq sid k))
contains-joined d quote_id sid j k = elim (Bool-cases (str_eq quote_id j)) [
  | inr other ↦ rw (get-put_ne d quote_id j _ other, other) (ground arith)
  | inl same ↦
      subst
        (λ x.
          contains (or_empty (get (joined d quote_id sid) x)) k
          ≡ (contains (or_empty (get d x)) k || (str_eq quote_id x && str_eq sid k)))
        ((eq_iff quote_id j).0 same)
        (rw (get-put_self, contains-append_iff) (ground (arith, eq_iff quote_id quote_id)))
]

module _ (s : UploadSession) (b : Broker) (fresh : get b.sessions s.id ≡ none)
    (sound : IsSound b) where
  -- A session that is new: it is listed, and others stay listed.
  store_session-IsListed :
      Holds (IsListed (store_session s b).quote_sessions) (store_session s b).sessions
  unfolding store_session
  store_session-IsListed =
      let joins = contains-joined b.quote_sessions s.quote_id s.id in
      Holds-put (IsListed (store_session s b).quote_sessions) b.sessions s.id s
        (λ k v e. let (key, here) = sound.listed k v e in (key, ground (arith, joins v.quote_id k)))
        (
          refl,
          ground (arith, joins s.quote_id s.id, eq_iff s.quote_id s.quote_id, eq_iff s.id s.id),
        )

  store_session-IsIndexed :
      IsIndexed (store_session s b).sessions (store_session s b).quote_sessions
  unfolding store_session
  store_session-IsIndexed quote_id sid h =
      let joins = contains-joined b.quote_sessions s.quote_id s.id quote_id sid in
      elim (Bool-cases (contains (or_empty (get b.quote_sessions quote_id)) sid)) [
        | inl before ↦
            let (old, there, same) = sound.indexed quote_id sid before in
            (
              old,
              get-put_ne b.sessions s.id sid s (fresh-apart b.sessions s.id sid old fresh there)
                  ∙ there,
              same,
            )
        | inr not_before ↦
            let quotes : str_eq s.quote_id quote_id ≡ true = ground arith in
            let ids : str_eq s.id sid ≡ true = ground arith in
            (
              s,
              ap (get (put b.sessions s.id s)) (sym ((eq_iff s.id sid).0 ids))
                  ∙ get-put_self b.sessions s.id s,
              (eq_iff s.quote_id quote_id).0 quotes,
            )
      ]

  store_session-IsBacked : Holds (IsBacked (store_session s b).sessions) b.receipts
  unfolding store_session
  store_session-IsBacked k r e =
      let old = sound.backed k r e in
      let apart =
        fresh-apart b.sessions s.id r.upload_session_id old.session fresh old.session_stored in
      record {
        key = old.key;
        session = old.session;
        session_stored =
            get-put_ne b.sessions s.id r.upload_session_id s apart ∙ old.session_stored;
        provider = old.provider;
        same_quote = old.same_quote;
        size = old.size;
        digest = old.digest;
      }

  pub store_session-IsSound : IsSound (store_session s b)
  unfolding store_session
  store_session-IsSound = record {
    quotes = sound.quotes;
    listed = store_session-IsListed;
    indexed = store_session-IsIndexed;
    backed = store_session-IsBacked;
  }

-- What a receipt that is taken leaves is sound.
pub stored-IsSound :
    (r : ReceiptRequest) (now processed_at updated_at : ℕ) (stamp event : Stamp) (b b' : Broker)
    (session : UploadSession) (q : Quote)
    → IsSound b
    → IsDue r now b session q
    → IsStored (accepted_receipt r session processed_at stamp) q updated_at event b b'
    → IsSound b'
stored-IsSound r now processed_at updated_at stamp event b b' session q sound due stored = record {
  quotes = λ k x e. elim (Bool-cases (str_eq q.id k)) [
    | inr other ↦ sound.quotes k x (sym (stored.other_quotes k other) ∙ e)
    | inl same ↦
        let key = (eq_iff q.id k).0 same in
        let there =
          ap (get b.hosted.quotes) (sound.quotes _ q due.quote_stored) ∙ due.quote_stored in
        let row =
          some-injective (record q { updated_at = updated_at }) x
            (sym (stored.row there) ∙ ap (get b'.hosted.quotes) key ∙ e) in
        ap (λ y. y.id) (sym row) ∙ key
  ];
  listed =
      subst (Holds (IsListed b'.quote_sessions)) (sym stored.sessions) (
        subst (λ lists. Holds (IsListed lists) b.sessions) (sym stored.quote_sessions)
          sound.listed);
  indexed =
      subst (λ d. IsIndexed d b'.quote_sessions) (sym stored.sessions)
        (subst (IsIndexed b.sessions) (sym stored.quote_sessions) sound.indexed);
  backed =
      subst (λ d. Holds (IsBacked d) b'.receipts) (sym stored.sessions)
        (subst (Holds (IsBacked b.sessions)) (sym stored.receipts) (
          Holds-put (IsBacked b.sessions) b.receipts stamp.id _ sound.backed (record {
            key = refl;
            session = session;
            session_stored = due.session_stored;
            provider = due.provider;
            same_quote = sym (sound.quotes _ q due.quote_stored) ∙ due.same_quote;
            size = due.well_formed.size;
            digest = due.well_formed.digest;
          })));
}
