-- ===== src/Routing/Priority.antt =====
-- The order of the routes: `decide_upload_route` of
-- src/intake/local_console/receiver/route_decision.py.
use intake.Prelude.{
  ℕ, String, ◌≡◌, ◌⊎◌, inl, inr, refl, Bool, true, false, ◌&&◌, not, Option, none, some, List, [],
  ◌∷◌, arith, Bool-cases, is_some, sym, Option-cases, All, contains, ◌↔◌, ◌∙◌,
}
use intake.Prelude.Int.{ℤ}
use intake.Prelude.Dict.{get, keys, contains-keys}
use mathlib.Core.Bool.{and-eq-true_iff}
use intake.Receiver.Model.{
  allowed_content_types, default_max_file_size_bytes, Receiver, ReceiverStatus,
}
use intake.Routing.{
  RouteService, UploadProviderKind, receiver_serves, perform_handshake, attempt_receiver_handshake,
  can_receiver_handle, without_receiver, UploadRouteDecision, is_online, supports_all, is_over,
  decide_upload_route, local_route, fallback_route, no_route,
}

-- A receiver is there, online, and takes every requested type and the requested size.
pub record Serves (s : RouteService) (content_types : List String) (size : ℤ) : Type 0 where
  pub receiver : Receiver
  pub there : s.receiver_service ≡ some receiver
  pub online_now : is_online receiver.status ≡ true
  pub types : All (λ ct. is_some (get allowed_content_types ct) ≡ true) content_types
  pub fits : is_over size default_max_file_size_bytes ≡ false

-- The routes in their order, with the conditions of each.
pub data Routed (s : RouteService) (content_types : List String) (size : ℤ) (use_fallback : Bool)
    (now : ℕ) : UploadRouteDecision → Type 0 where
  to_receiver :
      Serves s content_types size → Routed s content_types size use_fallback now (local_route s now)
  to_fallback :
      ¬ Serves s content_types size
      → (provider : UploadProviderKind) → use_fallback ≡ true
      → s.fallback_provider ≡ some provider
      → Routed s content_types size use_fallback now (fallback_route provider now)
  nowhere :
      ¬ Serves s content_types size
      → (use_fallback ≡ false) ⊎ (s.fallback_provider ≡ none)
      → Routed s content_types size use_fallback now (no_route now)

supports_all-All :
    (cts : List String)
    → (supports_all (keys allowed_content_types) cts ≡ true)
      ↔ All (λ ct. is_some (get allowed_content_types ct) ≡ true) cts
supports_all-All [] = (λ h. tt, λ h. refl)
supports_all-All (ct ∷ cts) =
    let (to, from) = supports_all-All cts in
    (
      λ h.
          let (here, later) = (and-eq-true_iff (contains (keys allowed_content_types) ct) _).0 h in
          (rw (contains-keys allowed_content_types ct) at here, to later),
      λ h.
          (and-eq-true_iff (contains (keys allowed_content_types) ct) _).1
            (contains-keys allowed_content_types ct ∙ h.0, from h.1),
    )

abbrev served : RouteService → ℕ → List String → ℤ → Bool
served s shaken_at cts size = receiver_serves (attempt_receiver_handshake s shaken_at) cts size

-- The tests on a receiver that answers the handshake.
taken : ReceiverStatus → List String → ℤ → Bool
taken status cts size =
    is_online status
    && supports_all (keys allowed_content_types) cts
    && not (is_over size default_max_file_size_bytes)

served-taken :
    (s : RouteService) (r : Receiver) (at : ℕ) (cts : List String) (size : ℤ)
    → s.receiver_service ≡ some r
    → served s at cts size ≡ taken r.status cts size
unfolding attempt_receiver_handshake can_receiver_handle perform_handshake taken
served-taken s r at cts size there = elim (Bool-cases (is_online r.status)) [
  | inl e ↦ rw (there, e, e) refl
  | inr e ↦ rw (there, e) refl
]

served-none :
    (s : RouteService) (at : ℕ) (cts : List String) (size : ℤ)
    → s.receiver_service ≡ none
    → served s at cts size ≡ false
unfolding attempt_receiver_handshake
served-none s at cts size gone = rw gone refl

taken_iff :
    (status : ReceiverStatus) (cts : List String) (size : ℤ)
    → (taken status cts size ≡ true) ↔ (
        (is_online status ≡ true)
        × (supports_all (keys allowed_content_types) cts ≡ true)
        × (is_over size default_max_file_size_bytes ≡ false))
unfolding taken
taken_iff status cts size = ground arith

served-Serves :
    (s : RouteService) (at : ℕ) (cts : List String) (size : ℤ)
    → (served s at cts size ≡ true) ↔ Serves s cts size
served-Serves s at cts size = (
  λ h. elim (Option-cases s.receiver_service) [
    | inl gone ↦ let no_way = sym (served-none s at cts size gone) ∙ h in cc no_way
    | inr (r, there) ↦
        let (on, types, fits) =
          (taken_iff r.status cts size).0 (sym (served-taken s r at cts size there) ∙ h) in
        record {
          receiver = r;
          there = there;
          online_now = on;
          types = (supports_all-All cts).0 types;
          fits = fits;
        }
  ],
  λ v.
      served-taken s v.receiver at cts size v.there
      ∙ (taken_iff v.receiver.status cts size).1
          (v.online_now, (supports_all-All cts).1 v.types, v.fits),
)

not_served :
    (s : RouteService) (cts : List String) (size : ℤ) (now : ℕ)
    → ¬ Serves s cts size
    → (use_fallback : Bool) (provider : Option UploadProviderKind) → s.fallback_provider ≡ provider
    → Routed s cts size use_fallback now (without_receiver use_fallback provider now)
not_served s cts size now never true none e = nowhere never (inr e)
not_served s cts size now never true (some provider) e = to_fallback never provider refl e
not_served s cts size now never false provider e = nowhere never (inl refl)

pub decide_upload_route-Routed :
    (s : RouteService) (cts : List String) (size : ℤ) (use_fallback : Bool) (shaken_at now : ℕ)
    → Routed s cts size use_fallback now (decide_upload_route s cts size use_fallback shaken_at now)
unfolding decide_upload_route
decide_upload_route-Routed s cts size use_fallback shaken_at now =
    elim (Bool-cases (served s shaken_at cts size)) [
      | inl e ↦ rw e (to_receiver ((served-Serves s shaken_at cts size).0 e))
      | inr e ↦
          let never : ¬ Serves s cts size =
            λ v. let no_way = sym e ∙ (served-Serves s shaken_at cts size).1 v in cc no_way in
          rw e (not_served s cts size now never use_fallback s.fallback_provider refl)
    ]
