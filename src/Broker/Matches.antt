-- ===== src/Broker/Matches.antt =====
-- When a session is live and by whose provider, without the code's tests: of
-- src/intake/services/upload_session_broker.py.
use intake.Prelude.{
  ℕ, ◌≤◌, String, ◌≡◌, ◌≢◌, ◌↔◌, refl, sym, ap, ◌∙◌, true, false, inl, inr, arith, eq_iff, str_eq,
  Bool-cases, if◌then◌else◌,
}
use intake.Routing.{
  UploadProviderKind, local_loopback_dev, tailscale_funnel_future, cloudflare_tunnel_future,
  google_drive_fallback_future, hosted_buffer_future, s3_compatible_future, cloudflare_r2_future,
  cloudkit_icloud_experimental, tus_resumable_future, provider_value,
}
use intake.Broker.Model.{
  UploadSessionStatus, pending, active, expired, completed, revoked, UploadSession,
  is_marked_expired, is_expired,
}
use intake.Broker.Receipts.{same_provider}

-- A provider by its text.
provider_of : String → UploadProviderKind
provider_of s =
    if str_eq s "local_loopback_dev"
    then local_loopback_dev
    else if str_eq s "tailscale_funnel_future"
    then tailscale_funnel_future
    else if str_eq s "cloudflare_tunnel_future"
    then cloudflare_tunnel_future
    else if str_eq s "google_drive_fallback_future"
    then google_drive_fallback_future
    else if str_eq s "hosted_buffer_future"
    then hosted_buffer_future
    else if str_eq s "s3_compatible_future"
    then s3_compatible_future
    else if str_eq s "cloudflare_r2_future"
    then cloudflare_r2_future
    else if str_eq s "cloudkit_icloud_experimental"
    then cloudkit_icloud_experimental
    else tus_resumable_future

provider_of-provider_value : (p : UploadProviderKind) → provider_of (provider_value p) ≡ p
unfolding provider_of
provider_of-provider_value local_loopback_dev = refl
provider_of-provider_value tailscale_funnel_future = refl
provider_of-provider_value cloudflare_tunnel_future = refl
provider_of-provider_value google_drive_fallback_future = refl
provider_of-provider_value hosted_buffer_future = refl
provider_of-provider_value s3_compatible_future = refl
provider_of-provider_value cloudflare_r2_future = refl
provider_of-provider_value cloudkit_icloud_experimental = refl
provider_of-provider_value tus_resumable_future = refl

pub same_provider_iff : (p q : UploadProviderKind) → (same_provider p q ≡ true) ↔ (p ≡ q)
same_provider_iff p q = (
  λ e.
      sym (provider_of-provider_value p)
      ∙ ap provider_of ((eq_iff (provider_value p) (provider_value q)).0 e)
      ∙ provider_of-provider_value q,
  λ e. (eq_iff (provider_value p) (provider_value q)).1 (ap provider_value e),
)

marked_iff : (status : UploadSessionStatus) → (is_marked_expired status ≡ true) ↔ (status ≡ expired)
marked_iff expired = (λ e. refl, λ e. refl)
marked_iff pending = (λ e. cc e, λ e. ap is_marked_expired e)
marked_iff active = (λ e. cc e, λ e. ap is_marked_expired e)
marked_iff completed = (λ e. cc e, λ e. ap is_marked_expired e)
marked_iff revoked = (λ e. cc e, λ e. ap is_marked_expired e)

-- The session was not marked as expired, and its time is not over.
abbrev pub IsLive : UploadSession → ℕ → Type 0
IsLive session now = (session.status ≢ UploadSessionStatus.expired) × (now ≤ session.expires_at)

pub expired-IsLive :
    (session : UploadSession) (now : ℕ) → is_expired session now ≡ false → IsLive session now
unfolding is_expired
expired-IsLive session now h =
    (λ e. let marked = (marked_iff session.status).1 e in ground arith, ground arith)

pub IsLive-expired :
    (session : UploadSession) (now : ℕ) → IsLive session now → is_expired session now ≡ false
unfolding is_expired
IsLive-expired session now h = elim (Bool-cases (is_marked_expired session.status)) [
  | inl marked ↦ absurd (h.0 ((marked_iff session.status).0 marked))
  | inr unmarked ↦ let early = h.1 in ground arith
]
