-- ===== src/Routing.antt =====
-- Upload routing: src/intake/local_console/receiver/route_decision.py, with the provider kinds and
-- the decision of deploy/models_upload.py and the handshake of receiver/service.py. `Priority`
-- proves the order of the routes.
mod Tests
pub mod Priority
use Prim.Native.String.{◌++◌}
use mathlib.Core.List.{map}
use intake.Prelude.{
  ℕ, ◌+◌, ◌*◌, zero, suc, String, Bool, true, false, not, ◌&&◌, ◌||◌, Option, none, some, List, [],
  ◌∷◌, is_some, ltb, contains, if◌then◌else◌,
}
use intake.Prelude.Int.{ℤ, pos, negsuc}
use intake.Prelude.Dict.{keys}
use intake.Receiver.Model.{
  ReceiverStatus, online, offline, starting, shutting_down, error, allowed_content_types,
  allowed_extensions, default_max_file_size_bytes, default_max_files_per_session,
  default_max_total_bytes_per_session, Receiver,
}

pub data UploadProviderKind : Type 0 where
  local_loopback_dev tailscale_funnel_future cloudflare_tunnel_future : UploadProviderKind
  google_drive_fallback_future hosted_buffer_future s3_compatible_future : UploadProviderKind
  cloudflare_r2_future cloudkit_icloud_experimental tus_resumable_future : UploadProviderKind

abbrev pub provider_value : UploadProviderKind → String
provider_value local_loopback_dev = "local_loopback_dev"
provider_value tailscale_funnel_future = "tailscale_funnel_future"
provider_value cloudflare_tunnel_future = "cloudflare_tunnel_future"
provider_value google_drive_fallback_future = "google_drive_fallback_future"
provider_value hosted_buffer_future = "hosted_buffer_future"
provider_value s3_compatible_future = "s3_compatible_future"
provider_value cloudflare_r2_future = "cloudflare_r2_future"
provider_value cloudkit_icloud_experimental = "cloudkit_icloud_experimental"
provider_value tus_resumable_future = "tus_resumable_future"

pub record ReceiverHandshakeResponse : Type 0 where
  pub receiver_id : String
  pub status : ReceiverStatus
  pub supported_protocols : List String
  pub max_file_size_bytes : ℕ
  pub max_files_per_session : ℕ
  pub max_total_bytes_per_session : ℕ
  pub supported_content_types : List String
  pub supported_extensions : List String
  pub expires_at : ℕ
  pub receiver_version : String
  pub local_url : Option String

-- `perform_handshake`
unfoldable pub perform_handshake : Receiver → ℕ → ReceiverHandshakeResponse
unfolding allowed_extensions
perform_handshake r now = record {
  receiver_id = "local_loopback_dev_001";
  status = r.status;
  supported_protocols = "multipart" ∷ [];
  max_file_size_bytes = default_max_file_size_bytes;
  max_files_per_session = default_max_files_per_session;
  max_total_bytes_per_session = default_max_total_bytes_per_session;
  supported_content_types = keys allowed_content_types;
  supported_extensions = keys allowed_extensions;
  expires_at = now;
  receiver_version = "0.1.0";
  local_url = some "http://127.0.0.1:8001/receiver";
}

pub record UploadRouteDecision : Type 0 where
  pub chosen_provider : UploadProviderKind
  pub route_priority : ℕ
  pub route_reason : String
  pub fallback_available : Bool
  pub fallback_provider : Option UploadProviderKind
  pub upload_endpoint : String
  pub upload_session : List (String × String)
  pub expires_at : ℕ
  pub receiver_handshake_success : Bool
  pub receiver_endpoint : Option String

-- UploadRouteDecisionService: the receiver that it may have, and its fallback provider.
pub record RouteService : Type 0 where
  pub receiver_service : Option Receiver
  pub fallback_provider : Option UploadProviderKind

unfoldable pub set_fallback_provider : Option UploadProviderKind → RouteService → RouteService
set_fallback_provider provider s = record s { fallback_provider = provider }

abbrev pub is_online : ReceiverStatus → Bool
is_online online = true
is_online _ = false

abbrev pub handshake_with : Option Receiver → ℕ → Bool × Option ReceiverHandshakeResponse
handshake_with none now = (false, none)
handshake_with (some r) now =
    let response = perform_handshake r now in (is_online response.status, some response)

-- `attempt_receiver_handshake`, which the receiver in this process answers without an exception
unfoldable pub attempt_receiver_handshake :
    RouteService → ℕ → Bool × Option ReceiverHandshakeResponse
unfolding perform_handshake
attempt_receiver_handshake s now = handshake_with s.receiver_service now

-- The loop over the requested content types.
abbrev pub supports_all : List String → List String → Bool
supports_all supported [] = true
supports_all supported (ct ∷ cts) = contains supported ct && supports_all supported cts

-- `max_file_size > 0 and max_file_size > limit`
abbrev pub is_over : ℤ → ℕ → Bool
is_over (pos n) limit = ltb 0 n && ltb limit n
is_over (negsuc n) limit = false

-- `_can_receiver_handle`
unfoldable pub can_receiver_handle : ReceiverHandshakeResponse → List String → ℤ → Bool
can_receiver_handle handshake content_types max_file_size =
    is_online handshake.status
    && contains handshake.supported_protocols "multipart"
    && supports_all handshake.supported_content_types content_types
    && not (is_over max_file_size handshake.max_file_size_bytes)

-- Minutes on the clock, which counts seconds.
abbrev pub minutes : ℕ → ℕ
minutes n = n * 60

unfoldable pub local_route : RouteService → ℕ → UploadRouteDecision
local_route s now = record {
  chosen_provider = local_loopback_dev;
  route_priority = 1;
  route_reason = "local_receiver_online_and_capable";
  fallback_available = is_some s.fallback_provider;
  fallback_provider = s.fallback_provider;
  upload_endpoint = "http://127.0.0.1:8001/receiver/uploads";
  upload_session = ("type", "local_loopback") ∷ [];
  expires_at = now + minutes 30;
  receiver_handshake_success = true;
  receiver_endpoint = some "http://127.0.0.1:8001/receiver";
}

unfoldable pub fallback_route : UploadProviderKind → ℕ → UploadRouteDecision
fallback_route provider now = record {
  chosen_provider = provider;
  route_priority = 2;
  route_reason = "local_receiver_offline_fallback_configured";
  fallback_available = true;
  fallback_provider = some provider;
  upload_endpoint = "/upload";
  upload_session = ("type", "fallback") ∷ ("provider", provider_value provider) ∷ [];
  expires_at = now + minutes 30;
  receiver_handshake_success = false;
  receiver_endpoint = none;
}

unfoldable pub no_route : ℕ → UploadRouteDecision
no_route now = record {
  chosen_provider = hosted_buffer_future;
  route_priority = 3;
  route_reason = "no_local_receiver_no_fallback";
  fallback_available = false;
  fallback_provider = none;
  upload_endpoint = "";
  upload_session = ("type", "retry_later") ∷ [];
  expires_at = now + minutes 5;
  receiver_handshake_success = false;
  receiver_endpoint = none;
}

-- `if use_fallback and self._fallback_provider`, and the route of last resort
abbrev pub without_receiver : Bool → Option UploadProviderKind → ℕ → UploadRouteDecision
without_receiver true (some provider) now = fallback_route provider now
without_receiver true none now = no_route now
without_receiver false provider now = no_route now

-- `if handshake_success and handshake_response`, with the test of the capabilities
abbrev pub receiver_serves : Bool × Option ReceiverHandshakeResponse → List String → ℤ → Bool
receiver_serves (false, response) content_types max_file_size = false
receiver_serves (true, none) content_types max_file_size = false
receiver_serves (true, some response) content_types max_file_size =
    can_receiver_handle response content_types max_file_size

-- `decide_upload_route`, with the clock read by the handshake and by the decision. The measured
-- latency is left out.
unfoldable pub decide_upload_route :
    RouteService → List String → ℤ → Bool → (shaken_at now : ℕ) → UploadRouteDecision
unfolding attempt_receiver_handshake can_receiver_handle local_route fallback_route no_route
decide_upload_route s content_types max_file_size use_fallback shaken_at now =
    if receiver_serves (attempt_receiver_handshake s shaken_at) content_types max_file_size
    then local_route s now
    else without_receiver use_fallback s.fallback_provider now

-- `decide_upload_route_with_session`
unfoldable pub decide_upload_route_with_session :
    RouteService → (shaken_at now : ℕ) → UploadRouteDecision
unfolding decide_upload_route
decide_upload_route_with_session s shaken_at now =
    decide_upload_route s [] (pos 0) true shaken_at now

abbrev pub status_value : ReceiverStatus → String
status_value offline = "offline"
status_value online = "online"
status_value starting = "starting"
status_value shutting_down = "shutting_down"
status_value error = "error"

-- `get_receiver_status`
unfoldable pub get_receiver_status : RouteService → String
get_receiver_status s = elim s.receiver_service [
  | none ↦ "not_configured"
  | some r ↦ status_value r.status
]

-- `receiver_online`
unfoldable pub receiver_online : RouteService → Bool
receiver_online s = elim s.receiver_service [ none ↦ false | some r ↦ is_online r.status ]
