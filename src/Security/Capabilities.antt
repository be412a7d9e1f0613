-- ===== src/Security/Capabilities.antt =====
-- What the user interface is told of the runtime: `get_capabilities` of
-- src/intake/local_console/api/security.py.
use intake.Prelude.{String, Bool, true, false, not, ◌&&◌, ◌||◌, Option, none, some, if◌then◌else◌}
use intake.Prelude.Text.{lower}
use intake.Prelude.Result.{ok}
use intake.Prelude.Parts.{has_part}
use intake.Security.Model.{Settings, SecurityState, get_native_capability}
use intake.Security.Unlocking.{Reply, forbidden, is_loopback}

pub record CapabilityInfo : Type 0 where
  pub runtime_shell : String
  pub secure_unlock_available : Bool
  pub insecure_dev_unlock_enabled : Bool
  pub unlock_label : String
  pub unlock_warning : Option String

pub data RuntimeShell : Type 0 where
  swift pywebview browser unknown : RuntimeShell

abbrev pub shell_value : RuntimeShell → String
shell_value swift = "swift"
shell_value pywebview = "pywebview"
shell_value browser = "browser"
shell_value unknown = "unknown"

-- The shell, by the user agent in lower case.
unfoldable pub detect_shell : String → RuntimeShell
unfolding has_part
detect_shell user_agent =
    if has_part "webkit" user_agent || has_part "applewebkit" user_agent
    then swift
    else if has_part "pywebview" user_agent
    then pywebview
    else if has_part "mozilla" user_agent
        || has_part "chrome" user_agent
        || has_part "safari" user_agent
    then browser
    else unknown

abbrev pub is_native : RuntimeShell → Bool
is_native swift = true
is_native pywebview = true
is_native _ = false

abbrev pub is_swift : RuntimeShell → Bool
is_swift swift = true
is_swift _ = false

-- `_requires_native_capability`
unfoldable pub requires_native_capability :
    Settings → (generated : String) → SecurityState → Bool × SecurityState
unfolding get_native_capability
requires_native_capability settings generated s =
    let (_, s') = get_native_capability settings generated s in (true, s')

abbrev pub secure_available : RuntimeShell → Bool → Bool
secure_available shell has_native_capability =
    if is_swift shell
    then (if not has_native_capability then true else has_native_capability)
    else has_native_capability && is_native shell

abbrev pub label_of : RuntimeShell → (secure_unlock_available dev_insecure_enabled : Bool) → String
label_of swift secure dev = "Unlock with Native OS Auth"
label_of pywebview secure dev =
    if secure then "Unlock with OS Auth (pywebview)" else "Unlock Not Available"
label_of _ secure dev = if dev then "Dev Unlock (Insecure)" else "Unlock Not Available"

abbrev pub warning_of :
    RuntimeShell → (secure_unlock_available dev_insecure_enabled : Bool) → Option String
warning_of swift secure dev = none
warning_of pywebview secure dev =
    if secure then none else some "pywebview native OS authentication is not implemented"
warning_of _ secure dev =
    if dev
    then some "Development mode - not cryptographically secure"
    else some "Secure unlock requires native shell support"

-- `get_capabilities`
unfoldable pub get_capabilities :
    Settings
    → (generated : String) → (client_host : Option String) → (user_agent : String)
    → Reply CapabilityInfo
unfolding lower detect_shell requires_native_capability
get_capabilities settings generated client_host user_agent s =
    let shell = detect_shell (lower user_agent) in
    let (has_native_capability, s') = requires_native_capability settings generated s in
    let dev = settings.intake_enable_insecure_dev_unlock in
    let secure = secure_available shell has_native_capability in
    if not (is_loopback client_host)
    then (forbidden "Capabilities check only permitted from loopback", s)
    else (
      ok (record {
        runtime_shell = shell_value shell;
        secure_unlock_available = secure;
        insecure_dev_unlock_enabled = dev;
        unlock_label = label_of shell secure dev;
        unlock_warning = warning_of shell secure dev;
      }),
      s',
    )
