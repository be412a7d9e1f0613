-- ===== src/Sync/Signing.antt =====
-- Signed actions: src/intake/services/signing_service.py. Ed25519 with its base64 is a parameter;
-- identifiers, nonces and the clock's readings are arguments. The time of an action is signed to
-- the millisecond; here all times are of one precision. Numbers in texts of errors are left out.
use Prim.Native.String.{◌++◌}
use intake.Prelude.{
  ℕ, ◌+◌, ◌-◌, String, Bool, true, false, not, Option, none, some, ltb, str_eq, if◌then◌else◌,
}
use intake.Prelude.Text.{is_empty}
use intake.Prelude.Result.{ok, err, Exec}
use intake.Sync.Model.{
  HostedRegisteredDevice, LocalDeviceActionEnvelope, CanonicalPayload, get_canonical_payload, Desk,
  is_action_seen, is_nonce_seen, track_action, track_nonce,
}

-- What a check of a signature comes to; `malformed` is a ValueError of the decoding.
pub data Verdict : Type 0 where
  genuine forged : Verdict
  malformed : String → Verdict

-- Ed25519 over base64 texts.
pub record Ed25519 : Type 0 where
  pub public_key : (private_key : String) → String
  pub sign : (private_key : String) → CanonicalPayload → String
  pub verify : (public_key signature : String) → CanonicalPayload → Verdict

-- `LocalDeviceSigningService.sign_action`, with what it generates and reads from the clock
unfoldable pub sign_action :
    Ed25519
    → (private_key action_id nonce : String) → (issued_at : ℕ)
    → (device_id action_kind aggregate_type aggregate_id payload : String)
    → LocalDeviceActionEnvelope
unfolding get_canonical_payload
sign_action ed private_key action_id nonce issued_at device_id action_kind aggregate_type
      aggregate_id payload =
    let envelope : LocalDeviceActionEnvelope = record {
      action_id = action_id;
      device_id = device_id;
      action_kind = action_kind;
      aggregate_type = aggregate_type;
      aggregate_id = aggregate_id;
      issued_at = issued_at;
      nonce = nonce;
      payload = payload;
      signature = "";
      signature_algorithm = "ed25519";
    } in
    record envelope { signature = ed.sign private_key (get_canonical_payload envelope) }

-- `abs((now - issued_at).total_seconds())`
abbrev pub distance : ℕ → ℕ → ℕ
distance now issued_at = (now - issued_at) + (issued_at - now)

abbrev pub Check : Type 0
Check = Exec Desk String Bool

-- `track_action` and `track_nonce`
abbrev pub mark_seen : LocalDeviceActionEnvelope → Desk → Desk
mark_seen e s =
    track_nonce e.device_id e.nonce e.issued_at (track_action e.action_id e.device_id e.issued_at s)

abbrev pub judge : Verdict → LocalDeviceActionEnvelope → Check
judge genuine e s = (ok true, mark_seen e s)
judge forged e s = (ok false, s)
judge (malformed message) e s = (err message, s)

abbrev pub text_of : Option String → String
text_of none = ""
text_of (some text) = text

module _ (ed : Ed25519) (freshness_window_seconds : ℕ) where
  -- `HostedActionVerificationService.verify_action`: an error is a ValueError with its text
  unfoldable pub verify_action :
      (now : ℕ) → LocalDeviceActionEnvelope → HostedRegisteredDevice → Check
  unfolding is_action_seen is_nonce_seen track_action track_nonce get_canonical_payload
  verify_action now e d s =
      if not (str_eq e.device_id d.device_id)
      then (err "Device ID mismatch", s)
      else if not (str_eq d.trust_state "trusted")
      then (err ("Device is not trusted: " ++ d.trust_state), s)
      else if ltb freshness_window_seconds (distance now e.issued_at)
      then (err "Action is outside freshness window", s)
      else if is_action_seen e.action_id s
      then (err ("Duplicate action_id detected: " ++ e.action_id), s)
      else if is_nonce_seen e.device_id e.nonce s
      then (err ("Duplicate nonce detected for device: " ++ e.nonce), s)
      else if is_empty (text_of d.public_signing_key)
      then (err "Registered device lacks public signing key", s)
      else judge (ed.verify (text_of d.public_signing_key) e.signature (get_canonical_payload e)) e
          s
