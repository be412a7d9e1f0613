-- ===== src/Sync/Journey.antt =====
-- From the console to the backend: an action that review_service.py signs, as
-- src/intake/hosted/api/sync.py takes it.
use intake.Prelude.{ℕ, String, ◌≡◌, refl, sym, true, false, some, eq_iff, ltb, str_eq}
use intake.Prelude.Dict.{get, get-put_self}
use intake.Prelude.Rows.{first_that, first_that-holds}
use intake.Prelude.Text.{is_empty}
use intake.Prelude.Result.{ok}
use intake.Quotes.Model.{Quote, reviewing}
use intake.Quotes.Repository.{get_by_id, update_status}
use intake.Quotes.Service.{get_quote}
use intake.Sync.Model.{
  HostedRegisteredDevice, CanonicalPayload, Desk, has_device_id, get_device, is_action_seen,
  is_nonce_seen,
}
use intake.Sync.Signing.{Ed25519, genuine, distance, verify_action}
use intake.Sync.Actions.{
  ReviewStamp, may_start, start_review, handle_quote_review_start, process_local_action,
}
use intake.Sync.Console.{start_review_envelope}

-- The console's device is registered with its key and trusted, the backend's clock is near the
-- console's, and identifier and nonce are new.
pub record IsWelcome (ed : Ed25519) (window : ℕ) (key action_id nonce : String) (issued_at now : ℕ)
    (s : Desk) (d : HostedRegisteredDevice) : Type 0 where
  pub registered : first_that (has_device_id "dev-device-1") s.devices ≡ some d
  pub trusted : str_eq d.trust_state "trusted" ≡ true
  pub public_key : d.public_signing_key ≡ some (ed.public_key key)
  pub keyed : is_empty (ed.public_key key) ≡ false
  pub near : ltb window (distance now issued_at) ≡ false
  pub new_action : is_action_seen action_id s ≡ false
  pub new_nonce : is_nonce_seen "dev-device-1" nonce s ≡ false

-- Where the check of a signature accepts what the same key has signed, the review that a welcome
-- console starts of a stored quote that has been submitted or needs review is accepted: the quote
-- is stored as under review.
pub start_review_envelope-process_local_action :
    (ed : Ed25519)
    → ((key : String) (m : CanonicalPayload)
        → ed.verify (ed.public_key key) (ed.sign key m) m ≡ genuine)
    → (window : ℕ) (key action_id nonce quote_id : String) (issued_at now : ℕ) (stamp : ReviewStamp)
      (s : Desk) (d : HostedRegisteredDevice) (q : Quote)
    → IsWelcome ed window key action_id nonce issued_at now s d
    → get s.hosted.quotes quote_id ≡ some q
    → may_start q.status ≡ true
    → ((process_local_action ed window now
          (start_review_envelope ed key action_id nonce issued_at quote_id)
          stamp
          s).0
        ≡ ok (record {
          action_id = action_id;
          aggregate_id = quote_id;
          previous_status = q.status;
          new_status = reviewing;
          accepted_at = stamp.accepted_at;
        }))
      × (get
            (process_local_action ed window now
              (start_review_envelope ed key action_id nonce issued_at quote_id)
              stamp
              s).1.hosted.quotes
            quote_id
          ≡ some (record q { status = reviewing; updated_at = stamp.updated_at }))
unfolding process_local_action start_review_envelope verify_action handle_quote_review_start
    get_quote get_by_id get_device start_review update_status
start_review_envelope-process_local_action ed law window key action_id nonce quote_id issued_at now
      stamp s d q h stored may =
    let same = (eq_iff "dev-device-1" d.device_id).1 (
      sym (
        (eq_iff d.device_id "dev-device-1").0
          (first_that-holds (has_device_id "dev-device-1") s.devices d h.registered))) in
    rw
      (
        h.registered,
        same,
        h.trusted,
        h.near,
        h.new_action,
        h.new_nonce,
        h.public_key,
        h.keyed,
        law key,
        stored,
        may,
        stored,
      )
      (refl, get-put_self s.hosted.quotes quote_id _)
