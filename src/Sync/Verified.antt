-- ===== src/Sync/Verified.antt =====
-- Which actions are verified: `verify_action` of src/intake/services/signing_service.py.
use intake.Prelude.Rows.{first_that}
use intake.Prelude.{
  ◌+◌, ◌-◌, ◌&&◌, is_some, ℕ, String, ◌≡◌, refl, sym, ◌∙◌, Bool, true, false, inl, inr, Bool-cases,
  ltb, str_eq,
}
use intake.Prelude.Text.{is_empty}
use intake.Prelude.Result.{Result, ok, err}
use intake.Sync.Model.{
  HostedRegisteredDevice, LocalDeviceActionEnvelope, get_canonical_payload, Desk, is_action_seen,
  is_nonce_seen,
}
use intake.Sync.Signing.{
  Verdict, genuine, forged, malformed, Ed25519, distance, mark_seen, judge, text_of, verify_action,
}

module _ (ed : Ed25519) (window now : ℕ) (e : LocalDeviceActionEnvelope) where
  -- The envelope is a trusted device's, fresh, new by its identifier and by its nonce, and signed
  -- with the device's key.
  pub record IsVerified (d : HostedRegisteredDevice) (s : Desk) : Type 0 where
    pub device : str_eq e.device_id d.device_id ≡ true
    pub trusted : str_eq d.trust_state "trusted" ≡ true
    pub fresh : ltb window ((now - e.issued_at) + (e.issued_at - now)) ≡ false
    pub new_action : is_some (first_that (λ a. str_eq a.action_id e.action_id) s.actions) ≡ false
    pub new_nonce :
        is_some
          (first_that (λ n. str_eq n.device_id e.device_id && str_eq n.nonce e.nonce) s.nonces)
        ≡ false
    pub keyed : is_empty (text_of d.public_signing_key) ≡ false
    pub signed :
        ed.verify (text_of d.public_signing_key) e.signature (get_canonical_payload e) ≡ genuine

  -- An answer of the verification, with the new tables.
  pub data Checked (d : HostedRegisteredDevice) (s : Desk)
      : Result String Bool × Desk → Type 0 where
    verified : IsVerified d s → Checked d s (ok true, mark_seen e s)
    forgery : ¬ IsVerified d s → Checked d s (ok false, s)
    refused : (message : String) → ¬ IsVerified d s → Checked d s (err message, s)

  judge-Checked :
      (d : HostedRegisteredDevice) (s : Desk) (v : Verdict)
      → (v ≡ genuine → IsVerified d s)
      → (IsVerified d s → v ≡ genuine)
      → Checked d s (judge v e s)
  judge-Checked d s genuine good bad = verified (good refl)
  judge-Checked d s forged good bad = forgery (λ h. let no_way = bad h in cc no_way)
  judge-Checked d s (malformed message) good bad =
      refused message (λ h. let no_way = bad h in cc no_way)

  pub verify_action-Checked :
      (d : HostedRegisteredDevice) (s : Desk) → Checked d s (verify_action ed window now e d s)
  unfolding verify_action is_action_seen is_nonce_seen
  verify_action-Checked d s = elim (Bool-cases (str_eq e.device_id d.device_id)) [
    | inr other ↦ rw other (refused _ (λ h. let no_way = sym h.device ∙ other in cc no_way))
    | inl device ↦ elim (Bool-cases (str_eq d.trust_state "trusted")) [
      | inr untrusted ↦
          rw (device, untrusted)
            (refused _ (λ h. let no_way = sym h.trusted ∙ untrusted in cc no_way))
      | inl trusted ↦ elim (Bool-cases (ltb window (distance now e.issued_at))) [
        | inl stale ↦
            rw (device, trusted, stale)
              (refused _ (λ h. let no_way = sym h.fresh ∙ stale in cc no_way))
        | inr fresh ↦ elim (Bool-cases (is_action_seen e.action_id s)) [
          | inl seen ↦
              rw (device, trusted, fresh, seen)
                (refused _ (λ h. let no_way = sym h.new_action ∙ seen in cc no_way))
          | inr new_action ↦ elim (Bool-cases (is_nonce_seen e.device_id e.nonce s)) [
            | inl seen ↦
                rw (device, trusted, fresh, new_action, seen)
                  (refused _ (λ h. let no_way = sym h.new_nonce ∙ seen in cc no_way))
            | inr new_nonce ↦ elim (Bool-cases (is_empty (text_of d.public_signing_key))) [
              | inl keyless ↦
                  rw (device, trusted, fresh, new_action, new_nonce, keyless)
                    (refused _ (λ h. let no_way = sym h.keyed ∙ keyless in cc no_way))
              | inr keyed ↦
                  rw (device, trusted, fresh, new_action, new_nonce, keyed)
                    (judge-Checked d s _
                      (λ signed. record {
                        device = device;
                        trusted = trusted;
                        fresh = fresh;
                        new_action = new_action;
                        new_nonce = new_nonce;
                        keyed = keyed;
                        signed = signed;
                      })
                      (λ h. h.signed))
            ]
          ]
        ]
      ]
    ]
  ]
