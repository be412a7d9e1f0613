-- ===== src/Quotes/Edits.antt =====
-- Edits of a quote that carry sensitive text: `add_location`, `add_access_notes` and
-- `add_questionnaire` of src/intake/services/quote_service.py.
use intake.Prelude.{ℕ, String, ◌≡◌, inl, inr, Option, some, ap, ◌∙◌, subst, Option-cases}
use intake.Prelude.Dict.{get, get-put_self}
use intake.Quotes.Model.{EncryptedPayload, Quote, Hosted}
use intake.Quotes.Repository.{updated_row}
use intake.Quotes.EventLog.{Stamp}
use intake.Quotes.Service.{add_location}
use intake.Quotes.Submission.{or_kept_self}

-- The quote with a new location.
abbrev pub located : Quote → String → EncryptedPayload → ℕ → Quote
located q area payload now = record q {
  general_service_area = area;
  encrypted_exact_location = some payload;
  updated_at = now;
}

updated_row-located :
    (q : Quote) (area : String) (payload : EncryptedPayload) (now : ℕ)
    → updated_row q (located q area payload now) ≡ located q area payload now
unfolding updated_row
updated_row-located q area payload now = λ i. record q {
  general_service_area = area;
  encrypted_exact_location = some payload;
  updated_at = now;
  encrypted_access_notes = or_kept_self q.encrypted_access_notes i;
  encrypted_questionnaire = or_kept_self q.encrypted_questionnaire i;
}

module _ (encrypt_json : String → EncryptedPayload) where
  -- The stored quote of `add_location`.
  abbrev row_after : String → String → String → ℕ → Stamp → Hosted → Option Quote
  row_after key area exact now event h =
      get (add_location encrypt_json key area exact now event h).1.quotes key

  -- The same with the quote's own identifier for the key.
  location_at_id :
      (area exact : String) (now : ℕ) (event : Stamp) (h : Hosted) (q : Quote)
      → get h.quotes q.id ≡ some q
      → row_after q.id area exact now event h ≡ some (located q area (encrypt_json exact) now)
  unfolding add_location
  location_at_id area exact now event h q found =
      rw (found, found, updated_row-located) (get-put_self h.quotes q.id _)

  -- The stored quote has the service area in the clear, the exact location encrypted, and is
  -- otherwise as it was.
  pub add_location-row :
      (quote_id area exact : String) (now : ℕ) (event : Stamp) (h : Hosted) (q : Quote)
      → get h.quotes quote_id ≡ some q
      → q.id ≡ quote_id
      → get (add_location encrypt_json quote_id area exact now event h).1.quotes quote_id
        ≡ some (located q area (encrypt_json exact) now)
  add_location-row quote_id area exact now event h q found key =
      subst
        (λ k. row_after k area exact now event h ≡ some (located q area (encrypt_json exact) now))
        key (location_at_id area exact now event h q (ap (get h.quotes) key ∙ found))

  -- The log does not depend on the exact location.
  pub add_location_redacted :
      (quote_id area exact other : String) (now : ℕ) (event : Stamp) (h : Hosted)
      → (add_location encrypt_json quote_id area exact now event h).1.events
        ≡ (add_location encrypt_json quote_id area other now event h).1.events
  unfolding add_location updated_row
  add_location_redacted quote_id area exact other now event h =
      elim (Option-cases (get h.quotes quote_id)) [
        | inl gone ↦ rw gone
        | inr (q, found) ↦ elim (Option-cases (get h.quotes q.id)) [
          | inl gone ↦ rw (found, gone)
          | inr (row, there) ↦ rw (found, there)
        ]
      ]
