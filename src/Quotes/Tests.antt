-- ===== src/Quotes/Tests.antt =====
-- Runs of src/intake/services/quote_service.py at concrete inputs.
use intake.Prelude.{ℕ, String, ◌≡◌, refl, Bool, true, false, Option, none, some, List, [], ◌∷◌}
use intake.Prelude.Dict.{get}
use intake.Quotes.Model.{Quote, Hosted, software_systems, draft, EncryptedPayload}
use intake.Quotes.EventLog.{Stamp}
use intake.Quotes.Service.{new_quote, create_quote, submit_quote}
use intake.Quotes.Submission.{in_review, IsSubmitted, submit_quote-IsSubmitted}

-- A backend without quotes.
abbrev empty : Hosted
empty = record {
  quotes = [];
  accounts = [];
  events = [];
  require_verified_email_for_quote_submit = false;
  require_verified_email_for_uploads = true;
}

abbrev stamp : String → ℕ → Stamp
stamp id at = record { id = id; at = at }

abbrev seal : String → EncryptedPayload
seal text = "sealed"

-- A new quote of a lane.
abbrev quote : Quote
quote = new_quote (stamp "q1" 1) (some software_systems)

abbrev drafted : Hosted
drafted = (create_quote (stamp "q1" 1) (stamp "e1" 1) (some software_systems) empty).1

abbrev laneless : Hosted
laneless = (create_quote (stamp "q1" 1) (stamp "e1" 1) none empty).1

abbrev handed_in : Hosted
handed_in = (submit_quote "q1" "a1" 2 3 (stamp "e2" 2) (stamp "e3" 3) drafted).1

submit_quote-IsSubmitted_example :
    ((submit_quote "q1" "a1" 2 3 (stamp "e2" 2) (stamp "e3" 3) drafted).0
      ≡ some (in_review quote 3))
    × IsSubmitted "q1" quote "a1" 3 (stamp "e2" 2) (stamp "e3" 3) drafted handed_in
unfolding get create_quote intake.Prelude.Dict.put intake.Quotes.Model.can_submit
submit_quote-IsSubmitted_example =
    submit_quote-IsSubmitted "q1" quote "a1" 2 3 (stamp "e2" 2) (stamp "e3" 3) drafted refl refl
      refl
