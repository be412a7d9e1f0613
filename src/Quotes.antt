-- ===== src/Quotes.antt =====
-- Quotes and their events on the hosted backend: src/intake/domain/quotes.py, domain/events.py,
-- storage/repositories.py, services/event_log.py and services/quote_service.py. `Submission` and
-- `Edits` prove what the service does.
mod Tests
pub mod Model
pub mod Repository
pub mod EventLog
pub mod Service
pub mod Submission
pub mod Edits
pub mod Owners
