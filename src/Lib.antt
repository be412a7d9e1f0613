-- ===== src/Lib.antt =====
-- Intake: a local-first quote intake backend. A hosted backend takes quotes and brokers upload
-- sessions; a local receiver, a loopback service on the operator's machine, takes the files.
--
-- Local receiver (src/intake/local_console/receiver/). `Receiver.Model` has the data of models.py
-- and the state of LocalReceiverService: status, sessions, file records, and the disk below its
-- storage service. `Receiver.Paths` and `Receiver.Disk` are storage.py; `Receiver.Sessions`,
-- `Receiver.Admission`, `Receiver.Uploads` and `Receiver.Cleanup` are service.py: create_session,
-- get_session, complete_session, validate_file_upload, process_file_upload,
-- process_streamed_file_upload, cleanup_expired_sessions. A method is a function from its
-- arguments and the receiver to a result and a receiver; what was written before an exception
-- stays written. Proofs are in `Receiver.Invariant` and its children, `Receiver.Reach` (calls as
-- steps), `Receiver.Completion`, `Receiver.Stored`, `Receiver.Failures`, `Receiver.Expired`,
-- `Receiver.Allowlist`, `Receiver.Paths.Safe` and `Receiver.Paths.Ends`.
--
-- Upload routing (route_decision.py beside the receiver, src/intake/deploy/models_upload.py).
-- `Routing` has the handshake with the receiver in the same process and the choice of a route;
-- `Routing.Priority` its order as a relation.
--
-- Quotes (src/intake/domain/, src/intake/services/quote_service.py, event_log.py,
-- src/intake/storage/repositories.py). `Quotes.Model` has the data and the hosted tables,
-- `Quotes.Repository` the writes and reads of rows, `Quotes.EventLog` the events, `Quotes.Service`
-- the service. `Quotes.Submission`, `Quotes.Edits` and `Quotes.Owners` are proofs, the last over
-- any sequence of calls.
--
-- Upload broker (src/intake/services/upload_session_broker.py). `Broker.Model` has sessions,
-- receipts and the broker's state, which holds the hosted tables and a route service;
-- `Broker.Grants` is create_upload_route, `Broker.Receipts` process_upload_receipt,
-- `Broker.Listing` the two listings. `Broker.Checks`, `Broker.Access`, `Broker.Matches`,
-- `Broker.Stored`, `Broker.Acceptance`, `Broker.Soundness`, `Broker.Reach`, `Broker.Views`,
-- `Broker.Order` and `Broker.Owners` are proofs. The broker decides routes by `Routing` and reads
-- quotes that `Quotes` stores.
--
-- Cost ledger (src/intake/costs/). `Costs.Model` has the data and the state of CostCalculator
-- without its registries of providers and facts, `Costs.Totals` the recalculation of a scenario,
-- `Costs.Scenarios` the edits of scenarios and line items, `Costs.Receipts` assumptions, snapshots
-- and receipts. `Costs.Sums`, `Costs.Ledger`, `Costs.Reach` and `Costs.Breakdown` are proofs.
-- Money, quantities and prices are integers in a unit small enough for all amounts at hand;
-- Decimal rounds numbers of more than 28 digits, which the model does not.
--
-- Conventions. Random identifiers and the clock's readings are arguments, one for each time the
-- code reads them; times are seconds on one UTC clock. SHA-256, the upload root and the encryption
-- of JSON are parameters. A dictionary is an association list in insertion order (`Prelude.Dict`);
-- `Prelude.Text` and `Prelude.Parts` have the parts of str and os.path in use, with lower() on
-- ASCII letters; `Prelude.Int` has Python integers that callers may give as negative. Fuel: the
-- loop that removes ".." from a path component has the component's length in bytes; the printing
-- of a number has the number's successor.
--
-- Accounts on the hosted backend (src/intake/services/session_service.py,
-- email_verification_service.py). `Auth.Sessions` has the session table and SessionService,
-- `Auth.Codes` the tables of codes and start_verification and verify_code; `Auth.Lookup`,
-- `Auth.Revocation`, `Auth.Verification`, `Auth.Consumption` and `Auth.Attempts` are proofs. A
-- mail that is sent is an entry of an outbox.
--
-- Passkeys (src/intake/services/passkey_service.py, src/intake/domain/passkeys.py,
-- src/intake/hosted/auth/passkeys.py). `Passkeys.Model` has the data, the webauthn library as a
-- record of functions and the tables; `Passkeys.Challenges` and `Passkeys.Credentials` are the
-- repositories; `Passkeys.Registration` is verify_registration, `Passkeys.Login`
-- verify_authentication, `Passkeys.Options` the two options methods, `Passkeys.Endpoints`
-- login_verify, logout and get_session. `Passkeys.SingleUse`, `Passkeys.Ceremonies`,
-- `Passkeys.Replay`, `Passkeys.Entered`, `Passkeys.Entry`, `Passkeys.Revoked` and
-- `Passkeys.Visits` are proofs. Logins open sessions of `Auth.Sessions`.
--
-- Sync (src/intake/sync/models.py, src/intake/services/signing_service.py,
-- src/intake/hosted/api/sync.py and the local console). `Sync.Model` has the data and
-- SyncRepository, `Sync.Signing` sign_action and verify_action, `Sync.Actions` the endpoints,
-- `Sync.Unlock` the unlock window, `Sync.Console` the client and the review service.
-- `Sync.Verified`, `Sync.Outcome`, `Sync.Replay`, `Sync.Hidden` and `Sync.Journey` are proofs. An
-- accepted action moves a quote of `Quotes`.
--
-- Uploads to the hosted backend (src/intake/services/upload_service.py,
-- upload_validation_service.py, storage_service.py). `Uploads.Model` has the table of uploads and
-- the files, `Uploads.Validation` validate_file and can_upload_to_quote, `Uploads.Storage` the
-- storage service, `Uploads.Service` handle_upload and list_uploads on the quotes of `Quotes`.
-- `Uploads.Limits`, `Uploads.Bounds` and `Uploads.Ownerless` are proofs.
--
-- Unlocking of the local console (src/intake/local_console/api/security.py). `Security.Model` has
-- the store of challenges and the native capability, `Security.Unlocking` the endpoints status,
-- challenge, unlock and lock on the window of `Sync.Unlock`, `Security.Capabilities` the metadata
-- of the user interface. `Security.Outcome`, `Security.Calls`, `Security.Secrecy` and
-- `Security.SingleUse` are proofs.
--
-- Deployment dry run (src/intake/deploy/railway_dry_run.py). `Railway.Specs` has the environment
-- variables, `Railway.Detection` the search for the command line tool, a log-in and a link,
-- `Railway.Plans` the plan, its two artifacts and their validation. `Railway.Clean` and
-- `Railway.Sound` are proofs. The commands that are run, the search path and the file system are
-- parameters.
--
-- Not modelled: the HTTP layer and pages, configuration, failing file system calls, symbolic
-- links, log texts of errors, tunnels and deployment adapters.
pub mod Prelude
pub mod Receiver
pub mod Quotes
pub mod Routing
pub mod Broker
pub mod Costs
pub mod Auth
pub mod Passkeys
pub mod Sync
pub mod Railway
pub mod Security
pub mod Uploads
