-- ===== src/Receiver/Tests.antt =====
-- Runs of the receiver of src/intake/local_console/receiver/ at concrete inputs.
use intake.Prelude.{
  keep_if, arith, ℕ, String, ◌≡◌, refl, true, false, none, some, List, [], ◌∷◌, length,
}
use intake.Prelude.Int.{pos}
use intake.Prelude.Dict.{get}
use intake.Receiver.Model.{
  LocalUploadSessionCreate, LocalUploadSession, LocalUploadedFileRecord, UploadFileRequest,
  LocalUploadCompleteReceipt, SessionCompleteRequest, Receiver, expired, FileStatus,
}
use intake.Receiver.Paths.{sanitize_path_component, has_dot_pair, remove_parents}
use intake.Receiver.Paths.Ends.{remove_parents_ends}
use intake.Receiver.Paths.Safe.{IsSafe, sanitize_path_component-IsSafe}
use intake.Receiver.Disk.{Read, chunk, cleanup_session, files_in}
use intake.Receiver.Sessions.{
  create_session, complete_session, check_content_types, new_session, receipt_of,
}
use intake.Receiver.Admission.{admit}
use intake.Receiver.Uploads.{process_file_upload, process_streamed_file_upload, reject}
use intake.Receiver.Cleanup.{cleanup_expired_sessions, clean_session}
use intake.Receiver.Invariant.{IsConsistent}
use intake.Receiver.Completion.{completed_now, complete_session-totals}
use intake.Receiver.Stored.{IsStored, process_file_upload-IsStored}
use intake.Receiver.Expired.{is_due, cleanup_expired_sessions-get, clean_session_orphan}
use intake.Receiver.Allowlist.{admit-types_irrelevant}
use intake.Receiver.Reach.{Step, Reach, new_receiver, Reach-IsConsistent}

abbrev root : List String
root = "srv" ∷ "uploads" ∷ []

abbrev digest : List ℕ → String
digest content = "d"

abbrev request : LocalUploadSessionCreate
request = record {
  quote_id = "q1";
  account_id = none;
  expires_at = 100;
  allowed_content_types = "image/png" ∷ [];
  allowed_extensions = ".png" ∷ [];
  max_file_size_bytes = pos 4;
  max_files = pos 2;
  max_total_bytes = pos 6;
  one_time_token_hash = none;
}

abbrev picture : UploadFileRequest
picture = record {
  session_id = "s1";
  declared_content_type = "image/png";
  original_filename = some "a.png";
}

abbrev opened : Receiver
opened = (create_session request "s1" 1 2 3 new_receiver).1

abbrev content : List ℕ
content = 7 ∷ 8 ∷ 9 ∷ []

abbrev uploaded : Receiver
uploaded = (process_file_upload root digest "s1" picture content "f1" 4 5 opened).1

Reach-opened : Reach root digest opened
Reach-opened = Reach.next Reach.start (Step.create new_receiver request "s1" 1 2 3)

Reach-uploaded : Reach root digest uploaded
unfolding get create_session intake.Receiver.Sessions.validate_session_request check_content_types
    intake.Receiver.Sessions.check_extensions
Reach-uploaded = Reach.next Reach-opened (Step.upload opened "s1" picture content "f1" 4 5 refl)

Reach-IsConsistent_example : IsConsistent uploaded
Reach-IsConsistent_example = Reach-IsConsistent root digest Reach-uploaded

abbrev completion : SessionCompleteRequest
completion = record { session_id = "s1"; quote_id = "q1" }

abbrev ids : ℕ → String
ids n = "u"

abbrev uploaded_session : LocalUploadSession
uploaded_session = record (new_session request "s1" 3) {
  uploaded_files = "f1" ∷ [];
  total_bytes_uploaded = 3;
}

abbrev upload_record : LocalUploadedFileRecord
upload_record = record {
  file_id = "f1";
  session_id = "s1";
  quote_id = "q1";
  original_filename_redacted = true;
  declared_content_type = "image/png";
  detected_content_type = none;
  extension = "png";
  size_bytes = 3;
  sha256 = "d";
  status = FileStatus.uploaded;
  stored_at = 5;
  storage_provider = "local_loopback_dev";
  storage_ref = "s1/f1.png";
}

abbrev receipt : LocalUploadCompleteReceipt
receipt = record {
  session_id = "s1";
  quote_id = "q1";
  total_files = 1;
  total_bytes = 3;
  completed_at = 9;
  file_receipts = receipt_of uploaded_session upload_record "u" ∷ [];
  storage_provider = "local_loopback_dev";
}

abbrev done : Receiver
done = (complete_session completion 8 9 ids uploaded).1

complete_session-totals_example :
    (receipt.total_files ≡ length uploaded_session.uploaded_files)
    × (receipt.total_bytes ≡ uploaded_session.total_bytes_uploaded)
    × (get done.sessions "s1" ≡ some (completed_now uploaded_session))
unfolding get process_file_upload create_session intake.Receiver.Sessions.validate_session_request
    check_content_types intake.Receiver.Sessions.check_extensions intake.Receiver.Disk.store_file
    intake.Receiver.Disk.path_under_root intake.Receiver.Paths.generate_storage_name
    sanitize_path_component complete_session
complete_session-totals_example =
    complete_session-totals completion 8 9 ids uploaded_session uploaded done receipt
      Reach-IsConsistent_example refl refl

process_file_upload-IsStored_example : IsStored "s1" "f1" content "d" upload_record uploaded
unfolding process_file_upload create_session intake.Receiver.Sessions.validate_session_request
    check_content_types intake.Receiver.Sessions.check_extensions intake.Receiver.Disk.store_file
    intake.Receiver.Disk.path_under_root intake.Receiver.Paths.generate_storage_name
    sanitize_path_component intake.Receiver.Uploads.get_storage_ref
process_file_upload-IsStored_example =
    process_file_upload-IsStored root digest "s1" picture content "f1" 4 5 opened uploaded
      upload_record refl

sanitize_path_component-IsSafe_example : IsSafe (sanitize_path_component "../../etc/pass wd")
sanitize_path_component-IsSafe_example = sanitize_path_component-IsSafe "../../etc/pass wd"

remove_parents_ends_example :
    (has_dot_pair (remove_parents 9 "....x....") ≡ false)
    × (remove_parents 9 "....x...." ≡ remove_parents 9 "....x....")
remove_parents_ends_example = remove_parents_ends "....x...." 9 (omega arith)

abbrev cleaned : ℕ
cleaned = 1

-- A session without files, past its expiry.
cleanup_expired_sessions-get_example :
    (cleaned ≡ length (keep_if (λ e. is_due 200 e.1) opened.sessions))
    × (get (cleanup_expired_sessions 200 opened).1.sessions "s1" ≡ none)
unfolding cleanup_expired_sessions create_session intake.Receiver.Sessions.validate_session_request
    check_content_types intake.Receiver.Sessions.check_extensions cleanup_session
    intake.Receiver.Disk.create_session_directory sanitize_path_component
cleanup_expired_sessions-get_example =
    cleanup_expired_sessions-get 200 cleaned "s1" opened (tt, tt) refl

-- An empty stream leaves its file behind.
abbrev orphaned : Receiver
orphaned = (process_streamed_file_upload root digest "s1" picture 0 [] "f3" 4 5 opened).1

clean_session_orphan_example :
    ((clean_session "s1" orphaned).0 ≡ false)
    × (get (clean_session "s1" orphaned).1.sessions "s1"
        ≡ some (record (new_session request "s1" 3) { status = expired }))
unfolding get process_streamed_file_upload create_session
    intake.Receiver.Sessions.validate_session_request check_content_types
    intake.Receiver.Sessions.check_extensions intake.Receiver.Disk.stream_store_file
    intake.Receiver.Disk.path_under_root intake.Receiver.Paths.generate_storage_name
    sanitize_path_component
clean_session_orphan_example =
    clean_session_orphan "s1" (new_session request "s1" 3) orphaned refl refl refl (λ e. cc e)

abbrev long : List ℕ
long = 1 ∷ 2 ∷ 3 ∷ 4 ∷ 5 ∷ []

admit-types_irrelevant_example :
    admit
      (record (new_session request "s1" 3) { allowed_content_types = "video/mp4" ∷ [] })
      picture
      3
    ≡ admit (new_session request "s1" 3) picture 3
unfolding check_content_types
admit-types_irrelevant_example =
    admit-types_irrelevant (new_session request "s1" 3) ("video/mp4" ∷ []) picture 3 refl refl
