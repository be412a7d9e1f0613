-- ===== src/Receiver/Cleanup.antt =====
-- `cleanup_expired_sessions` of src/intake/local_console/receiver/service.py.
use intake.Prelude.{
  ℕ, suc, String, Bool, true, false, ◌||◌, Option, none, some, List, [], ◌∷◌, map, ltb,
  if◌then◌else◌, keep_if,
}
use intake.Prelude.Dict.{get, put, del}
use intake.Prelude.Result.{ok, err}
use intake.Receiver.Model.{expired, LocalUploadSession, LocalUploadedFileRecord, Receiver}
use intake.Receiver.Disk.{delete_file, cleanup_session}
use intake.Receiver.Sessions.{key_error, Method, is_completed, is_expired_status}

-- The sessions to clean up, in the dictionary's order.
unfoldable pub expired_sessions : Receiver → ℕ → List String
expired_sessions r now =
    map (λ e. e.0)
      (keep_if (λ e. ltb e.1.expires_at now || is_expired_status e.1.status) r.sessions)

-- One round of the loop over a session's files.
abbrev pub drop_found : String → String → Option LocalUploadedFileRecord → Receiver → Receiver
drop_found sid file_id none r = r
drop_found sid file_id (some file_record) r = record r {
  disk = (delete_file r.disk sid file_id (some file_record.extension)).1;
  files = del r.files file_id;
}

-- The loop over a session's files.
unfoldable pub drop_files : String → List String → Receiver → Receiver
drop_files sid [] r = r
drop_files sid (file_id ∷ file_ids) r =
    drop_files sid file_ids (drop_found sid file_id (get r.files file_id) r)

-- The directory goes, and then the session, unless `cleanup_session` raises.
abbrev pub drop_directory : String → Receiver → Bool × Receiver
drop_directory sid r =
    let (removed, disk) = cleanup_session r.disk sid in
    if removed
    then (true, record r { disk = disk; sessions = del r.sessions sid })
    else (false, record r { disk = disk })

-- A session that is not completed is marked as expired.
abbrev pub mark_expired : String → LocalUploadSession → Receiver → Receiver
mark_expired sid session r =
    if is_completed session.status
    then r
    else record r { sessions = put r.sessions sid (record session { status = expired }) }

-- One round of the outer loop, after the look-up. `false` is a KeyError.
unfoldable pub clean_found : String → Option LocalUploadSession → Receiver → Bool × Receiver
unfolding drop_files
clean_found sid none r = (false, r)
clean_found sid (some session) r =
    drop_directory sid (drop_files sid session.uploaded_files (mark_expired sid session r))

unfoldable pub clean_session : String → Receiver → Bool × Receiver
unfolding clean_found
clean_session sid r = clean_found sid (get r.sessions sid) r

-- The outer loop, with the number of sessions cleaned so far.
unfoldable pub clean_sessions : List String → ℕ → Method ℕ
unfolding clean_session
clean_sessions [] cleaned r = (ok cleaned, r)
clean_sessions (sid ∷ sids) cleaned r =
    let (done, r') = clean_session sid r in
    let rest = clean_sessions sids (suc cleaned) r' in if done then rest else (err key_error, r')

unfoldable pub cleanup_expired_sessions : ℕ → Method ℕ
unfolding expired_sessions clean_sessions
cleanup_expired_sessions now r = clean_sessions (expired_sessions r now) 0 r
