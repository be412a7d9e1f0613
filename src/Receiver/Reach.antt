-- ===== src/Receiver/Reach.antt =====
-- The receiver over time: any sequence of calls of LocalReceiverService, src/intake/local_console/
-- receiver/service.py, at any readings of the clock. A call that generates a file identifier gets
-- a new one, and a clean-up is one that returns.
use intake.Prelude.{ℕ, String, ◌≡◌, none, List, []}
use intake.Prelude.Dict.{get}
use intake.Prelude.Result.{ok}
use intake.Receiver.Model.{
  ReceiverStatus, online, LocalUploadSessionCreate, UploadFileRequest, SessionCompleteRequest,
  Receiver,
}
use intake.Receiver.Disk.{Read}
use intake.Receiver.Sessions.{create_session, get_session, complete_session}
use intake.Receiver.Uploads.{process_file_upload, process_streamed_file_upload}
use intake.Receiver.Cleanup.{cleanup_expired_sessions}
use intake.Receiver.Invariant.{IsConsistent}
use intake.Receiver.Invariant.Methods.{
  get_session-IsConsistent, process_file_upload-IsConsistent,
  process_streamed_file_upload-IsConsistent,
}
use intake.Receiver.Invariant.Lifecycle.{create_session-IsConsistent, complete_session-IsConsistent}
use intake.Receiver.Invariant.Cleanup.{cleanup_expired_sessions-IsConsistent}

-- `LocalReceiverService.__init__`
abbrev pub new_receiver : Receiver
new_receiver = record { status = online; sessions = []; files = []; disk = [] }

-- `set_status`
unfoldable pub set_status : ReceiverStatus → Receiver → Receiver
set_status status r = record r { status = status }

module _ (root : List String) (sha256 : List ℕ → String) where
  pub data Step : Receiver → Receiver → Type 0 where
    create :
        (r : Receiver) (request : LocalUploadSessionCreate) (sid : String)
        (validated_at now created_at : ℕ)
        → Step r (create_session request sid validated_at now created_at r).1
    find : (r : Receiver) (sid : String) (now : ℕ) → Step r (get_session sid now r).1
    upload :
        (r : Receiver) (sid : String) (request : UploadFileRequest) (content : List ℕ)
        (fid : String) (now stored_at : ℕ)
        → get r.files fid ≡ none
        → Step r (process_file_upload root sha256 sid request content fid now stored_at r).1
    stream :
        (r : Receiver) (sid : String) (request : UploadFileRequest) (size : ℕ) (reads : List Read)
        (fid : String) (now stored_at : ℕ)
        → get r.files fid ≡ none
        → Step r
            (process_streamed_file_upload root sha256 sid request size reads fid now stored_at r).1
    complete :
        (r : Receiver) (request : SessionCompleteRequest) (now completed_at : ℕ) (ids : ℕ → String)
        → Step r (complete_session request now completed_at ids r).1
    clean :
        (r : Receiver) (now total : ℕ)
        → (cleanup_expired_sessions now r).0 ≡ ok total
        → Step r (cleanup_expired_sessions now r).1
    turn : (r : Receiver) (status : ReceiverStatus) → Step r (set_status status r)

  pub data Reach : Receiver → Type 0 where
    start : Reach new_receiver
    next : {r r' : Receiver} → Reach r → Step r r' → Reach r'

  Step-IsConsistent : {r r' : Receiver} → Step r r' → IsConsistent r → IsConsistent r'
  unfolding set_status
  Step-IsConsistent (create r request sid validated_at now at) h =
      create_session-IsConsistent request sid validated_at now at r h
  Step-IsConsistent (find r sid now) h = get_session-IsConsistent sid now r h
  Step-IsConsistent (upload r sid request content fid now at fresh) h =
      process_file_upload-IsConsistent root sha256 sid request content fid now at r h fresh
  Step-IsConsistent (stream r sid request size reads fid now at fresh) h =
      process_streamed_file_upload-IsConsistent root sha256 sid request size reads fid now at r h
        fresh
  Step-IsConsistent (complete r request now at ids) h =
      complete_session-IsConsistent request now at ids r h
  Step-IsConsistent (clean r now total e) h = cleanup_expired_sessions-IsConsistent now r total h e
  Step-IsConsistent (turn r status) h = h

  -- After any sequence of calls every session keeps its limits, and its totals are those of the
  -- files on record for it: the files are distinct, of this session and its quote, not empty and
  -- within its size limit, their sizes add up to its total, and count and total are within bounds.
  pub Reach-IsConsistent : {r : Receiver} → Reach r → IsConsistent r
  unfolding get
  Reach-IsConsistent start = λ sid s e. cc e
  Reach-IsConsistent (next reach step) = Step-IsConsistent step (Reach-IsConsistent reach)
