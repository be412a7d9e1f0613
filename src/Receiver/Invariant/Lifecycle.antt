-- ===== src/Receiver/Invariant/Lifecycle.antt =====
-- Opening and completing sessions keep the receiver's state consistent: `create_session` and
-- `complete_session` of src/intake/local_console/receiver/service.py.
use intake.Prelude.{ℕ, String, ◌≡◌, inl, inr, refl, false, some, ltb, arith, Bool-cases, str_eq}
use intake.Prelude.Int.{exceeds, le_zero, ℤ, pos, negsuc}
use intake.Prelude.Dict.{get, Holds-put, Dict}
use intake.Prelude.Result.{ok, Result-cases}
use intake.Receiver.Model.{
  LocalUploadSessionCreate, LocalUploadSession, LocalUploadedFileRecord, SessionCompleteRequest,
  Receiver, completed,
}
use intake.Receiver.Sessions.{
  validate_session_request, new_session, open_session, create_session, finish_session,
  complete_session, is_completed,
}
use intake.Receiver.Invariant.{IsSound, IsConsistent, IsConsistent-mark}
use intake.Receiver.Invariant.Methods.{get_session-cases, get_session-IsConsistent}

-- The limits of a request that the validation has passed are positive.
record HasLimits (request : LocalUploadSessionCreate) : Type 0 where
  size_limit : le_zero request.max_file_size_bytes ≡ false
  count_limit : le_zero request.max_files ≡ false
  total_limit : le_zero request.max_total_bytes ≡ false

validated-HasLimits :
    (request : LocalUploadSessionCreate) (now : ℕ)
    → validate_session_request request now ≡ ok tt
    → HasLimits request
unfolding validate_session_request
validated-HasLimits request now h = ground arith

-- Nothing counts as more than a positive limit only if it is more than zero.
exceeds-zero : (z : ℤ) → le_zero z ≡ false → exceeds 0 z ≡ false
exceeds-zero (pos n) h = ground arith
exceeds-zero (negsuc n) h = cc

new_session-IsSound :
    (files : Dict LocalUploadedFileRecord) (request : LocalUploadSessionCreate) (sid : String)
    (at : ℕ)
    → HasLimits request
    → IsSound files sid (new_session request sid at)
new_session-IsSound files request sid at l = record {
  key = refl;
  size_limit = l.size_limit;
  count_limit = l.count_limit;
  total_limit = l.total_limit;
  within_total = exceeds-zero request.max_total_bytes l.total_limit;
  within_count = exceeds-zero request.max_files l.count_limit;
  owned = tt;
  accounted = refl;
  distinct = tt;
}

open_session-IsConsistent :
    (request : LocalUploadSessionCreate) (sid : String) (now at : ℕ) (r : Receiver)
    → HasLimits request
    → IsConsistent r
    → IsConsistent (open_session request sid now at r).1
unfolding open_session
open_session-IsConsistent request sid now at r l h =
    elim (Bool-cases (ltb now request.expires_at)) [
      | inl ahead ↦ rw ahead (
          Holds-put (IsSound r.files) r.sessions sid _ h
            (new_session-IsSound r.files request sid at l))
      | inr past ↦ rw past h
    ]

-- `create_session` keeps a consistent state consistent, whether it opens the session or raises.
pub create_session-IsConsistent :
    (request : LocalUploadSessionCreate) (sid : String) (validated_at now at : ℕ) (r : Receiver)
    → IsConsistent r
    → IsConsistent (create_session request sid validated_at now at r).1
unfolding create_session
create_session-IsConsistent request sid validated_at now at r h =
    elim (Result-cases (validate_session_request request validated_at)) [
      | inl (u, e) ↦ rw e (
          open_session-IsConsistent request sid now at r
            (validated-HasLimits request validated_at e) h)
      | inr (x, e) ↦ rw e h
    ]

finish_session-IsConsistent :
    (request : SessionCompleteRequest) (now : ℕ) (ids : ℕ → String) (s : LocalUploadSession)
    (r : Receiver)
    → IsConsistent r
    → get r.sessions request.session_id ≡ some s
    → IsConsistent (finish_session request now ids s r).1
unfolding finish_session
finish_session-IsConsistent request now ids s r h found =
    elim (Bool-cases (is_completed s.status)) [
      | inl done ↦ rw done h
      | inr open_ ↦ elim (Bool-cases (str_eq s.quote_id request.quote_id)) [
        | inl same ↦ rw (open_, same) (IsConsistent-mark r request.session_id s completed h found)
        | inr other ↦ rw (open_, other) h
      ]
    ]

-- `complete_session` keeps a consistent state consistent, whether it completes or raises.
pub complete_session-IsConsistent :
    (request : SessionCompleteRequest) (now at : ℕ) (ids : ℕ → String) (r : Receiver)
    → IsConsistent r
    → IsConsistent (complete_session request now at ids r).1
unfolding complete_session
complete_session-IsConsistent request now at ids r h =
    elim (get_session-cases request.session_id now r) [
      | inl (s, e, found, early) ↦ rw e (finish_session-IsConsistent request at ids s r h found)
      | inr (x, e) ↦ rw e (get_session-IsConsistent request.session_id now r h)
    ]
