-- ===== src/Receiver/Invariant.antt =====
-- What holds of the receiver's state between calls: every session's limits are kept, and its
-- totals are those of the files that are on record for it.
pub mod Uploads
pub mod Methods
pub mod Lifecycle
pub mod Cleanup
use intake.Prelude.{
  ℕ, ◌<◌, String, ◌≡◌, refl, false, Option, none, some, List, [], ◌∷◌, arith, eq_iff, length,
  sum_of, All, IsAbsent, IsDistinct,
}
use intake.Prelude.Int.{ℤ, exceeds, le_zero}
use intake.Prelude.Dict.{Dict, get, put, get-put, Holds, Holds-put}
use intake.Receiver.Model.{SessionStatus, LocalUploadSession, LocalUploadedFileRecord, Receiver}

-- A file identifier of a session stands for a record of that session, within the size limit.
pub record IsOwned (files : Dict LocalUploadedFileRecord) (sid quote : String) (limit : ℤ)
    (id : String) : Type 0 where
  pub stored : LocalUploadedFileRecord
  pub found : get files id ≡ some stored
  pub named : stored.file_id ≡ id
  pub in_session : stored.session_id ≡ sid
  pub for_quote : stored.quote_id ≡ quote
  pub not_empty : 0 < stored.size_bytes
  pub within_limit : exceeds stored.size_bytes limit ≡ false

abbrev pub size_or_zero : Option LocalUploadedFileRecord → ℕ
size_or_zero none = 0
size_or_zero (some f) = f.size_bytes

-- The size on record for a file identifier.
abbrev pub size_at : Dict LocalUploadedFileRecord → String → ℕ
size_at files id = size_or_zero (get files id)

pub record IsSound (files : Dict LocalUploadedFileRecord) (sid : String) (s : LocalUploadSession)
    : Type 0 where
  pub key : s.session_id ≡ sid
  pub size_limit : le_zero s.max_file_size_bytes ≡ false
  pub count_limit : le_zero s.max_files ≡ false
  pub total_limit : le_zero s.max_total_bytes ≡ false
  pub within_total : exceeds s.total_bytes_uploaded s.max_total_bytes ≡ false
  pub within_count : exceeds (length s.uploaded_files) s.max_files ≡ false
  pub owned : All (IsOwned files s.session_id s.quote_id s.max_file_size_bytes) s.uploaded_files
  pub accounted : s.total_bytes_uploaded ≡ sum_of (size_at files) s.uploaded_files
  pub distinct : IsDistinct s.uploaded_files

abbrev pub IsConsistent : Receiver → Type 0
IsConsistent r = Holds (IsSound r.files) r.sessions

module _ (files : Dict LocalUploadedFileRecord) (sid quote : String) (limit : ℤ) where
  -- A new record leaves the records of the files that are there.
  module _ (fid : String) (f : LocalUploadedFileRecord) (fresh : get files fid ≡ none) where
    IsOwned-put :
        (id : String)
        → IsOwned files sid quote limit id
        → IsOwned (put files fid f) sid quote limit id
    IsOwned-put id o = record {
      stored = o.stored;
      found = rw get-put (ground (arith, eq_iff fid id, o.found));
      named = o.named;
      in_session = o.in_session;
      for_quote = o.for_quote;
      not_empty = o.not_empty;
      within_limit = o.within_limit;
    }

    pub All-IsOwned-put :
        (ids : List String)
        → All (IsOwned files sid quote limit) ids
        → All (IsOwned (put files fid f) sid quote limit) ids
    All-IsOwned-put [] h = tt
    All-IsOwned-put (id ∷ ids) h = (IsOwned-put id h.0, All-IsOwned-put ids h.1)

    size_at-put :
        (id : String)
        → IsOwned files sid quote limit id
        → size_at (put files fid f) id ≡ size_at files id
    size_at-put id o = rw get-put (ground (arith, eq_iff fid id, o.found))

    pub sizes-put :
        (ids : List String)
        → All (IsOwned files sid quote limit) ids
        → sum_of (size_at (put files fid f)) ids ≡ sum_of (size_at files) ids
    sizes-put [] h = refl
    sizes-put (id ∷ ids) h = omega (arith, size_at-put id h.0, sizes-put ids h.1)

    -- An identifier without a record is none of the session's.
    pub IsAbsent-of_fresh :
        (ids : List String) → All (IsOwned files sid quote limit) ids → IsAbsent fid ids
    IsAbsent-of_fresh [] h = tt
    IsAbsent-of_fresh (id ∷ ids) h = ((λ e. cc (e, fresh, h.0.found)), IsAbsent-of_fresh ids h.1)

-- The status of a session is no part of what holds of it.
pub IsSound-status :
    (files : Dict LocalUploadedFileRecord) (sid : String) (s : LocalUploadSession)
    (st : SessionStatus)
    → IsSound files sid s
    → IsSound files sid (record s { status = st })
IsSound-status files sid s st h = record {
  key = h.key;
  size_limit = h.size_limit;
  count_limit = h.count_limit;
  total_limit = h.total_limit;
  within_total = h.within_total;
  within_count = h.within_count;
  owned = h.owned;
  accounted = h.accounted;
  distinct = h.distinct;
}

-- Marking a session keeps the whole state consistent.
pub IsConsistent-mark :
    (r : Receiver) (sid : String) (s : LocalUploadSession) (st : SessionStatus)
    → IsConsistent r
    → get r.sessions sid ≡ some s
    → IsConsistent (record r { sessions = put r.sessions sid (record s { status = st }) })
IsConsistent-mark r sid s st h e =
    Holds-put (IsSound r.files) r.sessions sid _ h (IsSound-status r.files sid s st (h sid s e))

module _ (files : Dict LocalUploadedFileRecord) (fid : String) (f : LocalUploadedFileRecord)
    (fresh : get files fid ≡ none) where
  -- A record under a new identifier leaves every session sound.
  pub IsSound-put_file :
      (sid : String) (s : LocalUploadSession)
      → IsSound files sid s
      → IsSound (put files fid f) sid s
  IsSound-put_file sid s h = record {
    key = h.key;
    size_limit = h.size_limit;
    count_limit = h.count_limit;
    total_limit = h.total_limit;
    within_total = h.within_total;
    within_count = h.within_count;
    owned = All-IsOwned-put files _ _ _ fid f fresh s.uploaded_files h.owned;
    accounted = rw (sizes-put files _ _ _ fid f fresh s.uploaded_files h.owned) h.accounted;
    distinct = h.distinct;
  }
