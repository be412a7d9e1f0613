-- ===== src/Receiver/Invariant/Uploads.antt =====
-- Uploads keep the receiver's state consistent: `process_file_upload` and
-- `process_streamed_file_upload` of src/intake/local_console/receiver/service.py.
use mathlib.Core.List.{◌++◌ as append}
use intake.Prelude.{
  ◌+◌, ◌<◌, String, ◌≡◌, refl, sym, ap, ◌∙◌, false, none, some, List, [], ◌∷◌, arith, length,
  sum_of, sum_of-append, length-append, All-append, IsDistinct-concat,
}
use intake.Prelude.Int.{ℤ, pos, negsuc, exceeds, reaches}
use intake.Prelude.Dict.{Dict, get, put, get-put_self, Holds-put}
use intake.Receiver.Model.{LocalUploadSession, LocalUploadedFileRecord, Receiver}
use intake.Receiver.Uploads.{record_upload}
use intake.Receiver.Invariant.{
  IsOwned, size_or_zero, size_at, IsSound, IsConsistent, All-IsOwned-put, sizes-put,
  IsAbsent-of_fresh, IsSound-put_file,
}

-- What a file must meet to be added to a session.
pub record Fits (sid : String) (s : LocalUploadSession) (f : LocalUploadedFileRecord) : Type 0 where
  pub in_session : f.session_id ≡ sid
  pub for_quote : f.quote_id ≡ s.quote_id
  pub not_empty : 0 < f.size_bytes
  pub within_size : exceeds f.size_bytes s.max_file_size_bytes ≡ false
  pub within_total : exceeds (s.total_bytes_uploaded + f.size_bytes) s.max_total_bytes ≡ false
  pub within_count : reaches (length s.uploaded_files) s.max_files ≡ false

-- The session after the file.
abbrev grown : LocalUploadSession → LocalUploadedFileRecord → LocalUploadSession
grown s f = record s {
  uploaded_files = append s.uploaded_files (f.file_id ∷ []);
  total_bytes_uploaded = s.total_bytes_uploaded + f.size_bytes;
}

-- A count that has not reached a limit may grow by one.
exceeds-suc :
    (ids : List String) (id : String) (z : ℤ)
    → reaches (length ids) z ≡ false
    → exceeds (length (append ids (id ∷ []))) z ≡ false
exceeds-suc ids id (pos m) h = ground (arith, length-append ids (id ∷ []))
exceeds-suc ids id (negsuc m) h = cc

module _ (files : Dict LocalUploadedFileRecord) (sid : String) (s : LocalUploadSession)
    (f : LocalUploadedFileRecord) (fresh : get files f.file_id ≡ none) (h : IsSound files sid s)
    (fits : Fits sid s f) where
  abbrev files' : Dict LocalUploadedFileRecord
  files' = put files f.file_id f

  IsOwned-new : IsOwned files' s.session_id s.quote_id s.max_file_size_bytes f.file_id
  IsOwned-new = record {
    stored = f;
    found = get-put_self files f.file_id f;
    named = refl;
    in_session = fits.in_session ∙ sym h.key;
    for_quote = fits.for_quote;
    not_empty = fits.not_empty;
    within_limit = fits.within_size;
  }

  accounted_new :
      s.total_bytes_uploaded + f.size_bytes
      ≡ sum_of (size_at files') (append s.uploaded_files (f.file_id ∷ []))
  accounted_new = omega (
    arith,
    h.accounted,
    sum_of-append (size_at files') s.uploaded_files (f.file_id ∷ []),
    sizes-put files _ _ _ f.file_id f fresh s.uploaded_files h.owned,
    ap size_or_zero (get-put_self files f.file_id f),
  )

  pub IsSound-grown : IsSound files' sid (grown s f)
  IsSound-grown = record {
    key = h.key;
    size_limit = h.size_limit;
    count_limit = h.count_limit;
    total_limit = h.total_limit;
    within_total = fits.within_total;
    within_count = exceeds-suc s.uploaded_files f.file_id s.max_files fits.within_count;
    owned =
        All-append _ s.uploaded_files (f.file_id ∷ [])
          (All-IsOwned-put files _ _ _ f.file_id f fresh s.uploaded_files h.owned)
          (IsOwned-new, tt);
    accounted = accounted_new;
    distinct =
        IsDistinct-concat s.uploaded_files f.file_id h.distinct
          (IsAbsent-of_fresh files _ _ _ f.file_id f fresh s.uploaded_files h.owned);
  }

-- Recording a file that fits, under a new identifier, keeps the state consistent.
pub record_upload-IsConsistent :
    (r : Receiver) (sid : String) (s : LocalUploadSession) (f : LocalUploadedFileRecord)
    → IsConsistent r
    → get r.sessions sid ≡ some s
    → get r.files f.file_id ≡ none
    → Fits sid s f
    → IsConsistent (record_upload sid s f r)
unfolding record_upload
record_upload-IsConsistent r sid s f h e fresh fits =
    Holds-put (IsSound (put r.files f.file_id f)) r.sessions sid (grown s f)
      (λ j x p. IsSound-put_file r.files f.file_id f fresh j x (h j x p))
      (IsSound-grown r.files sid s f fresh (h sid s e) fits)
