-- ===== src/Receiver/Stored.antt =====
-- What an upload leaves on disk: `process_file_upload` and `process_streamed_file_upload` of
-- src/intake/local_console/receiver/service.py over the storage of storage.py.
use mathlib.Core.Path.{subst₂}
use intake.Prelude.{
  ℕ, String, ◌≡◌, inl, inr, refl, true, Option, none, some, List, ap, ◌∙◌, Bool-cases, Option-cases,
  length,
}
use intake.Prelude.Dict.{get, get-put_self}
use intake.Prelude.Result.{Result, ok, err}
use intake.Receiver.Model.{
  FileRejectionReason, LocalUploadSession, LocalUploadedFileRecord, UploadFileRequest, Receiver,
  Disk,
}
use intake.Receiver.Paths.{sanitize_path_component, generate_storage_name}
use intake.Receiver.Disk.{files_or_empty, files_in, store_file, write_file, path_under_root}
use intake.Receiver.Uploads.{
  extension_text, file_record, store_admitted, store_upload, record_upload, process_file_upload,
}
use intake.Receiver.Admission.{validate_file_upload}

-- The bytes under a name of a directory.
abbrev pub bytes_at : Disk → String → String → Option (List ℕ)
bytes_at disk dir filename = get (files_in disk dir) filename

-- What has been written is there.
pub bytes_at-write :
    (disk : Disk) (dir name : String) (content : List ℕ)
    → bytes_at (write_file disk dir name content) dir name ≡ some content
unfolding write_file
bytes_at-write disk dir name content =
    ap (λ o. get (files_or_empty o) name) (get-put_self disk dir _)
    ∙ get-put_self (files_in disk dir) name content

-- A file without an extension has the name of one whose extension is empty.
pub name_of_text :
    (fid : String) (ext : Option String)
    → generate_storage_name fid (some (extension_text ext)) ≡ generate_storage_name fid ext
unfolding generate_storage_name
name_of_text fid none = refl
name_of_text fid (some ext) = refl

store_file-writes :
    (root : List String) (disk : Disk) (sid fid : String) (ext : Option String) (content : List ℕ)
    → (store_file root disk sid fid ext content).0 ≡ true
    → bytes_at
        (store_file root disk sid fid ext content).1
        (sanitize_path_component sid)
        (generate_storage_name fid ext)
      ≡ some content
unfolding store_file
store_file-writes root disk sid fid ext content h =
    elim (Bool-cases
      (path_under_root root (sanitize_path_component sid) (generate_storage_name fid ext))) [
        | inl inside ↦ rw inside (bytes_at-write _ _ _ content)
        | inr outside ↦ let no_way = rw outside at h in cc no_way
      ]

-- What an accepted file has become.
pub record IsStored (sid fid : String) (content : List ℕ) (hash : String)
    (f : LocalUploadedFileRecord) (r : Receiver) : Type 0 where
  pub id : f.file_id ≡ fid
  pub session : f.session_id ≡ sid
  pub size : f.size_bytes ≡ length content
  pub digest : f.sha256 ≡ hash
  pub on_record : get r.files fid ≡ some f
  pub on_disk :
      bytes_at r.disk (sanitize_path_component sid) (generate_storage_name fid (some f.extension))
      ≡ some content

module _ (root : List String) (sha256 : List ℕ → String) (sid : String)
    (request : UploadFileRequest) (content : List ℕ) (fid : String) where
  -- The state after an accepted file, from the disk that the storage left.
  new_record-IsStored :
      (ext : Option String) (at : ℕ) (s : LocalUploadSession) (r : Receiver) (disk : Disk)
      → bytes_at disk (sanitize_path_component sid) (generate_storage_name fid ext) ≡ some content
      → IsStored sid fid content
          (sha256 content)
          (file_record sid s request fid ext (length content) (sha256 content) at)
          (record_upload sid s
            (file_record sid s request fid ext (length content) (sha256 content) at)
            (record r { disk = disk }))
  unfolding record_upload
  new_record-IsStored ext at s r disk there = record {
    id = refl;
    session = refl;
    size = refl;
    digest = refl;
    on_record = get-put_self r.files fid _;
    on_disk = rw name_of_text there;
  }

  store_upload-IsStored :
      (ext : Option String) (at : ℕ) (s : LocalUploadSession) (r r' : Receiver)
      (f : LocalUploadedFileRecord)
      → store_upload root sha256 sid request content fid ext at s r ≡ (ok (ok f), r')
      → IsStored sid fid content (sha256 content) f r'
  unfolding store_upload
  store_upload-IsStored ext at s r r' f e =
      elim (Bool-cases (store_file root r.disk sid fid ext content).0) [
        | inl done ↦
            let e' = rw done at e in
            subst₂ (IsStored sid fid content (sha256 content)) (cc e') (ap (λ p. p.1) e') (
              new_record-IsStored ext at s r _
                (store_file-writes root r.disk sid fid ext content done))
        | inr failed ↦ let no_way = rw failed at e in cc no_way
      ]

  store_admitted-IsStored :
      (verdict : Result FileRejectionReason (Option String)) (at : ℕ) (r r' : Receiver)
      (f : LocalUploadedFileRecord)
      → store_admitted root sha256 verdict sid request content fid at r ≡ (ok (ok f), r')
      → IsStored sid fid content (sha256 content) f r'
  store_admitted-IsStored (err reason) at r r' f e = cc
  store_admitted-IsStored (ok ext) at r r' f e = elim (Option-cases (get r.sessions sid)) [
    | inl gone ↦ let no_way = rw gone at e in cc no_way
    | inr (s, found) ↦ store_upload-IsStored ext at s r r' f (rw found at e)
  ]

  -- A file that `process_file_upload` accepts is on record under its identifier with its size and
  -- digest, and its bytes are on disk under the name that a later deletion uses.
  pub process_file_upload-IsStored :
      (now at : ℕ) (r r' : Receiver) (f : LocalUploadedFileRecord)
      → process_file_upload root sha256 sid request content fid now at r ≡ (ok (ok f), r')
      → IsStored sid fid content (sha256 content) f r'
  unfolding process_file_upload
  process_file_upload-IsStored now at r r' f e =
      store_admitted-IsStored _ at (validate_file_upload sid request (length content) now r).1 r' f
        e
