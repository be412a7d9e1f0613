-- ===== src/Receiver/Disk.antt =====
-- Files below the upload root: LocalReceiverStorageService, src/intake/local_console/receiver/
-- storage.py. Calls to the file system succeed; a read from a client's stream may fail. A
-- directory holds files only, under names without a slash.
use Prim.Native.String.{◌++◌}
use mathlib.Core.List.{reverse, tail}
use mathlib.Core.List.{◌++◌ as append}
use intake.Prelude.{
  ℕ, is_some, String, Bool, true, false, ◌&&◌, ◌||◌, Option, none, some, List, [], ◌∷◌, str_eq,
  if◌then◌else◌,
}
use intake.Prelude.Text.{is_slash}
use intake.Prelude.Dict.{Dict, get, put, del}
use intake.Prelude.Result.{Result, ok, err}
use intake.Receiver.Model.{Disk}
use intake.Receiver.Paths.{sanitize_path_component, generate_storage_name}

-- A text in front of the first of the parts, for `split_slash`.
abbrev pub put_in_front : String → List String → List String
put_in_front s [] = s ∷ []
put_in_front s (p ∷ ps) = (s ++ p) ∷ ps

-- `path.split("/")`
unfoldable pub split_slash : String → List String
split_slash String.[] = "" ∷ []
split_slash (String.◌∷◌ c s) =
    let rest = split_slash s in
    if is_slash c then "" ∷ rest else put_in_front (String.◌∷◌ c String.[]) rest

-- `Path.resolve` on the components of an absolute path, without symbolic links. The stack has the
-- last component first.
unfoldable pub resolve : List String → List String → List String
resolve stack [] = reverse stack
resolve stack (part ∷ parts) =
    resolve
      (if str_eq part "" || str_eq part "."
        then stack
        else if str_eq part ".."
        then tail stack
        else part ∷ stack)
      parts

abbrev pub starts_with_slash : String → Bool
starts_with_slash String.[] = false
starts_with_slash (String.◌∷◌ c s) = is_slash c

-- The components of the first list begin the second.
unfoldable pub begins : List String → List String → Bool
begins [] target = true
begins (r ∷ root) [] = false
begins (r ∷ root) (t ∷ target) = str_eq r t && begins root target

-- `_validate_path_under_root` for the path of `generate_storage_path`: an absolute file name would
-- replace what stands before it.
unfoldable pub path_under_root : List String → String → String → Bool
unfolding begins resolve split_slash
path_under_root root safe_session filename = begins root (
    if starts_with_slash filename
    then resolve [] (split_slash filename)
    else resolve [] (append root (safe_session ∷ split_slash filename)))

abbrev pub files_or_empty : Option (Dict (List ℕ)) → Dict (List ℕ)
files_or_empty none = []
files_or_empty (some files) = files

-- The files of a directory, if it is there.
abbrev pub files_in : Disk → String → Dict (List ℕ)
files_in disk dir = files_or_empty (get disk dir)

-- `create_session_directory`: `mkdir(parents=True, exist_ok=True)`.
unfoldable pub create_session_directory : Disk → String → Disk
create_session_directory disk session_id =
    let dir = sanitize_path_component session_id in put disk dir (files_in disk dir)

-- The bytes under a name of a directory; the rename over an old file replaces it.
unfoldable pub write_file : Disk → String → String → List ℕ → Disk
write_file disk dir filename content = put disk dir (put (files_in disk dir) filename content)

-- `store_file`: the directory is made, the path is checked, the content is written to a temporary
-- file that is renamed to the final one. `false` is the ValueError of a path outside the root.
unfoldable pub store_file :
    List String → Disk → String → String → Option String → List ℕ → Bool × Disk
unfolding create_session_directory write_file
store_file root disk session_id file_id extension file_content =
    let dir = sanitize_path_component session_id in
    let filename = generate_storage_name file_id extension in
    let made = create_session_directory disk session_id in
    if path_under_root root dir filename
    then (true, write_file made dir filename file_content)
    else (false, made)

-- What one `file_obj.read(chunk_size)` does: bytes, none at the end, or an exception.
pub data Read : Type 0 where
  chunk : List ℕ → Read
  raises_value_error raises_other : Read

pub data StoreError : Type 0 where
  outside_root read_value_error read_other : StoreError

-- The loop that copies the stream to the temporary file: what has been read when it ends, or the
-- exception of a read. The list ends where reads return no more bytes.
unfoldable pub read_chunks : List Read → List ℕ → Result StoreError (List ℕ)
read_chunks [] total = ok total
read_chunks (chunk [] ∷ reads) total = ok total
read_chunks (chunk (b ∷ bs) ∷ reads) total = read_chunks reads (append total (b ∷ bs))
read_chunks (raises_value_error ∷ reads) total = err read_value_error
read_chunks (raises_other ∷ reads) total = err read_other

-- The end of `stream_store_file`: the temporary file is renamed, or removed after an exception.
abbrev pub finish_stream :
    Result StoreError (List ℕ) → Disk → String → String → Result StoreError (List ℕ) × Disk
finish_stream (ok content) disk dir filename = (ok content, write_file disk dir filename content)
finish_stream (err e) disk dir filename = (err e, disk)

-- `stream_store_file`
unfoldable pub stream_store_file :
    List String
    → Disk
    → String
    → String
    → Option String
    → List Read
    → Result StoreError (List ℕ) × Disk
unfolding create_session_directory write_file read_chunks
stream_store_file root disk session_id file_id extension reads =
    let dir = sanitize_path_component session_id in
    let filename = generate_storage_name file_id extension in
    let made = create_session_directory disk session_id in
    if path_under_root root dir filename
    then finish_stream (read_chunks reads []) made dir filename
    else (err outside_root, made)

-- `delete_file`: whether the file was there.
unfoldable pub delete_file : Disk → String → String → Option String → Bool × Disk
delete_file disk session_id file_id extension =
    let dir = sanitize_path_component session_id in
    let filename = generate_storage_name file_id extension in
    if is_some (get (files_in disk dir) filename)
    then (true, put disk dir (del (files_in disk dir) filename))
    else (false, disk)

-- `cleanup_session`: an empty directory is removed. The first file of any other is removed, and
-- then counting it under the key "files_deleted", which the result lacks, raises KeyError.
abbrev pub cleanup_directory : Disk → String → Option (Dict (List ℕ)) → Bool × Disk
cleanup_directory disk dir none = (true, disk)
cleanup_directory disk dir (some []) = (true, del disk dir)
cleanup_directory disk dir (some ((filename, content) ∷ files)) = (false, put disk dir files)

-- The same at a session's directory. `false` is the KeyError.
unfoldable pub cleanup_session : Disk → String → Bool × Disk
cleanup_session disk session_id =
    let dir = sanitize_path_component session_id in cleanup_directory disk dir (get disk dir)
