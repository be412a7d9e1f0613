-- ===== src/Uploads/Storage.antt =====
-- StorageService: src/intake/services/storage_service.py. Paths are texts; a relative path is
-- joined to the root as it stands, without the collapsing of "//" and "/./". The file system does
-- not fail.
use Prim.Native.String.{◌++◌}
use intake.Prelude.{String, Bool, true, false, is_some, if◌then◌else◌}
use intake.Prelude.Text.{is_slash}
use intake.Prelude.Parts.{starts_with}
use intake.Prelude.Dict.{Dict, get, put, del}
use intake.Prelude.Result.{Result, ok, err}

abbrev pub is_absolute : String → Bool
is_absolute String.[] = false
is_absolute (String.◌∷◌ c s) = is_slash c

-- `root / path`: an absolute path replaces the root
abbrev pub join : String → String → String
join root path = if is_absolute path then path else root ++ "/" ++ path

-- The relative path of a new file.
abbrev pub path_for : String → String → String → String
path_for quote_id object_id extension = "quote_" ++ quote_id ++ "/" ++ object_id ++ extension

-- `store_file`, with the generated object identifier: the relative path, or the ValueError
unfoldable pub store_file :
    (root quote_id content extension object_id : String)
    → Dict String
    → Result String String × Dict String
unfolding starts_with
store_file root quote_id content extension object_id files =
    let path = path_for quote_id object_id extension in
    if starts_with root (root ++ "/" ++ path)
    then (ok path, put files path content)
    else (err "Invalid storage path", files)

-- `get_file_path`
unfoldable pub get_file_path : (root relative_path : String) → Result String String
unfolding starts_with
get_file_path root relative_path =
    if starts_with root (join root relative_path)
    then ok (join root relative_path)
    else err "Invalid storage path"

abbrev pub delete_at : Result String String → String → Dict String → Bool × Dict String
delete_at (err e) relative_path files = (false, files)
delete_at (ok path) relative_path files =
    if is_some (get files relative_path) then (true, del files relative_path) else (false, files)

-- `delete_file`, for files below the root
unfoldable pub delete_file : (root relative_path : String) → Dict String → Bool × Dict String
unfolding get_file_path get del
delete_file root relative_path files =
    delete_at (get_file_path root relative_path) relative_path files
