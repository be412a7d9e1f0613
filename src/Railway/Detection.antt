-- ===== src/Railway/Detection.antt =====
-- What is looked for on the machine: check_railway_cli, check_railway_auth and
-- check_railway_project of src/intake/deploy/railway_dry_run.py. The commands that are run, the
-- search path and the file system are a record of functions. Paths are texts.
use Prim.Native.Char.{Char, code}
use Prim.Native.String.{◌++◌}
use intake.Prelude.{
  String, Bool, true, false, ◌&&◌, Option, none, some, List, [], ◌∷◌, leb, if◌then◌else◌,
}
use intake.Prelude.Text.{is_empty, is_dot, strip}

-- A command's output if it is found, in time and returns 0; shutil.which; and the paths that exist.
pub record Machine : Type 0 where
  pub run : List String → Option String
  pub which : String → Option String
  pub exists : String → Bool
  pub home : String

pub record RailwayCliInfo : Type 0 where
  pub present : Bool
  pub version : Option String
  pub path : Option String
  pub error : Option String

pub record RailwayAuthInfo : Type 0 where
  pub has_config_file : Bool
  pub config_file_path : Option String
  pub inferred_authenticated : Bool
  pub note : String

pub record RailwayProjectInfo : Type 0 where
  pub project_id : Option String
  pub project_name : Option String
  pub linked : Option Bool
  pub linkage_file : Option String
  pub note : String

abbrev pub is_digit : Char → Bool
is_digit c = leb b'0' (code c) && leb (code c) b'9'

-- The digits that a text begins with, and what follows them.
unfoldable pub digits : String → String × String
digits String.[] = ("", "")
digits (String.◌∷◌ c s) =
    let (found, rest) = digits s in
    if is_digit c then (String.◌∷◌ c found, rest) else ("", String.◌∷◌ c s)

abbrev pub after_dot : String → Option String
after_dot String.[] = none
after_dot (String.◌∷◌ c s) = if is_dot c then some s else none

-- A number, a dot if there is more to come, and the rest of the numbers.
abbrev pub dotted : String → (String → Option String) → String → Option String
dotted number next rest = if is_empty number then none else elim (after_dot rest) [
  | none ↦ none
  | some s ↦ elim (next s) [ none ↦ none | some t ↦ some (number ++ "." ++ t) ]
]

abbrev pub last_number : String → Option String
last_number s = if is_empty (digits s).0 then none else some (digits s).0

abbrev pub version_here : String → Option String
version_here s =
    dotted (digits s).0 (λ t. dotted (digits t).0 last_number (digits t).1) (digits s).1

-- `re.search(r'(\d+\.\d+\.\d+)', s)`
unfoldable pub find_version : String → Option String
unfolding digits
find_version String.[] = none
find_version (String.◌∷◌ c s) =
    let rest = find_version s in
    elim (version_here (String.◌∷◌ c s)) [ none ↦ rest | some v ↦ some v ]

abbrev pub version_or : Option String → String → String
version_or none s = s
version_or (some v) s = v

abbrev pub no_cli : Option String → RailwayCliInfo
no_cli error = record { present = false; version = none; path = none; error = error }

-- The first of the paths that exists.
unfoldable pub first_existing : (String → Bool) → List String → Option String
first_existing exists [] = none
first_existing exists (p ∷ ps) =
    let rest = first_existing exists ps in if exists p then some p else rest

abbrev pub auth_of : Option String → RailwayAuthInfo
auth_of (some p) = record {
  has_config_file = true;
  config_file_path = some p;
  inferred_authenticated = true;
  note = "Config file found - may indicate prior authentication";
}
auth_of none = record {
  has_config_file = false;
  config_file_path = none;
  inferred_authenticated = false;
  note = "No Railway config file found - auth state unknown";
}

abbrev pub project_of : Option String → RailwayProjectInfo
project_of (some p) = record {
  project_id = none;
  project_name = none;
  linked = some true;
  linkage_file = some p;
  note = "Railway config file found at " ++ p;
}
project_of none = record {
  project_id = none;
  project_name = none;
  linked = none;
  linkage_file = none;
  note = "No Railway project config found";
}

module _ (m : Machine) (working_dir : String) where
  -- `_check_via_version_flag`
  abbrev pub check_via_version_flag : Option String → RailwayCliInfo
  check_via_version_flag none = no_cli (some "railway --version failed")
  check_via_version_flag (some stdout) = record {
    present = true;
    version = some (version_or (find_version (strip stdout)) (strip stdout));
    path = m.which "railway";
    error = none;
  }

  -- `_check_via_command_v` and `_check_via_which`
  abbrev pub check_via_path : Option String → RailwayCliInfo
  check_via_path none = no_cli none
  check_via_path (some stdout) = record {
    present = true;
    version = none;
    path = some (strip stdout);
    error = none;
  }

  -- `check_railway_cli`: the first method that finds it
  unfoldable pub check_railway_cli : RailwayCliInfo
  unfolding find_version strip
  check_railway_cli =
      let by_version = check_via_version_flag (m.run ("railway" ∷ "--version" ∷ [])) in
      let by_command = check_via_path (m.run ("command" ∷ "-v" ∷ "railway" ∷ [])) in
      let by_which = check_via_path (m.run ("which" ∷ "railway" ∷ [])) in
      if by_version.present
      then by_version
      else if by_command.present
      then by_command
      else if by_which.present
      then by_which
      else no_cli (some "Railway CLI not found")

  abbrev pub config_paths : List String
  config_paths =
      (m.home ++ "/.railway/config.json")
      ∷ (m.home ++ "/.railway/credentials")
      ∷ (working_dir ++ "/.railway.json")
      ∷ (working_dir ++ "/railway.json")
      ∷ []

  -- `check_railway_auth`
  unfoldable pub check_railway_auth : RailwayAuthInfo
  unfolding first_existing
  check_railway_auth = auth_of (first_existing m.exists config_paths)

  abbrev pub linkage_paths : List String
  linkage_paths =
      (working_dir ++ "/railway.json")
      ∷ (working_dir ++ "/.railway.json")
      ∷ (working_dir ++ "/.railway")
      ∷ []

  -- `check_railway_project`
  unfoldable pub check_railway_project : RailwayProjectInfo
  unfolding first_existing
  check_railway_project = project_of (first_existing m.exists linkage_paths)
