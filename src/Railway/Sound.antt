-- ===== src/Railway/Sound.antt =====
-- The plans of build_dry_run_plan, src/intake/deploy/railway_dry_run.py.
use intake.Prelude.{
  ℕ, String, ◌≡◌, refl, sym, ◌∙◌, Bool, true, false, not, ◌&&◌, ◌||◌, Option, none, some, is_some,
  List, [], ◌∷◌, all, inl, inr, arith, Bool-cases, Option-cases, if◌then◌else◌, ◌==◌, length,
}
use intake.Prelude.Parts.{has_part, split_lines, starts_with}
use intake.Railway.Detection.{
  Machine, first_existing, check_railway_cli, config_paths, linkage_paths,
}
use intake.Railway.Plans.{
  railway_json, generate_env_example, build_dry_run_plan, validate_artifacts,
  can_attempt_deployment, is_ready,
}
use intake.Railway.Clean.{is_clean, is_clean_file, validate_artifacts-valid}

railway_json-clean : is_clean railway_json ≡ true
unfolding has_part split_lines starts_with
railway_json-clean = refl

generate_env_example-clean : is_clean generate_env_example ≡ true
unfolding has_part split_lines starts_with generate_env_example intake.Prelude.Text.strip
generate_env_example-clean = refl

-- Some path exists.
abbrev pub any_exists : (String → Bool) → List String → Bool
any_exists exists [] = false
any_exists exists (p ∷ ps) = exists p || any_exists exists ps

first_existing-some :
    (exists : String → Bool) (ps : List String)
    → is_some (first_existing exists ps) ≡ any_exists exists ps
unfolding first_existing
first_existing-some exists [] = refl
first_existing-some exists (p ∷ ps) =
    let rest = first_existing-some exists ps in
    elim (Bool-cases (exists p)) [ inl there ↦ rw there refl | inr gone ↦ rw gone rest ]

-- What the plan says of the log-in and of the link.
plan-found :
    (m : Machine) (working_dir : String) (artifacts : Bool) (plan_id : String) (now : ℕ)
    → is_ready (build_dry_run_plan m working_dir artifacts plan_id now) ≡ (
        (check_railway_cli m working_dir).present
        && is_some (first_existing m.exists (config_paths m working_dir))
        && is_some (first_existing m.exists (linkage_paths m working_dir)))
unfolding is_ready build_dry_run_plan
plan-found m working_dir artifacts plan_id now =
    elim (Bool-cases (check_railway_cli m working_dir).present) [
      | inr absent ↦ rw absent refl
      | inl present ↦ elim (Option-cases (first_existing m.exists (config_paths m working_dir))) [
        | inl none_there ↦ rw (present, none_there) refl
        | inr (p, found) ↦
            elim (Option-cases (first_existing m.exists (linkage_paths m working_dir))) [
              | inl unlinked ↦ rw (present, found, unlinked) refl
              | inr (q, linked) ↦ rw (present, found, linked) refl
            ]
      ]
    ]

contents-clean :
    (m : Machine) (working_dir : String) (artifacts : Bool) (plan_id : String) (now : ℕ)
    → all is_clean_file (build_dry_run_plan m working_dir artifacts plan_id now).artifact_contents
      ≡ true
unfolding build_dry_run_plan
contents-clean m working_dir false plan_id now = refl
contents-clean m working_dir true plan_id now =
    rw (railway_json-clean, generate_env_example-clean) (ground arith)

attempted :
    (m : Machine) (working_dir : String) (artifacts : Bool) (plan_id : String) (now : ℕ)
    → can_attempt_deployment (build_dry_run_plan m working_dir artifacts plan_id now)
      ≡ (check_railway_cli m working_dir).present
unfolding can_attempt_deployment build_dry_run_plan
attempted m working_dir artifacts plan_id now =
    elim (Bool-cases (check_railway_cli m working_dir).present) [
      | inl present ↦ rw present refl
      | inr absent ↦ rw absent refl
    ]

-- The tool answers for its version, or one of the two look-ups finds it.
abbrev pub is_found : Machine → Bool
is_found m =
    is_some (m.run ("railway" ∷ "--version" ∷ []))
    || is_some (m.run ("command" ∷ "-v" ∷ "railway" ∷ []))
    || is_some (m.run ("which" ∷ "railway" ∷ []))

check_railway_cli-present :
    (m : Machine) (working_dir : String) → (check_railway_cli m working_dir).present ≡ is_found m
unfolding check_railway_cli
check_railway_cli-present m working_dir =
    elim (Option-cases (m.run ("railway" ∷ "--version" ∷ []))) [
      | inr (v, by_version) ↦ rw (by_version) refl
      | inl no_version ↦ elim (Option-cases (m.run ("command" ∷ "-v" ∷ "railway" ∷ []))) [
        | inr (v, by_command) ↦ rw (no_version, by_command) refl
        | inl no_command ↦ elim (Option-cases (m.run ("which" ∷ "railway" ∷ []))) [
          | inr (v, by_which) ↦ rw (no_version, no_command, by_which) refl
          | inl no_which ↦ rw (no_version, no_command, no_which) refl
        ]
      ]
    ]

-- Every plan that is built passes the validation without an issue, since each of its files is
-- clean; it may be attempted exactly if the command line tool is found by one of the three
-- commands; and it counts as ready exactly if besides some configuration file exists in the home or
-- the working directory and some file of a link in the working directory: a railway.json there is
-- enough for both.
pub build_dry_run_plan-IsSound :
    (m : Machine) (working_dir : String) (artifacts : Bool) (plan_id : String) (now : ℕ)
    → let plan = build_dry_run_plan m working_dir artifacts plan_id now in
      (all is_clean_file plan.artifact_contents ≡ true)
      × ((validate_artifacts plan).valid ≡ true)
      × ((length (validate_artifacts plan).issues == 0) ≡ true)
      × (can_attempt_deployment plan ≡ is_found m)
      × (is_ready plan ≡ (
          is_found m
          && (m.exists (Prim.Native.String.◌++◌ m.home "/.railway/config.json")
              || m.exists (Prim.Native.String.◌++◌ m.home "/.railway/credentials")
              || m.exists (Prim.Native.String.◌++◌ working_dir "/.railway.json")
              || m.exists (Prim.Native.String.◌++◌ working_dir "/railway.json"))
          && (m.exists (Prim.Native.String.◌++◌ working_dir "/railway.json")
              || m.exists (Prim.Native.String.◌++◌ working_dir "/.railway.json")
              || m.exists (Prim.Native.String.◌++◌ working_dir "/.railway"))))
build_dry_run_plan-IsSound m working_dir artifacts plan_id now =
    let (valid, agrees) =
      validate_artifacts-valid (build_dry_run_plan m working_dir artifacts plan_id now) in
    let clean = contents-clean m working_dir artifacts plan_id now in
    let cli = check_railway_cli-present m working_dir in
    (
      clean,
      valid ∙ clean,
      sym agrees ∙ valid ∙ clean,
      attempted m working_dir artifacts plan_id now ∙ cli,
      ground (
        arith,
        cli,
        first_existing-some m.exists (config_paths m working_dir),
        first_existing-some m.exists (linkage_paths m working_dir),
        plan-found m working_dir artifacts plan_id now,
      ),
    )
