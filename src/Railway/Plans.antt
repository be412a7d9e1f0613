-- ===== src/Railway/Plans.antt =====
-- The plan and the validation of its artifacts: build_dry_run_plan, _generate_env_example and
-- validate_artifacts of src/intake/deploy/railway_dry_run.py. The text of railway.json is the one
-- that json.dumps makes of the constant configuration.
use Prim.Native.String.{◌++◌}
use intake.Prelude.{
  ℕ, String, Bool, true, false, not, ◌&&◌, ◌||◌, Option, none, some, List, [], ◌∷◌, append, map,
  length, if◌then◌else◌, ◌==◌,
}
use intake.Prelude.Text.{strip}
use intake.Prelude.Parts.{starts_with, ends_with, has_part, split_lines, join_lines}
use intake.Railway.Specs.{DeploymentEnvironmentSpec, hosted_env_specs, forbidden_env_specs}
use intake.Railway.Detection.{Machine, check_railway_cli, check_railway_auth, check_railway_project}

pub record RailwayDryRunPlan : Type 0 where
  pub plan_id : String
  pub railway_cli_present : Bool
  pub railway_cli_version : Option String
  pub railway_cli_path : Option String
  pub railway_authenticated : Option Bool
  pub railway_project_linked : Option Bool
  pub required_env_vars : List DeploymentEnvironmentSpec
  pub forbidden_env_vars : List DeploymentEnvironmentSpec
  pub generated_artifact_paths : List String
  pub artifact_contents : List (String × String)
  pub commands_that_would_run : List String
  pub next_manual_steps : List String
  pub warnings : List String
  pub errors : List String
  pub blocking_issues : List String
  pub created_at : ℕ

abbrev pub is_true : Option Bool → Bool
is_true none = false
is_true (some b) = b

-- `can_attempt_deployment`
unfoldable pub can_attempt_deployment : RailwayDryRunPlan → Bool
can_attempt_deployment p = p.railway_cli_present && length p.blocking_issues == 0

-- `is_ready`
unfoldable pub is_ready : RailwayDryRunPlan → Bool
is_ready p =
    p.railway_cli_present
    && is_true p.railway_authenticated
    && is_true p.railway_project_linked
    && length p.blocking_issues == 0

abbrev pub railway_json : String
railway_json =
    "{\n  \"$schema\": \"https://railway.app/railway.schema.json\",\n  \"build\": {\n    \"builder\": \"NIXPACKS\"\n  },\n  \"deploy\": {\n    \"startCommand\": \"uvicorn intake.app:app --host 0.0.0.0 --port ${PORT:-8000}\",\n    \"healthCheckPath\": \"/health\",\n    \"restartPolicyType\": \"ON_FAILURE\"\n  }\n}"

abbrev pub default_of : Option String → String
default_of none = ""
default_of (some value) = value

abbrev pub env_line : DeploymentEnvironmentSpec → String
env_line spec =
    spec.key
    ++ "="
    ++ (if spec.is_secret then "REDACTED" else default_of spec.default_value)
    ++ " # "
    ++ spec.description

abbrev pub forbidden_line : DeploymentEnvironmentSpec → String
forbidden_line spec = "# " ++ spec.key ++ " = <NEVER SET IN HOSTED> # " ++ spec.description

-- `_generate_env_example`
unfoldable pub generate_env_example : String
unfolding join_lines
generate_env_example = join_lines "# Intake Hosted Backend Environment Variables" (
    "# DO NOT include local-only keys (INTAKE_LOCAL_SIGNING_KEY, etc.)"
    ∷ ""
    ∷ append (map env_line hosted_env_specs) (
        ""
        ∷ "# Forbidden keys (local-only, must never be deployed):"
        ∷ map forbidden_line forbidden_env_specs))

abbrev pub commands_for : (working_dir : String) → (present : Bool) → List String
commands_for working_dir present =
    let commands =
      "# Like: railway login"
      ∷ "# Like: railway link"
      ∷ ("# Like: railway init (in " ++ working_dir ++ ")")
      ∷ "# Like: railway variables set INTAKE_ENV=production"
      ∷ "# Like: railway variables set INTAKE_BASE_URL=https://your-app.up.railway.app"
      ∷ "# Like: railway variables set INTAKE_RP_ID=your-domain.com"
      ∷ "# Like: railway variables set INTAKE_RP_NAME=Intake"
      ∷ "# Like: railway variables set INTAKE_ORIGIN=https://your-app.up.railway.app"
      ∷ "# Like: railway variables set INTAKE_DATABASE_URL=<your-db-url>"
      ∷ "# Like: railway variables set INTAKE_SESSION_SECRET=<generated-secret>"
      ∷ "# Like: railway variables set INTAKE_LOCAL_SYNC_TOKEN=<generated-token>"
      ∷ "# NOTE: INTAKE_LOCAL_SIGNING_KEY and other local-only keys are NOT set"
      ∷ "# NOTE: These commands are for REFERENCE ONLY - they have not been executed"
      ∷ "# To actually deploy: railway up"
      ∷ [] in
    if present then commands else "# INSTALL REQUIRED: npm i -g @railway/cli" ∷ commands

-- `build_dry_run_plan`, with the generated identifier and the time
unfoldable pub build_dry_run_plan :
    Machine
    → (working_dir : String) → (include_artifacts : Bool) → (plan_id : String) → (now : ℕ)
    → RailwayDryRunPlan
unfolding check_railway_cli check_railway_auth check_railway_project generate_env_example
build_dry_run_plan m working_dir include_artifacts plan_id now =
    let cli = check_railway_cli m working_dir in
    let auth = check_railway_auth m working_dir in
    let project = check_railway_project m working_dir in
    let base_build_dir = working_dir ++ "/.build/intake/deploy/railway/" ++ plan_id in
    let artifacts =
      if include_artifacts
      then (base_build_dir ++ "/railway.json", railway_json)
        ∷ (base_build_dir ++ "/.env.hosted.example", generate_env_example)
        ∷ []
      else [] in
    record {
      plan_id = plan_id;
      railway_cli_present = cli.present;
      railway_cli_version = cli.version;
      railway_cli_path = cli.path;
      railway_authenticated =
          if auth.has_config_file then some auth.inferred_authenticated else none;
      railway_project_linked = project.linked;
      required_env_vars = hosted_env_specs;
      forbidden_env_vars = forbidden_env_specs;
      generated_artifact_paths = map (λ a. a.0) artifacts;
      artifact_contents = artifacts;
      commands_that_would_run = commands_for working_dir cli.present;
      next_manual_steps =
          "1. Install Railway CLI: npm i -g @railway/cli" ∷ "2. Authenticate: railway login"
          ∷ "3. Navigate to project directory"
          ∷ "4. Link project: railway link (or create new with railway init)"
          ∷ "5. Set environment variables in Railway dashboard"
          ∷ "6. Ensure local-only keys (INTAKE_LOCAL_SIGNING_KEY, etc.) are NOT deployed"
          ∷ "7. Deploy: railway up (DO NOT RUN - this is a dry-run)" ∷ [];
      warnings =
          "This is a DRY-RUN plan only. No deployment has occurred."
          ∷ "Local private keys are NOT included in this plan."
          ∷ "Ensure INTAKE_DATABASE_URL points to a persistent database."
          ∷ "The INTAKE_DEV_ENCRYPTION_KEY should be replaced with proper encryption in production."
          ∷ "Do not run 'railway up' without reviewing all environment variables." ∷ [];
      errors = [];
      blocking_issues = if cli.present then [] else "Railway CLI is not installed" ∷ [];
      created_at = now;
    }

pub record Validation : Type 0 where
  pub valid : Bool
  pub issues : List String

abbrev pub is_env : String → Bool
is_env path = ends_with ".env.hosted.example" path || ends_with ".env" path

-- One line that may have the key.
abbrev pub check_line : (path key line : String) → Validation → Validation
check_line path key line results =
    if has_part key line && not (starts_with "#" (strip line))
    then record {
      valid = false;
      issues = append results.issues (
          ("FORBIDDEN KEY in "
            ++ path
            ++ ": "
            ++ key
            ++ " found in non-comment line: "
            ++ strip line)
          ∷ []);
    }
    else results

unfoldable pub check_lines : (path key : String) → List String → Validation → Validation
unfolding has_part starts_with strip
check_lines path key [] results = results
check_lines path key (line ∷ lines) results =
    check_lines path key lines (check_line path key line results)

-- The lines are looked at where the key is in the content.
unfoldable pub check_keys :
    (path content : String) → List DeploymentEnvironmentSpec → Validation → Validation
unfolding has_part split_lines check_lines
check_keys path content [] results = results
check_keys path content (spec ∷ specs) results =
    let (line, lines) = split_lines content in
    check_keys path content specs (
      if has_part spec.key content
      then check_lines path spec.key (line ∷ lines) results
      else results)

unfoldable pub check_artifacts : List (String × String) → Validation → Validation
unfolding ends_with check_keys
check_artifacts [] results = results
check_artifacts ((path, content) ∷ artifacts) results =
    check_artifacts artifacts
      (if is_env path then check_keys path content forbidden_env_specs results else results)

-- `validate_artifacts`, whose warnings stay empty
unfoldable pub validate_artifacts : RailwayDryRunPlan → Validation
unfolding check_artifacts
validate_artifacts plan =
    check_artifacts plan.artifact_contents (record { valid = true; issues = [] })
