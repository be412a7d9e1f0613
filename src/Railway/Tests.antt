-- ===== src/Railway/Tests.antt =====
-- Runs of src/intake/deploy/railway_dry_run.py at concrete inputs.
use intake.Prelude.{◌≡◌, refl, true, false, some, [], ◌∷◌, all, length, str_eq, ◌==◌}
use intake.Railway.Detection.{Machine, find_version}
use intake.Railway.Plans.{
  RailwayDryRunPlan, build_dry_run_plan, validate_artifacts, can_attempt_deployment, is_ready,
}
use intake.Railway.Clean.{is_clean_file, validate_artifacts-valid}
use intake.Railway.Sound.{is_found, build_dry_run_plan-IsSound}

version : find_version "@railway/cli/4.10.2 linux" ≡ some "4.10.2"
unfolding find_version
version = refl

-- A machine with the command line tool and a railway.json in the working directory.
abbrev machine : Machine
machine = record {
  run = λ command. some "railwayapp 4.5.1";
  which = λ name. some "/bin/railway";
  exists = λ path. str_eq path "/app/railway.json";
  home = "/home/op";
}

abbrev plan : RailwayDryRunPlan
plan = build_dry_run_plan machine "/app" true "0a1b2c3d" 7

-- A plan whose environment file sets a forbidden variable.
abbrev leaky : RailwayDryRunPlan
leaky = record plan {
  artifact_contents = ("/app/.env", "INTAKE_ENV=dev\n  INTAKE_LOCAL_SIGNING_KEY=k") ∷ [];
}

leaky_refused : (validate_artifacts leaky).valid ≡ false
unfolding validate_artifacts
leaky_refused = refl

validate_artifacts-valid_example :
    ((validate_artifacts leaky).valid ≡ all is_clean_file leaky.artifact_contents)
    × ((validate_artifacts leaky).valid ≡ (length (validate_artifacts leaky).issues == 0))
validate_artifacts-valid_example = validate_artifacts-valid leaky

build_dry_run_plan-IsSound_example :
    (all is_clean_file plan.artifact_contents ≡ true)
    × ((validate_artifacts plan).valid ≡ true)
    × ((length (validate_artifacts plan).issues == 0) ≡ true)
    × (can_attempt_deployment plan ≡ is_found machine)
    × (is_ready plan ≡ true)
build_dry_run_plan-IsSound_example = build_dry_run_plan-IsSound machine "/app" true "0a1b2c3d" 7
