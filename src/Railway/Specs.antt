-- ===== src/Railway/Specs.antt =====
-- The environment variables of the hosted backend: the constants of
-- src/intake/deploy/railway_dry_run.py, with DeploymentEnvironmentSpec of src/intake/deploy/models.py.
use intake.Prelude.{String, Bool, true, false, Option, none, some, List, [], ◌∷◌}

pub record DeploymentEnvironmentSpec : Type 0 where
  pub key : String
  pub description : String
  pub required : Bool
  pub is_secret : Bool
  pub default_value : Option String
  pub forbidden : Bool

-- A specification of a required variable, and one of a forbidden one.
abbrev pub hosted : String → String → Bool → Option String → DeploymentEnvironmentSpec
hosted key description is_secret default_value = record {
  key = key;
  description = description;
  required = true;
  is_secret = is_secret;
  default_value = default_value;
  forbidden = false;
}

abbrev pub local_only : String → String → DeploymentEnvironmentSpec
local_only key description = record {
  key = key;
  description = description;
  required = true;
  is_secret = true;
  default_value = none;
  forbidden = true;
}

-- HOSTED_ENV_SPECS
abbrev pub hosted_env_specs : List DeploymentEnvironmentSpec
hosted_env_specs =
    hosted "INTAKE_ENV" "Deployment environment (e.g. production, staging)" false
      (some "production")
    ∷ hosted "INTAKE_BASE_URL" "Public URL of the hosted backend" false none
    ∷ hosted "INTAKE_RP_ID" "WebAuthn RP ID (domain)" false none
    ∷ hosted "INTAKE_RP_NAME" "WebAuthn RP Name" false (some "Intake")
    ∷ hosted "INTAKE_ORIGIN" "Public origin URL" false none
    ∷ hosted "INTAKE_DATABASE_URL" "SQLAlchemy database URL" true none
    ∷ hosted "INTAKE_SESSION_SECRET" "Secret for signing session cookies" true none
    ∷ hosted "INTAKE_LOCAL_SYNC_TOKEN" "Token for sync protocol authentication" true none
    ∷ []

-- FORBIDDEN_ENV_SPECS
abbrev pub forbidden_env_specs : List DeploymentEnvironmentSpec
forbidden_env_specs =
    local_only "INTAKE_LOCAL_SIGNING_KEY" "Local private signing key - LOCAL ONLY"
    ∷ local_only "INTAKE_LOCAL_PRIVATE_DECRYPT_KEY" "Local private decrypt key - LOCAL ONLY"
    ∷ local_only "INTAKE_DEV_ENCRYPTION_KEY"
        "Dev symmetric encryption key - bootstrap only, risky for prod"
    ∷ []
