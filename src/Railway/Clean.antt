-- ===== src/Railway/Clean.antt =====
-- What validate_artifacts of src/intake/deploy/railway_dry_run.py finds.
use intake.Prelude.{
  String, ◌≡◌, refl, sym, ◌∙◌, ap, Bool, true, false, not, ◌&&◌, ◌||◌, List, [], ◌∷◌, append,
  length, all, All, inl, inr, arith, Bool-cases, ◌==◌,
}
use intake.Prelude.Text.{strip}
use intake.Prelude.Parts.{starts_with, ends_with, has_part, split_lines, has_part-line}
use intake.Railway.Specs.{DeploymentEnvironmentSpec, forbidden_env_specs}
use intake.Railway.Plans.{
  RailwayDryRunPlan, Validation, is_env, check_line, check_lines, check_keys, check_artifacts,
  validate_artifacts,
}

-- Two rounds after another.
rounds :
    {v u : Bool} (before here rest : Bool)
    → v ≡ (u && rest)
    → u ≡ (before && here)
    → v ≡ (before && (here && rest))
rounds true here rest e f = e ∙ ap (λ b. b && rest) f
rounds false here rest e f = e ∙ ap (λ b. b && rest) f

all-true {ℓ} :
    {A : Type ℓ} (p : A → Bool) (xs : List A) → All (λ x. p x ≡ true) xs → all p xs ≡ true
all-true p [] h = refl
all-true p (x ∷ xs) (h, hs) = rw h (all-true p xs hs)

-- A line without the key, or a comment.
abbrev pub is_clean_line : (key line : String) → Bool
is_clean_line key line = not (has_part key line) || starts_with "#" (strip line)

abbrev pub lines_of : String → List String
lines_of content = (split_lines content).0 ∷ (split_lines content).1

-- A content of which no line that is not a comment has a forbidden key.
abbrev pub is_clean : String → Bool
is_clean content =
    all (λ key. all (is_clean_line key) (lines_of content))
      ("INTAKE_LOCAL_SIGNING_KEY" ∷ "INTAKE_LOCAL_PRIVATE_DECRYPT_KEY" ∷ "INTAKE_DEV_ENCRYPTION_KEY"
        ∷ [])

-- A file that is not one of the environment is clean whatever it holds.
abbrev pub is_clean_file : String × String → Bool
is_clean_file a = not (ends_with ".env.hosted.example" a.0 || ends_with ".env" a.0) || is_clean a.1

-- The answer says that it is valid where it lists no issue.
abbrev Agrees : Validation → Type 0
Agrees r = r.valid ≡ (length r.issues == 0)

append-length {ℓ} : {A : Type ℓ} (xs : List A) (x : A) → (length (append xs (x ∷ [])) == 0) ≡ false
append-length [] x = ground arith
append-length (y ∷ xs) x = ground arith

check_line-valid :
    (path key line : String) (r : Validation)
    → Agrees r
    → ((check_line path key line r).valid ≡ (r.valid && is_clean_line key line))
      × Agrees (check_line path key line r)
check_line-valid path key line r agrees =
    elim (Bool-cases (has_part key line && not (starts_with "#" (strip line)))) [
      | inl found ↦ rw found (ground arith, sym (append-length r.issues _))
      | inr clean ↦ rw clean (ground arith, agrees)
    ]

check_lines-valid :
    (path key : String) (lines : List String) (r : Validation)
    → Agrees r
    → ((check_lines path key lines r).valid ≡ (r.valid && all (is_clean_line key) lines))
      × Agrees (check_lines path key lines r)
unfolding check_lines
check_lines-valid path key [] r agrees = (ground arith, agrees)
check_lines-valid path key (line ∷ lines) r agrees =
    let (one, agrees') = check_line-valid path key line r agrees in
    let (rest, agrees'') = check_lines-valid path key lines (check_line path key line r) agrees' in
    (rounds r.valid (is_clean_line key line) (all (is_clean_line key) lines) rest one, agrees'')

-- Where the content is without the key, so are its lines.
absent-clean :
    (key content : String)
    → has_part key content ≡ false
    → all (is_clean_line key) (lines_of content) ≡ true
absent-clean key content absent =
    let (line, lines) = has_part-line key content absent in
    all-true (is_clean_line key) (lines_of content)
      (rw line refl, clean_all (split_lines content).1 lines)
  where
    clean_all :
        (lines : List String)
        → All (λ l. has_part key l ≡ false) lines
        → All (λ l. is_clean_line key l ≡ true) lines
    clean_all [] h = tt
    clean_all (l ∷ lines) (h, hs) = (rw h refl, clean_all lines hs)

check_keys-valid :
    (path content : String) (specs : List DeploymentEnvironmentSpec) (r : Validation)
    → Agrees r
    → ((check_keys path content specs r).valid
        ≡ (r.valid && all (λ spec. all (is_clean_line spec.key) (lines_of content)) specs))
      × Agrees (check_keys path content specs r)
unfolding check_keys
check_keys-valid path content [] r agrees = (ground arith, agrees)
check_keys-valid path content (spec ∷ specs) r agrees =
    elim (Bool-cases (has_part spec.key content)) [
      | inl has ↦
          let found = check_lines path spec.key (lines_of content) r in
          let (here, agrees') = check_lines-valid path spec.key (lines_of content) r agrees in
          let (rest, agrees'') = check_keys-valid path content specs found agrees' in
          let clean =
            λ (x : DeploymentEnvironmentSpec). all (is_clean_line x.key) (lines_of content) in
          rw (check_keys, has) (rounds r.valid (clean spec) (all clean specs) rest here, agrees'')
      | inr absent ↦
          let (rest, agrees'') = check_keys-valid path content specs r agrees in
          rw (check_keys, absent, absent-clean spec.key content absent) (rest, agrees'')
    ]

check_artifacts-valid :
    (artifacts : List (String × String)) (r : Validation)
    → Agrees r
    → ((check_artifacts artifacts r).valid ≡ (r.valid && all is_clean_file artifacts))
      × Agrees (check_artifacts artifacts r)
unfolding check_artifacts
check_artifacts-valid [] r agrees = (ground arith, agrees)
check_artifacts-valid ((path, content) ∷ artifacts) r agrees = elim (Bool-cases (is_env path)) [
  | inl env ↦
      let found = check_keys path content forbidden_env_specs r in
      let (here, agrees') = check_keys-valid path content forbidden_env_specs r agrees in
      let (rest, agrees'') = check_artifacts-valid artifacts found agrees' in
      rw (check_artifacts, env)
        (rounds r.valid (is_clean content) (all is_clean_file artifacts) rest here, agrees'')
  | inr other ↦ rw (check_artifacts, other) (check_artifacts-valid artifacts r agrees)
]

-- The answer on a plan is that it is valid exactly if, in each of its environment files, every line
-- that holds one of the three forbidden names is a comment, and it lists issues exactly if not.
-- Nothing else in the files counts, neither a secret that is set nor a variable that is missing.
pub validate_artifacts-valid :
    (plan : RailwayDryRunPlan)
    → ((validate_artifacts plan).valid ≡ all is_clean_file plan.artifact_contents)
      × ((validate_artifacts plan).valid ≡ (length (validate_artifacts plan).issues == 0))
unfolding validate_artifacts
validate_artifacts-valid plan =
    check_artifacts-valid plan.artifact_contents (record { valid = true; issues = [] }) refl
