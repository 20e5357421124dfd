-- ===== src/Policy/Defs.antt =====
-- Clamping of resources, admission of a job by the runner's policy, and the job's environment.
-- `canonicalize` is the file system's, and `env` the process environment's.
use ai_kodu_runner.Base.{
  ℤ, pos, min_ℤ, max_ℤ, min, max, Text, text, text_eq, member, is_some, ends_with, Bool, true,
  false, not, ◌||◌, ◌&&◌, Option, none, some, List, [], ◌∷◌, ◌++◌, any, is_empty, Result, ok, err,
  bail, ◌>>=◌, ◌>>◌, bail_if, if◌then◌else◌,
}
use ai_kodu_runner.Protocol
use ai_kodu_runner.Protocol.{
  F64, Resources, WorkspaceSpec, SecretSpec, JobSpec, Component, root_dir, cur_dir, parent_dir,
  normal, is_absolute, components,
}
use ai_kodu_runner.Config.{RunnerConfig, Environment}

pub data ValidationContext : Type 0 where
  local daemon : ValidationContext

abbrev pub requires_digest : ValidationContext → Bool
requires_digest local = false
requires_digest daemon = true

-- `f64::min` and `f64::max`: what is not a number loses.
abbrev pub min_f64 : F64 → F64 → F64
min_f64 F64.nan y = y
min_f64 (F64.num a) F64.nan = F64.num a
min_f64 (F64.num a) (F64.num b) = F64.num (min_ℤ a b)

abbrev pub max_f64 : F64 → F64 → F64
max_f64 F64.nan y = y
max_f64 (F64.num a) F64.nan = F64.num a
max_f64 (F64.num a) (F64.num b) = F64.num (max_ℤ a b)

-- 0.01 by its bit pattern
abbrev pub smallest_cpu : ℤ
smallest_cpu = pos 4576918229304087675

unfoldable pub clamp : Resources → RunnerConfig → Resources
clamp r c = record {
  cpu = max_f64 (min_f64 r.cpu c.limits.max_cpu) (F64.num smallest_cpu);
  memory_mb = max_ℤ (min_ℤ r.memory_mb c.limits.max_memory_mb) (pos 16);
  pids = max_ℤ (min_ℤ r.pids c.limits.max_pids) (pos 1);
  timeout_seconds = max (min r.timeout_seconds c.limits.max_timeout_seconds) 1;
}

-- The first loop: `names` is the hash set.
unfoldable pub check_names : List Text → List Text → Result (List Text)
check_names names [] = ok names
check_names names (name ∷ rest) =
    bail_if (member name names) (text "duplicate secret name: " ++ name)
    >> check_names (name ∷ names) rest

unfoldable pub check_policy_secret : List Text → List Text → SecretSpec → Result (Unit {0})
check_policy_secret allowed names secret = do
  bail_if (not (member secret.name allowed))
      (text "secret is not allowed by local policy: " ++ secret.name)
  bail_if (is_some secret.secret_ref)
      (text "secret_ref is not resolvable by the Community executor")
  bail_if (member secret.name names) (text "duplicate secret name: " ++ secret.name)

-- The second loop goes on with the same set.
unfoldable pub check_policy_secrets : List Text → List Text → List SecretSpec → Result (Unit {0})
check_policy_secrets allowed names [] = ok tt
check_policy_secrets allowed names (secret ∷ rest) =
    check_policy_secret allowed names secret
    >> check_policy_secrets allowed (secret.name ∷ names) rest

-- `path.join(p)`
unfoldable pub join : Text → Text → Text
join root p =
    if is_absolute p
    then p
    else if ends_with (text "/") root || is_empty root
    then root ++ p
    else root ++ (text "/" ++ p)

unfoldable pub component_eq : Component → Component → Bool
component_eq root_dir root_dir = true
component_eq cur_dir cur_dir = true
component_eq parent_dir parent_dir = true
component_eq (normal a) (normal b) = text_eq a b
component_eq _ _ = false

unfoldable pub components_start : List Component → List Component → Bool
components_start [] cs = true
components_start (d ∷ ds) [] = false
components_start (d ∷ ds) (c ∷ cs) = component_eq d c && components_start ds cs

-- `path.starts_with(root)`: by components
unfoldable pub path_starts_with : Text → Text → Bool
unfolding component_eq components_start
path_starts_with path root = components_start (components root) (components path)

module _ (canonicalize : Text → Option Text) where
  unfoldable pub is_within : Text → Text → Bool
  is_within path root = elim (canonicalize path) [ none ↦ false | some p ↦ path_starts_with p root ]

  unfoldable pub canonical_or : Text → Text
  canonical_or path = elim (canonicalize path) [ none ↦ path | some p ↦ p ]

  unfoldable pub check_workspace : Text → WorkspaceSpec → Result (Unit {0})
  check_workspace root (WorkspaceSpec.local path) =
      bail_if (not (is_within (join root path) root))
        (text "local workspace must be inside configured work_dir")
  check_workspace root _ = ok tt

  unfoldable pub validate_with_context :
      JobSpec → RunnerConfig → ValidationContext → Result Resources
  validate_with_context spec c context = do
    Protocol.validate spec (requires_digest context)
    bail_if (not c.security.allow_network && text_eq spec.network.mode (text "bridge"))
        (text "network disabled by local policy")
    bail_if (any (λ x. not (member x c.security.allowed_environment)) spec.environment_from_runner)
        (text "job requests an environment variable not allowed by policy")
    names ← check_names [] spec.environment_from_runner
    check_policy_secrets c.security.allowed_environment names spec.secrets
    check_workspace (canonical_or c.work_dir) spec.workspace
    ok (clamp spec.resources c)

  unfoldable pub validate : JobSpec → RunnerConfig → (in_daemon : Bool) → Result Resources
  validate spec c in_daemon = validate_with_context spec c (if in_daemon then daemon else local)

module _ (env : Environment) where
  unfoldable pub variable_entries : List Text → Result (List Text)
  variable_entries [] = ok []
  variable_entries (key ∷ rest) = elim (env key) [
    | none ↦ err (bail (text "missing environment secret: " ++ key))
    | some value ↦ variable_entries rest >>= λ more. ok ((key ++ (text "=" ++ value)) ∷ more)
  ]

  unfoldable pub secret_entries : List Text → List SecretSpec → Result (List Text)
  secret_entries allowed [] = ok []
  secret_entries allowed (secret ∷ rest) = do
    bail_if (not (member secret.name allowed))
        (text "secret is not allowed by local policy: " ++ secret.name)
    bail_if (is_some secret.secret_ref)
        (text "secret_ref is not resolvable by the Community executor")
    more ← secret_entries allowed rest
    ok ((secret.name ++ (text "=" ++ secret.value)) ∷ more)

  unfoldable pub environment_for_job : JobSpec → RunnerConfig → Result (List Text)
  environment_for_job spec c = do
    variables ← variable_entries spec.environment_from_runner
    secrets ← secret_entries c.security.allowed_environment spec.secrets
    ok (variables ++ secrets)
