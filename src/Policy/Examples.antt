-- ===== src/Policy/Examples.antt =====
-- Tests of the policy, and instances of its theorems.
use ai_kodu_runner.Base.{
  ◌≤◌, ◌≤ℤ◌, max_ℤ, max, ◌↔◌, map, ◌++◌, All, is_some, pos, Text, text, text_eq, true, Option, none,
  some, [], ◌∷◌, ◌≡◌, refl, ok, err, bail, if◌then◌else◌,
}
use ai_kodu_runner.Protocol.{
  F64, Resources, WorkspaceSpec, SecretSpec, JobSpec, is_absolute, components,
  validate_feedback_file, is_name_byte, is_secret_byte,
}
use ai_kodu_runner.Protocol
use ai_kodu_runner.Protocol.Sample.{sample, texts}
use ai_kodu_runner.Config.{RunnerConfig, Environment, default_local, platform_from_env}
use ai_kodu_runner.Policy.Clamp.{IsCpuWithin, clamp_bounds}
use ai_kodu_runner.Policy.Admission.{IsAdmitted, validate_with_context_iff}
use ai_kodu_runner.Policy.Environment.{variable_entry, secret_entry, environment_for_job_iff}
use ai_kodu_runner.Policy.Defs.{
  daemon, clamp, smallest_cpu, validate, validate_with_context, environment_for_job, join,
  path_starts_with, is_within, canonical_or, check_workspace, check_names, check_policy_secret,
  check_policy_secrets, variable_entries, secret_entries, component_eq, components_start,
}

policy : Unit {0}
unfolding texts validate validate_with_context environment_for_job join path_starts_with is_within
    canonical_or check_workspace check_names check_policy_secrets check_policy_secret
    variable_entries secret_entries clamp default_local component_eq components_start
    platform_from_env
policy = tt

abbrev work_config : RunnerConfig
work_config =
    let base = default_local (λ _. none) (text "/work") in
    record base {
      security = record (base.security) {
        allowed_environment = text "HTTP_PROXY" ∷ text "MODEL_KEY" ∷ [];
      };
    }

-- Resolves a trailing "/." and the directory "/work/link", which points outside.
abbrev resolve : Text → Option Text
resolve p =
    if text_eq p (text "/work/link")
    then some (text "/etc")
    else if text_eq p (text "/work/.")
    then some (text "/work")
    else if text_eq p (text "/work")
    then some (text "/work")
    else none

abbrev asking : JobSpec
asking = record sample { environment_from_runner = text "HTTP_PROXY" ∷ [] }

abbrev outside : JobSpec
outside = record asking { workspace = WorkspaceSpec.local (text "link") }

abbrev granted : Resources
granted = record {
  cpu = F64.num smallest_cpu;
  memory_mb = pos 256;
  pids = pos 64;
  timeout_seconds = 60;
}

abbrev proxy_env : Environment
proxy_env n = if text_eq n (text "HTTP_PROXY") then some (text "http://p") else none

policy_tests :
    (validate resolve asking work_config true ≡ ok granted)
    × (validate resolve outside work_config true
        ≡ err (bail (text "local workspace must be inside configured work_dir")))
    × (environment_for_job proxy_env asking work_config
        ≡ ok (text "HTTP_PROXY=http://p" ∷ text "MODEL_KEY=k" ∷ []))
    × (environment_for_job (λ _. none) asking work_config
        ≡ err (bail (text "missing environment secret: HTTP_PROXY")))
unfolding validate_feedback_file Protocol.validate policy
policy_tests = (refl, refl, refl, refl)

clamp_bounds_example :
    IsCpuWithin work_config.limits.max_cpu (clamp sample.resources work_config).cpu
    × ((pos 16 ≤ℤ (clamp sample.resources work_config).memory_mb)
        × ((clamp sample.resources work_config).memory_mb
            ≤ℤ max_ℤ work_config.limits.max_memory_mb (pos 16)))
    × ((pos 1 ≤ℤ (clamp sample.resources work_config).pids)
        × ((clamp sample.resources work_config).pids ≤ℤ max_ℤ work_config.limits.max_pids (pos 1)))
    × ((1 ≤ (clamp sample.resources work_config).timeout_seconds)
        × ((clamp sample.resources work_config).timeout_seconds
            ≤ max work_config.limits.max_timeout_seconds 1))
clamp_bounds_example = clamp_bounds sample.resources work_config

validate_with_context_iff_example :
    (validate_with_context resolve asking work_config daemon ≡ ok granted) ↔ (
      IsAdmitted resolve work_config daemon asking × (granted ≡ clamp asking.resources work_config))
validate_with_context_iff_example =
    validate_with_context_iff resolve asking work_config daemon granted

admitted : IsAdmitted resolve work_config daemon asking
unfolding validate_feedback_file Protocol.validate policy
admitted = ((validate_with_context_iff resolve asking work_config daemon granted).0 refl).0

environment_for_job_iff_example :
    (environment_for_job proxy_env asking work_config
      ≡ ok (text "HTTP_PROXY=http://p" ∷ text "MODEL_KEY=k" ∷ []))
    ↔ (All (λ k. is_some (proxy_env k) ≡ true) asking.environment_from_runner
        × ((text "HTTP_PROXY=http://p" ∷ text "MODEL_KEY=k" ∷ [])
            ≡ map (variable_entry proxy_env) asking.environment_from_runner
              ++ map secret_entry asking.secrets))
environment_for_job_iff_example =
    environment_for_job_iff proxy_env resolve work_config daemon asking admitted
      (text "HTTP_PROXY=http://p" ∷ text "MODEL_KEY=k" ∷ [])
