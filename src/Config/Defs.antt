-- ===== src/Config/Defs.antt =====
-- The configuration's records, the platform's form, the defaults, and the runner's token.
use ai_kodu_runner.Base.{
  ℕ, ◌*◌, ℤ, pos, Text, text, strip_prefix, split, is_whitespace, Bool, true, false, not, ◌||◌,
  Option, none, some, List, [], ◌++◌, any, length, is_empty, Result, ok, err, bail, ◌>>=◌, ◌>>◌,
  bail_if, ◌==◌,
}
use ai_kodu_runner.Protocol.{F64, CommandSpec}

pub record DockerConfig : Type 0 where
  pub host : Option Text
  pub pull_policy : Option Text
  pub platform : Text

pub record Limits : Type 0 where
  pub max_cpu : F64
  pub max_memory_mb : ℤ
  pub max_pids : ℤ
  pub max_timeout_seconds : ℕ
  pub max_log_bytes : ℕ
  pub max_artifact_bytes : ℕ
  pub max_artifact_files : ℕ
  pub max_workspace_bytes : ℕ
  pub max_workspace_files : ℕ
  pub max_archive_download_bytes : ℕ

pub record SecurityConfig : Type 0 where
  pub allow_network : Bool
  pub allow_privileged : Bool
  pub allow_host_mounts : Bool
  pub allowed_environment : List Text
  pub mandatory_verifiers : List CommandSpec

pub record RunnerConfig : Type 0 where
  pub server_url : Option Text
  pub runner_token : Option Text
  pub name : Option Text
  pub runner_id : Text
  pub work_dir : Text
  pub concurrency : Option ℕ
  pub docker : DockerConfig
  pub limits : Limits
  pub security : SecurityConfig

-- `env::var`
abbrev pub Environment : Type 0
Environment = Text → Option Text

abbrev pub default_platform : Text
default_platform = text "linux/amd64"

unfoldable pub platform_from_env : Environment → Text
platform_from_env env = elim (env (text "RUNNER_PLATFORM")) [ none ↦ default_platform | some p ↦ p ]

unfoldable pub bad_part : Text → Bool
bad_part part = is_empty part || any is_whitespace part

-- The message also quotes the platform, which is left out here.
unfoldable pub validate_platform : Text → Result (Unit {0})
unfolding bad_part
validate_platform platform =
    let parts = split b'/' platform in
    bail_if (not (length parts == 2 || length parts == 3) || any bad_part parts)
      (text "invalid Docker platform")

-- What `load` does after parsing: the environment's platform wins, the identity is the configured
-- name or a fresh one, and the platform is checked.
unfoldable pub load : Environment → (uuid : Text) → RunnerConfig → Result RunnerConfig
load env uuid parsed = do
  let config = record parsed {
    docker = record (parsed.docker) {
      platform = elim (env (text "RUNNER_PLATFORM")) [ none ↦ parsed.docker.platform | some p ↦ p ];
    };
    runner_id = elim parsed.name [ none ↦ uuid | some n ↦ n ];
  }
  validate_platform config.docker.platform
  ok config

-- The numbers of `default_local` are in order: 4.0 stands at its bit pattern.
unfoldable pub default_local : Environment → (current_dir : Text) → RunnerConfig
unfolding platform_from_env
default_local env current_dir = record {
  server_url = none;
  runner_token = none;
  name = some (text "local");
  runner_id = text "local";
  work_dir = current_dir;
  concurrency = some 1;
  docker = record {
    host = some (text "auto");
    pull_policy = some (text "if-not-present");
    platform = platform_from_env env;
  };
  limits = record {
    max_cpu = F64.num (pos 4616189618054758400);
    max_memory_mb = pos 8192;
    max_pids = pos 512;
    max_timeout_seconds = 3600;
    max_log_bytes = 50 * 1024 * 1024;
    max_artifact_bytes = 500 * 1024 * 1024;
    max_artifact_files = 10_000;
    max_workspace_bytes = 1024 * 1024 * 1024;
    max_workspace_files = 100_000;
    max_archive_download_bytes = 512 * 1024 * 1024;
  };
  security = record {
    allow_network = true;
    allow_privileged = false;
    allow_host_mounts = false;
    allowed_environment = [];
    mandatory_verifiers = [];
  };
}

-- `env:NAME` names a variable, anything else is the token itself.
resolve_value : Environment → Text → Result Text
resolve_value env v = elim (strip_prefix (text "env:") v) [
  | none ↦ ok v
  | some n ↦ elim (env n) [
    | none ↦ err (bail (text "missing secret environment variable " ++ n))
    | some value ↦ ok value
  ]
]

unfoldable pub resolve_token : Environment → RunnerConfig → Result (Option Text)
unfolding resolve_value
resolve_token env c = elim c.runner_token [
  | none ↦ ok none
  | some v ↦ do value ← resolve_value env v; ok (some value)
]
