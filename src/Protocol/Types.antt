-- ===== src/Protocol/Types.antt =====
-- The data of a job: `JobSpec` and its parts, `JobResult` and its parts.
use ai_kodu_runner.Base.{ℕ, ℤ, Text, text, Bool, Option, some, List}

-- `f64`: not a number, or a number by its place in the order of `f64` (the bit pattern, for a
-- positive one; both zeros have one place). `min` and `max` depend on nothing else.
pub data F64 : Type 0 where
  nan : F64
  num : ℤ → F64

pub data IsolationLevel : Type 0 where
  container sandboxed dedicated : IsolationLevel

pub record ExecutionRequirements : Type 0 where
  pub isolation : IsolationLevel
  pub capabilities : List Text

pub data GitPublishMode : Type 0 where
  disabled if_changed required : GitPublishMode

pub record GitWorkspace : Type 0 where
  pub clone_url : Text
  pub base_branch : Text
  pub branch : Text
  pub base_sha : Option Text
  pub head_sha : Option Text
  pub username : Text
  pub token : Text
  pub commit_message : Text
  pub publish_mode : GitPublishMode

-- The fields of the variant `Git` are a record of their own.
pub data WorkspaceSpec : Type 0 where
  local : (path : Text) → WorkspaceSpec
  archive_url : (url : Text) → WorkspaceSpec
  git : GitWorkspace → WorkspaceSpec

pub record Resources : Type 0 where
  pub cpu : F64
  pub memory_mb : ℤ
  pub pids : ℤ
  pub timeout_seconds : ℕ

pub record NetworkSpec : Type 0 where
  pub mode : Text

pub record HealthcheckSpec : Type 0 where
  pub command : List Text
  pub timeout_seconds : ℕ

-- `environment` is a hash map: an association list.
pub record ServiceSpec : Type 0 where
  pub name : Text
  pub image : Text
  pub alias : Option Text
  pub command : List Text
  pub environment : List (Text × Text)
  pub healthcheck : Option HealthcheckSpec

pub record CommandSpec : Type 0 where
  pub command : List Text
  pub working_directory : Option Text

pub record VerifierSpec : Type 0 where
  pub name : Text
  pub command : List Text
  pub working_directory : Option Text
  pub required : Bool

pub record WorkflowSpec : Type 0 where
  pub setup : List CommandSpec
  pub services : List ServiceSpec
  pub initialize : Option CommandSpec
  pub agent : CommandSpec
  pub verifiers : List VerifierSpec
  pub max_iterations : ℕ
  pub feedback_file : Text
  pub publish : Option CommandSpec

pub record SecretSpec : Type 0 where
  pub name : Text
  pub value : Text
  pub secret_ref : Option Text

pub record JobSpec : Type 0 where
  pub api_version : Text
  pub id : Text
  pub attempt : ℕ
  pub executor : Text
  pub execution : Option ExecutionRequirements
  pub image : Text
  pub command : List Text
  pub working_directory : Text
  pub workspace : WorkspaceSpec
  pub environment_from_runner : List Text
  pub secrets : List SecretSpec
  pub resources : Resources
  pub network : NetworkSpec
  pub artifacts : List Text
  pub writable_rootfs : Bool
  pub workflow : Option WorkflowSpec

pub record JobSpecV1beta1 : Type 0 where
  pub api_version : Text
  pub id : Text
  pub attempt : ℕ
  pub image : Text
  pub command : List Text
  pub working_directory : Text
  pub workspace : WorkspaceSpec
  pub environment_from_runner : List Text
  pub secrets : List SecretSpec
  pub resources : Resources
  pub network : NetworkSpec
  pub artifacts : List Text
  pub writable_rootfs : Bool
  pub workflow : Option WorkflowSpec
  pub execution : ExecutionRequirements

-- `impl From<JobSpecV1beta1> for JobSpec`
unfoldable pub from_v1beta1 : JobSpecV1beta1 → JobSpec
from_v1beta1 spec = record {
  api_version = spec.api_version;
  id = spec.id;
  attempt = spec.attempt;
  executor = text "docker";
  execution = some spec.execution;
  image = spec.image;
  command = spec.command;
  working_directory = spec.working_directory;
  workspace = spec.workspace;
  environment_from_runner = spec.environment_from_runner;
  secrets = spec.secrets;
  resources = spec.resources;
  network = spec.network;
  artifacts = spec.artifacts;
  writable_rootfs = spec.writable_rootfs;
  workflow = spec.workflow;
}

pub data FailureKind : Type 0 where
  validation policy secret execution cancellation timeout infrastructure : FailureKind

pub record FailureInfo : Type 0 where
  pub kind : FailureKind
  pub code : Text
  pub message : Text

pub record SandboxResult : Type 0 where
  pub executor : Text
  pub container_id : Text
  pub image_id : Option Text

pub record JobResult : Type 0 where
  pub job_id : Text
  pub attempt : ℕ
  pub status : Text
  pub exit_code : Option ℤ
  pub started_at : Text
  pub finished_at : Text
  pub duration_ms : ℕ
  pub log_truncated : Bool
  pub stdout : Text
  pub stderr : Text
  pub error_summary : Option Text
  pub failure : Option FailureInfo
  pub failed_phase : Option Text
  pub artifacts : List Text
  pub artifact_dir : Option Text
  pub sandbox : SandboxResult

pub record LogChunk : Type 0 where
  pub attempt : ℕ
  pub sequence : ℕ
  pub stream : Text
  pub phase : Text
  pub level : Option Text
  pub message : Text
