-- ===== src/Protocol/Sample.antt =====
-- A job specification that the tests and the instances of theorems share.
use ai_kodu_runner.Base.{
  pos, text, text_eq, bytes, trim, strip_prefix, contains, contains_char, contains_whitespace,
  is_ascii_alphanumeric, member, split, true, false, none, some, [], ◌∷◌,
}
use ai_kodu_runner.Protocol.Types.{F64, WorkspaceSpec, ServiceSpec, WorkflowSpec, JobSpec}
use ai_kodu_runner.Protocol.Feedback.{is_absolute, components}
use ai_kodu_runner.Protocol.Validate.{v1alpha1, is_name_byte}

-- The functions on texts, opened together.
unfoldable pub texts : Unit {0}
unfolding text text_eq bytes trim strip_prefix contains contains_char contains_whitespace
    is_ascii_alphanumeric member split is_absolute components is_name_byte
texts = tt

abbrev pub database : ServiceSpec
database = record {
  name = text "postgres";
  image = text "postgres:16@sha256:00";
  alias = some (text "db");
  command = [];
  environment = [];
  healthcheck = some (record { command = text "pg_isready" ∷ []; timeout_seconds = 60 });
}

abbrev pub steps : WorkflowSpec
steps = record {
  setup = [];
  services = database ∷ [];
  initialize = none;
  agent = record { command = text "opencode" ∷ []; working_directory = none };
  verifiers =
      record {
        name = text "tests";
        command = text "./ci/run-tests" ∷ [];
        working_directory = none;
        required = true;
      }
      ∷ [];
  max_iterations = 3;
  feedback_file = text "/workspace/.runner/feedback.md";
  publish = none;
}

abbrev pub sample : JobSpec
sample = record {
  api_version = v1alpha1;
  id = text "job-1";
  attempt = 1;
  executor = text "docker";
  execution = none;
  image = text "example/runner@sha256:00";
  command = text "true" ∷ [];
  working_directory = text "/workspace";
  workspace = WorkspaceSpec.local (text ".");
  environment_from_runner = [];
  secrets = record { name = text "MODEL_KEY"; value = text "k"; secret_ref = none } ∷ [];
  resources = record {
    cpu = F64.num (pos 0);
    memory_mb = pos 256;
    pids = pos 64;
    timeout_seconds = 60;
  };
  network = record { mode = text "bridge" };
  artifacts = [];
  writable_rootfs = false;
  workflow = some steps;
}

abbrev pub mutable_image : JobSpec
mutable_image = record sample { image = text "example/runner:latest" }
