-- ===== src/Protocol/Examples.antt =====
-- Tests of the protocol's definitions, and instances of its theorems.
use ai_kodu_runner.Base.{
  Text, text, split, true, false, Option, none, some, [], ◌∷◌, ◌++◌, Result, ok, err, bail, ◌≡◌,
  refl, ◌↔◌, arith,
}
use ai_kodu_runner.Protocol.Types.{container, JobSpec, JobSpecV1beta1, from_v1beta1}
use ai_kodu_runner.Protocol.Feedback.{is_absolute, validate_feedback_file}
use ai_kodu_runner.Protocol.Validate.{v1beta1, validate}
use ai_kodu_runner.Protocol.Outcome.{lines, error_summary}
use ai_kodu_runner.Protocol.Decode.{Codec, from_json}
use ai_kodu_runner.Protocol.WellFormed.{IsWellFormed}
use ai_kodu_runner.Protocol.WellFormed.{validate_iff}
use ai_kodu_runner.Protocol.Paths.{NoParent, feedback_stays_below}
use ai_kodu_runner.Protocol.Sample.{texts, sample, mutable_image}

validate_tests :
    (validate sample true ≡ ok tt)
    × (validate mutable_image false ≡ ok tt)
    × (validate mutable_image true ≡ err (bail (text "daemon jobs require an image digest")))
    × (validate (record sample { api_version = v1beta1 }) false
        ≡ err (bail (text "v1beta1 execution requirements are required")))
unfolding validate validate_feedback_file texts
validate_tests = (refl, refl, refl, refl)

validate_iff_example : (validate sample true ≡ ok tt) ↔ IsWellFormed true sample
validate_iff_example = validate_iff sample true

feedback_tests :
    (validate_feedback_file (text "/workspace/.runner/feedback.md")
      ≡ ok (text ".runner/feedback.md"))
    × (validate_feedback_file (text "../outside.md")
        ≡ err (bail (text "invalid feedback_file path")))
    × (validate_feedback_file (text "/tmp/outside.md")
        ≡ err (bail (text "feedback_file must be inside /workspace")))
    × (validate_feedback_file (text ".runner/./feedback.md")
        ≡ err (bail (text "invalid feedback_file path")))
unfolding validate_feedback_file texts
feedback_tests = (refl, refl, refl, refl)

feedback_stays_below_example :
    (is_absolute (text ".runner/feedback.md") ≡ false)
    × NoParent (split b'/' (text ".runner/feedback.md"))
feedback_stays_below_example =
    feedback_stays_below (text "/workspace/.runner/feedback.md") (text ".runner/feedback.md")
      feedback_tests.0

-- `first\nUnexpected server error\n`
abbrev two_lines : Text
two_lines = text "first" ++ (10 ∷ (text "Unexpected server error" ++ (10 ∷ [])))

summary_tests :
    (error_summary (text "failed") (text "agent output") two_lines
      ≡ some (text "Unexpected server error"))
    × (error_summary (text "completed") [] [] ≡ none)
unfolding error_summary lines texts
summary_tests = (refl, refl)

-- A decoder whose values are specifications already, and whose parser knows one document.
abbrev as_beta : JobSpec → JobSpecV1beta1
as_beta spec = record {
  api_version = spec.api_version;
  id = spec.id;
  attempt = spec.attempt;
  image = spec.image;
  command = spec.command;
  working_directory = spec.working_directory;
  workspace = spec.workspace;
  environment_from_runner = spec.environment_from_runner;
  secrets = spec.secrets;
  resources = spec.resources;
  network = spec.network;
  artifacts = spec.artifacts;
  writable_rootfs = spec.writable_rootfs;
  workflow = spec.workflow;
  execution = record { isolation = container; capabilities = [] };
}

alpha_keeps_version :
    (v s : JobSpec)
    → ◌≡◌ {A = Result JobSpec} (ok v) (ok s)
    → ◌≡◌ {A = Option Text} (some v.api_version) (some s.api_version)
alpha_keeps_version v s h = cc

beta_keeps_version :
    (v : JobSpec) (s : JobSpecV1beta1)
    → ◌≡◌ {A = Result JobSpecV1beta1} (ok (as_beta v)) (ok s)
    → ◌≡◌ {A = Option Text} (some v.api_version) (some s.api_version)
beta_keeps_version v s h = ground arith

abbrev beta_sample : JobSpec
beta_sample = record sample { api_version = v1beta1; executor = text "local" }

abbrev decoder : Codec
decoder = record {
  Value = JobSpec;
  parse = λ _. ok beta_sample;
  version = λ v. some v.api_version;
  alpha = λ v. ok v;
  beta = λ v. ok (as_beta v);
  alpha-version = alpha_keeps_version;
  beta-version = beta_keeps_version;
}

decodes : from_json decoder [] ≡ ok (from_v1beta1 (as_beta beta_sample))
unfolding from_json texts
decodes = refl
