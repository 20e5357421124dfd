-- ===== src/Protocol/Validate.antt =====
-- `JobSpec::validate`. Each loop of the source is a function of its own; `seen` is the hash set that
-- the loop fills.
use ai_kodu_runner.Base.{
  ℕ, ◌*◌, Text, text, text_eq, byte_len, bytes, trim, contains, contains_whitespace,
  is_ascii_alphanumeric, member, Bool, false, not, ◌&&◌, ◌||◌, Option, none, some, List, [], ◌∷◌,
  length, any, all, is_empty, is_some, Result, ok, ◌>>=◌, ◌>>◌, bail_if, ltb, ◌==◌,
}
use ai_kodu_runner.Protocol.Types.{
  ExecutionRequirements, ServiceSpec, HealthcheckSpec, WorkflowSpec, VerifierSpec, CommandSpec,
  SecretSpec, JobSpec,
}
use ai_kodu_runner.Protocol.Feedback.{validate_feedback_file}

-- The byte tests of the source: letters, digits and some marks.
unfoldable pub is_name_byte : ℕ → Bool
is_name_byte b = is_ascii_alphanumeric b || b == b'_' || b == b'-' || b == b'.'

unfoldable pub is_secret_byte : ℕ → Bool
is_secret_byte b = is_ascii_alphanumeric b || b == b'_'

unfoldable pub bad_capability : List Text → Text → Bool
bad_capability seen capability =
    is_empty capability
    || ltb 64 (byte_len capability)
    || not (all is_name_byte (bytes capability))
    || member capability seen

-- The loop over `execution.capabilities`.
unfoldable pub check_capabilities : List Text → List Text → Result (Unit {0})
check_capabilities seen [] = ok tt
check_capabilities seen (capability ∷ rest) =
    bail_if (bad_capability seen capability) (text "invalid execution capability")
    >> check_capabilities (capability ∷ seen) rest

unfoldable pub check_execution : Option ExecutionRequirements → Result (Unit {0})
check_execution none = ok tt
check_execution (some execution) =
    bail_if (ltb 32 (length execution.capabilities)) (text "too many execution capabilities")
    >> check_capabilities [] execution.capabilities

-- The tests on an optional field, false where it is absent.
unfoldable pub bad_alias : Option Text → Bool
bad_alias none = false
bad_alias (some alias) =
    is_empty (trim alias) || contains_whitespace alias || not (all is_name_byte (bytes alias))

unfoldable pub bad_healthcheck : Option HealthcheckSpec → Bool
bad_healthcheck none = false
bad_healthcheck (some h) =
    is_empty h.command || h.timeout_seconds == 0 || ltb 3600 h.timeout_seconds

unfoldable pub has_digest : Text → Bool
has_digest image = contains (text "@sha256:") image

unfoldable pub bad_service : List Text → ServiceSpec → Bool
bad_service seen service =
    is_empty (trim service.name)
    || member service.name seen
    || is_empty (trim service.image)
    || contains_whitespace service.image
    || not (all is_name_byte (bytes service.name))

-- The body of the loop over `workflow.services`.
unfoldable pub check_service : Bool → List Text → ServiceSpec → Result (Unit {0})
check_service daemon seen service = do
  bail_if (bad_service seen service) (text "invalid workflow service")
  bail_if (daemon && not (has_digest service.image))
      (text "daemon workflow services require image digests")
  bail_if (bad_alias service.alias) (text "invalid workflow service alias")
  bail_if (bad_healthcheck service.healthcheck) (text "invalid workflow service healthcheck")

unfoldable pub check_services : Bool → List Text → List ServiceSpec → Result (Unit {0})
check_services daemon seen [] = ok tt
check_services daemon seen (service ∷ rest) =
    check_service daemon seen service >> check_services daemon (service.name ∷ seen) rest

unfoldable pub empty_command : Option CommandSpec → Bool
empty_command none = false
empty_command (some c) = is_empty c.command

unfoldable pub bad_verifier : VerifierSpec → Bool
bad_verifier v = is_empty (trim v.name) || is_empty v.command

unfoldable pub check_workflow : Bool → Option WorkflowSpec → Result (Unit {0})
check_workflow daemon none = ok tt
check_workflow daemon (some workflow) = do
  bail_if (empty_command workflow.initialize) (text "workflow initialize command must not be empty")
  bail_if (is_empty workflow.agent.command) (text "workflow agent command must not be empty")
  bail_if (workflow.max_iterations == 0 || ltb 20 workflow.max_iterations)
      (text "workflow max_iterations must be between 1 and 20")
  validate_feedback_file workflow.feedback_file >>= λ _. ok tt
  bail_if (any bad_verifier workflow.verifiers)
      (text "workflow verifier names and commands must not be empty")
  bail_if (ltb 16 (length workflow.services)) (text "too many workflow services")
  check_services daemon [] workflow.services

unfoldable pub bad_secret_ref : Option Text → Bool
bad_secret_ref none = false
bad_secret_ref (some r) = is_empty r || ltb 512 (byte_len r)

unfoldable pub bad_secret_name : Text → Bool
bad_secret_name name =
    is_empty name || ltb 128 (byte_len name) || not (all is_secret_byte (bytes name))

-- The body of the loop over `secrets`.
unfoldable pub check_secret : SecretSpec → Result (Unit {0})
check_secret secret = do
  bail_if (bad_secret_name secret.name) (text "invalid secret name")
  bail_if (is_some secret.secret_ref && not (is_empty secret.value))
      (text "secret must use either value or secret_ref")
  bail_if (bad_secret_ref secret.secret_ref) (text "invalid secret_ref")
  bail_if (ltb (64 * 1024) (byte_len secret.value)) (text "secret is too large")

unfoldable pub check_secrets : List SecretSpec → Result (Unit {0})
check_secrets [] = ok tt
check_secrets (secret ∷ rest) = check_secret secret >> check_secrets rest

abbrev pub v1alpha1 : Text
v1alpha1 = text "ai-kodu-runner.dev/v1alpha1"

abbrev pub v1beta1 : Text
v1beta1 = text "ai-kodu-runner.dev/v1beta1"

unfoldable pub validate : JobSpec → Bool → Result (Unit {0})
unfolding is_name_byte is_secret_byte bad_capability check_capabilities check_execution bad_alias
    bad_healthcheck has_digest bad_service check_service check_services empty_command bad_verifier
    check_workflow bad_secret_ref bad_secret_name check_secret check_secrets
validate spec daemon = do
  bail_if (not (member spec.api_version (v1alpha1 ∷ v1beta1 ∷ []))) (text "unsupported api_version")
  bail_if (not (text_eq spec.executor (text "docker"))) (text "unsupported executor")
  bail_if (text_eq spec.api_version v1beta1 && not (is_some spec.execution))
      (text "v1beta1 execution requirements are required")
  check_execution spec.execution
  bail_if (not (is_some spec.workflow) && is_empty spec.command) (text "command must not be empty")
  check_workflow daemon spec.workflow
  bail_if (is_empty (trim spec.image) || contains_whitespace spec.image)
      (text "invalid image reference")
  bail_if (daemon && not (has_digest spec.image)) (text "daemon jobs require an image digest")
  bail_if (not (member spec.network.mode (text "bridge" ∷ text "none" ∷ [])))
      (text "unsupported network mode")
  bail_if (ltb 32 (length spec.secrets)) (text "too many secrets")
  check_secrets spec.secrets
