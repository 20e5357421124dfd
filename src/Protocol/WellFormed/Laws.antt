-- ===== src/Protocol/WellFormed/Laws.antt =====
-- `validate` accepts exactly the well-formed specifications.
use ai_kodu_runner.Base.{
  Text, text, text_eq_iff, member, Bool, true, false, Option, none, some, List, [], ◌∷◌, map, any,
  All, is_some, ◌≡◌, ◌⊎◌, ◌↔◌, refl, Result, ok, err, is_ok, arith,
}
use ai_kodu_runner.Protocol.Types.{
  ExecutionRequirements, WorkflowSpec, VerifierSpec, CommandSpec, JobSpec,
}
use ai_kodu_runner.Protocol.Feedback.{validate_feedback_file}
use ai_kodu_runner.Protocol.Validate.{
  v1alpha1, v1beta1, check_execution, empty_command, bad_verifier, check_workflow, validate,
}
use ai_kodu_runner.Protocol.WellFormed.Parts.{
  IsExecution, OnSome, service_name, HasCommand, IsVerifier, IsWorkflow, IsWellFormed,
}
use ai_kodu_runner.Protocol.WellFormed.Tests.{is_empty_iff, nonblank_iff, Fresh-nil}
use ai_kodu_runner.Protocol.WellFormed.Feedback.{validate_feedback_file_iff}
use ai_kodu_runner.Protocol.WellFormed.Loops.{
  check_capabilities_iff, check_services_iff, check_secrets_iff,
}

check_execution_iff :
    (e : Option ExecutionRequirements) → (check_execution e ≡ ok tt) ↔ OnSome IsExecution e
unfolding check_execution
check_execution_iff none = (λ h. tt, λ h. refl)
check_execution_iff (some e) =
    let (to, from) = check_capabilities_iff [] e.capabilities in
    (
      λ h.
          let each = to (ground arith) in
          record { few = ground arith; each = each.0; distinct = each.2 },
      λ h. ground (arith, h.few, from (h.each, Fresh-nil e.capabilities, h.distinct)),
    )

empty_command_iff : (c : Option CommandSpec) → (empty_command c ≡ false) ↔ OnSome HasCommand c
unfolding empty_command
empty_command_iff none = (λ h. tt, λ h. refl)
empty_command_iff (some c) = is_empty_iff c.command

any-IsVerifier_iff : (vs : List VerifierSpec) → (any bad_verifier vs ≡ false) ↔ All IsVerifier vs
unfolding bad_verifier
any-IsVerifier_iff [] = (λ h. tt, λ h. refl)
any-IsVerifier_iff (v ∷ vs) =
    let (to, from) = any-IsVerifier_iff vs in
    let (full, filled) = is_empty_iff v.command in
    let (shown, hidden) = nonblank_iff v.name in
    (
      λ h. (
        record { nonblank = shown (ground arith); nonempty = full (ground arith) },
        to (ground arith),
      ),
      λ h. ground (arith, hidden h.0.nonblank, filled h.0.nonempty, from h.1),
    )

check_workflow_iff :
    (daemon : Bool) (w : Option WorkflowSpec)
    → (check_workflow daemon w ≡ ok tt) ↔ OnSome (IsWorkflow daemon) w
unfolding check_workflow
check_workflow_iff daemon none = (λ h. tt, λ h. refl)
check_workflow_iff daemon (some w) =
    let (initialize, no_initialize) = empty_command_iff w.initialize in
    let (agent, no_agent) = is_empty_iff w.agent.command in
    let (verifiers, no_verifiers) = any-IsVerifier_iff w.verifiers in
    let (to, from) = check_services_iff daemon [] w.services in
    (
      λ h.
          let services = to (ground arith) in
          let (path, valid) = accepted (validate_feedback_file w.feedback_file) (ground arith) in
          record {
            initialize = initialize (ground arith);
            agent = agent (ground arith);
            some_iteration = ground arith;
            few_iterations = ground arith;
            feedback = (path, (validate_feedback_file_iff w.feedback_file path).0 valid);
            verifiers = verifiers (ground arith);
            few_services = ground arith;
            services = services.0;
            distinct = services.2;
          },
      λ h. ground (
        arith,
        no_initialize h.initialize,
        no_agent h.agent,
        h.some_iteration,
        h.few_iterations,
        (validate_feedback_file_iff w.feedback_file h.feedback.0).1 h.feedback.1,
        no_verifiers h.verifiers,
        h.few_services,
        from (h.services, Fresh-nil (map service_name w.services), h.distinct),
      ),
    )
  where
    accepted : (r : Result Text) → is_ok r ≡ true → (path : Text) × (r ≡ ok path)
    accepted (ok path) h = (path, refl)
    accepted (err e) h = cc

-- One of the two texts.
member_pair : (s a b : Text) → (member s (a ∷ b ∷ []) ≡ true) ↔ ((s ≡ a) ⊎ (s ≡ b))
unfolding member
member_pair s a b =
    let first = text_eq_iff a s in
    let second = text_eq_iff b s in
    (λ h. ground (arith, first, second), λ h. ground (arith, first, second))

-- `validate` accepts a specification exactly when it is well formed (versions, executor, requirements,
-- distinct capabilities and service names, commands, iterations, feedback path, images, digests in a
-- daemon, network, secrets), in both contexts. The bytes of names, the feedback path and its parts,
-- the versions and the sizes are spelled out in the predicate.
pub validate_iff :
    (spec : JobSpec) (daemon : Bool) → (validate spec daemon ≡ ok tt) ↔ IsWellFormed daemon spec
unfolding validate
validate_iff spec daemon =
    let (execution, no_execution) = check_execution_iff spec.execution in
    let (workflow, no_workflow) = check_workflow_iff daemon spec.workflow in
    let (secrets, no_secrets) = check_secrets_iff spec.secrets in
    let (full, filled) = is_empty_iff spec.command in
    let (shown, hidden) = nonblank_iff spec.image in
    let version = member_pair spec.api_version v1alpha1 v1beta1 in
    let network = member_pair spec.network.mode (text "bridge") (text "none") in
    let executor = text_eq_iff spec.executor (text "docker") in
    let beta = text_eq_iff spec.api_version v1beta1 in
    (
      λ h. record {
        version = version.0 (ground arith);
        executor = executor.0 (ground arith);
        requirements = λ b. ground (arith, beta.1 b);
        execution = execution (ground arith);
        runs = λ r. full (ground arith);
        workflow = workflow (ground arith);
        image = (shown (ground arith), ground arith);
        pinned = λ d. ground arith;
        network = network.0 (ground arith);
        few_secrets = ground arith;
        secrets = secrets (ground arith);
      },
      λ h. ground (
        arith,
        version.1 h.version,
        executor.1 h.executor,
        beta.0,
        h.requirements,
        no_execution h.execution,
        λ (r : is_some spec.workflow ≡ false). filled (h.runs r),
        no_workflow h.workflow,
        hidden h.image.0,
        h.image.1,
        h.pinned,
        network.1 h.network,
        h.few_secrets,
        no_secrets h.secrets,
      ),
    )
