-- ===== src/Executor/Examples.antt =====
-- Tests of the choice of an executor, and instances of its theorems.
use ai_kodu_runner.Base.{
  to_string, text, true, some, [], ◌∷◌, ◌≡◌, ◌↔◌, refl, ok, err, bail, to_string,
}
use ai_kodu_runner.Journal.{text_leb}
use ai_kodu_runner.Protocol.{sandboxed, JobSpec}
use ai_kodu_runner.Protocol.WellFormed.{OnSome}
use ai_kodu_runner.Protocol.Sample.{sample, texts}
use ai_kodu_runner.Executor.Defs.{
  Executor, ExecutorFactory, collect, new_capabilities, supports, isolation_eq, check_supported,
  satisfies, lookup, insert, register, get, admission_failure, default_requirements, select_for,
  names,
}
use ai_kodu_runner.Executor.Mock.{mock_capabilities, mock_run, mock_executor}
use ai_kodu_runner.Executor.Admission.{IsSatisfied, select_for_iff}

choice : Unit {0}
unfolding texts text_leb collect new_capabilities supports isolation_eq check_supported satisfies
    lookup insert register get admission_failure default_requirements select_for mock_capabilities
    mock_run mock_executor
choice = tt

abbrev mock : Executor
mock = mock_executor (text "now")

abbrev registry : ExecutorFactory
registry = (text "docker", mock) ∷ []

abbrev asking : JobSpec
asking = record sample {
  execution = some (record { isolation = sandboxed; capabilities = text "artifacts" ∷ [] });
}

choice_tests :
    (select_for sample registry ≡ ok mock)
    × (select_for asking registry
        ≡ err (
            bail (
              text
                "executor admission failed: executor does not support required isolation: Sandboxed")))
    × (select_for sample [] ≡ err (bail (text "executor is not registered: docker")))
    × (register (text " ") mock [] ≡ err (bail (text "executor name must not be empty")))
    × (names ((text "a", mock) ∷ (text "docker", mock) ∷ []) ≡ text "a" ∷ text "docker" ∷ [])
    × (register (text "a") mock registry ≡ ok ((text "a", mock) ∷ registry))
    × ((mock_run (text "now") sample (some true)).status ≡ text "cancelled")
unfolding choice to_string
choice_tests = (refl, refl, refl, refl, refl, refl, refl)

select_for_iff_example : (select_for sample registry ≡ ok mock) ↔ (
    (lookup sample.executor registry ≡ some mock)
    × OnSome (λ r. IsSatisfied mock.capabilities r) sample.execution)
select_for_iff_example = select_for_iff sample registry mock
