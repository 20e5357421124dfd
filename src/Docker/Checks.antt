-- ===== src/Docker/Checks.antt =====
-- Tests of the clean-up, of the doctor and of the redaction, and instances of their theorems.
use ai_kodu_runner.Base.{
  to_string, bail, is_ok, text, true, none, [], ◌∷◌, length, Result, ok, err, ◌≡◌, refl,
}
use ai_kodu_runner.Protocol.Sample.{texts}
use ai_kodu_runner.Journal.{calm}
use ai_kodu_runner.Docker.Redaction.{cap_diagnostic}
use ai_kodu_runner.Docker.Engine.{Host, World}
use ai_kodu_runner.Docker.Track.{events}
use ai_kodu_runner.Journal.{unfinished, unfinished_rows}
use ai_kodu_runner.Docker.Cleanup.{
  clean_containers, clean_networks, enter_state, destroy_jobs, finish_cleanup, cleanup,
}
use ai_kodu_runner.Docker.Cleared.{destructions}
use ai_kodu_runner.Docker.Cleaned.{IsCleaned, cleanup_lem}
use ai_kodu_runner.Docker.Redaction.{
  Json, string, array, object, no_values, value, no_fields, field, to_ascii_lowercase, is_sensitive,
  redacted, redact_entry, redact_diagnostic_value,
}
use ai_kodu_runner.Docker.Sample.{a_run, host, world}
use ai_kodu_runner.Executor.{DoctorReport, new_capabilities, collect}
use ai_kodu_runner.Docker.Doctor.{docker_capabilities, test_container, probe, docker_doctor}

a_cleanup : Unit {0}
unfolding a_run clean_containers clean_networks enter_state destroy_jobs finish_cleanup cleanup
    unfinished unfinished_rows
a_cleanup = tt

abbrev one_job : World
one_job = record world {
  journal = calm (record {
    jobs = record { job_id = text "j"; attempt = 1; state = text "running"; updated_at = [] } ∷ [];
    events = [];
    outbox = [];
  });
}

abbrev cleaned : World
cleaned = (cleanup host one_job).1

-- An engine that removes nothing.
abbrev refusing : Host
refusing = record host { request = λ _. err (bail (text "busy")) }

cleanup_tests :
    (cleaned.containers ≡ [])
    × (events cleaned ≡ [])
    × (events (cleanup (record host { list_containers = λ _. ok [] }) one_job).1
        ≡ destructions ((text "j", 1) ∷ []))
    × ((cleanup refusing one_job).1.containers ≡ (7 ∷ []) ∷ [])
    × ((cleanup refusing one_job).1.refused ≡ (7 ∷ []) ∷ [])
    × ((cleanup refusing one_job).0 ≡ err (bail (text "cleanup incomplete: busy")))
unfolding a_cleanup to_string
cleanup_tests = (refl, refl, refl, refl, refl, refl)

cleanup_lem_example : IsCleaned host one_job cleaned
unfolding a_cleanup
cleanup_lem_example = cleanup_lem host one_job cleaned refl

abbrev secret_json : Json
secret_json = object (
    field (text "Secrets")
      (array (value (object (field (text "value") (string (text "s")) no_fields)) no_values))
      (field (text "api_key") (string (text "k")) no_fields))

redaction_tests :
    (redact_diagnostic_value secret_json
      ≡ object (
          field
            (text "Secrets")
            (array (value (object (field (text "value") redacted no_fields)) no_values))
            (field (text "api_key") redacted no_fields)))
    × (length (cap_diagnostic (text "ab")) ≡ 2)
unfolding texts cap_diagnostic redact_diagnostic_value redact_entry to_ascii_lowercase is_sensitive
redaction_tests = (refl, refl)

abbrev checked : Result DoctorReport × World
checked = docker_doctor (λ _. ok none) host world

abbrev unreachable : Host
unreachable = record host { request = λ _. err (bail (text "refused")) }

doctor_tests :
    (is_ok checked.0 ≡ true)
    × (checked.1.containers ≡ (7 ∷ []) ∷ [])
    × (checked.1.made ≡ test_container ∷ [])
    × ((docker_doctor (λ _. ok none) unreachable world).0 ≡ err (bail (text "Docker ping")))
unfolding a_run docker_capabilities new_capabilities collect probe docker_doctor
doctor_tests = (refl, refl, refl, refl)
