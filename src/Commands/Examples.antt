-- ===== src/Commands/Examples.antt =====
-- Tests of the commands, and an instance of the theorem on local runs.
use ai_kodu_runner.Base.{
  Text, text, none, List, [], ◌∷◌, ◌++◌, Result, ok, err, bail, ◌≡◌, refl, is_ok, true,
}
use ai_kodu_runner.Config.{RunnerConfig, default_local, platform_from_env}
use ai_kodu_runner.Protocol.{JobSpec, JobResult}
use ai_kodu_runner.Protocol.Sample.{sample, texts}
use ai_kodu_runner.Executor.{
  Executor, factory, doctor, report_lines, check_line, register, insert, lookup, get, select_for,
  satisfies, check_supported, supports, isolation_eq, collect, new_capabilities,
  default_requirements, admission_failure, mock_executor, mock_run, mock_doctor, mock_capabilities,
}
use ai_kodu_runner.Journal
use ai_kodu_runner.Journal.{Tables, calm, next_attempt, max_attempt, get_u32, statement}
use ai_kodu_runner.Policy.{join}
use ai_kodu_runner.Commands.Defs
use ai_kodu_runner.Commands.Defs.{
  Outside, from_path, choose_config, allocate, execute, run_local, clean, main,
}
use ai_kodu_runner.Commands.LocalRuns.{IsAllocated, run_local_lem}

commands : Unit {0}
unfolding texts default_local platform_from_env factory doctor report_lines check_line register
    insert lookup get select_for satisfies check_supported supports isolation_eq collect
    new_capabilities default_requirements admission_failure mock_executor mock_run mock_doctor
    mock_capabilities Journal.◌>>=◌ next_attempt max_attempt get_u32 statement join from_path
    choose_config allocate execute run_local clean main
commands = tt

abbrev given : JobSpec
given = record sample { attempt = 0 }

abbrev show : JobResult → Result Text
show result = ok (result.job_id ++ result.status)

abbrev outside : Outside
outside = record {
  package_version = text "0.3.0";
  default_local = default_local (λ _. none) (text "/work");
  load = λ path. err (bail path);
  read_to_string = λ path. ok path;
  from_json = λ document. ok given;
  docker = λ config. ok (mock_executor (text "now"));
  open_journal = λ path. ok tt;
  display = λ names. [];
  to_string_pretty = show;
  run_daemon = λ config. ok tt;
}

-- The job has been run three times.
abbrev tables : Tables
tables = record {
  jobs =
      record { job_id = given.id; attempt = 3; state = text "destroyed"; updated_at = text "then" }
      ∷ [];
  events = [];
  outbox = [];
}

abbrev printed : List Text
printed = (given.id ++ text "completed") ∷ []

command_tests :
    (main outside Defs.version (calm tables) ≡ (ok (text "ai-kodu-runner 0.3.0" ∷ []), calm tables))
    × (run_local outside (text "job.json") none (calm tables) ≡ (ok printed, calm tables))
    × ((main outside (Defs.cleanup (text "x")) (calm tables)).0 ≡ err (bail (text "x")))
    × (is_ok (main outside Defs.doctor (calm tables)).0 ≡ true)
unfolding commands
command_tests = (refl, refl, refl, refl)

run_local_lem_example :
    (config : RunnerConfig) × (from spec : JobSpec) × (executor : Executor) × (result : JobResult)
    × (line : Text) × (choose_config outside none ≡ ok config)
    × (from_path outside (text "job.json") ≡ ok from)
    × IsAllocated outside from spec tables
    × (outside.docker config ≡ ok executor)
    × (select_for spec ((text "docker", executor) ∷ []) ≡ ok executor)
    × (executor.run spec none ≡ ok result)
    × (show result ≡ ok line)
    × (printed ≡ line ∷ [])
    × (tables ≡ tables)
run_local_lem_example =
    run_local_lem outside (text "job.json") none (calm tables) (calm tables) printed command_tests.1
