-- ===== src/Commands/Defs.antt =====
-- `main`: one function for each command.
use ai_kodu_runner.Base.{
  ◌==◌, Text, text, Option, none, some, List, [], ◌∷◌, ◌++◌, Result, ok, err, bail, if◌then◌else◌,
}
use ai_kodu_runner.Config.{RunnerConfig}
use ai_kodu_runner.Protocol.{JobSpec, JobResult}
use ai_kodu_runner.Executor
use ai_kodu_runner.Executor.{factory, get, select_for}
use ai_kodu_runner.Policy.{join}
use ai_kodu_runner.Journal.{Action, ◌>>=◌, ◌>>◌, next_attempt}

-- The subcommands, with their paths.
pub data Command : Type 0 where
  version doctor : Command
  run : (job : Text) (config : Option Text) → Command
  daemon cleanup : (config : Text) → Command

-- What the commands call.
pub record Outside : Type 0 where
  pub package_version : Text
  pub default_local : RunnerConfig
  pub load : (path : Text) → Result RunnerConfig
  pub read_to_string : (path : Text) → Result Text
  pub from_json : (document : Text) → Result JobSpec
  pub docker : RunnerConfig → Result Executor.Executor
  pub open_journal : (path : Text) → Result (Unit {0})
  pub display : List Text → Text
  pub to_string_pretty : JobResult → Result Text
  pub run_daemon : RunnerConfig → Result (Unit {0})

abbrev pub lift {ℓ} : {A : Type ℓ} → Result A → Action A
lift r j = (r, j)

module _ (outside : Outside) where
  -- `JobSpec::from_path`
  unfoldable pub from_path : (path : Text) → Result JobSpec
  from_path path = elim (outside.read_to_string path) [
    | err e ↦ err (bail (text "read job " ++ path))
    | ok document ↦ outside.from_json document
  ]

  unfoldable pub choose_config : Option Text → Result RunnerConfig
  choose_config none = ok outside.default_local
  choose_config (some path) = outside.load path

  -- An attempt of zero is replaced by the next one of the journal.
  unfoldable pub allocate : RunnerConfig → JobSpec → Action JobSpec
  allocate config spec =
      if spec.attempt == 0
      then (do
        lift (outside.open_journal (join config.work_dir (text "runner.db")))
        attempt ← next_attempt spec.id
        lift (ok (record spec { attempt = attempt })))
      else lift (ok spec)

  -- `factory.select_for(&spec)?.run(spec, None).await?`, and the line that is printed
  unfoldable pub execute : RunnerConfig → JobSpec → Action (List Text)
  execute config spec = do
    executors ← lift (factory (outside.docker config))
    executor ← lift (select_for spec executors)
    result ← lift (executor.run spec none)
    line ← lift (outside.to_string_pretty result)
    lift (ok (line ∷ []))

  unfoldable pub run_local : (job : Text) → (config : Option Text) → Action (List Text)
  unfolding from_path choose_config allocate execute
  run_local job path = do
    config ← lift (choose_config path)
    given ← lift (from_path job)
    spec ← allocate config given
    execute config spec

  -- `janitor::cleanup` of the Docker executor
  unfoldable pub clean : (config : Text) → Action (List Text)
  clean path = do
    config ← lift (outside.load path)
    executors ← lift (factory (outside.docker config))
    executor ← lift (get (text "docker") executors)
    lift (executor.cleanup)
    lift (ok [])

  unfoldable pub main : Command → Action (List Text)
  unfolding run_local clean
  main version = lift (ok ((text "ai-kodu-runner " ++ outside.package_version) ∷ []))
  main doctor = lift (Executor.doctor outside.display (outside.docker outside.default_local))
  main (run job config) = run_local job config
  main (cleanup config) = clean config
  main (daemon path) = do
    config ← lift (outside.load path)
    lift (outside.run_daemon config)
    lift (ok [])
