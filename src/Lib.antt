-- ===== src/Lib.antt =====
-- ai-kodu-runner: a worker that leases jobs, runs them in one-shot containers and reports results.
--
-- Base holds the shared names: texts as lists of Unicode scalar values with their UTF-8 bytes,
-- `anyhow` results with their errors, lists and tests over the native numbers, signed integers.
--
-- Protocol models crates/runner-protocol/src/lib.rs: the records of a job and its result (Types), the
-- feedback path (Feedback), `JobSpec::validate` with each loop as a function of its own (Validate),
-- `error_summary` and the failed results (Outcome), and `JobSpec::from_json` over the JSON library as a
-- parameter (Decode). WellFormed states what validation means, without the validator.
--
-- Lifecycle models crates/runner-core/src/state.rs. Journal models crates/runner-core/src/journal.rs:
-- each table is the list of its rows, each SQL statement a function on the tables, and the engine may
-- refuse any statement. Config models crates/runner-core/src/config.rs after the TOML is parsed.
--
-- Policy models crates/runner-core/src/policy.rs: `validate_with_context` calls Protocol's validation,
-- then its own loops, then clamps the resources; `environment_for_job` builds the container's
-- environment. The process environment and `canonicalize` are parameters.
--
-- Executor models crates/runner-core/src/executor.rs and mock.rs: capabilities, the registry and the
-- choice of an executor; its child Factory is src/executor/mod.rs. Artifacts models
-- crates/runner-core/src/artifacts.rs: the glob matcher, the export loop over the walk of a directory,
-- and the names made from job identifiers. Workspace models crates/runner-core/src/workspace.rs: the loop that copies a tree (Copy), the loop that unpacks an
-- archive (Archive) after its download (Download), `prepare` with the clone of a repository and the file
-- of exclusions (Prepare), and the publication with git (Publish).
--
-- Control models src/control/mod.rs and src/control/http.rs: the heartbeat task (Heartbeat), the log
-- upload task (Logs), the outcome of a leased job (Dispatch), the report of a result with the replay of
-- what is pending (Completion), which work on Journal's tables, the loop of `run_daemon` as a step
-- relation with the states that it reaches (Daemon), the requests to the control plane with the
-- decoding of a lease (Http), and `run_leased_job` as a whole (Leased), which calls Policy, Executor,
-- Dispatch, Logs, Heartbeat and Completion the way the code does.
--
-- Commands models src/main.rs, src/cli.rs and src/janitor.rs: each subcommand, with the lines that it
-- prints as its result.
--
-- Docker models crates/executor-docker/src/lib.rs as steps on an explicit state, the `World` of Engine.
-- Stream is the log stream, Exec is `exec_command`, Redaction the redaction of diagnostics and errors,
-- Resources and Services what is created for a job, Flow, Setup, Iterations and Workflow the commands of
-- a workflow in their rounds, Job, RunWorkflow and RunCommand the two ways in which `run` runs a job,
-- Cleanup is `cleanup`, Doctor the two `doctor` functions, and FeedbackPath
-- `safe_feedback_path`, over an interface of the file system with two laws. Output is the log loop of a
-- container's run, each turn of which is what its `select!` takes. Frame, Quiet, Ends, Track, Tidy and
-- Serviced are about how each step changes the state: which containers and networks it leaves and which
-- lifecycle states it records; Makes, Profile, Started and Launched are about what containers are made
-- with.
--
-- What comes from outside is an input: a walk or an archive is the list of what the library yields, each
-- item with the state of the token and the deadline where the loop asks for them; the control plane's
-- answers are a function of the call's number, or of its arguments; git is a function of a command;
-- clocks are texts. Where the code makes a fixed number of attempts (three uploads, five completions)
-- the loop recurses on those that are left, so nothing runs out. `decimal` recurses on as many steps as
-- the number has units, which is more than it has digits.
--
-- A container or network that the engine refuses to remove stays in the state of a Docker run, and its
-- identifier is noted as refused. The engine, the clock and the files of a Docker run are a `Host`: its
-- answers are functions of how many answers have been asked for, so that a theorem for every host is one
-- for every order of events.
-- The polls of a health check are counted: `polls` is how many fit before the deadline, and the loop
-- recurses on those that are left, so nothing runs out there either.
--
-- 64-bit sums wrap or are checked as in the source. A `f64` is not a number or a place in the order of
-- numbers. Texts are compared as lists of scalar values, which is the order of their bytes.
--
-- Not modelled: in a Docker run, `safe_feedback_path`, the preparation of the workspace and the walk of
-- the artifacts are answers of the host, not calls of their models, since the run's state holds no files;
-- names and platforms of containers; the telemetry; the file reader of src/control/mock.rs, which nothing
-- uses; the parsing of the command line, of TOML and of JSON, which are other libraries.
pub mod Base
pub mod Protocol
pub mod Lifecycle
pub mod Journal
pub mod Config
pub mod Policy
pub mod Executor
pub mod Artifacts
pub mod Control
pub mod Workspace
pub mod Docker
pub mod Commands
