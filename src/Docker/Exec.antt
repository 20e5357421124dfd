-- ===== src/Docker/Exec.antt =====
-- `exec_command`: a command run in a container, with its output captured up to the limit.
use ai_kodu_runner.Base.{
  ℕ, ◌+◌, ◌-◌, ℤ, negsuc, Text, text, Bool, false, ◌||◌, Option, none, some, List, [], ◌∷◌, ◌++◌,
  length, take, min, ltb, Result, ok, err, bail,
}
use ai_kodu_runner.Protocol.{CommandSpec}
use ai_kodu_runner.Docker.Output.{LogTurn}
use ai_kodu_runner.Docker.Stream.{emit_log}
use ai_kodu_runner.Docker.Engine.{
  ExecutionTermination, ExecResult, Pick, cancels, expires, takes, StartExecResults, attached,
  detached, Script, Host, World, Run,
}

-- The buffer afterwards, and whether anything was cut.
unfoldable pub append_bounded : (buffer bytes : List ℕ) → (limit : ℕ) → Bool × List ℕ
append_bounded buffer bytes limit =
    let remaining = limit - length buffer in
    let amount = min (length bytes) remaining in
    (ltb amount (length bytes), buffer ++ take amount bytes)

-- The result of a command that the token or the deadline ends: the container is asked to stop.
unfoldable pub interrupt :
    (container : Text)
    → ExecutionTermination
    → (stdout stderr : List ℕ) → (truncated : Bool) → Run ExecResult
interrupt container reason stdout stderr truncated w = (
  ok (record {
    status = negsuc 0;
    stdout = stdout;
    stderr = stderr;
    truncated = truncated;
    termination = some reason;
  }),
  record w { stopped = w.stopped ++ container ∷ [] },
)

-- The result of a command whose output has ended, with -1 for a missing exit code.
unfoldable pub inspect :
    (answer : Result (Option ℤ)) → (stdout stderr : List ℕ) → (truncated : Bool) → Result ExecResult
inspect (err e) stdout stderr truncated = err e
inspect (ok exit_code) stdout stderr truncated = ok (record {
  status = elim exit_code [ none ↦ negsuc 0 | some c ↦ c ];
  stdout = stdout;
  stderr = stderr;
  truncated = truncated;
  termination = none;
})

module _ (max_log_bytes : ℕ) (host : Host) where
  unfoldable pub emit : (stream : Text) → (message : List ℕ) → World → World
  emit stream message w = record w {
    log = emit_log host.from_utf8_lossy host.log_sender stream message w.log;
  }

  unfoldable pub exec_loop :
      (container : Text)
      → (answer : Result (Option ℤ)) → (stdout stderr : List ℕ) → (truncated : Bool) → List LogTurn
      → Run ExecResult
  unfolding emit append_bounded interrupt inspect
  exec_loop container answer out error cut [] w = (inspect answer out error cut, w)
  exec_loop container answer out error cut (LogTurn.cancelled ∷ rest) w =
      interrupt container ExecutionTermination.cancelled out error cut w
  exec_loop container answer out error cut (LogTurn.timed_out ∷ rest) w =
      interrupt container ExecutionTermination.timed_out out error cut w
  exec_loop container answer out error cut (LogTurn.std_out message ∷ rest) w =
      let (more, after) = append_bounded out message max_log_bytes in
      exec_loop container answer after error (cut || more) rest (emit (text "stdout") message w)
  exec_loop container answer out error cut (LogTurn.std_err message ∷ rest) w =
      let (more, after) = append_bounded error message max_log_bytes in
      exec_loop container answer out after (cut || more) rest (emit (text "stderr") message w)
  exec_loop container answer out error cut (LogTurn.other ∷ rest) w =
      exec_loop container answer out error cut rest w
  exec_loop container answer out error cut (LogTurn.failed e ∷ rest) w = (err e, w)

  unfoldable pub exec_started : (container : Text) → Script → Pick StartExecResults → Run ExecResult
  unfolding exec_loop interrupt
  exec_started container script cancels w =
      interrupt container ExecutionTermination.cancelled [] [] false w
  exec_started container script expires w =
      interrupt container ExecutionTermination.timed_out [] [] false w
  exec_started container script (takes (err e)) w = (err e, w)
  exec_started container script (takes (ok (attached output))) w =
      exec_loop container script.inspect_exec [] [] false output w
  exec_started container script (takes (ok detached)) w =
      (err (bail (text "workflow exec unexpectedly detached")), w)

  unfoldable pub exec_created : (container : Text) → Script → Pick (Unit {0}) → Run ExecResult
  unfolding exec_started interrupt
  exec_created container script cancels w =
      interrupt container ExecutionTermination.cancelled [] [] false w
  exec_created container script expires w =
      interrupt container ExecutionTermination.timed_out [] [] false w
  exec_created container script (takes (err e)) w = (err e, w)
  exec_created container script (takes (ok tt)) w =
      exec_started container script script.start_exec w

  -- The command and its result are noted in the history.
  unfoldable pub exec_command : (container : Text) → CommandSpec → Run ExecResult
  unfolding exec_created
  exec_command container command w =
      let script = host.script w.now in
      let (r, end) =
        exec_created container script script.create_exec (record w { now = w.now + 1 }) in
      (
        r,
        record end {
          history =
              end.history ++ record { container = container; command = command; result = r } ∷ [];
        },
      )
