-- ===== src/Docker/Logs.antt =====
-- The log loop with its effects does what the loop alone does.
use ai_kodu_runner.Base.{◌+◌, ◌≤◌, Text, false, List, [], ◌∷◌, ◌++◌, length, ok, ◌≡◌, refl}
use ai_kodu_runner.Config.{RunnerConfig}
use ai_kodu_runner.Docker.Output.{LogTurn, LogState, no_log, log_loop}
use ai_kodu_runner.Docker.Captured.{written_out, written_err, log_loop_lem}
use ai_kodu_runner.Docker.Engine.{Host, World, update, ◌>>=◌}
use ai_kodu_runner.Docker.RunCommand.{stop_container, container_logs}
use ai_kodu_runner.Docker.Ends.{Ends, Ends-pure, Ends-fail}

module _ (config : RunnerConfig) (host : Host) where
  same_loop :
      (id : Text) (turns : List LogTurn) (s : LogState) (w : World)
      → Ends
          (container_logs config host id s turns)
          w
          (λ after _. log_loop config.limits.max_log_bytes s turns ≡ ok after)
  unfolding container_logs log_loop stop_container update ◌>>=◌ Ends
  same_loop id [] s w = Ends-pure s w _ refl
  same_loop id (LogTurn.cancelled ∷ rest) s w =
      Ends-pure _ (record w { stopped = w.stopped ++ id ∷ [] }) _ refl
  same_loop id (LogTurn.timed_out ∷ rest) s w =
      Ends-pure _ (record w { stopped = w.stopped ++ id ∷ [] }) _ refl
  same_loop id (LogTurn.std_out message ∷ rest) s w = λ a end h. same_loop id rest _ _ a end h
  same_loop id (LogTurn.std_err message ∷ rest) s w = λ a end h. same_loop id rest _ _ a end h
  same_loop id (LogTurn.other ∷ rest) s w = same_loop id rest s w
  same_loop id (LogTurn.failed e ∷ rest) s w = Ends-fail e w _

  -- A container's log that ends without a failure of the stream has captured at most the limit, both
  -- streams together; and where it reports no truncation, each stream is what the container wrote to
  -- it up to the end of the loop.
  pub container_logs_lem :
      (id : Text) (turns : List LogTurn) (w end : World) (after : LogState)
      → container_logs config host id no_log turns w ≡ (ok after, end)
      → (length after.stdout + length after.stderr ≤ config.limits.max_log_bytes)
        × (after.truncated ≡ false
            → (after.stdout ≡ written_out turns) × (after.stderr ≡ written_err turns))
  unfolding Ends
  container_logs_lem id turns w end after h =
      log_loop_lem config.limits.max_log_bytes turns after (same_loop id turns no_log w after end h)
