-- ===== src/Protocol/Outcome.antt =====
-- `error_summary` and the results that the runner builds for a job that did not run to its end.
use mathlib.Core.Option
use ai_kodu_runner.Base.{
  Text, text, text_eq, trim, split, false, Option, none, some, List, [], ◌∷◌, take, reverse,
  is_empty, Error, to_string, ◌==◌, if◌then◌else◌,
}
use ai_kodu_runner.Protocol.Types.{JobSpec, JobResult, execution, FailureInfo}

-- A line break is `\n`, or `\r\n`.
unfoldable pub strip_cr : Text → Text
strip_cr [] = []
strip_cr (c ∷ []) = if c == 13 then [] else c ∷ []
strip_cr (c ∷ d ∷ s) = c ∷ strip_cr (d ∷ s)

-- What follows the last break is a line only if it is not empty.
unfoldable pub broken_lines : List Text → List Text
unfolding strip_cr
broken_lines [] = []
broken_lines (w ∷ []) = if is_empty w then [] else w ∷ []
broken_lines (w ∷ v ∷ ws) = strip_cr w ∷ broken_lines (v ∷ ws)

-- `s.lines()`
unfoldable pub lines : Text → List Text
unfolding broken_lines
lines s = broken_lines (split 10 s)

-- `.find(|line| !line.trim().is_empty())`
unfoldable pub find_line : List Text → Option Text
find_line [] = none
find_line (l ∷ ls) = let rest = find_line ls in if is_empty (trim l) then rest else some l

unfoldable pub summary_source : Text → Text → Text
summary_source stdout stderr = if is_empty (trim stderr) then stdout else stderr

unfoldable pub error_summary : Text → Text → Text → Option Text
unfolding summary_source find_line
error_summary status stdout stderr =
    if text_eq status (text "completed")
    then none
    else Option.map (λ line. take 500 (trim line))
        (find_line (reverse (lines (summary_source stdout stderr))))

-- `JobResult::failed_from_failure`; `now` is the clock's text.
unfoldable pub failed_from_failure : Text → JobSpec → FailureInfo → JobResult
failed_from_failure now spec info = record {
  job_id = spec.id;
  attempt = spec.attempt;
  status = text "failed";
  exit_code = none;
  started_at = now;
  finished_at = now;
  duration_ms = 0;
  log_truncated = false;
  stdout = [];
  stderr = info.message;
  error_summary = some info.message;
  failure = some info;
  failed_phase = none;
  artifacts = [];
  artifact_dir = none;
  sandbox = record { executor = spec.executor; container_id = []; image_id = none };
}

-- `JobResult::failed_from_error`
unfoldable pub failed_from_error : Text → JobSpec → Error → JobResult
unfolding failed_from_failure
failed_from_error now spec error =
    failed_from_failure now spec
      (record { kind = execution; code = text "executor_error"; message = to_string error })
