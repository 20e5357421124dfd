-- ===== src/Docker/Output.antt =====
-- The log loop of `run`, and the status after it. Each turn of the loop is what its `select!` takes.
use ai_kodu_runner.Base.{
  ℕ, ◌+◌, ◌-◌, ℤ, pos, is_zero, Text, text, Bool, true, false, not, ◌||◌, ◌&&◌, Option, none, some,
  List, [], ◌∷◌, ◌++◌, length, take, min, ltb, Result, ok, err, Error, if◌then◌else◌,
}

pub data LogTurn : Type 0 where
  cancelled timed_out : LogTurn
  std_out : (message : List ℕ) → LogTurn
  std_err : (message : List ℕ) → LogTurn
  other : LogTurn
  failed : Error → LogTurn

pub record LogState : Type 0 where
  pub stdout : List ℕ
  pub stderr : List ℕ
  pub log_bytes : ℕ
  pub truncated : Bool
  pub cancellation_requested : Bool
  pub timeout_requested : Bool

abbrev pub no_log : LogState
no_log = record {
  stdout = [];
  stderr = [];
  log_bytes = 0;
  truncated = false;
  cancellation_requested = false;
  timeout_requested = false;
}

-- What is kept of a message, and the state without it: its bytes are counted, and a cut is noted.
unfoldable pub accept : (max_log_bytes : ℕ) → LogState → (message : List ℕ) → List ℕ × LogState
accept max_log_bytes s message =
    if ltb s.log_bytes max_log_bytes
    then (let n = min (length message) (max_log_bytes - s.log_bytes) in
        (
          take n message,
          record s {
            log_bytes = s.log_bytes + n;
            truncated = s.truncated || ltb n (length message);
          },
        ))
    else ([], record s { truncated = true })

unfoldable pub log_loop : (max_log_bytes : ℕ) → LogState → List LogTurn → Result LogState
unfolding accept
log_loop max_log_bytes s [] = ok s
log_loop max_log_bytes s (cancelled ∷ rest) = ok (record s { cancellation_requested = true })
log_loop max_log_bytes s (timed_out ∷ rest) = ok (record s { timeout_requested = true })
log_loop max_log_bytes s (std_out message ∷ rest) =
    let (kept, after) = accept max_log_bytes s message in
    log_loop max_log_bytes (record after { stdout = s.stdout ++ kept }) rest
log_loop max_log_bytes s (std_err message ∷ rest) =
    let (kept, after) = accept max_log_bytes s message in
    log_loop max_log_bytes (record after { stderr = s.stderr ++ kept }) rest
log_loop max_log_bytes s (other ∷ rest) = log_loop max_log_bytes s rest
log_loop max_log_bytes s (failed e ∷ rest) = err e

-- The status by the container's exit code, -1 where it has none, then by the publication, which is
-- asked for only after a completed run.
abbrev pub raw_status : (is_cancelled is_late : Bool) (status : ℤ) → Text
raw_status is_cancelled is_late status =
    if is_cancelled
    then text "cancelled"
    else if is_late
    then text "timed_out"
    else if is_zero status
    then text "completed"
    else text "failed"

-- The final status and the exit code of the result. `token` and `passed` are the token and the
-- deadline after the loop; `published` is the result of `publish_git`.
unfoldable pub final_status :
    LogState
    → (token passed : Bool) → (status : ℤ) → (published : Result (Unit {0})) → Text × Option ℤ
final_status s token passed status published =
    let is_cancelled = s.cancellation_requested || token in
    let is_late = not is_cancelled && (s.timeout_requested || passed) in
    if not is_cancelled && not is_late && is_zero status
    then elim published [
      | ok t ↦ (text "completed", some status)
      | err e ↦ (text "failed", some (pos 1))
    ]
    else (
      raw_status is_cancelled is_late status,
      if not is_cancelled && not is_late then some status else none,
    )
