-- ===== src/Control/Completion.antt =====
-- Reporting a result: the outbox row is written first, then the control plane is told, up to five
-- times; a restart tells it what is still pending. `now` is the clock's text.
use ai_kodu_runner.Base.{
  ℕ, zero, suc, Text, text, text_eq, decimal, Bool, true, not, Option, none, some, List, [], ◌∷◌,
  ◌++◌, ok, err, bail, if◌then◌else◌,
}
use ai_kodu_runner.Protocol.{JobResult}
use ai_kodu_runner.Journal.{
  Journal, Action, PendingCompletion, ◌>>◌, enqueue_completion, pending_completions,
  mark_completion_delivered, record_completion_attempt,
}
use ai_kodu_runner.Control.Logs.{Answer, is_accepted}

-- `completion_idempotency_key`
unfoldable pub completion_idempotency_key : (job_id : Text) (attempt : ℕ) → Text
completion_idempotency_key job_id attempt = job_id ++ (text ":" ++ decimal attempt)

abbrev pub completion_attempts : ℕ
completion_attempts = 5

-- What one answer leads to: delivery is recorded, or the next attempt is made.
abbrev pub on_answer : Answer → (done retry : Action (Unit {0})) → Action (Unit {0})
on_answer answer done retry = if is_accepted answer then done else retry

-- `answer n` is the answer to the n-th attempt from here; `left` attempts remain.
unfoldable pub completion_loop :
    (now job_id : Text) (attempt : ℕ) (answer : ℕ → Answer) (left : ℕ) → Action (Unit {0})
completion_loop now job_id attempt answer zero j =
    (err (bail (text "job completion retry budget exhausted")), j)
completion_loop now job_id attempt answer (suc left) j =
    (record_completion_attempt now job_id attempt
        >> on_answer (answer 0) (mark_completion_delivered now job_id attempt)
            (completion_loop now job_id attempt (λ n. answer (suc n)) left))
      j

-- The end of `run_leased_job`: a lost log is noted, the result is queued, then told. `payload` is
-- the result as JSON.
unfoldable pub report :
    (to_string : JobResult → Text) (now lease_id : Text) (log_loss : Bool)
    → JobResult
    → (answer : ℕ → Answer) → Action (Unit {0})
report to_string now lease_id log_loss result answer =
    let final = if log_loss then record result { log_truncated = true } else result in
    enqueue_completion now final.job_id final.attempt lease_id
      (completion_idempotency_key final.job_id final.attempt) (to_string final)
    >> completion_loop now final.job_id final.attempt answer completion_attempts

-- One entry of the outbox, on the start of the runner. Nothing that fails stops the replay.
unfoldable pub replay_entry :
    (from_str : Text → Option JobResult) (complete : Text → JobResult → Bool) (now : Text)
    → PendingCompletion
    → Journal
    → Journal
replay_entry from_str complete now entry j = elim (from_str entry.payload) [
  | none ↦ j
  | some result ↦
      if not
        (text_eq entry.idempotency_key (completion_idempotency_key result.job_id result.attempt))
      then j
      else elim (record_completion_attempt now entry.job_id entry.attempt j).0 [
        | err e ↦ (record_completion_attempt now entry.job_id entry.attempt j).1
        | ok t ↦
            if complete entry.lease_id result
            then (mark_completion_delivered now entry.job_id entry.attempt
                (record_completion_attempt now entry.job_id entry.attempt j).1).1
            else (record_completion_attempt now entry.job_id entry.attempt j).1
      ]
]

unfoldable pub replay_entries :
    (from_str : Text → Option JobResult) (complete : Text → JobResult → Bool) (now : Text)
    → List PendingCompletion
    → Journal
    → Journal
unfolding replay_entry
replay_entries from_str complete now [] j = j
replay_entries from_str complete now (entry ∷ rest) j =
    replay_entries from_str complete now rest (replay_entry from_str complete now entry j)

-- `complete` is the control plane's answer to a lease and a result, `from_str` the JSON decoder.
unfoldable pub replay_pending_completions :
    (from_str : Text → Option JobResult) (complete : Text → JobResult → Bool) (now : Text)
    → Journal
    → Journal
unfolding replay_entries
replay_pending_completions from_str complete now j = elim (pending_completions j).0 [
  | err e ↦ (pending_completions j).1
  | ok pending ↦ replay_entries from_str complete now pending (pending_completions j).1
]
