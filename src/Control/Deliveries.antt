-- ===== src/Control/Deliveries.antt =====
-- What a report leaves in the outbox.
use ai_kodu_runner.Base.{
  ℕ, zero, suc, Text, text_eq, text_eq_iff, Bool, true, false, not, ◌||◌, ◌&&◌, Bool-cases, none,
  any, is_ok, Result, ◌==◌, ◌≡◌, refl, inl, inr, arith, ap, ◌∙◌, if◌then◌else◌,
}
use ai_kodu_runner.Protocol.{JobResult}
use ai_kodu_runner.Journal
use ai_kodu_runner.Journal.{
  Tables, Journal, calm, statement, enqueue_completion, record_completion_attempt,
  mark_completion_delivered, ◌>>◌, update_outbox, insert_outbox, deliver, count_attempt,
}
use ai_kodu_runner.Journal.Outbox.{
  HasUniqueRows, find_row, is_pending, pending_rows, open_row, pending_rows_eq,
  find_row-insert_outbox, mark_delivered-pending, record_attempt-pending, enqueue_first-pending,
  HasUniqueRows-update_outbox, HasUniqueRows-insert_outbox, deliver-KeepsKey,
  count_attempt-KeepsKey,
}
use ai_kodu_runner.Control.Logs.{Answer, is_accepted}
use ai_kodu_runner.Control.Completion.{completion_idempotency_key, completion_loop, report}

-- One of the first answers accepts.
abbrev pub accepted_within : (ℕ → Answer) → ℕ → Bool
accepted_within answer zero = false
accepted_within answer (suc n) = is_accepted (answer 0) || accepted_within (λ k. answer (suc k)) n

-- The journal after the loop: quiet, keyed, and what is pending for a key.
abbrev IsLeft : (id : Text) (a : ℕ) (t : Tables) (done : Bool) → Journal → Type 0
IsLeft id a t done j =
    (t' : Tables) × (j ≡ calm t')
    × HasUniqueRows t'.outbox
    × ((k : Text) (b : ℕ)
        → any (is_pending k b) (pending_rows t') ≡ (
            if done && (text_eq id k && a == b)
            then false
            else any (is_pending k b) (pending_rows t)))

loop_lem :
    (now id : Text) (a : ℕ) (answer : ℕ → Answer) (left : ℕ) (t : Tables)
    → HasUniqueRows t.outbox
    → (is_ok (completion_loop now id a answer left (calm t)).0 ≡ accepted_within answer left)
      × IsLeft id a t
          (accepted_within answer left)
          (completion_loop now id a answer left (calm t)).1
unfolding completion_loop Journal.◌>>=◌ record_completion_attempt mark_completion_delivered
    statement
loop_lem now id a answer zero t u = (refl, (t, refl, u, λ k b. refl))
loop_lem now id a answer (suc left) t u =
    let t1 = record t { outbox = update_outbox id a (count_attempt now) t.outbox } in
    let u1 =
      HasUniqueRows-update_outbox id a (count_attempt now) (count_attempt-KeepsKey now) t.outbox
        u in
    let t2 = record t { outbox = update_outbox id a (deliver now) t1.outbox } in
    let u2 = HasUniqueRows-update_outbox id a (deliver now) (deliver-KeepsKey now) t1.outbox u1 in
    let (value, (t', calm', unique, pending)) =
      loop_lem now id a (λ k. answer (suc k)) left t1 u1 in
    elim (Bool-cases (is_accepted (answer 0))) [
      | inl taken ↦ (
        ground (arith, taken),
        (
          t2,
          ground (arith, taken),
          u2,
          λ k b. ground (
            arith,
            taken,
            mark_delivered-pending now id a t1 k b u1,
            (record_attempt-pending now id a t k b u).0,
          ),
        ),
      )
      | inr refused ↦ (
        ground (arith, refused, value),
        (
          t',
          ground (arith, refused, calm'),
          unique,
          λ k b. ground (arith, refused, pending k b, (record_attempt-pending now id a t k b u).0),
        ),
      )
    ]

-- Queuing for one key leaves what is pending for the others.
enqueue_other :
    (now id : Text) (a : ℕ) (lease key payload : Text) (t : Tables) (k : Text) (b : ℕ)
    → HasUniqueRows t.outbox
    → (text_eq id k && a == b) ≡ false
    → any
        (is_pending k b)
        (pending_rows (enqueue_completion now id a lease key payload (calm t)).1.tables)
      ≡ any (is_pending k b) (pending_rows t)
unfolding enqueue_completion statement
enqueue_other now id a lease key payload t k b u other =
    pending_rows_eq k b (enqueue_completion now id a lease key payload (calm t)).1.tables
      (HasUniqueRows-insert_outbox _ t.outbox u)
    ∙ ap open_row (find_row-insert_outbox _ t.outbox k b)
    ∙ ground (arith, other, pending_rows_eq k b t u)

-- What `report_lem` says, for a key and a payload.
abbrev IsReported :
    (id : Text) (a : ℕ) (t : Tables) (done : Bool) → Result (Unit {0}) × Journal → Type 0
IsReported id a t done (value, j) =
    (is_ok value ≡ done)
    × (any (is_pending id a) (pending_rows j.tables) ≡ not done)
    × ((k : Text) (b : ℕ)
        → (text_eq id k && a == b) ≡ false
        → any (is_pending k b) (pending_rows j.tables) ≡ any (is_pending k b) (pending_rows t))

queue_lem :
    (now id : Text) (a : ℕ) (lease key payload : Text) (answer : ℕ → Answer) (t : Tables)
    → HasUniqueRows t.outbox
    → find_row id a t.outbox ≡ none
    → IsReported id a t (accepted_within answer 5) (
        (enqueue_completion now id a lease key payload >> completion_loop now id a answer 5)
          (calm t))
unfolding Journal.◌>>=◌ enqueue_completion statement
queue_lem now id a lease key payload answer t u fresh =
    let t1 = (enqueue_completion now id a lease key payload (calm t)).1.tables in
    let u1 = HasUniqueRows-insert_outbox _ t.outbox u in
    let (value, (t', calm', unique, pending)) = loop_lem now id a answer 5 t1 u1 in
    (
      value,
      ground (
        arith,
        calm',
        pending id a,
        enqueue_first-pending now id a lease key payload t u fresh,
        text_eq_iff id id,
      ),
      λ k b other. ground (
        arith,
        calm',
        other,
        pending k b,
        enqueue_other now id a lease key payload t k b u other,
      ),
    )

-- A new result is queued and then reported: over a journal that refuses nothing and has no row for
-- it, the report succeeds exactly when one of the first five answers of the control plane accepts it,
-- and the completion is left pending exactly when none does. No other completion becomes pending or
-- stops being so.
pub report_lem :
    (to_string : JobResult → Text) (now lease : Text) (log_loss : Bool) (result : JobResult)
    (answer : ℕ → Answer) (t : Tables)
    → HasUniqueRows t.outbox
    → find_row result.job_id result.attempt t.outbox ≡ none
    → let (value, j) = report to_string now lease log_loss result answer (calm t) in
      (is_ok value ≡ accepted_within answer 5)
      × (any (is_pending result.job_id result.attempt) (pending_rows j.tables)
          ≡ not (accepted_within answer 5))
      × ((k : Text) (b : ℕ)
          → (text_eq result.job_id k && result.attempt == b) ≡ false
          → any (is_pending k b) (pending_rows j.tables) ≡ any (is_pending k b) (pending_rows t))
unfolding report Journal.◌>>=◌
report_lem to_string now lease true result answer t u fresh =
    queue_lem now result.job_id result.attempt lease
      (completion_idempotency_key result.job_id result.attempt)
      (to_string (record result { log_truncated = true })) answer t u fresh
report_lem to_string now lease false result answer t u fresh =
    queue_lem now result.job_id result.attempt lease
      (completion_idempotency_key result.job_id result.attempt) (to_string result) answer t u fresh
