-- ===== src/Journal/Examples.antt =====
-- Runs of the journal, and instances of its theorems.
use ai_kodu_runner.Base.{
  ℕ, ◌<◌, Text, text, text_eq, member, true, false, none, some, [], ◌∷◌, ◌++◌, ◌≡◌, ◌⊎◌, refl,
  arith, ok, err, Error, bail, ◌&&◌, ◌==◌, if◌then◌else◌,
}
use ai_kodu_runner.Lifecycle.{received, completed, as_str}
use ai_kodu_runner.Journal.Defs.{
  OutboxRow, Tables, Journal, calm, statement, ◌>>=◌, ◌>>◌, upsert_job, transition, max_attempt,
  next_attempt, unfinished_rows, insert_outbox, enqueue_completion, order_by_time, undelivered,
  pending_completions, update_outbox, mark_completion_delivered, record_completion_attempt,
}
use ai_kodu_runner.Journal.Jobs.{state_of, listed, transition_effect}
use ai_kodu_runner.Journal.Outbox.{find_row, HasUniqueRows}
use ai_kodu_runner.Journal.Keys.{
  IsKeyed, Calls, none_made, then_call, transition_call, enqueue_call, empty_tables, Calls-IsKeyed,
}

journal : Unit {0}
unfolding text text_eq member statement ◌>>=◌ upsert_job transition max_attempt next_attempt
    unfinished_rows insert_outbox enqueue_completion order_by_time undelivered pending_completions
    update_outbox mark_completion_delivered record_completion_attempt state_of listed find_row
    as_str
journal = tt

abbrev job : Text
job = text "job-1"

-- Attempt 1 was received and completed.
abbrev once : Tables
once =
    ((transition (text "t1") job 1 received >> transition (text "t2") job 1 completed)
      (calm empty_tables)).1.tables

once_tests :
    (state_of job 1 once.jobs ≡ some (text "completed"))
    × (unfinished_rows once.jobs ≡ [])
    × ((next_attempt job (calm once)).0 ≡ ok 2)
    × ((next_attempt (text "other") (calm once)).0 ≡ ok 1)
unfolding journal
once_tests = (refl, refl, refl, refl)

-- The queue survives a retry, and delivery empties it.
abbrev queued : Tables
queued =
    ((enqueue_completion (text "t3") job 2 (text "lease-1") (text "key-1") (text "{}")
        >> record_completion_attempt (text "t4") job 2)
      (calm once)).1.tables

queued_tests :
    ((pending_completions (calm queued)).0
      ≡ ok (
          record {
            job_id = job;
            attempt = 2;
            lease_id = text "lease-1";
            idempotency_key = text "key-1";
            payload = text "{}";
            attempts = 1;
          }
          ∷ []))
    × ((pending_completions (mark_completion_delivered (text "t5") job 2 (calm queued)).1).0
        ≡ ok [])
unfolding journal
queued_tests = (refl, refl)

two_small : 2 < 4294967295
two_small = omega arith

-- The second statement is refused: the state is stored and the event is not.
abbrev faulty : Journal
faulty = record { tables = once; faults = false ∷ true ∷ [] }

faulty_tests :
    ((transition (text "t3") job 2 received faulty).0 ≡ err (bail (text "database error")))
    × (state_of job 2 (transition (text "t3") job 2 received faulty).1.tables.jobs
        ≡ some (text "received"))
unfolding journal
faulty_tests = (refl, refl)

transition_effect_example :
    let t = (transition (text "t3") job 2 received faulty).1.tables in
    (((transition (text "t3") job 2 received faulty).0 ≡ ok tt)
      × ((k : Text) (b : ℕ)
          → state_of k b t.jobs
            ≡ (if text_eq job k && 2 == b then some (as_str received) else state_of k b once.jobs))
      × (t.events
          ≡ once.events
            ++ record { job_id = job; attempt = 2; state = as_str received; at = text "t3" } ∷ []))
    ⊎ (((e : Error) × ((transition (text "t3") job 2 received faulty).0 ≡ err e))
        × (t.events ≡ once.events))
transition_effect_example = transition_effect (text "t3") job 2 received faulty

abbrev queued_row : OutboxRow
queued_row = record {
  job_id = job;
  attempt = 2;
  lease_id = text "lease-1";
  idempotency_key = text "key-1";
  payload = text "{}";
  attempts = 1;
  delivered_at = none;
  updated_at = text "t4";
}

queued_row_found : find_row job 2 queued.outbox ≡ some queued_row
unfolding journal
queued_row_found = refl

empty_outbox : (HasUniqueRows once.outbox) × (find_row job 2 once.outbox ≡ none)
unfolding journal
empty_outbox = (tt, refl)

queued-HasUniqueRows : HasUniqueRows queued.outbox
unfolding journal
queued-HasUniqueRows = (refl, tt)

abbrev new_faulty : Journal
new_faulty = record { tables = empty_tables; faults = false ∷ true ∷ [] }

abbrev after_transition : Journal
after_transition = (transition (text "t1") job 1 received new_faulty).1

two-Calls :
    Calls new_faulty
      (enqueue_completion (text "t2") job 1 (text "l") (text "k") (text "p") after_transition).1
two-Calls =
    then_call (then_call none_made (transition_call (text "t1") job 1 received refl))
      (enqueue_call (text "t2") job 1 (text "l") (text "k") (text "p") refl)

Calls-IsKeyed_example :
    IsKeyed
      (enqueue_completion
        (text "t2")
        job
        1
        (text "l")
        (text "k")
        (text "p")
        after_transition).1.tables
Calls-IsKeyed_example = Calls-IsKeyed two-Calls refl
