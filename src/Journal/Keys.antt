-- ===== src/Journal/Keys.antt =====
-- The primary keys of the journal, over every sequence of its operations.
use ai_kodu_runner.Base.{ℕ, Text, [], ◌≡◌, arith, Result, ok, err, inl, inr}
use ai_kodu_runner.Lifecycle.{State, as_str}
use ai_kodu_runner.Journal.Defs.{
  OutboxRow, write, get_u32, Tables, Journal, Action, proceed, statement, statement-cases, ◌>>=◌,
  transition, next_attempt, unfinished, enqueue_completion, pending_completions, update_outbox,
  deliver, count_attempt, mark_completion_delivered, record_completion_attempt,
}
use ai_kodu_runner.Journal.Jobs.{HasUniqueJobs, HasUniqueJobs-upsert_job}
use ai_kodu_runner.Journal.Outbox.{
  KeepsKey, HasUniqueRows, HasUniqueRows-update_outbox, HasUniqueRows-insert_outbox,
  deliver-KeepsKey, count_attempt-KeepsKey,
}

-- `jobs` and `completion_outbox` hold at most one row for a job's attempt.
pub record IsKeyed (t : Tables) : Type 0 where
  pub jobs : HasUniqueJobs t.jobs
  pub outbox : HasUniqueRows t.outbox

-- What an operation leaves behind, whether it succeeds or fails.
pub record Keeps {ℓ} {A : Type ℓ} (m : Action A) : Type ℓ where
  pub at : (j : Journal) → IsKeyed j.tables → IsKeyed (m j).1.tables

Keeps-statement {ℓ} :
    {A : Type ℓ} (f : Tables → A × Tables)
    → ((t : Tables) → IsKeyed t → IsKeyed (f t).1)
    → Keeps (statement f)
Keeps-statement f keep = record {
  at = λ j h. elim (statement-cases f j) [
    | inl (_, e) ↦ rw e (keep j.tables h)
    | inr (_, e) ↦ rw e h
  ];
}

Keeps-bind {ℓ} :
    {A B : Type ℓ} (m : Action A) (f : A → Action B)
    → Keeps m
    → ((a : A) → Keeps (f a))
    → Keeps (m >>= f)
unfolding ◌>>=◌
Keeps-bind m f km kf = record { at = λ j h. after (m j).0 (m j).1 (km.at j h) }
  where
    after : (r : Result _) (j : Journal) → IsKeyed j.tables → IsKeyed (proceed r f j).1.tables
    after (ok a) j h = (kf a).at j h
    after (err e) j h = h

-- Any method of the journal, called by any thread: the environment chooses which and with what.
pub data Call (j k : Journal) : Type 0 where
  transition_call : (now id : Text) (a : ℕ) (s : State) → k ≡ (transition now id a s j).1 → Call j k
  next_attempt_call : (id : Text) → k ≡ (next_attempt id j).1 → Call j k
  unfinished_call : k ≡ (unfinished j).1 → Call j k
  enqueue_call :
      (now id : Text) (a : ℕ) (lease key payload : Text)
      → k ≡ (enqueue_completion now id a lease key payload j).1
      → Call j k
  pending_call : k ≡ (pending_completions j).1 → Call j k
  deliver_call : (now id : Text) (a : ℕ) → k ≡ (mark_completion_delivered now id a j).1 → Call j k
  attempt_call : (now id : Text) (a : ℕ) → k ≡ (record_completion_attempt now id a j).1 → Call j k

pub data Calls (j : Journal) : Journal → Type 0 where
  none_made : Calls j j
  then_call : {k l : Journal} → Calls j k → Call k l → Calls j l

transition-Keeps : (now id : Text) (a : ℕ) (s : State) → Keeps (transition now id a s)
unfolding transition
transition-Keeps now id a s =
    Keeps-bind _ _
      (Keeps-statement _ (λ t h. record {
        jobs = HasUniqueJobs-upsert_job id a (as_str s) now t.jobs h.jobs;
        outbox = h.outbox;
      }))
      (λ _. Keeps-statement _ (λ t h. record { jobs = h.jobs; outbox = h.outbox }))

get_u32-Keeps : (n : ℕ) → Keeps (get_u32 n)
unfolding get_u32
get_u32-Keeps n = record { at = λ j h. ground (arith, h) }

next_attempt-Keeps : (id : Text) → Keeps (next_attempt id)
unfolding next_attempt
next_attempt-Keeps id = Keeps-bind _ _ (Keeps-statement _ (λ t h. h)) get_u32-Keeps

update-Keeps :
    (id : Text) (a : ℕ) (f : OutboxRow → OutboxRow)
    → KeepsKey f
    → Keeps (write (λ t. record t { outbox = update_outbox id a f t.outbox }))
update-Keeps id a f keep = Keeps-statement _ (λ t h. record {
  jobs = h.jobs;
  outbox = HasUniqueRows-update_outbox id a f keep t.outbox h.outbox;
})

enqueue-Keeps :
    (now id : Text) (a : ℕ) (lease key payload : Text)
    → Keeps (enqueue_completion now id a lease key payload)
unfolding enqueue_completion
enqueue-Keeps now id a lease key payload =
    Keeps-statement _
      (λ t h. record { jobs = h.jobs; outbox = HasUniqueRows-insert_outbox _ t.outbox h.outbox })

Call-IsKeyed : {j k : Journal} → Call j k → IsKeyed j.tables → IsKeyed k.tables
unfolding unfinished pending_completions mark_completion_delivered record_completion_attempt
Call-IsKeyed {j} (transition_call now id a s e) h = rw e ((transition-Keeps now id a s).at j h)
Call-IsKeyed {j} (next_attempt_call id e) h = rw e ((next_attempt-Keeps id).at j h)
Call-IsKeyed {j} (unfinished_call e) h = rw e ((Keeps-statement _ (λ t k. k)).at j h)
Call-IsKeyed {j} (enqueue_call now id a lease key payload e) h =
    rw e ((enqueue-Keeps now id a lease key payload).at j h)
Call-IsKeyed {j} (pending_call e) h = rw e ((Keeps-statement _ (λ t k. k)).at j h)
Call-IsKeyed {j} (deliver_call now id a e) h =
    rw e ((update-Keeps id a (deliver now) (deliver-KeepsKey now)).at j h)
Call-IsKeyed {j} (attempt_call now id a e) h =
    rw e ((update-Keeps id a (count_attempt now) (count_attempt-KeepsKey now)).at j h)

abbrev pub empty_tables : Tables
empty_tables = record { jobs = []; events = []; outbox = [] }

-- Whatever methods are called on a new journal, and whichever of their statements fail, the tables
-- `jobs` and `completion_outbox` hold at most one row for a job's attempt.
pub Calls-IsKeyed : {j k : Journal} → Calls j k → j.tables ≡ empty_tables → IsKeyed k.tables
Calls-IsKeyed none_made e = rw e (record { jobs = tt; outbox = tt })
Calls-IsKeyed (then_call cs c) e = Call-IsKeyed c (Calls-IsKeyed cs e)
