-- ===== src/Journal/Jobs.antt =====
-- The tables `jobs` and `events`: states by key, numbering of attempts, unfinished jobs.
use ai_kodu_runner.Base.{
  ℕ, ◌+◌, ◌-◌, ◌≤◌, ◌<◌, max, Text, text_eq, text_eq_iff, member, Bool, true, false, ◌&&◌, ◌||◌,
  Option, none, some, List, [], ◌∷◌, ◌++◌, All, Bool-cases, ◌≡◌, ◌↔◌, ◌⊎◌, inl, inr, refl, arith,
  ◌==◌, if◌then◌else◌, ok, err, Error,
}
use ai_kodu_runner.Lifecycle.{State, as_str}
use ai_kodu_runner.Journal.Defs.{
  JobRow, Tables, Journal, calm, proceed, statement, statement-cases, ◌>>=◌, upsert_job, transition,
  max_attempt, next_attempt, finished_states, unfinished_rows,
}

abbrev pub same_job : Text → ℕ → JobRow → Bool
same_job id attempt r = text_eq r.job_id id && r.attempt == attempt

-- The state that the journal holds for a job's attempt.
unfoldable pub state_of : Text → ℕ → List JobRow → Option Text
state_of id attempt [] = none
state_of id attempt (r ∷ rs) =
    if same_job id attempt r then some r.state else state_of id attempt rs

-- The primary key: no two rows are about one attempt.
abbrev pub HasUniqueJobs : List JobRow → Type 0
HasUniqueJobs [] = Unit
HasUniqueJobs (r ∷ rs) = (state_of r.job_id r.attempt rs ≡ none) × HasUniqueJobs rs

pub state_of-upsert_job :
    (id : Text) (a : ℕ) (s now : Text) (rs : List JobRow) (j : Text) (b : ℕ)
    → state_of j b (upsert_job id a s now rs)
      ≡ (if text_eq id j && a == b then some s else state_of j b rs)
unfolding state_of upsert_job
state_of-upsert_job id a s now [] j b = refl
state_of-upsert_job id a s now (r ∷ rs) j b = ground (
  arith,
  state_of-upsert_job id a s now rs j b,
  text_eq_iff r.job_id id,
  text_eq_iff r.job_id j,
  text_eq_iff id j,
)

pub HasUniqueJobs-upsert_job :
    (id : Text) (a : ℕ) (s now : Text) (rs : List JobRow)
    → HasUniqueJobs rs
    → HasUniqueJobs (upsert_job id a s now rs)
unfolding state_of upsert_job
HasUniqueJobs-upsert_job id a s now [] h = (refl, tt)
HasUniqueJobs-upsert_job id a s now (r ∷ rs) h = ground (
  arith,
  HasUniqueJobs-upsert_job id a s now rs h.1,
  state_of-upsert_job id a s now rs r.job_id r.attempt,
  text_eq_iff r.job_id id,
  text_eq_iff id r.job_id,
)

-- Every attempt of the job is at most `m`.
abbrev pub AttemptsAtMost : Text → ℕ → List JobRow → Type 0
AttemptsAtMost id m rs = All (λ r. r.job_id ≡ id → r.attempt ≤ m) rs

attempts_below :
    (id : Text) (m : ℕ) (rs : List JobRow) → max_attempt id rs ≤ m → AttemptsAtMost id m rs
unfolding max_attempt
attempts_below id m [] h = tt
attempts_below id m (r ∷ rs) h =
    (λ e. ground (arith, text_eq_iff r.job_id id), attempts_below id m rs (ground arith))

pub max_attempt-upsert_job :
    (id : Text) (a : ℕ) (s now : Text) (rs : List JobRow)
    → max_attempt id (upsert_job id a s now rs) ≡ max a (max_attempt id rs)
unfolding max_attempt upsert_job
max_attempt-upsert_job id a s now [] = ground (arith, text_eq_iff id id)
max_attempt-upsert_job id a s now (r ∷ rs) =
    ground (arith, max_attempt-upsert_job id a s now rs, text_eq_iff r.job_id id)

-- A number that `next_attempt` gives is positive, fits in a `u32` and is above every attempt of the
-- job in the journal; the tables are left as they were.
pub next_attempt_fresh :
    (id : Text) (j : Journal) (n : ℕ)
    → (next_attempt id j).0 ≡ ok n
    → (0 < n)
      × (n ≤ 4294967295)
      × AttemptsAtMost id (n - 1) j.tables.jobs
      × ((next_attempt id j).1.tables ≡ j.tables)
unfolding next_attempt statement ◌>>=◌
next_attempt_fresh id j n h = (
  ground arith,
  ground arith,
  attempts_below id (n - 1) j.tables.jobs (ground arith),
  ground arith,
)

-- After a transition of the attempt that `next_attempt` gave, it gives the number after that: the
-- attempts of a job run locally are counted without a gap.
pub next_attempt_consecutive :
    (now id : Text) (t : Tables) (n : ℕ) (s : State)
    → (next_attempt id (calm t)).0 ≡ ok n
    → n < 4294967295
    → (next_attempt id (transition now id n s (calm t)).1).0 ≡ ok (n + 1)
unfolding next_attempt transition statement ◌>>=◌
next_attempt_consecutive now id t n s h small =
    ground (arith, max_attempt-upsert_job id n (as_str s) now t.jobs)

-- A transition that succeeds stores the state under its key, leaves every other attempt's state, and
-- appends one event; one that fails may have stored the state, but adds no event.
pub transition_effect :
    (now id : Text) (a : ℕ) (s : State) (j : Journal)
    → let t = (transition now id a s j).1.tables in
      (((transition now id a s j).0 ≡ ok tt)
        × ((k : Text) (b : ℕ)
            → state_of k b t.jobs
              ≡ (if text_eq id k && a == b then some (as_str s) else state_of k b j.tables.jobs))
        × (t.events
            ≡ j.tables.events
              ++ record { job_id = id; attempt = a; state = as_str s; at = now } ∷ []))
      ⊎ (((e : Error) × ((transition now id a s j).0 ≡ err e)) × (t.events ≡ j.tables.events))
unfolding transition ◌>>=◌
transition_effect now id a s j = elim (statement-cases store j) [
  | inl (stored, first) ↦ elim (statement-cases note (statement store j).1) [
    | inl (noted, second) ↦ inl (
      rw (stored, proceed) noted,
      λ k b.
          rw (stored, proceed)
            (rw (second, first) (state_of-upsert_job id a (as_str s) now j.tables.jobs k b)),
      rw (stored, proceed) (rw (second, first) refl),
    )
    | inr ((e, refused), kept) ↦
        inr ((e, rw (stored, proceed) refused), rw (stored, proceed) (rw (kept, first) refl))
  ]
  | inr ((e, refused), kept) ↦ inr ((e, rw (refused, proceed)), rw (refused, proceed) (rw kept))
]
  where
    store : Tables → Unit {0} × Tables
    store t = (tt, record t { jobs = upsert_job id a (as_str s) now t.jobs })

    note : Tables → Unit {0} × Tables
    note t = (
      tt,
      record t {
        events = t.events ++ record { job_id = id; attempt = a; state = as_str s; at = now } ∷ [];
      },
    )

-- The pair is in the list.
unfoldable pub listed : Text → ℕ → List (Text × ℕ) → Bool
listed id a [] = false
listed id a ((k, b) ∷ rest) = text_eq k id && b == a || listed id a rest

unlisted :
    (id : Text) (a : ℕ) (rs : List JobRow)
    → state_of id a rs ≡ none
    → listed id a (unfinished_rows rs) ≡ false
unfolding listed unfinished_rows state_of
unlisted id a [] h = refl
unlisted id a (r ∷ rs) h = ground (arith, unlisted id a rs)

-- Under unique keys the unfinished jobs are exactly those whose state is none of the five that count
-- as finished.
pub unfinished_rows_iff :
    (id : Text) (a : ℕ) (rs : List JobRow)
    → HasUniqueJobs rs
    → (listed id a (unfinished_rows rs) ≡ true)
      ↔ ((s : Text) × (state_of id a rs ≡ some s) × (member s finished_states ≡ false))
unfolding listed unfinished_rows state_of
unfinished_rows_iff id a [] h = (λ e. cc, λ e. cc)
unfinished_rows_iff id a (r ∷ rs) h =
    let (to, from) = unfinished_rows_iff id a rs h.1 in
    elim (Bool-cases (same_job id a r)) [
      | inl here ↦
          let absent : listed id a (unfinished_rows rs) ≡ false =
            unlisted id a rs (ground (arith, h.0, text_eq_iff r.job_id id)) in
          rw here (λ e. (r.state, refl, ground (arith, absent)), λ e. ground (arith, e.1, e.2))
      | inr there ↦ rw there (λ e. to (ground arith), λ e. ground (arith, from e))
    ]
