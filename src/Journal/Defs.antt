-- ===== src/Journal/Defs.antt =====
-- The tables and the operations of the journal. `now` is the text of the clock.
use ai_kodu_runner.Base.{
  ◌≡◌, refl, ◌⊎◌, inl, inr, true, false, Error, ℕ, ◌+◌, max, Text, text, text_eq, member, Bool,
  true, false, ◌&&◌, ◌||◌, Option, none, some, is_some, List, [], ◌∷◌, ◌++◌, map, any, ltb, ◌==◌,
  if◌then◌else◌, Result, ok, err, bail,
}
use ai_kodu_runner.Lifecycle.{State, as_str}

pub record JobRow : Type 0 where
  pub job_id : Text
  pub attempt : ℕ
  pub state : Text
  pub updated_at : Text

pub record EventRow : Type 0 where
  pub job_id : Text
  pub attempt : ℕ
  pub state : Text
  pub at : Text

-- A row of `completion_outbox`
pub record OutboxRow : Type 0 where
  pub job_id : Text
  pub attempt : ℕ
  pub lease_id : Text
  pub idempotency_key : Text
  pub payload : Text
  pub attempts : ℕ
  pub delivered_at : Option Text
  pub updated_at : Text

pub record PendingCompletion : Type 0 where
  pub job_id : Text
  pub attempt : ℕ
  pub lease_id : Text
  pub idempotency_key : Text
  pub payload : Text
  pub attempts : ℕ

pub record Tables : Type 0 where
  pub jobs : List JobRow
  pub events : List EventRow
  pub outbox : List OutboxRow

pub record Journal : Type 0 where
  pub tables : Tables
  pub faults : List Bool

-- A journal whose engine refuses nothing.
abbrev pub calm : Tables → Journal
calm t = record { tables = t; faults = [] }

-- A method that may fail, and what it leaves behind either way.
abbrev pub Action {ℓ} : Type ℓ → Type ℓ
Action A = Journal → Result A × Journal

module _ {ℓ κ} {A : Type ℓ} {B : Type κ} where
  abbrev pub proceed : Result A → (A → Action B) → Action B
  proceed (ok a) f j = f a j
  proceed (err e) f j = (err e, j)

  infixl 5 ◌>>=◌
  unfoldable pub ◌>>=◌ : Action A → (A → Action B) → Action B
  ◌>>=◌ m f j = let (r, j') = m j in proceed r f j'

infixl 5 ◌>>◌
abbrev pub ◌>>◌ {ℓ} : {B : Type ℓ} → Action (Unit {0}) → Action B → Action B
m >> k = m >>= λ _. k

-- One statement: it is refused, or `f` answers and writes.
unfoldable pub statement {ℓ} : {A : Type ℓ} → (Tables → A × Tables) → Action A
statement f j = elim j.faults [
  | [] ↦ (ok (f j.tables).0, record j { tables = (f j.tables).1 })
  | fault ∷ rest ↦
      if fault
      then (err (bail (text "database error")), record j { faults = rest })
      else (ok (f j.tables).0, record { tables = (f j.tables).1; faults = rest })
]

abbrev pub write : (Tables → Tables) → Action (Unit {0})
write f = statement (λ t. (tt, f t))

abbrev pub read {ℓ} : {A : Type ℓ} → (Tables → A) → Action A
read f = statement (λ t. (f t, t))

-- `INSERT INTO jobs … ON CONFLICT(job_id,attempt) DO UPDATE SET …`
unfoldable pub upsert_job : Text → ℕ → Text → Text → List JobRow → List JobRow
upsert_job id attempt state now [] =
    record { job_id = id; attempt = attempt; state = state; updated_at = now } ∷ []
upsert_job id attempt state now (r ∷ rs) =
    if text_eq r.job_id id && r.attempt == attempt
    then record r { state = state; updated_at = now } ∷ rs
    else r ∷ upsert_job id attempt state now rs

-- Two statements, with no transaction round them.
unfoldable pub transition : Text → Text → ℕ → State → Action (Unit {0})
transition now id attempt state = do
  write (λ t. record t { jobs = upsert_job id attempt (as_str state) now t.jobs })
  write (λ t. record t {
    events =
        t.events ++ record { job_id = id; attempt = attempt; state = as_str state; at = now } ∷ [];
  })

-- `COALESCE(MAX(attempt), 0)` over the rows of a job
unfoldable pub max_attempt : Text → List JobRow → ℕ
max_attempt id [] = 0
max_attempt id (r ∷ rs) =
    if text_eq r.job_id id then max r.attempt (max_attempt id rs) else max_attempt id rs

-- `row.get` refuses what is no `u32`.
unfoldable pub get_u32 : ℕ → Action ℕ
get_u32 n j = if ltb 4294967295 n then (err (bail (text "integer out of range")), j) else (ok n, j)

unfoldable pub next_attempt : Text → Action ℕ
unfolding get_u32
next_attempt id = do next ← read (λ t. max_attempt id t.jobs + 1); get_u32 next

-- The states after which a job counts as finished.
abbrev pub finished_states : List Text
finished_states =
    text "destroyed" ∷ text "completed" ∷ text "failed" ∷ text "cancelled" ∷ text "timed_out" ∷ []

unfoldable pub unfinished_rows : List JobRow → List (Text × ℕ)
unfinished_rows [] = []
unfinished_rows (r ∷ rs) =
    let rest = unfinished_rows rs in
    if member r.state finished_states then rest else (r.job_id, r.attempt) ∷ rest

unfoldable pub unfinished : Action (List (Text × ℕ))
unfinished = read (λ t. unfinished_rows t.jobs)

abbrev pub has_key : Text → ℕ → OutboxRow → Bool
has_key id attempt r = text_eq r.job_id id && r.attempt == attempt

-- `INSERT INTO completion_outbox … ON CONFLICT(job_id,attempt) DO NOTHING`
unfoldable pub insert_outbox : OutboxRow → List OutboxRow → List OutboxRow
insert_outbox new rows =
    if any (has_key new.job_id new.attempt) rows then rows else rows ++ new ∷ []

unfoldable pub enqueue_completion : Text → Text → ℕ → Text → Text → Text → Action (Unit {0})
enqueue_completion now id attempt lease key payload = write (λ t. record t {
  outbox =
      insert_outbox
        (record {
          job_id = id;
          attempt = attempt;
          lease_id = lease;
          idempotency_key = key;
          payload = payload;
          attempts = 0;
          delivered_at = none;
          updated_at = now;
        })
        t.outbox;
})

-- The order of texts by bytes, as SQLite compares them.
unfoldable pub text_leb : Text → Text → Bool
text_leb [] t = true
text_leb (c ∷ s) [] = false
text_leb (c ∷ s) (d ∷ t) = ltb c d || c == d && text_leb s t

unfoldable pub insert_by_time : OutboxRow → List OutboxRow → List OutboxRow
insert_by_time r [] = r ∷ []
insert_by_time r (q ∷ qs) =
    if text_leb r.updated_at q.updated_at then r ∷ q ∷ qs else q ∷ insert_by_time r qs

-- `ORDER BY updated_at`
unfoldable pub order_by_time : List OutboxRow → List OutboxRow
unfolding text_leb insert_by_time
order_by_time [] = []
order_by_time (r ∷ rs) = insert_by_time r (order_by_time rs)

abbrev pub to_pending : OutboxRow → PendingCompletion
to_pending r = record {
  job_id = r.job_id;
  attempt = r.attempt;
  lease_id = r.lease_id;
  idempotency_key = r.idempotency_key;
  payload = r.payload;
  attempts = r.attempts;
}

-- `WHERE delivered_at IS NULL`
unfoldable pub undelivered : List OutboxRow → List OutboxRow
undelivered [] = []
undelivered (r ∷ rs) =
    let rest = undelivered rs in if is_some r.delivered_at then rest else r ∷ rest

unfoldable pub pending_completions : Action (List PendingCompletion)
unfolding undelivered order_by_time
pending_completions = read (λ t. map to_pending (order_by_time (undelivered t.outbox)))

-- `UPDATE completion_outbox SET … WHERE job_id=?1 AND attempt=?2`
unfoldable pub update_outbox : Text → ℕ → (OutboxRow → OutboxRow) → List OutboxRow → List OutboxRow
update_outbox id attempt f [] = []
update_outbox id attempt f (r ∷ rs) =
    (if has_key id attempt r then f r else r) ∷ update_outbox id attempt f rs

abbrev pub deliver : Text → OutboxRow → OutboxRow
deliver now r = record r { delivered_at = some now; updated_at = now }

abbrev pub count_attempt : Text → OutboxRow → OutboxRow
count_attempt now r = record r { attempts = r.attempts + 1; updated_at = now }

unfoldable pub mark_completion_delivered : Text → Text → ℕ → Action (Unit {0})
mark_completion_delivered now id attempt =
    write (λ t. record t { outbox = update_outbox id attempt (deliver now) t.outbox })

unfoldable pub record_completion_attempt : Text → Text → ℕ → Action (Unit {0})
record_completion_attempt now id attempt =
    write (λ t. record t { outbox = update_outbox id attempt (count_attempt now) t.outbox })

pub statement-cases {ℓ} :
    {A : Type ℓ} (f : Tables → A × Tables) (j : Journal)
    → (((statement f j).0 ≡ ok (f j.tables).0) × ((statement f j).1.tables ≡ (f j.tables).1))
      ⊎ (((e : Error) × ((statement f j).0 ≡ err e)) × ((statement f j).1.tables ≡ j.tables))
unfolding statement
statement-cases f j = by_fault j.tables j.faults
  where
    by_fault :
        (t : Tables) (fs : List Bool)
        → let j : Journal = record { tables = t; faults = fs } in
          (((statement f j).0 ≡ ok (f t).0) × ((statement f j).1.tables ≡ (f t).1))
          ⊎ (((e : Error) × ((statement f j).0 ≡ err e)) × ((statement f j).1.tables ≡ t))
    by_fault t [] = inl (refl, refl)
    by_fault t (true ∷ fs) = inr ((bail (text "database error"), refl), refl)
    by_fault t (false ∷ fs) = inl (refl, refl)
