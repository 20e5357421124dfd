-- ===== src/Journal/Outbox.antt =====
-- The table `completion_outbox`: rows by key, idempotence, delivery and what is pending.
use ai_kodu_runner.Base.{
  ℕ, ◌+◌, Text, text_eq, text_eq_iff, Bool, true, false, not, ◌&&◌, ◌||◌, Option, none, some,
  is_some, List, [], ◌∷◌, ◌++◌, map, any, ◌≡◌, ◌∙◌, ap, refl, arith, ◌==◌, if◌then◌else◌,
}
use mathlib.Core.Option
use ai_kodu_runner.Journal.Defs.{
  OutboxRow, PendingCompletion, Tables, calm, statement, has_key, insert_outbox, enqueue_completion,
  insert_by_time, order_by_time, to_pending, undelivered, update_outbox, deliver, count_attempt,
  mark_completion_delivered, record_completion_attempt,
}

-- The row of a job's attempt.
unfoldable pub find_row : Text → ℕ → List OutboxRow → Option OutboxRow
find_row id a [] = none
find_row id a (r ∷ rs) = if has_key id a r then some r else find_row id a rs

abbrev pub HasUniqueRows : List OutboxRow → Type 0
HasUniqueRows [] = Unit
HasUniqueRows (r ∷ rs) = (find_row r.job_id r.attempt rs ≡ none) × HasUniqueRows rs

any-find_row :
    (id : Text) (a : ℕ) (rs : List OutboxRow) → any (has_key id a) rs ≡ is_some (find_row id a rs)
unfolding find_row
any-find_row id a [] = refl
any-find_row id a (r ∷ rs) = ground (arith, any-find_row id a rs)

find_row-append :
    (id : Text) (a : ℕ) (rs : List OutboxRow) (r : OutboxRow)
    → find_row id a (rs ++ r ∷ []) ≡ elim (find_row id a rs) [
      | none ↦ (if has_key id a r then some r else none)
      | some q ↦ some q
    ]
unfolding find_row
find_row-append id a [] r = refl
find_row-append id a (q ∷ rs) r = ground (arith, find_row-append id a rs r)

-- The first row for a key stays: a second insertion under it changes nothing.
pub find_row-insert_outbox :
    (new : OutboxRow) (rs : List OutboxRow) (id : Text) (a : ℕ)
    → find_row id a (insert_outbox new rs) ≡ elim (find_row id a rs) [
      | none ↦ (if has_key id a new then some new else none)
      | some q ↦ some q
    ]
unfolding insert_outbox
find_row-insert_outbox new rs id a = ground (
  arith,
  any-find_row new.job_id new.attempt rs,
  find_row-append id a rs new,
  text_eq_iff new.job_id id,
)

HasUniqueRows-append :
    (rs : List OutboxRow) (r : OutboxRow)
    → HasUniqueRows rs
    → find_row r.job_id r.attempt rs ≡ none
    → HasUniqueRows (rs ++ r ∷ [])
unfolding find_row
HasUniqueRows-append [] r h e = (refl, tt)
HasUniqueRows-append (q ∷ rs) r h e = (
  ground (
    arith,
    find_row-append q.job_id q.attempt rs r,
    text_eq_iff r.job_id q.job_id,
    text_eq_iff q.job_id r.job_id,
  ),
  HasUniqueRows-append rs r h.1 (ground arith),
)

-- An update keeps the key of every row.
abbrev pub KeepsKey : (OutboxRow → OutboxRow) → Type 0
KeepsKey f = (r : OutboxRow) → ((f r).job_id ≡ r.job_id) × ((f r).attempt ≡ r.attempt)

pub find_row-update_outbox :
    (id : Text) (a : ℕ) (f : OutboxRow → OutboxRow)
    → KeepsKey f
    → (rs : List OutboxRow) (k : Text) (b : ℕ)
    → find_row k b (update_outbox id a f rs)
      ≡ (if text_eq id k && a == b then Option.map f (find_row k b rs) else find_row k b rs)
unfolding find_row update_outbox
find_row-update_outbox id a f keep [] k b = ground arith
find_row-update_outbox id a f keep (r ∷ rs) k b = ground (
  arith,
  find_row-update_outbox id a f keep rs k b,
  keep r,
  text_eq_iff r.job_id id,
  text_eq_iff r.job_id k,
  text_eq_iff id k,
)

pub HasUniqueRows-update_outbox :
    (id : Text) (a : ℕ) (f : OutboxRow → OutboxRow)
    → KeepsKey f
    → (rs : List OutboxRow) → HasUniqueRows rs
    → HasUniqueRows (update_outbox id a f rs)
unfolding find_row update_outbox
HasUniqueRows-update_outbox id a f keep [] h = tt
HasUniqueRows-update_outbox id a f keep (r ∷ rs) h = (
  ground (arith, keep r, find_row-update_outbox id a f keep rs r.job_id r.attempt),
  HasUniqueRows-update_outbox id a f keep rs h.1,
)

pub HasUniqueRows-insert_outbox :
    (new : OutboxRow) (rs : List OutboxRow)
    → HasUniqueRows rs
    → HasUniqueRows (insert_outbox new rs)
unfolding insert_outbox
HasUniqueRows-insert_outbox new rs h =
    ground (arith, any-find_row new.job_id new.attempt rs, HasUniqueRows-append rs new h)

pub deliver-KeepsKey : (now : Text) → KeepsKey (deliver now)
deliver-KeepsKey now r = (refl, refl)

pub count_attempt-KeepsKey : (now : Text) → KeepsKey (count_attempt now)
count_attempt-KeepsKey now r = (refl, refl)

-- A pending completion of a job's attempt.
abbrev pub is_pending : Text → ℕ → PendingCompletion → Bool
is_pending id a p = text_eq p.job_id id && p.attempt == a

any-insert_by_time :
    (p : OutboxRow → Bool) (r : OutboxRow) (rs : List OutboxRow)
    → any p (insert_by_time r rs) ≡ (p r || any p rs)
unfolding insert_by_time
any-insert_by_time p r [] = refl
any-insert_by_time p r (q ∷ rs) = ground (arith, any-insert_by_time p r rs)

pub any-order_by_time :
    (p : OutboxRow → Bool) (rs : List OutboxRow) → any p (order_by_time rs) ≡ any p rs
unfolding order_by_time
any-order_by_time p [] = refl
any-order_by_time p (r ∷ rs) =
    ground (arith, any-insert_by_time p r (order_by_time rs), any-order_by_time p rs)

pub any-map-to_pending :
    (p : PendingCompletion → Bool) (rs : List OutboxRow)
    → any p (map to_pending rs) ≡ any (λ r. p (to_pending r)) rs
any-map-to_pending p [] = refl
any-map-to_pending p (r ∷ rs) = ground (arith, any-map-to_pending p rs)

-- The row is there and not delivered.
abbrev pub open_row : Option OutboxRow → Bool
open_row none = false
open_row (some r) = not (is_some r.delivered_at)

any-undelivered :
    (id : Text) (a : ℕ) (rs : List OutboxRow)
    → HasUniqueRows rs
    → any (has_key id a) (undelivered rs) ≡ open_row (find_row id a rs)
unfolding undelivered find_row
any-undelivered id a [] h = refl
any-undelivered id a (r ∷ rs) h =
    ground (arith, any-undelivered id a rs h.1, h.0, text_eq_iff r.job_id id)

-- The rows that a replay will read: ordered, and not delivered.
abbrev pub pending_rows : Tables → List PendingCompletion
pending_rows t = map to_pending (order_by_time (undelivered t.outbox))

-- A completion is pending exactly when its row is in the outbox and has not been delivered.
pub pending_rows_eq :
    (id : Text) (a : ℕ) (t : Tables)
    → HasUniqueRows t.outbox
    → any (is_pending id a) (pending_rows t) ≡ open_row (find_row id a t.outbox)
pending_rows_eq id a t h =
    any-map-to_pending (is_pending id a) (order_by_time (undelivered t.outbox))
    ∙ any-order_by_time (has_key id a) (undelivered t.outbox)
    ∙ any-undelivered id a t.outbox h

-- Queuing a completion keeps what is queued already: under its key the first row stays, with its
-- lease, key, payload, count and delivery, and other keys are untouched.
pub enqueue_keeps_first :
    (now id : Text) (a : ℕ) (lease key payload : Text) (t : Tables) (r : OutboxRow)
    → find_row id a t.outbox ≡ some r
    → (enqueue_completion now id a lease key payload (calm t)).1.tables ≡ t
unfolding enqueue_completion statement insert_outbox
enqueue_keeps_first now id a lease key payload t r h = ground (arith, any-find_row id a t.outbox)

-- A completion that is queued for the first time is pending.
pub enqueue_first-pending :
    (now id : Text) (a : ℕ) (lease key payload : Text) (t : Tables)
    → HasUniqueRows t.outbox
    → find_row id a t.outbox ≡ none
    → any
        (is_pending id a)
        (pending_rows (enqueue_completion now id a lease key payload (calm t)).1.tables)
      ≡ true
unfolding enqueue_completion statement
enqueue_first-pending now id a lease key payload t u h =
    pending_rows_eq id a (enqueue_completion now id a lease key payload (calm t)).1.tables
      (HasUniqueRows-insert_outbox _ t.outbox u)
    ∙ ap open_row (find_row-insert_outbox _ t.outbox id a)
    ∙ rw h (rw ((text_eq_iff id id).1 refl) (ground arith))

-- Marking a completion delivered takes it out of what is pending, and no other one.
pub mark_delivered-pending :
    (now id : Text) (a : ℕ) (t : Tables) (k : Text) (b : ℕ)
    → HasUniqueRows t.outbox
    → any (is_pending k b) (pending_rows (mark_completion_delivered now id a (calm t)).1.tables)
      ≡ (if text_eq id k && a == b then false else any (is_pending k b) (pending_rows t))
unfolding mark_completion_delivered statement
mark_delivered-pending now id a t k b u = ground (
  arith,
  pending_rows_eq k b t u,
  pending_rows_eq k b (record t { outbox = update_outbox id a (deliver now) t.outbox })
      (HasUniqueRows-update_outbox id a (deliver now) (deliver-KeepsKey now) t.outbox u),
  find_row-update_outbox id a (deliver now) (deliver-KeepsKey now) t.outbox k b,
)

-- Recording an attempt adds one to the count of that completion and leaves what is pending.
pub record_attempt-pending :
    (now id : Text) (a : ℕ) (t : Tables) (k : Text) (b : ℕ)
    → HasUniqueRows t.outbox
    → (any (is_pending k b) (pending_rows (record_completion_attempt now id a (calm t)).1.tables)
        ≡ any (is_pending k b) (pending_rows t))
      × (Option.map
            (λ (r : OutboxRow). r.attempts)
            (find_row id a (record_completion_attempt now id a (calm t)).1.tables.outbox)
          ≡ Option.map (λ (r : OutboxRow). r.attempts + 1) (find_row id a t.outbox))
unfolding record_completion_attempt statement
record_attempt-pending now id a t k b u = (
  ground (
    arith,
    pending_rows_eq k b t u,
    pending_rows_eq k b (record t { outbox = update_outbox id a (count_attempt now) t.outbox })
        (HasUniqueRows-update_outbox id a (count_attempt now) (count_attempt-KeepsKey now) t.outbox
          u),
    find_row-update_outbox id a (count_attempt now) (count_attempt-KeepsKey now) t.outbox k b,
  ),
  ground (
    arith,
    text_eq_iff id id,
    find_row-update_outbox id a (count_attempt now) (count_attempt-KeepsKey now) t.outbox id a,
  ),
)
