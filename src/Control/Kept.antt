-- ===== src/Control/Kept.antt =====
-- What a report keeps in the outbox: the row of the result.
use ai_kodu_runner.Base.{
  ℕ, zero, suc, Text, text_eq_iff, Bool, true, false, Bool-cases, none, some, is_some, ◌≡◌, refl,
  inl, inr, arith, subst, ◌∙◌, if◌then◌else◌,
}
use ai_kodu_runner.Protocol.{JobResult}
use ai_kodu_runner.Journal
use ai_kodu_runner.Journal.{
  OutboxRow, to_pending, Tables, Journal, calm, statement, enqueue_completion,
  record_completion_attempt, mark_completion_delivered, ◌>>◌, update_outbox, insert_outbox, deliver,
  count_attempt,
}
use ai_kodu_runner.Journal.Outbox.{
  HasUniqueRows, find_row, find_row-insert_outbox, find_row-update_outbox,
  HasUniqueRows-update_outbox, HasUniqueRows-insert_outbox, deliver-KeepsKey,
  count_attempt-KeepsKey,
}
use ai_kodu_runner.Control.Logs.{Answer, is_accepted}
use ai_kodu_runner.Control.Completion.{completion_idempotency_key, completion_loop, report}
use ai_kodu_runner.Control.Deliveries.{accepted_within}

-- The row of a key, with what was queued, delivered or not.
abbrev pub HoldsRow : (id : Text) (a : ℕ) (lease key payload : Text) (done : Bool) → Tables → Type 0
HoldsRow id a lease key payload done t =
    (r : OutboxRow) × (find_row id a t.outbox ≡ some r)
    × (r.lease_id ≡ lease)
    × (r.idempotency_key ≡ key)
    × (r.payload ≡ payload)
    × (is_some r.delivered_at ≡ done)

update-HoldsRow :
    (id : Text) (a : ℕ) (lease key payload now : Text) (t : Tables)
    → HoldsRow id a lease key payload false t
    → HoldsRow id a lease key payload false
        (record t { outbox = update_outbox id a (count_attempt now) t.outbox })
      × HoldsRow id a lease key payload true
          (record t { outbox = update_outbox id a (deliver now) t.outbox })
update-HoldsRow id a lease key payload now t (r, here, l, k, p, open_) = (
  (
    count_attempt now r,
    ground (
      arith,
      here,
      text_eq_iff id id,
      find_row-update_outbox id a (count_attempt now) (count_attempt-KeepsKey now) t.outbox id a,
    ),
    l,
    k,
    p,
    open_,
  ),
  (
    deliver now r,
    ground (
      arith,
      here,
      text_eq_iff id id,
      find_row-update_outbox id a (deliver now) (deliver-KeepsKey now) t.outbox id a,
    ),
    l,
    k,
    p,
    refl,
  ),
)

-- What the loop leaves of a queued row.
abbrev pub IsKept : (id : Text) (a : ℕ) (lease key payload : Text) (done : Bool) → Journal → Type 0
IsKept id a lease key payload done j =
    (t : Tables) × (j ≡ calm t) × HasUniqueRows t.outbox × HoldsRow id a lease key payload done t

loop-IsKept :
    (now id : Text) (a : ℕ) (lease key payload : Text) (answer : ℕ → Answer) (left : ℕ) (t : Tables)
    → HasUniqueRows t.outbox
    → HoldsRow id a lease key payload false t
    → IsKept id a lease key payload
        (accepted_within answer left)
        (completion_loop now id a answer left (calm t)).1
unfolding completion_loop Journal.◌>>=◌ record_completion_attempt mark_completion_delivered
    statement
loop-IsKept now id a lease key payload answer zero t u h = (t, refl, u, h)
loop-IsKept now id a lease key payload answer (suc left) t u h =
    let t1 = record t { outbox = update_outbox id a (count_attempt now) t.outbox } in
    let u1 =
      HasUniqueRows-update_outbox id a (count_attempt now) (count_attempt-KeepsKey now) t.outbox
        u in
    let t2 = record t { outbox = update_outbox id a (deliver now) t1.outbox } in
    let u2 = HasUniqueRows-update_outbox id a (deliver now) (deliver-KeepsKey now) t1.outbox u1 in
    let h1 = (update-HoldsRow id a lease key payload now t h).0 in
    let h2 = (update-HoldsRow id a lease key payload now t1 h1).1 in
    let (t', calm', unique, holds) =
      loop-IsKept now id a lease key payload (λ k. answer (suc k)) left t1 u1 h1 in
    elim (Bool-cases (is_accepted (answer 0))) [
      | inl taken ↦ (
        t2,
        ground (arith, taken),
        u2,
        subst (λ b. HoldsRow id a lease key payload b t2) (ground (arith, taken)) h2,
      )
      | inr refused ↦ (
        t',
        ground (arith, refused, calm'),
        unique,
        subst (λ b. HoldsRow id a lease key payload b t') (ground (arith, refused)) holds,
      )
    ]

queued-IsKept :
    (now id : Text) (a : ℕ) (lease key payload : Text) (answer : ℕ → Answer) (t : Tables)
    → HasUniqueRows t.outbox
    → find_row id a t.outbox ≡ none
    → IsKept id a lease key payload
        (accepted_within answer 5)
        ((enqueue_completion now id a lease key payload >> completion_loop now id a answer 5)
          (calm t)).1
unfolding Journal.◌>>=◌ enqueue_completion statement
queued-IsKept now id a lease key payload answer t u fresh =
    let t1 = (enqueue_completion now id a lease key payload (calm t)).1.tables in
    let row : OutboxRow = record {
      job_id = id;
      attempt = a;
      lease_id = lease;
      idempotency_key = key;
      payload = payload;
      attempts = 0;
      delivered_at = none;
      updated_at = now;
    } in
    loop-IsKept now id a lease key payload answer 5 t1 (HasUniqueRows-insert_outbox _ t.outbox u) (
      row,
      find_row-insert_outbox row t.outbox id a
          ∙ rw fresh (rw ((text_eq_iff id id).1 refl) (ground arith)),
      refl,
      refl,
      refl,
      refl,
    )

-- The result as it is reported: a lost log is noted in it.
abbrev pub noted : (loss : Bool) → JobResult → JobResult
noted loss result = if loss then record result { log_truncated = true } else result

pub report-IsKept :
    (to_string : JobResult → Text) (now lease : Text) (loss : Bool) (result : JobResult)
    (answer : ℕ → Answer) (t : Tables)
    → HasUniqueRows t.outbox
    → find_row result.job_id result.attempt t.outbox ≡ none
    → IsKept result.job_id result.attempt lease
        (completion_idempotency_key result.job_id result.attempt)
        (to_string (noted loss result))
        (accepted_within answer 5)
        (report to_string now lease loss result answer (calm t)).1
unfolding report Journal.◌>>=◌
report-IsKept to_string now lease true result answer t u fresh =
    queued-IsKept now result.job_id result.attempt lease _ _ answer t u fresh
report-IsKept to_string now lease false result answer t u fresh =
    queued-IsKept now result.job_id result.attempt lease _ _ answer t u fresh
