-- ===== src/Control/Replays.antt =====
-- What a restart delivers.
use ai_kodu_runner.Base.{
  ℕ, Text, text_eq, Bool, false, not, ◌&&◌, Bool-cases, Option-cases, Option, none, some, List, [],
  ◌∷◌, any, ◌≡◌, refl, inl, inr, arith,
}
use ai_kodu_runner.Protocol.{JobResult}
use ai_kodu_runner.Journal.{
  Tables, Journal, calm, statement, PendingCompletion, record_completion_attempt,
  mark_completion_delivered, pending_completions, update_outbox, deliver, count_attempt,
}
use ai_kodu_runner.Journal.Outbox.{
  HasUniqueRows, is_pending, pending_rows, mark_delivered-pending, record_attempt-pending,
  HasUniqueRows-update_outbox, deliver-KeepsKey, count_attempt-KeepsKey,
}
use ai_kodu_runner.Control.Completion.{
  completion_idempotency_key, replay_entry, replay_entries, replay_pending_completions,
}

module _ (from_str : Text → Option JobResult) (complete : Text → JobResult → Bool) where
  -- The entry's payload is a result of the entry's key, and the control plane accepts it.
  abbrev pub is_taken : PendingCompletion → Bool
  is_taken e = elim (from_str e.payload) [
    | none ↦ false
    | some r ↦
        text_eq e.idempotency_key (completion_idempotency_key r.job_id r.attempt)
        && complete e.lease_id r
  ]

  abbrev IsReplayed : Tables → (Text → ℕ → Bool) → Journal → Type 0
  IsReplayed t taken j =
      (t' : Tables) × (j ≡ calm t')
      × HasUniqueRows t'.outbox
      × ((k : Text) (b : ℕ)
          → any (is_pending k b) (pending_rows t')
            ≡ (any (is_pending k b) (pending_rows t) && not (taken k b)))

  entry_lem :
      (now : Text) (e : PendingCompletion) (t : Tables)
      → HasUniqueRows t.outbox
      → IsReplayed t
          (λ k b. is_pending k b e && is_taken e)
          (replay_entry from_str complete now e (calm t))
  unfolding replay_entry record_completion_attempt mark_completion_delivered statement
  entry_lem now e t u =
      let t1 = record t {
        outbox = update_outbox e.job_id e.attempt (count_attempt now) t.outbox;
      } in
      let u1 =
        HasUniqueRows-update_outbox e.job_id e.attempt (count_attempt now)
          (count_attempt-KeepsKey now) t.outbox u in
      let t2 = record t { outbox = update_outbox e.job_id e.attempt (deliver now) t1.outbox } in
      let u2 =
        HasUniqueRows-update_outbox e.job_id e.attempt (deliver now) (deliver-KeepsKey now)
          t1.outbox u1 in
      elim (Option-cases (from_str e.payload)) [
        | inl bad ↦ (t, ground (arith, bad), u, λ k b. ground (arith, bad))
        | inr (r, parsed) ↦
            elim (Bool-cases
              (text_eq e.idempotency_key (completion_idempotency_key r.job_id r.attempt))) [
                | inr other ↦
                    (t, ground (arith, parsed, other), u, λ k b. ground (arith, parsed, other))
                | inl same ↦ elim (Bool-cases (complete e.lease_id r)) [
                  | inr refused ↦ (
                    t1,
                    ground (arith, parsed, same, refused),
                    u1,
                    λ k b. ground (
                      arith,
                      parsed,
                      same,
                      refused,
                      (record_attempt-pending now e.job_id e.attempt t k b u).0,
                    ),
                  )
                  | inl taken ↦ (
                    t2,
                    ground (arith, parsed, same, taken),
                    u2,
                    λ k b. ground (
                      arith,
                      parsed,
                      same,
                      taken,
                      mark_delivered-pending now e.job_id e.attempt t1 k b u1,
                      (record_attempt-pending now e.job_id e.attempt t k b u).0,
                    ),
                  )
                ]
              ]
      ]

  entries_lem :
      (now : Text) (es : List PendingCompletion) (t : Tables)
      → HasUniqueRows t.outbox
      → IsReplayed t
          (λ k b. any (λ e. is_pending k b e && is_taken e) es)
          (replay_entries from_str complete now es (calm t))
  unfolding replay_entries
  entries_lem now [] t u = (t, refl, u, λ k b. ground arith)
  entries_lem now (e ∷ es) t u =
      let (t1, calm1, u1, first) = entry_lem now e t u in
      let (t2, calm2, u2, rest) = entries_lem now es t1 u1 in
      (t2, ground (arith, calm1, calm2), u2, λ k b. ground (arith, first k b, rest k b))

  -- On a restart, over a journal that refuses nothing, a completion stays pending exactly when it was
  -- pending and was not delivered: its payload is no result, is that of another key, or is refused.
  pub replay_lem :
      (now : Text) (t : Tables) (k : Text) (b : ℕ)
      → HasUniqueRows t.outbox
      → any
          (is_pending k b)
          (pending_rows (replay_pending_completions from_str complete now (calm t)).tables)
        ≡ (any (is_pending k b) (pending_rows t)
            && not (any (λ e. is_pending k b e && is_taken e) (pending_rows t)))
  unfolding replay_pending_completions pending_completions statement
  replay_lem now t k b u =
      let (t', calm', _, pending) = entries_lem now (pending_rows t) t u in
      ground (arith, calm', pending k b)
