-- ===== src/Journal/Pending.antt =====
-- The pending completions that satisfy a test.
use ai_kodu_runner.Base.{
  ℕ, Text, text_eq_iff, Bool, false, not, ◌&&◌, Option, none, some, is_some, List, [], ◌∷◌, any,
  ◌≡◌, ◌∙◌, refl, arith,
}
use ai_kodu_runner.Journal.Defs.{
  OutboxRow, PendingCompletion, Tables, has_key, order_by_time, to_pending, undelivered,
}
use ai_kodu_runner.Journal.Outbox.{
  HasUniqueRows, find_row, is_pending, pending_rows, any-order_by_time, any-map-to_pending,
}

-- The row is there, not delivered, and satisfies a test.
abbrev pub open_with : (PendingCompletion → Bool) → Option OutboxRow → Bool
open_with p none = false
open_with p (some r) = not (is_some r.delivered_at) && p (to_pending r)

any-undelivered :
    (id : Text) (a : ℕ) (p : PendingCompletion → Bool) (rs : List OutboxRow)
    → HasUniqueRows rs
    → any (λ r. has_key id a r && p (to_pending r)) (undelivered rs)
      ≡ open_with p (find_row id a rs)
unfolding undelivered find_row
any-undelivered id a p [] h = refl
any-undelivered id a p (r ∷ rs) h =
    ground (arith, any-undelivered id a p rs h.1, h.0, text_eq_iff r.job_id id)

-- Where rows are unique by their keys, a pending completion of a key that satisfies a test is the open
-- row of that key.
pub any-pending_rows :
    (id : Text) (a : ℕ) (p : PendingCompletion → Bool) (t : Tables)
    → HasUniqueRows t.outbox
    → any (λ e. is_pending id a e && p e) (pending_rows t) ≡ open_with p (find_row id a t.outbox)
any-pending_rows id a p t h =
    any-map-to_pending (λ e. is_pending id a e && p e) (order_by_time (undelivered t.outbox))
    ∙ any-order_by_time (λ r. has_key id a r && p (to_pending r)) (undelivered t.outbox)
    ∙ any-undelivered id a p t.outbox h
