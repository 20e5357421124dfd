-- ===== src/Lifecycle/Examples.antt =====
-- Instances of the theorems on the life of a job.
use ai_kodu_runner.Base.{ℕ, ◌≤◌, true, ◌≡◌, ◌↔◌, refl}
use ai_kodu_runner.Lifecycle.{
  received, preparing, running, failed, destroying, destroyed, as_str, from_str, valid_transition,
}
use ai_kodu_runner.Lifecycle.Laws.{
  Chain, start, step, IsOutcome, Chain-bounded, from_str-as_str_iff,
}

preparing_fails : Chain received destroyed 4
unfolding valid_transition
preparing_fails =
    step {t = destroying}
      (step {t = failed} (step {t = preparing} (step {t = received} start refl) refl) refl) refl

Chain-bounded_example : (4 ≤ 6) × (received ≡ destroyed → ◌≡◌ {A = ℕ} 4 0)
Chain-bounded_example = Chain-bounded preparing_fails

failed_destroying : valid_transition failed destroying ≡ true
unfolding valid_transition
failed_destroying = refl

from_str-as_str_iff_example : (from_str (as_str running) ≡ running) ↔ IsOutcome running
from_str-as_str_iff_example = from_str-as_str_iff running
