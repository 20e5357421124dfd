-- ===== src/Lifecycle/Laws.antt =====
-- The declared transitions as a graph, and the names of the outcomes.
use ai_kodu_runner.Base.{ℕ, suc, ◌+◌, ◌≤◌, ◌<◌, text, text_eq, true, ◌≡◌, ◌≢◌, ◌↔◌, ap, arith}
use ai_kodu_runner.Lifecycle.{
  State, received, preparing, running, collecting, completed, failed, cancelled, timed_out,
  destroying, destroyed, as_str, from_str, valid_transition,
}

-- How far a state is along the life of a job.
abbrev pub stage : State → ℕ
stage received = 0
stage preparing = 1
stage running = 2
stage collecting = 3
stage completed = 4
stage failed = 4
stage cancelled = 4
stage timed_out = 4
stage destroying = 5
stage destroyed = 6

abbrev pub IsOutcome : State → Type 0
IsOutcome s = stage s ≡ 4

-- A sequence of declared transitions, with its length.
pub data Chain (s : State) : State → ℕ → Type 0 where
  start : Chain s s 0
  step : {t u : State} {n : ℕ} → Chain s t n → valid_transition t u ≡ true → Chain s u (suc n)

valid_transition-stage : (s t : State) → valid_transition s t ≡ true → stage s < stage t
unfolding valid_transition
valid_transition-stage received preparing h = omega arith
valid_transition-stage s t h = ground arith

Chain-stage : {s t : State} {n : ℕ} → Chain s t n → stage s + n ≤ stage t
Chain-stage start = omega arith
Chain-stage (step {t} {u} c h) = omega (arith, Chain-stage c, valid_transition-stage t u h)

stage-le : (s : State) → stage s ≤ 6
stage-le received = omega arith
stage-le s = omega arith

-- The life of a job is finite: a sequence of declared transitions has at most six steps, and no
-- state comes twice.
pub Chain-bounded : {s t : State} {n : ℕ} → Chain s t n → (n ≤ 6) × (s ≡ t → n ≡ 0)
Chain-bounded {s} {t} c =
    (omega (arith, Chain-stage c, stage-le t), λ e. omega (arith, Chain-stage c, ap stage e))

-- A job ends through an outcome: the only declared way to `destroying` is from one of the four
-- outcomes, `destroyed` follows `destroying` only, and nothing follows `destroyed`.
pub destroyed_after-IsOutcome :
    (s t : State)
    → valid_transition s t ≡ true
    → (s ≢ destroyed) × (t ≡ destroying → IsOutcome s) × (t ≡ destroyed → s ≡ destroying)
unfolding valid_transition
destroyed_after-IsOutcome received preparing h =
    (λ e. ground arith, λ e. ground arith, λ e. ground arith)
destroyed_after-IsOutcome s t h = (λ e. ground arith, λ e. ground arith, λ e. ground arith)

names : Unit {0}
unfolding as_str from_str text text_eq
names = tt

-- Reading a state's name back gives the state exactly for the four outcomes; every other name, also
-- of a state in progress, is read as `failed`.
pub from_str-as_str_iff : (s : State) → (from_str (as_str s) ≡ s) ↔ IsOutcome s
unfolding names
from_str-as_str_iff received = ground arith
from_str-as_str_iff s = ground arith
