-- ===== src/Control/Keys.antt =====
-- The idempotency keys of completions.
use ai_kodu_runner.Base.{
  ℕ, ◌≤◌, Text, text, decimal, decimal_injective, decimal_digits, [], ◌∷◌, ◌++◌, All, ◌≡◌, refl,
  arith, sym, subst,
}
use mathlib.Core.List.{head-eq_of_cons-eq, tail-eq_of_cons-eq}
use ai_kodu_runner.Control.Completion.{completion_idempotency_key}

abbrev IsDigit : ℕ → Type 0
IsDigit d = (b'0' ≤ d) × (d ≤ b'9')

no_colon : (before after : Text) → All IsDigit (before ++ b':' ∷ after) → ⊥
no_colon [] after h = omega (arith, h.0.1)
no_colon (c ∷ before) after h = no_colon before after h.1

-- The last colon of a text whose end has only digits parts it in one way.
last_colon :
    (a b d e : Text)
    → All IsDigit d
    → All IsDigit e
    → a ++ b':' ∷ d ≡ b ++ b':' ∷ e
    → (a ≡ b) × (d ≡ e)
last_colon [] [] d e hd he h = (refl, tail-eq_of_cons-eq h)
last_colon [] (y ∷ b) d e hd he h =
    absurd (no_colon b e (subst (All IsDigit) (tail-eq_of_cons-eq h) hd))
last_colon (x ∷ a) [] d e hd he h =
    absurd (no_colon a d (subst (All IsDigit) (sym (tail-eq_of_cons-eq h)) he))
last_colon (x ∷ a) (y ∷ b) d e hd he h =
    let (front, back) = last_colon a b d e hd he (tail-eq_of_cons-eq h) in
    (cc (head-eq_of_cons-eq h, front), back)

-- Two completions with one idempotency key are of one job and attempt, whatever the job is called.
pub idempotency_key_injective :
    (id id' : Text) (attempt attempt' : ℕ)
    → completion_idempotency_key id attempt ≡ completion_idempotency_key id' attempt'
    → (id ≡ id') × (attempt ≡ attempt')
unfolding completion_idempotency_key text
idempotency_key_injective id id' attempt attempt' h =
    let (front, back) =
      last_colon id id' (decimal attempt) (decimal attempt') (decimal_digits attempt)
        (decimal_digits attempt') h in
    (front, decimal_injective attempt attempt' back)
