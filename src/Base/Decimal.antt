-- ===== src/Base/Decimal.antt =====
-- The decimal text of a number, as `to_string` writes it.
use Prim.Native.Nat.{ℕ, zero, suc, ◌+◌, ◌-◌, ◌*◌, ◌/◌, ◌%◌, ◌≤◌, ◌<◌}
use mathlib.Core.Path.{◌≡◌, sym, ap, ◌∙◌}
use mathlib.Core.List.{List, [], ◌∷◌, reverse, reverse-reverse}
use native.Mathlib.Omega.{arith}
use ai_kodu_runner.Base.Tests.{ltb, if◌then◌else◌}
use ai_kodu_runner.Base.Strings.{Text}
use ai_kodu_runner.Base.Lists.{All, All-reverse_iff}

-- The digits from the last one on; the fuel is spent on one digit each.
unfoldable pub digits_from : (fuel n : ℕ) → List ℕ
digits_from zero n = []
digits_from (suc fuel) n =
    let rest = digits_from fuel (n / 10) in
    if ltb n 10 then (b'0' + n) ∷ [] else (b'0' + n % 10) ∷ rest

unfoldable pub value_of : List ℕ → ℕ
value_of [] = 0
value_of (d ∷ ds) = value_of ds * 10 + (d - b'0')

digits_value : (fuel n : ℕ) → n < fuel → value_of (digits_from fuel n) ≡ n
unfolding digits_from value_of
digits_value zero n h = omega arith
digits_value (suc fuel) n h = ground (arith, digits_value fuel (n / 10))

digits_range : (fuel n : ℕ) → All (λ d. (b'0' ≤ d) × (d ≤ b'9')) (digits_from fuel n)
unfolding digits_from
digits_range zero n = tt
digits_range (suc fuel) n = ground (arith, digits_range fuel (n / 10))

-- `n.to_string()`
unfoldable pub decimal : ℕ → Text
unfolding digits_from
decimal n = reverse (digits_from (suc n) n)

-- Different numbers have different texts.
pub decimal_injective : (m n : ℕ) → decimal m ≡ decimal n → m ≡ n
unfolding decimal
decimal_injective m n h =
    let same : digits_from (suc m) m ≡ digits_from (suc n) n =
      sym (reverse-reverse (digits_from (suc m) m))
      ∙ ap reverse h
      ∙ reverse-reverse (digits_from (suc n) n) in
    sym (digits_value (suc m) m (omega arith))
    ∙ ap value_of same
    ∙ digits_value (suc n) n (omega arith)

pub decimal_digits : (n : ℕ) → All (λ d. (b'0' ≤ d) × (d ≤ b'9')) (decimal n)
unfolding decimal
decimal_digits n =
    (All-reverse_iff (λ d. (b'0' ≤ d) × (d ≤ b'9')) (digits_from (suc n) n)).1
      (digits_range (suc n) n)
