-- ===== src/Base/Spaces.antt =====
-- Blank texts: `trim` leaves nothing exactly when every character is white space.
use Prim.Native.Nat.{ℕ}
use mathlib.Core.Path.{◌≡◌, refl, ap, ◌∙◌}
use mathlib.Core.Logic.{◌↔◌}
use mathlib.Core.Bool.{true, false}
use mathlib.Core.List.{[], ◌∷◌, ◌++◌, reverse, reverse-cons}
use native.Mathlib.Omega.{arith}
use ai_kodu_runner.Base.Lists.{All, is_empty}
use ai_kodu_runner.Base.Strings.{Text, is_whitespace, trim_start, trim}

abbrev pub IsSpace : ℕ → Type 0
IsSpace c = is_whitespace c ≡ true

abbrev pub IsBlank : Text → Type 0
IsBlank s = All IsSpace s

-- A text that does not begin with white space.
abbrev IsTrimmed : Text → Type 0
IsTrimmed [] = Unit
IsTrimmed (c ∷ s) = is_whitespace c ≡ false

trim_start-IsTrimmed : (s : Text) → IsTrimmed (trim_start s)
unfolding trim_start
trim_start-IsTrimmed [] = tt
trim_start-IsTrimmed (c ∷ s) = ground (arith, trim_start-IsTrimmed s)

trim_start-nil : (s : Text) → trim_start s ≡ [] → IsBlank s
unfolding trim_start
trim_start-nil [] h = tt
trim_start-nil (c ∷ s) h = ground (arith, trim_start-nil s)

nil-trim_start : (s : Text) → IsBlank s → trim_start s ≡ []
unfolding trim_start
nil-trim_start [] h = refl
nil-trim_start (c ∷ s) h = ground (arith, nil-trim_start s)

-- A character that is no white space stays, whatever stands before it.
trim_start_keeps :
    (s : Text) (c : ℕ) → is_whitespace c ≡ false → is_empty (trim_start (s ++ c ∷ [])) ≡ false
unfolding trim_start
trim_start_keeps [] c h = ground arith
trim_start_keeps (d ∷ s) c h = ground (arith, trim_start_keeps s c h)

is_empty-reverse : (s : Text) → is_empty (reverse s) ≡ is_empty s
is_empty-reverse [] = refl
is_empty-reverse (c ∷ s) = rw reverse-cons (last (reverse s))
  where
    last : (t : Text) → is_empty (t ++ c ∷ []) ≡ false
    last [] = refl
    last (d ∷ t) = refl

trim_nonempty : (s : Text) → IsTrimmed s → is_empty (reverse (trim_start (reverse s))) ≡ is_empty s
unfolding trim_start
trim_nonempty [] h = refl
trim_nonempty (c ∷ s) h = rw is_empty-reverse (rw reverse-cons (trim_start_keeps (reverse s) c h))

is_empty-trim : (s : Text) → is_empty (trim s) ≡ is_empty (trim_start s)
unfolding trim
is_empty-trim s = trim_nonempty (trim_start s) (trim_start-IsTrimmed s)

pub nil_of_is_empty : (s : Text) → is_empty s ≡ true → s ≡ []
nil_of_is_empty [] h = refl
nil_of_is_empty (c ∷ s) h = cc

pub trim_iff : (s : Text) → (is_empty (trim s) ≡ true) ↔ IsBlank s
trim_iff s = (
  λ h. trim_start-nil s (nil_of_is_empty _ (cc (is_empty-trim s))),
  λ h. is_empty-trim s ∙ ap is_empty (nil-trim_start s h),
)
