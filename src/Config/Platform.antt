-- ===== src/Config/Platform.antt =====
-- The platforms that the runner accepts.
use ai_kodu_runner.Base.{
  Text, split, is_whitespace, false, List, [], ◌∷◌, any, All, length, ok, ◌≡◌, ◌≢◌, ◌⊎◌, ◌↔◌, refl,
  arith,
}
use ai_kodu_runner.Config.Defs.{bad_part, validate_platform}

-- A part has a character, and none of its characters is white space.
abbrev pub IsPart : Text → Type 0
IsPart p = (p ≢ []) × All (λ c. is_whitespace c ≡ false) p

spaceless_iff : (p : Text) → (any is_whitespace p ≡ false) ↔ All (λ c. is_whitespace c ≡ false) p
spaceless_iff [] = (λ h. tt, λ h. refl)
spaceless_iff (c ∷ p) =
    let (to, from) = spaceless_iff p in
    (λ h. (ground arith, to (ground arith)), λ h. ground (arith, h.0, from h.1))

bad_part_iff : (p : Text) → (bad_part p ≡ false) ↔ IsPart p
unfolding bad_part
bad_part_iff [] = (λ h. cc, λ h. absurd (h.0 refl))
bad_part_iff (c ∷ p) =
    let (to, from) = spaceless_iff (c ∷ p) in (λ h. ((λ e. cc), to h), λ h. from h.1)

parts_iff : (ps : List Text) → (any bad_part ps ≡ false) ↔ All IsPart ps
parts_iff [] = (λ h. tt, λ h. refl)
parts_iff (p ∷ ps) =
    let (to, from) = parts_iff ps in
    let (good, bad) = bad_part_iff p in
    (λ h. (good (ground arith), to (ground arith)), λ h. ground (arith, bad h.0, from h.1))

-- A platform is accepted exactly when it has two or three parts between slashes, each nonempty and
-- free of white space.
pub validate_platform_iff :
    (platform : Text)
    → (validate_platform platform ≡ ok tt) ↔ (
        ((length (split b'/' platform) ≡ 2) ⊎ (length (split b'/' platform) ≡ 3))
        × All IsPart (split b'/' platform))
unfolding validate_platform
validate_platform_iff platform =
    let (to, from) = parts_iff (split b'/' platform) in
    (λ h. (ground arith, to (ground arith)), λ h. ground (arith, h.0, from h.1))
