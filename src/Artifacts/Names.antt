-- ===== src/Artifacts/Names.antt =====
-- The directory names made from job identifiers.
use ai_kodu_runner.Base.{
  ℕ, Text, text, is_ascii_alphanumeric, true, [], ◌∷◌, map, All, ◌≡◌, ◌≢◌, ◌⊎◌, inl, refl, arith,
}
use ai_kodu_runner.Artifacts.Defs.{safe_char, safe_component}

abbrev pub IsSafeChar : ℕ → Type 0
IsSafeChar c = (is_ascii_alphanumeric c ≡ true) ⊎ (c ≡ b'-') ⊎ (c ≡ b'_') ⊎ (c ≡ b'.')

safe_char-IsSafeChar : (c : ℕ) → IsSafeChar (safe_char c)
unfolding safe_char
safe_char-IsSafeChar c = ground arith

map-IsSafeChar : (v : Text) → All IsSafeChar (map safe_char v)
map-IsSafeChar [] = tt
map-IsSafeChar (c ∷ v) = (safe_char-IsSafeChar c, map-IsSafeChar v)

map-safe_char_same : (v : Text) → All IsSafeChar v → map safe_char v ≡ v
unfolding safe_char
map-safe_char_same [] h = refl
map-safe_char_same (c ∷ v) h = ground (arith, h.0, map-safe_char_same v h.1)

-- The component made from a job identifier is not empty and has only letters, digits, dashes,
-- underscores and dots, so no separator; an identifier that is like that already is kept.
pub safe_component_lem :
    (v : Text)
    → (safe_component v ≢ [])
      × All IsSafeChar (safe_component v)
      × (v ≢ [] → All IsSafeChar v → safe_component v ≡ v)
unfolding safe_component text is_ascii_alphanumeric
safe_component_lem [] = ((λ e. cc), (inl refl, (inl refl, (inl refl, tt))), λ n. absurd (n refl))
safe_component_lem (c ∷ v) =
    ((λ e. cc), map-IsSafeChar (c ∷ v), λ n h. map-safe_char_same (c ∷ v) h)
