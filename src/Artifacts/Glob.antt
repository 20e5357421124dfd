-- ===== src/Artifacts/Glob.antt =====
-- The glob matcher against a description of what a pattern means.
use ai_kodu_runner.Base.{
  ℕ, true, Bool-cases, List, [], ◌∷◌, ◌++◌, ◌==◌, ◌≡◌, ◌↔◌, ◌≢◌, ◌⊎◌, inl, inr, refl, arith, ap,
  ◌∙◌,
}
use ai_kodu_runner.Artifacts.Defs.{matches}

-- What a pattern stands for: a star for any bytes, any other byte for itself, in order, and nothing
-- more.
abbrev pub Denotes : List ℕ → List ℕ → Type 0
Denotes [] value = value ≡ []
Denotes (head ∷ rest) value =
    (skipped left : List ℕ) × (value ≡ skipped ++ left)
    × ((head ≡ b'*') ⊎ ((head ≢ b'*') × (skipped ≡ head ∷ [])))
    × Denotes rest left

sound : (p v : List ℕ) → matches p v ≡ true → Denotes p v
unfolding matches
sound [] [] h = refl
sound [] (b ∷ v) h = cc
sound (head ∷ rest) [] h = ([], [], refl, inl (ground arith), sound rest [] (ground arith))
sound (head ∷ rest) (b ∷ v) h = elim (Bool-cases (head == b'*')) [
  | inl star ↦ elim (Bool-cases (matches rest (b ∷ v))) [
    | inl dropped ↦ ([], b ∷ v, refl, inl (ground arith), sound rest (b ∷ v) dropped)
    | inr kept ↦
        let (skipped, left, same, _, more) = sound (head ∷ rest) v (ground arith) in
        (b ∷ skipped, left, ap (λ t. b ∷ t) same, inl (ground arith), more)
  ]
  | inr plain ↦
      (b ∷ [], v, refl, inr ((λ e. ground (arith, e)), ground arith), sound rest v (ground arith))
]

complete :
    (head : ℕ) (rest skipped left : List ℕ)
    → ((head ≡ b'*') ⊎ ((head ≢ b'*') × (skipped ≡ head ∷ [])))
    → ((v : List ℕ) → Denotes rest v → matches rest v ≡ true)
    → Denotes rest left
    → matches (head ∷ rest) (skipped ++ left) ≡ true
unfolding matches
complete head rest [] [] (inl star) from d = ground (arith, from [] d)
complete head rest [] (b ∷ left) (inl star) from d = ground (arith, from (b ∷ left) d)
complete head rest [] left (inr (_, e)) from d = cc
complete head rest (b ∷ skipped) left (inl star) from d =
    ground (arith, complete head rest skipped left (inl star) from d)
complete head rest (b ∷ skipped) left (inr (plain, e)) from d =
    ground (arith, plain, e, from left d)

matches_nil : matches [] [] ≡ true
unfolding matches
matches_nil = refl

-- The matcher accepts a text exactly when the pattern stands for it.
pub matches_iff : (p v : List ℕ) → (matches p v ≡ true) ↔ Denotes p v
matches_iff [] v = (sound [] v, λ h. ap (matches []) h ∙ matches_nil)
matches_iff (head ∷ rest) v = (
  sound (head ∷ rest) v,
  λ (skipped, left, same, kind, d).
      ap (matches (head ∷ rest)) same
      ∙ complete head rest skipped left kind (λ w. (matches_iff rest w).1) d,
)
