-- ===== src/Protocol/WellFormed/Tests.antt =====
-- Readings of the validator's Boolean tests: emptiness, blankness, names, and freshness in a set.
use ai_kodu_runner.Base.{
  ℕ, Text, text_eq, text_eq_iff, trim, trim_iff, member, true, false, Bool-cases, List, [], ◌∷◌,
  all, all_iff, is_empty, All, IsBlank, ◌≡◌, ◌≢◌, ◌↔◌, refl, arith, inl, inr, is_ascii_alphanumeric,
}
use ai_kodu_runner.Protocol.Validate.{is_name_byte, is_secret_byte}
use ai_kodu_runner.Protocol.WellFormed.Parts.{IsNameByte, IsSecretByte}

-- None of the texts is in `seen`.
abbrev pub Fresh : List Text → List Text → Type 0
Fresh seen xs = All (λ x. member x seen ≡ false) xs

pub is_empty_iff {ℓ} : {A : Type ℓ} (xs : List A) → (is_empty xs ≡ false) ↔ (xs ≢ [])
is_empty_iff [] = (λ h. cc, λ h. absurd (h refl))
is_empty_iff (x ∷ xs) = (λ h. cc, λ h. refl)

pub nonblank_iff : (s : Text) → (is_empty (trim s) ≡ false) ↔ (¬ IsBlank s)
nonblank_iff s =
    let (to, from) = trim_iff s in
    (
      λ h b. cc (from b),
      λ n. elim (Bool-cases (is_empty (trim s))) [ inl e ↦ absurd (n (to e)) | inr e ↦ e ],
    )

is_name_byte_iff : (b : ℕ) → (is_name_byte b ≡ true) ↔ IsNameByte b
unfolding is_name_byte is_ascii_alphanumeric
is_name_byte_iff b = (λ h. ground (arith, h), λ h. ground (arith, h))

is_secret_byte_iff : (b : ℕ) → (is_secret_byte b ≡ true) ↔ IsSecretByte b
unfolding is_secret_byte is_ascii_alphanumeric
is_secret_byte_iff b = (λ h. ground (arith, h), λ h. ground (arith, h))

pub named_iff : (bs : List ℕ) → (all is_name_byte bs ≡ true) ↔ All IsNameByte bs
named_iff bs = all_iff IsNameByte is_name_byte is_name_byte_iff bs

pub secret_named_iff : (bs : List ℕ) → (all is_secret_byte bs ≡ true) ↔ All IsSecretByte bs
secret_named_iff bs = all_iff IsSecretByte is_secret_byte is_secret_byte_iff bs

pub ne_of_text_eq : (s t : Text) → (text_eq s t ≡ false) ↔ (s ≢ t)
ne_of_text_eq s t =
    let (to, from) = text_eq_iff s t in
    (
      λ h e. cc (from e),
      λ n. elim (Bool-cases (text_eq s t)) [ inl e ↦ absurd (n (to e)) | inr e ↦ e ],
    )

pub Fresh-cons :
    (c : Text) (seen xs : List Text) → Fresh (c ∷ seen) xs ↔ (All (λ y. c ≢ y) xs × Fresh seen xs)
unfolding member
Fresh-cons c seen [] = (λ h. (tt, tt), λ h. tt)
Fresh-cons c seen (x ∷ xs) =
    let (to, from) = Fresh-cons c seen xs in
    let (differ, same) = ne_of_text_eq c x in
    (
      λ h. ((differ (ground (arith, h.0)), (to h.1).0), (ground (arith, h.0), (to h.1).1)),
      λ h. (ground (arith, same h.0.0, h.1.0), from (h.0.1, h.1.1)),
    )

pub Fresh-nil : (xs : List Text) → Fresh [] xs
unfolding member
Fresh-nil [] = tt
Fresh-nil (x ∷ xs) = (refl, Fresh-nil xs)
