-- ===== src/Base/Lists.antt =====
-- Lists measured by native numbers, under the library's names, with Boolean and typed quantifiers.
use Prim.Native.Nat.{ℕ, zero, suc, ◌+◌, ◌-◌, ◌≤◌, min}
use mathlib.Core.Path.{◌≡◌, refl, ap}
use mathlib.Core.Logic.{◌↔◌}
use mathlib.Core.Bool.{Bool, true, false, ◌&&◌, ◌||◌}
use mathlib.Core.List.{List, [], ◌∷◌, ◌++◌, reverse, reverse-cons}
use native.Mathlib.Omega.{arith}

module _ {ℓ} {A : Type ℓ} where
  abbrev pub length : List A → ℕ
  length [] = 0
  length (x ∷ xs) = suc (length xs)

  abbrev pub take : ℕ → List A → List A
  take zero xs = []
  take (suc n) [] = []
  take (suc n) (x ∷ xs) = x ∷ take n xs

  abbrev pub drop : ℕ → List A → List A
  drop zero xs = xs
  drop (suc n) [] = []
  drop (suc n) (x ∷ xs) = drop n xs

  abbrev pub is_empty : List A → Bool
  is_empty [] = true
  is_empty (x ∷ xs) = false

  abbrev pub any : (A → Bool) → List A → Bool
  any p [] = false
  any p (x ∷ xs) = p x || any p xs

  abbrev pub all : (A → Bool) → List A → Bool
  all p [] = true
  all p (x ∷ xs) = p x && all p xs

  -- The elements of the lists, in their order.
  abbrev pub concat : List (List A) → List A
  concat [] = []
  concat (xs ∷ xss) = xs ++ concat xss

  pub length-append : (xs ys : List A) → length (xs ++ ys) ≡ length xs + length ys
  length-append [] ys = omega arith
  length-append (x ∷ xs) ys = omega (arith, length-append xs ys)

  pub length-take : (n : ℕ) (xs : List A) → length (take n xs) ≡ min n (length xs)
  length-take zero xs = omega arith
  length-take (suc n) [] = omega arith
  length-take (suc n) (x ∷ xs) = omega (arith, length-take n xs)

  pub take-append-drop : (n : ℕ) (xs : List A) → take n xs ++ drop n xs ≡ xs
  take-append-drop zero xs = refl
  take-append-drop (suc n) [] = refl
  take-append-drop (suc n) (x ∷ xs) = ap (λ r. x ∷ r) (take-append-drop n xs)

  pub length-drop : (n : ℕ) (xs : List A) → length (drop n xs) ≡ length xs - n
  length-drop zero xs = omega arith
  length-drop (suc n) [] = omega arith
  length-drop (suc n) (x ∷ xs) = omega (arith, length-drop n xs)

  pub take_all : (n : ℕ) (xs : List A) → length xs ≤ n → take n xs ≡ xs
  take_all zero [] h = refl
  take_all zero (x ∷ xs) h = absurd (omega arith)
  take_all (suc n) [] h = refl
  take_all (suc n) (x ∷ xs) h = ap (λ r. x ∷ r) (take_all n xs (omega arith))

module _ {ℓ κ} {A : Type ℓ} (P : A → Type κ) where
  abbrev pub All : List A → Type κ
  All [] = Unit
  All (x ∷ xs) = P x × All xs

  pub All-append : (xs ys : List A) → All xs → All ys → All (xs ++ ys)
  All-append [] ys hx hy = hy
  All-append (x ∷ xs) ys (p, hx) hy = (p, All-append xs ys hx hy)

  -- A Boolean test of every element decides the predicate that it stands for.
  pub all_iff :
      (p : A → Bool) → ((a : A) → (p a ≡ true) ↔ P a) → (xs : List A) → (all p xs ≡ true) ↔ All xs
  all_iff p e [] = (λ _. tt, λ _. refl)
  all_iff p e (x ∷ xs) =
      let (to, from) = all_iff p e xs in
      (λ h. ((e x).0 (ground arith), to (ground arith)), λ h. grind (arith, (e x).1 h.0, from h.1))

  pub All-append_iff : (xs ys : List A) → All (xs ++ ys) ↔ (All xs × All ys)
  All-append_iff [] ys = (λ h. (tt, h), λ h. h.1)
  All-append_iff (x ∷ xs) ys =
      let (to, from) = All-append_iff xs ys in
      (λ h. ((h.0, (to h.1).0), (to h.1).1), λ h. (h.0.0, from (h.0.1, h.1)))

  pub All-reverse_iff : (xs : List A) → All (reverse xs) ↔ All xs
  All-reverse_iff [] = (λ h. tt, λ h. tt)
  All-reverse_iff (x ∷ xs) =
      let (to, from) = All-reverse_iff xs in
      let (split, join) = All-append_iff (reverse xs) (x ∷ []) in
      (
        λ h. let parts = split (rw reverse-cons at h) in (parts.1.0, to parts.0),
        λ h. rw reverse-cons (join (from h.1, (h.0, tt))),
      )
