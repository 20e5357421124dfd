-- ===== src/Protocol/Summary.antt =====
-- When a failed job has an error summary, and what it looks like.
use mathlib.Core.Bool.{false≢true}
use mathlib.Core.Option
use ai_kodu_runner.Base.{
  sym, ◌∙◌, ℕ, suc, ◌≤◌, Text, text, text_eq, text_eq_iff, trim, trim_iff, split, is_whitespace,
  IsBlank, All, All-reverse_iff, push_front, Bool-cases, Bool, true, false, none, some, List, [],
  ◌∷◌, take, length, length-take, reverse, is_empty, ◌≡◌, ◌≢◌, ◌↔◌, refl, inl, inr, arith, ◌==◌,
}
use ai_kodu_runner.Protocol.Outcome.{
  strip_cr, broken_lines, lines, find_line, summary_source, error_summary,
}

-- A text is blank exactly when each of its pieces between line breaks is.
push_front-IsBlank_iff :
    (c : ℕ) (ws : List Text)
    → All IsBlank (push_front c ws) ↔ ((is_whitespace c ≡ true) × All IsBlank ws)
unfolding push_front
push_front-IsBlank_iff c [] = (λ h. (h.0.0, tt), λ h. ((h.0, tt), tt))
push_front-IsBlank_iff c (w ∷ ws) = (λ h. (h.0.0, (h.0.1, h.1)), λ h. ((h.0, h.1.0), h.1.1))

split-IsBlank_iff : (s : Text) → All IsBlank (split 10 s) ↔ IsBlank s
unfolding split
split-IsBlank_iff [] = (λ h. tt, λ h. (tt, tt))
split-IsBlank_iff (c ∷ s) =
    let (to, from) = split-IsBlank_iff s in
    let (first, both) = push_front-IsBlank_iff c (split 10 s) in
    elim (Bool-cases (c == 10)) [
      | inl b ↦
          let space : is_whitespace c ≡ true = unfold is_whitespace in ground arith in
          rw b ((λ h. (space, to h.1), λ h. (tt, from h.1)))
      | inr b ↦ rw b ((λ h. ((first h).0, to (first h).1), λ h. both (h.0, from h.1)))
    ]

strip_cr-IsBlank_iff : (w : Text) → IsBlank (strip_cr w) ↔ IsBlank w
unfolding strip_cr is_whitespace
strip_cr-IsBlank_iff [] = (λ h. tt, λ h. tt)
strip_cr-IsBlank_iff (c ∷ []) = elim (Bool-cases (c == 13)) [
  | inl b ↦ rw b ((λ h. (ground arith, tt), λ h. tt))
  | inr b ↦ rw b ((λ h. h, λ h. h))
]
strip_cr-IsBlank_iff (c ∷ d ∷ s) =
    let (to, from) = strip_cr-IsBlank_iff (d ∷ s) in (λ h. (h.0, to h.1), λ h. (h.0, from h.1))

broken_lines-IsBlank_iff : (ws : List Text) → All IsBlank (broken_lines ws) ↔ All IsBlank ws
unfolding broken_lines
broken_lines-IsBlank_iff [] = (λ h. tt, λ h. tt)
broken_lines-IsBlank_iff ([] ∷ []) = (λ h. (tt, tt), λ h. tt)
broken_lines-IsBlank_iff ((c ∷ w) ∷ []) = (λ h. h, λ h. h)
broken_lines-IsBlank_iff (w ∷ v ∷ ws) =
    let (to, from) = broken_lines-IsBlank_iff (v ∷ ws) in
    let (whole, stripped) = strip_cr-IsBlank_iff w in
    (λ h. (whole h.0, to h.1), λ h. (stripped h.0, from h.1))

lines-IsBlank_iff : (s : Text) → All IsBlank (lines s) ↔ IsBlank s
unfolding lines
lines-IsBlank_iff s =
    let (to, from) = broken_lines-IsBlank_iff (split 10 s) in
    let (joined, cut) = split-IsBlank_iff s in (λ h. joined (to h), λ h. from (cut h))

find_line-eq-none_iff : (ls : List Text) → (find_line ls ≡ none) ↔ All IsBlank ls
unfolding find_line
find_line-eq-none_iff [] = (λ h. tt, λ h. refl)
find_line-eq-none_iff (l ∷ ls) =
    let (to, from) = find_line-eq-none_iff ls in
    let (blank, trimmed) = trim_iff l in
    (λ h. (blank (ground arith), to (ground arith)), λ h. ground (arith, trimmed h.0, from h.1))

last_line-eq-none_iff : (s : Text) → (find_line (reverse (lines s)) ≡ none) ↔ IsBlank s
last_line-eq-none_iff s =
    let (to, from) = find_line-eq-none_iff (reverse (lines s)) in
    let (forth, back) = All-reverse_iff IsBlank (lines s) in
    let (joined, cut) = lines-IsBlank_iff s in
    (λ h. joined (forth (to h)), λ h. from (back (cut h)))

source-IsBlank_iff :
    (stdout stderr : Text)
    → IsBlank (summary_source stdout stderr) ↔ (IsBlank stdout × IsBlank stderr)
unfolding summary_source
source-IsBlank_iff stdout stderr =
    let (blank, trimmed) = trim_iff stderr in
    elim (Bool-cases (is_empty (trim stderr))) [
      | inl b ↦ rw b ((λ h. (h, blank b), λ h. h.0))
      | inr b ↦ rw b ((λ h. absurd (n b (trimmed h)), λ h. h.1))
    ]
  where
    n : {c : Bool} → c ≡ false → c ≡ true → ⊥
    n p q = cc

-- A job that did not complete has no error summary exactly when both of its outputs are blank.
pub error_summary-eq-none_iff :
    (status stdout stderr : Text)
    → status ≢ text "completed"
    → (error_summary status stdout stderr ≡ none) ↔ (IsBlank stdout × IsBlank stderr)
unfolding error_summary
error_summary-eq-none_iff status stdout stderr h =
    let (to, from) = last_line-eq-none_iff (summary_source stdout stderr) in
    let (both, one) = source-IsBlank_iff stdout stderr in
    let same = text_eq_iff status (text "completed") in
    (λ e. both (to (ground (arith, same, h))), λ b. ground (arith, same, h, from (one b)))

find_line-nonblank : (ls : List Text) (l : Text) → find_line ls ≡ some l → is_empty (trim l) ≡ false
unfolding find_line
find_line-nonblank [] l h = cc
find_line-nonblank (k ∷ ls) l h = ground (arith, find_line-nonblank ls l)

take-nonempty : (n : ℕ) (s : Text) → is_empty s ≡ false → is_empty (take (suc n) s) ≡ false
take-nonempty n [] h = h
take-nonempty n (c ∷ s) h = refl

-- An error summary is not empty and has at most 500 characters; a completed job has none.
error_summary_bounds :
    (status stdout stderr m : Text)
    → error_summary status stdout stderr ≡ some m
    → (status ≢ text "completed") × (is_empty m ≡ false) × (length m ≤ 500)
unfolding error_summary
error_summary_bounds status stdout stderr m h =
    elim (Bool-cases (text_eq status (text "completed"))) [
      | inl e ↦ absurd (no_summary (rw (e, error_summary) at h))
      | inr e ↦
          let (l, found, cut) = (Option.map-eq-some_iff _ _).0 (rw (e, error_summary) at h) in
          (
            λ s. false≢true (sym e ∙ (text_eq_iff status _).1 s),
            rw (← cut) (take-nonempty 499 (trim l) (find_line-nonblank _ l found)),
            rw (← cut) (rw length-take (omega arith)),
          )
    ]
  where
    no_summary : none ≡ some m → ⊥
    no_summary e = cc
