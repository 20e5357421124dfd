-- ===== src/Artifacts/Export.antt =====
-- What the export copies: the files that the patterns select, in the order of the walk, up to the
-- first one that does not fit.
use ai_kodu_runner.Base.{
  ℕ, ◌+◌, ◌%◌, ◌^◌, ◌≤◌, ◌<◌, Text, Bool, true, false, Bool-cases, some, List, [], ◌∷◌, ◌++◌, map,
  reverse, length, is_empty, ok, ◌≡◌, ◌≢◌, length-append, ◌⊎◌, inl, inr, refl, arith, if◌then◌else◌,
  ap, sym, subst, ◌∙◌, any, not, ◌||◌, ◌&&◌,
}
use mathlib.Core.List.{reverse-cons, reverse-reverse, append_assoc, append-nil}
use ai_kodu_runner.Artifacts.Defs.{
  glob_match, should_visit, Entry, Step, met, failed, Copied, nothing, copy_file, is_skipped,
  is_full, export_loop, export,
}

-- Some pattern of the list matches the path.
abbrev pub some_matches : List Text → Text → Bool
some_matches [] rel = false
some_matches (p ∷ ps) rel = glob_match p rel || some_matches ps rel

-- An entry that is a file and that some pattern matches.
abbrev pub is_selected : List Text → Entry → Bool
is_selected patterns e = e.is_file && some_matches patterns e.rel

-- The files of a walk that some pattern matches.
abbrev pub selected : List Text → List Step → List Entry
selected patterns [] = []
selected patterns (failed e ∷ rest) = selected patterns rest
selected patterns (met e ∷ rest) =
    if is_selected patterns e then e ∷ selected patterns rest else selected patterns rest

any_matches :
    (patterns : List Text) (rel : Text)
    → any (λ p. glob_match p rel) patterns ≡ some_matches patterns rel
any_matches [] rel = refl
any_matches (p ∷ ps) rel = ap (λ b. glob_match p rel || b) (any_matches ps rel)

-- The loop passes over exactly the entries that are not selected.
is_skipped_lem :
    (patterns : List Text) (e : Entry) → is_skipped patterns e ≡ not (is_selected patterns e)
is_skipped_lem patterns e = ground (arith, any_matches patterns e.rel)

abbrev pub total : List Entry → ℕ
total [] = 0
total (e ∷ es) = e.size + total es

-- The walk does not fail, and every entry is smaller than 2^63 bytes.
abbrev pub IsRead : List Step → Type 0
IsRead [] = Unit
IsRead (failed e ∷ rest) = ⊥
IsRead (met e ∷ rest) = (e.size < 2 ^ 63) × IsRead rest

-- The next selected file, if there is one, would exceed a limit.
abbrev pub Stops : (max max_files : ℕ) → List Entry → List Entry → Type 0
Stops max max_files out [] = Unit
Stops max max_files out (e ∷ es) = (max_files ≤ length out) ⊎ (max < total out + e.size)

-- Copied within the limits, with the size that the loop has counted.
pub record IsWithin (max max_files : ℕ) (done : Copied) : Type 0 where
  pub few : length done.out ≤ max_files
  pub small : total done.out ≤ max
  pub counted : done.size ≡ total done.out

reversed : (e : Entry) (kept out : List Entry) → reverse kept ++ e ∷ out ≡ reverse (e ∷ kept) ++ out
reversed e kept out = simp (reverse-cons, append_assoc)

module _ (patterns : List Text) (max max_files : ℕ) (bounded : max < 2 ^ 63) where
  copied_fits :
      (done : Copied) (e : Entry)
      → e.size < 2 ^ 63
      → IsWithin max max_files done
      → is_full max max_files done e ≡ false
      → IsWithin max max_files (copy_file e done)
  copied_fits done e s w h =
      let fits : (done.size + e.size) % 2 ^ 64 ≡ done.size + e.size =
        ground (arith, w.counted, w.small) in
      record {
        few = ground (arith, h);
        small = ground (arith, h, fits, w.counted);
        counted = ground (arith, fits, w.counted);
      }

  stop_full :
      (done : Copied) (e : Entry)
      → e.size < 2 ^ 63
      → IsWithin max max_files done
      → is_full max max_files done e ≡ true
      → (es : List Entry) → Stops max max_files done.out (e ∷ es)
  stop_full done e s w h es =
      let fits : (done.size + e.size) % 2 ^ 64 ≡ done.size + e.size =
        ground (arith, w.counted, w.small) in
      ground (arith, h, fits, w.counted)

  ok_done :
      (done : Copied) (e : Entry) (walk : List Step) (end : Copied)
      → export_loop patterns max max_files done (met e ∷ walk) ≡ ok end
      → is_skipped patterns e ≡ false
      → is_full max max_files done e ≡ true
      → done ≡ end
  unfolding export_loop
  ok_done done e walk end h take full =
      let found : ok done ≡ ok end = ground (arith, h, take, full) in cc

  loop_lem :
      (done : Copied) (walk : List Step) (end : Copied)
      → IsRead walk
      → IsWithin max max_files done
      → export_loop patterns max max_files done walk ≡ ok end
      → (kept dropped : List Entry) × (selected patterns walk ≡ kept ++ dropped)
        × (end.out ≡ reverse kept ++ done.out)
        × IsWithin max max_files end
        × Stops max max_files end.out dropped
  unfolding export_loop
  loop_lem done [] end s w h = ([], [], refl, ground (arith, h), ground (arith, h), tt)
  loop_lem done (failed e ∷ walk) end s w h = cc
  loop_lem done (met e ∷ walk) end s w h = elim (Bool-cases (is_skipped patterns e)) [
    | inl skip ↦
        let (kept, dropped, chosen, copied, within, stops) =
          loop_lem done walk end s.1 w (ground (arith, h, skip)) in
        (
          kept,
          dropped,
          ground (arith, skip, chosen, is_skipped_lem patterns e),
          copied,
          within,
          stops,
        )
    | inr take ↦ elim (Bool-cases (is_full max max_files done e)) [
      | inl full ↦
          let same : done ≡ end = ok_done done e walk end h take full in
          (
            [],
            e ∷ selected patterns walk,
            ground (arith, take, is_skipped_lem patterns e),
            ap (λ (c : Copied). c.out) (sym same),
            subst (IsWithin max max_files) same w,
            subst (λ (c : Copied). Stops max max_files c.out (e ∷ selected patterns walk)) same
                (stop_full done e s.0 w full (selected patterns walk)),
          )
      | inr fits ↦
          let (kept, dropped, chosen, copied, within, stops) =
            loop_lem (copy_file e done) walk end s.1 (copied_fits done e s.0 w fits)
              (ground (arith, h, take, fits)) in
          (
            e ∷ kept,
            dropped,
            ground (arith, take, chosen, is_skipped_lem patterns e),
            copied ∙ reversed e kept done.out,
            within,
            stops,
          )
    ]
  ]

  loop_ok :
      (done : Copied) (walk : List Step)
      → IsRead walk
      → (end : Copied) × (export_loop patterns max max_files done walk ≡ ok end)
  unfolding export_loop
  loop_ok done [] s = (done, refl)
  loop_ok done (failed e ∷ walk) s = absurd s
  loop_ok done (met e ∷ walk) s =
      let (passed, passes) = loop_ok done walk s.1 in
      let (copied, copies) = loop_ok (copy_file e done) walk s.1 in
      elim (Bool-cases (is_skipped patterns e)) [
        | inl skip ↦ (passed, ground (arith, skip, passes))
        | inr take ↦ elim (Bool-cases (is_full max max_files done e)) [
          | inl full ↦ (done, ground (arith, take, full))
          | inr fits ↦ (copied, ground (arith, take, fits, copies))
        ]
      ]

total-append : (xs ys : List Entry) → total (xs ++ ys) ≡ total xs + total ys
total-append [] ys = omega arith
total-append (x ∷ xs) ys = omega (arith, total-append xs ys)

-- What is copied in reverse order has the same number of files and of bytes.
reverse_same :
    (xs : List Entry) → (length (reverse xs) ≡ length xs) × (total (reverse xs) ≡ total xs)
reverse_same [] = (refl, refl)
reverse_same (x ∷ xs) =
    let (number, size) = reverse_same xs in
    (
      rw reverse-cons (rw (length-append (reverse xs) (x ∷ [])) (omega (arith, number))),
      rw reverse-cons (rw (total-append (reverse xs) (x ∷ [])) (omega (arith, size))),
    )

nonempty : (patterns : List Text) → patterns ≢ [] → is_empty patterns ≡ false
nonempty [] h = absurd (h refl)
nonempty (p ∷ patterns) h = refl

Stops-same :
    (max max_files : ℕ) (out kept dropped : List Entry)
    → length out ≡ length kept
    → total out ≡ total kept
    → Stops max max_files out dropped
    → Stops max max_files kept dropped
Stops-same max max_files out kept [] number size h = tt
Stops-same max max_files out kept (e ∷ es) number size h = ground (arith, number, size, h)

module _ (walk_dir : (Text → Bool) → List Step) (patterns : List Text) (max max_files : ℕ) where
  -- For a list of patterns that is not empty, over a walk that does not fail, with a limit and files
  -- below 2^63 bytes, the export names the entries of the walk that are files and that some pattern
  -- matches, in the order of the walk, up to the first one that would exceed the number of files or of bytes; those it names are within
  -- both.
  pub export_selects :
      patterns ≢ []
      → max < 2 ^ 63
      → IsRead (walk_dir (λ rel. should_visit rel patterns))
      → (kept dropped : List Entry) × (selected patterns
            (walk_dir (λ rel. should_visit rel patterns))
          ≡ kept ++ dropped)
        × (export walk_dir patterns max max_files ≡ ok (some (map (λ (e : Entry). e.rel) kept)))
        × (length kept ≤ max_files)
        × (total kept ≤ max)
        × Stops max max_files kept dropped
  unfolding export
  export_selects some_pattern bounded read =
      let walk = walk_dir (λ rel. should_visit rel patterns) in
      let (end, finished) = loop_ok patterns max max_files bounded nothing walk read in
      let (kept, dropped, chosen, copied, within, stops) =
        loop_lem patterns max max_files bounded nothing walk end read
          (record { few = omega arith; small = omega arith; counted = refl }) finished in
      let out : end.out ≡ reverse kept = copied ∙ append-nil (reverse kept) in
      let back : reverse end.out ≡ kept = ap reverse out ∙ reverse-reverse kept in
      let (number, size) = reverse_same kept in
      (
        kept,
        dropped,
        chosen,
        ground (arith, nonempty patterns some_pattern, finished, back),
        ground (arith, within.few, ap length out, number),
        ground (arith, within.small, ap total out, size),
        Stops-same max max_files end.out kept dropped (ap length out ∙ number) (ap total out ∙ size)
            stops,
      )
