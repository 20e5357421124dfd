-- ===== src/Workspace/Trees.antt =====
-- What `copy_tree` copies, and when it succeeds.
use ai_kodu_runner.Base.{
  ℕ, ◌+◌, ◌^◌, ◌≤◌, ◌<◌, Text, Bool, true, false, not, Bool-cases, List, [], ◌∷◌, length, ok, ◌>>=◌,
  >>=-eq-ok, >>-eq-ok_iff, ◌≡◌, ◌↔◌, inl, inr, refl, arith, if◌then◌else◌, is_empty,
}
use ai_kodu_runner.Config.{Limits}
use ai_kodu_runner.Artifacts.{is_derived_path}
use ai_kodu_runner.Workspace.Copy.{
  FileKind, file, directory, other, TreeEntry, Turn, ensure_budget, checked_add, count_file,
  is_copied, copy_loop, copy_tree,
}

-- A turn within the budget that yields this entry.
abbrev pub Yields : Turn → TreeEntry → Type 0
Yields turn e = (turn.cancelled ≡ false) × (turn.late ≡ false) × (turn.item ≡ ok e)

-- The entries of a walk that meets no obstacle.
abbrev pub AreYields : List Turn → List TreeEntry → Type 0
AreYields [] [] = Unit
AreYields (t ∷ ts) (e ∷ es) = Yields t e × AreYields ts es
AreYields _ _ = ⊥

-- A file whose path below the root is not empty; a directory, a link or a device is none.
abbrev pub is_file_below : FileKind → Text → Bool
is_file_below file (c ∷ rel) = true
is_file_below file [] = false
is_file_below directory rel = false
is_file_below other rel = false

is_copied_lem : (e : TreeEntry) → is_copied e ≡ is_file_below e.kind e.rel
is_copied_lem e = by_kind e.kind e.rel
  where
    by_kind :
        (kind : FileKind) (rel : Text)
        → elim kind [ directory ↦ false | file ↦ not (is_empty rel) | other ↦ false ]
          ≡ is_file_below kind rel
    by_kind file (c ∷ rel) = refl
    by_kind file [] = refl
    by_kind directory rel = refl
    by_kind other rel = refl

-- The files below the root.
abbrev pub copied_files : List TreeEntry → List TreeEntry
copied_files [] = []
copied_files (e ∷ es) = if is_file_below e.kind e.rel then e ∷ copied_files es else copied_files es

abbrev pub total : List TreeEntry → ℕ
total [] = 0
total (e ∷ es) = e.size + total es

count_file_iff :
    (limits : Limits) (files bytes : ℕ) (e : TreeEntry) (counts : ℕ × ℕ)
    → limits.max_workspace_files < 2 ^ 64
    → limits.max_workspace_bytes < 2 ^ 64
    → (count_file limits files bytes e ≡ ok counts) ↔ (
        (counts ≡ (files + 1, bytes + e.size))
        × (files + 1 ≤ limits.max_workspace_files)
        × (bytes + e.size ≤ limits.max_workspace_bytes))
unfolding count_file checked_add
count_file_iff limits files bytes e counts f b =
    (λ h. (ground arith, ground arith, ground arith), λ h. ground (arith, h.0, h.1, h.2))

budget_iff :
    (cancelled late : Bool)
    → (ensure_budget cancelled late ≡ ok tt) ↔ ((cancelled ≡ false) × (late ≡ false))
unfolding ensure_budget
budget_iff cancelled late = (λ h. (ground arith, ground arith), λ h. ground (arith, h.0, h.1))

module _ (limits : Limits) (f : limits.max_workspace_files < 2 ^ 64)
    (b : limits.max_workspace_bytes < 2 ^ 64) where
  -- A walk without an obstacle whose files fit, after so many files and bytes.
  abbrev IsCopied : (files bytes : ℕ) → List Turn → List TreeEntry → Type 0
  IsCopied files bytes turns out =
      (es : List TreeEntry) × AreYields turns es
      × (out ≡ copied_files es)
      × (files + length out ≤ limits.max_workspace_files)
      × (bytes + total out ≤ limits.max_workspace_bytes)

  loop_to :
      (files bytes : ℕ) (turns : List Turn) (out : List TreeEntry)
      → files ≤ limits.max_workspace_files
      → bytes ≤ limits.max_workspace_bytes
      → copy_loop limits files bytes turns ≡ ok out
      → IsCopied files bytes turns out
  unfolding copy_loop
  loop_to files bytes [] out hf hb h =
      ([], tt, ground (arith, h), ground (arith, h, hf), ground (arith, h, hb))
  loop_to files bytes (turn ∷ turns) out hf hb h =
      let (budget, rest) = (>>-eq-ok_iff _ _ out).0 h in
      let (e, item, step) = >>=-eq-ok turn.item _ rest in
      let (calm, early) = (budget_iff turn.cancelled turn.late).0 budget in
      elim (Bool-cases (is_copied e)) [
        | inr skip ↦
            let (es, yields, same, few, small) =
              loop_to files bytes turns out hf hb (ground (arith, step, skip)) in
            (
              e ∷ es,
              ((calm, early, item), yields),
              ground (arith, skip, same, is_copied_lem e),
              few,
              small,
            )
        | inl copy ↦
            let step' : (count_file limits files bytes e >>= λ counts.
            copy_loop limits counts.0 counts.1 turns >>= λ more. ok (e ∷ more))
                ≡ ok out =
              ground (arith, step, copy) in
            let (counts, counted, next) = >>=-eq-ok (count_file limits files bytes e) _ step' in
            let (more, looped, last) =
              >>=-eq-ok (copy_loop limits counts.0 counts.1 turns) _ next in
            let (eq, fewer, smaller) = (count_file_iff limits files bytes e counts f b).0 counted in
            let (es, yields, same, few, small) =
              loop_to (files + 1) (bytes + e.size) turns more fewer smaller
                (ground (arith, looped, eq)) in
            (
              e ∷ es,
              ((calm, early, item), yields),
              ground (arith, copy, same, last, is_copied_lem e),
              ground (arith, few, last),
              ground (arith, small, last),
            )
      ]

  loop_from :
      (files bytes : ℕ) (turns : List Turn) (es : List TreeEntry)
      → AreYields turns es
      → files + length (copied_files es) ≤ limits.max_workspace_files
      → bytes + total (copied_files es) ≤ limits.max_workspace_bytes
      → copy_loop limits files bytes turns ≡ ok (copied_files es)
  unfolding copy_loop
  loop_from files bytes [] [] y few small = refl
  loop_from files bytes [] (e ∷ es) y few small = absurd y
  loop_from files bytes (turn ∷ turns) [] y few small = absurd y
  loop_from files bytes (turn ∷ turns) (e ∷ es) y few small =
      let budget = (budget_iff turn.cancelled turn.late).1 (y.0.0, y.0.1) in
      elim (Bool-cases (is_copied e)) [
        | inr skip ↦ ground (
          arith,
          budget,
          y.0.2,
          skip,
          is_copied_lem e,
          loop_from files bytes turns es y.1 (ground (arith, skip, few, is_copied_lem e))
              (ground (arith, skip, small, is_copied_lem e)),
        )
        | inl copy ↦ ground (
          arith,
          budget,
          y.0.2,
          copy,
          is_copied_lem e,
          (count_file_iff limits files bytes e (files + 1, bytes + e.size) f b).1 (
            refl,
            ground (arith, copy, few, is_copied_lem e),
            ground (arith, copy, small, is_copied_lem e),
          ),
          loop_from (files + 1) (bytes + e.size) turns es y.1
              (ground (arith, copy, few, is_copied_lem e))
              (ground (arith, copy, small, is_copied_lem e)),
        )
      ]

  -- Copying a tree succeeds exactly when the source is a directory, every turn of the walk is within
  -- the budget and yields an entry, and the files below the root (no directory, link or device) are
  -- within the limits on their number and bytes; it then copies those files, in the order of the walk.
  pub copy_tree_iff :
      (is_dir : Bool) (walk_dir : (Text → Bool) → List Turn) (out : List TreeEntry)
      → (copy_tree is_dir walk_dir limits ≡ ok out) ↔ (
          (is_dir ≡ true)
          × ((es : List TreeEntry) × AreYields (walk_dir (λ rel. not (is_derived_path rel))) es
              × (out ≡ copied_files es)
              × (length out ≤ limits.max_workspace_files)
              × (total out ≤ limits.max_workspace_bytes)))
  unfolding copy_tree
  copy_tree_iff is_dir walk_dir out =
      let walk = walk_dir (λ rel. not (is_derived_path rel)) in
      (
        λ h.
            let (dir, rest) = (>>-eq-ok_iff _ (copy_loop limits 0 0 walk) out).0 h in
            let (es, yields, same, few, small) =
              loop_to 0 0 walk out (omega arith) (omega arith) rest in
            (ground (arith, dir), (es, yields, same, omega (arith, few), omega (arith, small))),
        λ (dir, (es, yields, same, few, small)). ground (
          arith,
          dir,
          same,
          loop_from 0 0 walk es yields (ground (arith, few, same)) (ground (arith, small, same)),
        ),
      )
