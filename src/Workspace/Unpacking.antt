-- ===== src/Workspace/Unpacking.antt =====
-- What an archive that is unpacked cannot do.
use ai_kodu_runner.Base.{
  ℕ, ◌+◌, ◌^◌, ◌≤◌, ◌<◌, Text, true, false, List, [], ◌∷◌, any, All, length, ok, >>=-eq-ok,
  >>-eq-ok_iff, ◌≡◌, ◌≢◌, ◌↔◌, refl, subst, arith, if◌then◌else◌,
}
use ai_kodu_runner.Config.{Limits}
use ai_kodu_runner.Protocol.{
  Component, normal, parent_dir, cur_dir, root_dir, components, is_absolute,
}
use ai_kodu_runner.Policy.{join, path_starts_with}
use ai_kodu_runner.Workspace.Copy.{ensure_budget, checked_add}
use ai_kodu_runner.Workspace.Archive.{
  EntryType, regular, directory, symlink, hard_link, block_special, character_special, fifo, other,
  ArchiveEntry, ArchiveTurn, Counts, is_parent_dir, is_link, is_regular, check_path, count_regular,
  check_entry, unpack_loop, unpack,
}

-- A link of either kind, a device or a pipe is none of these.
abbrev pub IsPlain : EntryType → Type 0
IsPlain t =
    (t ≢ symlink) × (t ≢ hard_link) × (t ≢ block_special) × (t ≢ character_special) × (t ≢ fifo)

-- An entry that stays below `to` and is no link, device or pipe.
pub record IsContained (to : Text) (e : ArchiveEntry) : Type 0 where
  pub relative : is_absolute e.path ≡ false
  pub downward : All (λ c. c ≢ parent_dir) (components e.path)
  pub below : path_starts_with (join to e.path) to ≡ true
  pub plain : IsPlain e.entry_type

abbrev pub file_size : EntryType → ℕ → ℕ
file_size regular size = size
file_size _ size = 0

-- The bytes of the regular files.
abbrev pub expanded : List ArchiveEntry → ℕ
expanded [] = 0
expanded (e ∷ es) = file_size e.entry_type e.size + expanded es

file_size_lem : (t : EntryType) (size : ℕ) → file_size t size ≡ (if is_regular t then size else 0)
file_size_lem regular size = refl
file_size_lem t size = refl

is_link_iff : (t : EntryType) → (is_link t ≡ false) ↔ IsPlain t
unfolding is_link
is_link_iff symlink = (λ h. cc, λ h. absurd (h.0 refl))
is_link_iff hard_link = (λ h. cc, λ h. absurd (h.1 refl))
is_link_iff block_special = (λ h. cc, λ h. absurd (h.2 refl))
is_link_iff character_special = (λ h. cc, λ h. absurd (h.3 refl))
is_link_iff fifo = (λ h. cc, λ h. absurd (h.4 refl))
is_link_iff regular = (λ h. (λ e. cc, λ e. cc, λ e. cc, λ e. cc, λ e. cc), λ h. refl)
is_link_iff directory = (λ h. (λ e. cc, λ e. cc, λ e. cc, λ e. cc, λ e. cc), λ h. refl)
is_link_iff other = (λ h. (λ e. cc, λ e. cc, λ e. cc, λ e. cc, λ e. cc), λ h. refl)

is_parent_dir_iff : (c : Component) → (is_parent_dir c ≡ false) ↔ (c ≢ parent_dir)
unfolding is_parent_dir
is_parent_dir_iff parent_dir = (λ h. cc, λ h. absurd (h refl))
is_parent_dir_iff root_dir = (λ h e. cc, λ h. refl)
is_parent_dir_iff cur_dir = (λ h e. cc, λ h. refl)
is_parent_dir_iff (normal n) = (λ h e. cc, λ h. refl)

downward_iff : (cs : List Component) → (any is_parent_dir cs ≡ false) ↔ All (λ c. c ≢ parent_dir) cs
downward_iff [] = (λ h. tt, λ h. refl)
downward_iff (c ∷ cs) =
    let (to, from) = is_parent_dir_iff c in
    let (all_to, all_from) = downward_iff cs in
    (
      λ h. (to (ground (arith, h)), all_to (ground (arith, h))),
      λ h. ground (arith, from h.0, all_from h.1),
    )

check_path_iff : (to : Text) (e : ArchiveEntry) → (check_path to e ≡ ok tt) ↔ IsContained to e
unfolding check_path
check_path_iff to e =
    let (no_link, plain) = is_link_iff e.entry_type in
    let (no_parent, down) = downward_iff (components e.path) in
    (
      λ h. record {
        relative = ground arith;
        downward = no_parent (ground arith);
        below = ground arith;
        plain = no_link (ground arith);
      },
      λ h. ground (arith, h.relative, down h.downward, h.below, plain h.plain),
    )

-- A turn within the budget that yields this entry.
abbrev pub AreYielded : List ArchiveTurn → List ArchiveEntry → Type 0
AreYielded [] [] = Unit
AreYielded (t ∷ ts) (e ∷ es) =
    ((t.cancelled ≡ false) × (t.late ≡ false) × (t.item ≡ ok e)) × AreYielded ts es
AreYielded _ _ = ⊥

module _ (limits : Limits) (f : limits.max_workspace_files < 2 ^ 64)
    (b : limits.max_workspace_bytes < 2 ^ 64) (to : Text) where
  -- The counts after an entry.
  abbrev counted : Counts → ArchiveEntry → Counts
  counted counts e = record {
    entries = counts.entries + 1;
    files = counts.files + (if is_regular e.entry_type then 1 else 0);
    expanded_bytes = counts.expanded_bytes + file_size e.entry_type e.size;
  }

  entry_iff :
      (counts after : Counts) (e : ArchiveEntry)
      → counts.files ≤ counts.entries
      → counts.expanded_bytes ≤ limits.max_workspace_bytes
      → (check_entry limits to counts e ≡ ok after) ↔ (
          IsContained to e
          × (after ≡ counted counts e)
          × (counts.entries + 1 ≤ limits.max_workspace_files)
          × ((counted counts e).expanded_bytes ≤ limits.max_workspace_bytes))
  unfolding check_entry count_regular checked_add
  entry_iff counts after e hf hb = (
    λ h.
        let size = file_size_lem e.entry_type e.size in
        (
          (check_path_iff to e).0 (ground arith),
          ground (arith, size),
          ground arith,
          ground (arith, size),
        ),
    λ h.
        ground
          (arith, (check_path_iff to e).1 h.0, h.1, h.2, h.3, file_size_lem e.entry_type e.size),
  )

  abbrev IsUnpacked : Counts → List ArchiveTurn → List ArchiveEntry → Type 0
  IsUnpacked counts turns out =
      AreYielded turns out
      × All (IsContained to) out
      × (counts.entries + length out ≤ limits.max_workspace_files)
      × (counts.expanded_bytes + expanded out ≤ limits.max_workspace_bytes)

  turn_iff :
      (turn : ArchiveTurn)
      → (ensure_budget turn.cancelled turn.late ≡ ok tt)
        ↔ ((turn.cancelled ≡ false) × (turn.late ≡ false))
  unfolding ensure_budget
  turn_iff turn = (λ h. (ground arith, ground arith), λ h. ground (arith, h.0, h.1))

  unpack_to :
      (counts : Counts) (turns : List ArchiveTurn) (out : List ArchiveEntry)
      → counts.files ≤ counts.entries
      → counts.entries ≤ limits.max_workspace_files
      → counts.expanded_bytes ≤ limits.max_workspace_bytes
      → unpack_loop limits to counts turns ≡ ok out
      → IsUnpacked counts turns out
  unfolding unpack_loop
  unpack_to counts [] out hf he hb h = (
    subst (AreYielded []) (nil_out h) tt,
    subst (All (IsContained to)) (nil_out h) tt,
    ground (arith, he, h),
    ground (arith, hb, h),
  )
    where
      nil_out : ok [] ≡ ok out → [] ≡ out
      nil_out e = ground (arith, e)
  unpack_to counts (turn ∷ turns) out hf he hb h =
      let (budget, rest) = (>>-eq-ok_iff _ _ out).0 h in
      let (e, item, step) = >>=-eq-ok turn.item _ rest in
      let (after, checked, next) = >>=-eq-ok (check_entry limits to counts e) _ step in
      let (more, looped, last) = >>=-eq-ok (unpack_loop limits to after turns) _ next in
      let (safe, same, few, small) = (entry_iff counts after e hf hb).0 checked in
      let (yields, all, fewer, smaller) =
        unpack_to (counted counts e) turns more (ground (arith, hf)) few small
          (ground (arith, looped, same)) in
      let out_eq : e ∷ more ≡ out = ground (arith, last) in
      let (calm, early) = (turn_iff turn).0 budget in
      let all_few : counts.entries + length (e ∷ more) ≤ limits.max_workspace_files =
        omega (arith, fewer) in
      let all_small : counts.expanded_bytes + expanded (e ∷ more) ≤ limits.max_workspace_bytes =
        omega (arith, smaller) in
      subst (IsUnpacked counts (turn ∷ turns)) out_eq
        (((calm, early, item), yields), (safe, all), all_few, all_small)

  unpack_from :
      (counts : Counts) (turns : List ArchiveTurn) (out : List ArchiveEntry)
      → counts.files ≤ counts.entries
      → counts.expanded_bytes ≤ limits.max_workspace_bytes
      → IsUnpacked counts turns out
      → unpack_loop limits to counts turns ≡ ok out
  unfolding unpack_loop
  unpack_from counts [] [] hf hb h = refl
  unpack_from counts [] (e ∷ out) hf hb h = absurd h.0
  unpack_from counts (turn ∷ turns) [] hf hb h = absurd h.0
  unpack_from counts (turn ∷ turns) (e ∷ out) hf hb (yields, all, few, small) = ground (
    arith,
    (turn_iff turn).1 (yields.0.0, yields.0.1),
    yields.0.2,
    (entry_iff counts (counted counts e) e hf hb).1
        (all.0, refl, omega (arith, few), ground (arith, small)),
    unpack_from (counted counts e) turns out (ground (arith, hf)) (ground (arith, small))
        (yields.1, all.1, omega (arith, few), omega (arith, small)),
  )

  -- An archive is unpacked exactly when every turn is within the budget and yields an entry, every
  -- entry has a relative path without "..", below the directory, and is no link of either kind, device or pipe, and the
  -- numbers of entries and of expanded bytes are within the limits; the entries are then those, in
  -- order.
  pub unpack_iff :
      (turns : List ArchiveTurn) (out : List ArchiveEntry)
      → (unpack limits to turns ≡ ok out) ↔ (
          AreYielded turns out
          × All (IsContained to) out
          × (length out ≤ limits.max_workspace_files)
          × (expanded out ≤ limits.max_workspace_bytes))
  unfolding unpack
  unpack_iff turns out =
      let start : Counts = record { entries = 0; files = 0; expanded_bytes = 0 } in
      (
        λ h.
            let (yields, all, few, small) =
              unpack_to start turns out (omega arith) (omega arith) (omega arith) h in
            (yields, all, omega (arith, few), omega (arith, small)),
        λ (yields, all, few, small).
            unpack_from start turns out (omega arith) (omega arith)
              (yields, all, omega (arith, few), omega (arith, small)),
      )
