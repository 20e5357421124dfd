-- ===== src/Workspace/Archive.antt =====
-- The unpacking loop of `download_archive`. The entries are what the tar library yields, each with
-- the state of the token and of the deadline; `to` is the directory that is unpacked into. A
-- failure to read or write an entry counts as one of its turn.
use ai_kodu_runner.Base.{
  ℕ, Text, text, Bool, true, false, not, ◌||◌, List, [], ◌∷◌, any, Result, ok, ◌>>=◌, ◌>>◌, bail_if,
  ltb, if◌then◌else◌,
}
use ai_kodu_runner.Config.{Limits}
use ai_kodu_runner.Protocol.{Component, parent_dir, components, is_absolute}
use ai_kodu_runner.Policy.{join, path_starts_with}
use ai_kodu_runner.Workspace.Copy.{ensure_budget, checked_add}

pub data EntryType : Type 0 where
  regular directory symlink hard_link block_special character_special fifo other : EntryType

pub record ArchiveEntry : Type 0 where
  pub path : Text
  pub entry_type : EntryType
  pub size : ℕ

pub record ArchiveTurn : Type 0 where
  pub cancelled : Bool
  pub late : Bool
  pub item : Result ArchiveEntry

-- What the loop has counted.
pub record Counts : Type 0 where
  pub entries : ℕ
  pub files : ℕ
  pub expanded_bytes : ℕ

unfoldable pub is_parent_dir : Component → Bool
is_parent_dir parent_dir = true
is_parent_dir _ = false

unfoldable pub is_link : EntryType → Bool
is_link symlink = true
is_link hard_link = true
is_link block_special = true
is_link character_special = true
is_link fifo = true
is_link _ = false

abbrev pub is_regular : EntryType → Bool
is_regular t = elim t [ regular ↦ true | _ ↦ false ]

-- The path of an entry.
unfoldable pub check_path : (to : Text) → ArchiveEntry → Result (Unit {0})
unfolding is_parent_dir is_link
check_path to e = do
  bail_if (is_absolute e.path || any is_parent_dir (components e.path))
      (text "archive path traversal detected")
  bail_if (not (path_starts_with (join to e.path) to)) (text "archive escape detected")
  bail_if (is_link e.entry_type) (text "links are not allowed in archives")

-- The counts after a regular file.
unfoldable pub count_regular : Limits → (entries : ℕ) → Counts → ArchiveEntry → Result Counts
unfolding checked_add
count_regular limits entries counts e = do
  files ← checked_add counts.files 1 (text "archive file count overflow")
  bail_if (ltb limits.max_workspace_files files) (text "archive file limit exceeded")
  bytes ← checked_add counts.expanded_bytes e.size (text "archive expanded size overflow")
  bail_if (ltb limits.max_workspace_bytes bytes) (text "archive expanded size limit exceeded")
  ok (record { entries = entries; files = files; expanded_bytes = bytes })

unfoldable pub check_entry : Limits → (to : Text) → Counts → ArchiveEntry → Result Counts
unfolding checked_add check_path count_regular
check_entry limits to counts e = do
  entries ← checked_add counts.entries 1 (text "archive entry count overflow")
  bail_if (ltb limits.max_workspace_files entries) (text "archive entry limit exceeded")
  check_path to e
  if is_regular e.entry_type
      then count_regular limits entries counts e
      else ok (record counts { entries = entries })

-- The entries that are unpacked.
unfoldable pub unpack_loop :
    Limits → (to : Text) → Counts → List ArchiveTurn → Result (List ArchiveEntry)
unfolding check_entry
unpack_loop limits to counts [] = ok []
unpack_loop limits to counts (turn ∷ rest) = do
  ensure_budget turn.cancelled turn.late
  e ← turn.item
  after ← check_entry limits to counts e
  more ← unpack_loop limits to after rest
  ok (e ∷ more)

unfoldable pub unpack : Limits → (to : Text) → List ArchiveTurn → Result (List ArchiveEntry)
unfolding unpack_loop
unpack limits to turns =
    unpack_loop limits to (record { entries = 0; files = 0; expanded_bytes = 0 }) turns
