-- ===== src/Workspace/Copy.antt =====
-- `copy_tree`. The walk is the list of what `WalkDir` yields, each item with the state of the token and
-- of the deadline at that moment; what is copied is the list of the files. A
-- failure to read or write a file counts as one of its turn.
use ai_kodu_runner.Base.{
  ℕ, ◌+◌, ◌^◌, Text, text, Bool, false, not, List, [], ◌∷◌, is_empty, Result, ok, err, bail, ◌>>=◌,
  ◌>>◌, bail_if, leb, ltb, if◌then◌else◌,
}
use ai_kodu_runner.Config.{Limits}
use ai_kodu_runner.Artifacts.{is_derived_path}

pub data FileKind : Type 0 where
  directory file other : FileKind

-- A path below the root of the walk.
pub record TreeEntry : Type 0 where
  pub rel : Text
  pub kind : FileKind
  pub size : ℕ

-- One turn of the loop: the budget that it meets, then what the walk yields.
pub record Turn : Type 0 where
  pub cancelled : Bool
  pub late : Bool
  pub item : Result TreeEntry

unfoldable pub ensure_budget : (cancelled late : Bool) → Result (Unit {0})
ensure_budget cancelled late = do
  bail_if cancelled (text "workspace preparation cancelled")
  bail_if late (text "workspace preparation timed out")

-- `checked_add` of 64 bits, with the message of its overflow
unfoldable pub checked_add : (a b : ℕ) → Text → Result ℕ
checked_add a b message = if leb (2 ^ 64) (a + b) then err (bail message) else ok (a + b)

-- The checks on one more file: the new counts.
unfoldable pub count_file : Limits → (files bytes : ℕ) → TreeEntry → Result (ℕ × ℕ)
unfolding checked_add
count_file limits files bytes e = do
  files' ← checked_add files 1 (text "workspace file count overflow")
  bail_if (ltb limits.max_workspace_files files') (text "workspace file limit exceeded")
  bytes' ← checked_add bytes e.size (text "workspace size overflow")
  bail_if (ltb limits.max_workspace_bytes bytes') (text "workspace byte limit exceeded")
  ok (files', bytes')

-- An entry that is copied: a file, below the root.
abbrev pub is_copied : TreeEntry → Bool
is_copied e = elim e.kind [ directory ↦ false | file ↦ not (is_empty e.rel) | other ↦ false ]

unfoldable pub copy_loop : Limits → (files bytes : ℕ) → List Turn → Result (List TreeEntry)
unfolding ensure_budget count_file
copy_loop limits files bytes [] = ok []
copy_loop limits files bytes (turn ∷ rest) = do
  ensure_budget turn.cancelled turn.late
  e ← turn.item
  if is_copied e
      then (count_file limits files bytes e >>= λ counts.
          copy_loop limits counts.0 counts.1 rest >>= λ more. ok (e ∷ more))
      else copy_loop limits files bytes rest

-- `walk_dir visit` is the walk of the source with `filter_entry(visit)`.
unfoldable pub copy_tree :
    (is_dir : Bool) (walk_dir : (Text → Bool) → List Turn) → Limits → Result (List TreeEntry)
copy_tree is_dir walk_dir limits = do
  bail_if (not is_dir) (text "workspace is not a directory")
  copy_loop limits 0 0 (walk_dir (λ rel. not (is_derived_path rel)))
