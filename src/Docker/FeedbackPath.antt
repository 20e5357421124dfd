-- ===== src/Docker/FeedbackPath.antt =====
-- `safe_feedback_path`: the directories above the feedback file are walked, and made where they are
-- absent. A path is the list of its components, by which `std::path` compares paths.
use ai_kodu_runner.Base.{
  Text, text, Bool, true, false, not, Option, none, some, List, [], ◌∷◌, ◌++◌, Result, ok, err,
  Error, bail, bail_if, ◌>>=◌, ◌>>◌, ◌≡◌,
}
use ai_kodu_runner.Protocol.{Component, cur_dir, root_dir, components, validate_feedback_file}
use ai_kodu_runner.Policy.{components_start, component_eq}

abbrev pub FilePath : Type 0
FilePath = List Component

-- The type of a file, links not followed.
pub data FileType : Type 0 where
  directory symlink other : FileType

-- What `fs::symlink_metadata` answers.
pub data Metadata : Type 0 where
  found : FileType → Metadata
  not_found : Metadata
  failed : Error → Metadata

-- The files, as the standard library shows them. A new directory is there afterwards, and making one
-- changes nothing that was there.
pub record FileSystem : Type 1 where
  pub Files : Type 0
  pub canonicalize : Files → FilePath → Result FilePath
  pub symlink_metadata : Files → FilePath → Metadata
  pub create_dir : Files → FilePath → Result (Unit {0}) × Files
  pub created :
      (s : Files) (p : FilePath)
      → (create_dir s p).0 ≡ ok tt
      → symlink_metadata (create_dir s p).1 p ≡ found directory
  pub kept :
      (s : Files) (p q : FilePath) (t : FileType)
      → symlink_metadata s q ≡ found t
      → symlink_metadata (create_dir s p).1 q ≡ found t

abbrev pub is_cur_dir : Component → Bool
is_cur_dir c = elim c [ cur_dir ↦ true | _ ↦ false ]

-- `path.parent()`: nothing is above a root or an empty path.
unfoldable pub parent : FilePath → Option FilePath
parent [] = none
parent (root_dir ∷ []) = none
parent (c ∷ []) = some []
parent (c ∷ d ∷ cs) = elim (parent (d ∷ cs)) [
  | none ↦ some (c ∷ [])
  | some above ↦ some (c ∷ above)
]

-- `.context(message)?` on an option
abbrev pub or_bail : Option FilePath → Text → Result FilePath
or_bail none message = err (bail message)
or_bail (some p) message = ok p

unfoldable pub is_symlink : Metadata → Bool
is_symlink (found symlink) = true
is_symlink _ = false

module _ (fs : FileSystem) where
  open fs use {Files, canonicalize, symlink_metadata, create_dir}

  -- `?` on a step that also leaves the files.
  abbrev pub and_then {ℓ} :
      {A : Type ℓ} → Result (Unit {0}) × Files → (Files → Result A × Files) → Result A × Files
  and_then (ok done, s) rest = rest s
  and_then (err e, s) rest = (err e, s)

  unfoldable pub walk : (current : FilePath) → List Component → Files → Result (Unit {0}) × Files
  walk current [] s = (ok tt, s)
  walk current (c ∷ cs) s =
      let next = current ++ c ∷ [] in
      elim (is_cur_dir c) [
        | true ↦ walk current cs s
        | false ↦ elim (symlink_metadata s next) [
          | found symlink ↦ (err (bail (text "feedback_file parent must not be a symlink")), s)
          | found other ↦ (err (bail (text "feedback_file parent is not a directory")), s)
          | found directory ↦ walk next cs s
          | failed e ↦ (err e, s)
          | not_found ↦ and_then (create_dir s next) (walk next cs)
        ]
      ]

  -- The checks on the target, once the directories above it are there.
  unfoldable pub check_target : (base target : FilePath) → Files → Result FilePath
  unfolding is_symlink parent components_start component_eq
  check_target base target s = do
    bail_if (is_symlink (symlink_metadata s target)) (text "feedback_file must not be a symlink")
    above ← or_bail (parent target) (text "feedback_file has no parent directory")
    canonical ← canonicalize s above
    bail_if (not (components_start base canonical)) (text "feedback_file escapes workspace")
    ok target

  unfoldable pub walk_above : (base relative : FilePath) → Files → Result (Unit {0}) × Files
  unfolding parent walk
  walk_above base relative s = elim (parent relative) [
    | none ↦ (ok tt, s)
    | some above ↦ walk base above s
  ]

  -- The path that the feedback is written to, and the files then.
  unfoldable pub safe_feedback_path :
      (root : FilePath) (feedback_file : Text) → Files → Result FilePath × Files
  unfolding walk_above check_target
  safe_feedback_path root feedback_file s = elim (validate_feedback_file feedback_file) [
    | err e ↦ (err e, s)
    | ok relative ↦ elim (canonicalize s root) [
      | err e ↦ (err (bail (text "canonicalize feedback workspace")), s)
      | ok base ↦
          and_then (walk_above base (components relative) s)
            (λ s'. (check_target base (base ++ components relative) s', s'))
    ]
  ]
