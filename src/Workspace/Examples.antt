-- ===== src/Workspace/Examples.antt =====
-- Tests of the workspace's preparation and publication, and instances of its theorems.
use ai_kodu_runner.Base.{
  ℕ, ◌≤◌, pos, Text, text, text_eq, Bool, true, false, not, none, some, List, [], ◌∷◌, All, length,
  Result, ok, err, bail, ◌≡◌, ◌↔◌, refl, arith, if◌then◌else◌,
}
use ai_kodu_runner.Protocol.{GitWorkspace, WorkspaceSpec, if_changed}
use ai_kodu_runner.Protocol.Sample.{texts}
use ai_kodu_runner.Config.{Limits, default_local, platform_from_env}
use ai_kodu_runner.Policy.{join, path_starts_with, component_eq, components_start}
use ai_kodu_runner.Artifacts.{is_derived_path, is_derived_component}
use ai_kodu_runner.Workspace.Copy.{
  TreeEntry, FileKind, directory, file, other, Turn, ensure_budget, checked_add, count_file,
  copy_loop, copy_tree,
}
use ai_kodu_runner.Workspace.Archive.{
  EntryType, regular, symlink, ArchiveEntry, ArchiveTurn, is_parent_dir, is_link, check_path,
  count_regular, check_entry, unpack_loop, unpack,
}
use ai_kodu_runner.Workspace.Publish
use ai_kodu_runner.Workspace.Publish.{
  Output, Command, redact_git_token, run_git_output, run_git_command, git_with_auth,
  commit_and_push, after_diff, publish_changes, publish_git, diff_command, push_command,
}
use ai_kodu_runner.Workspace.Trees
use ai_kodu_runner.Workspace.Trees.{AreYields, copied_files, copy_tree_iff}
use ai_kodu_runner.Workspace.Unpacking.{IsContained, expanded, AreYielded, unpack_iff}
use ai_kodu_runner.Workspace.Publishing.{Succeeds, IsSettled, publish_git_iff}

workspace : Unit {0}
unfolding texts join path_starts_with component_eq components_start default_local platform_from_env
    is_derived_path is_derived_component ensure_budget checked_add count_file copy_loop copy_tree
    is_parent_dir is_link check_path count_regular check_entry unpack_loop unpack Publish.◌>>=◌
    redact_git_token run_git_output run_git_command git_with_auth commit_and_push after_diff
    publish_changes publish_git
workspace = tt

abbrev limits : Limits
limits = record ((default_local (λ _. none) (text "/work")).limits) {
  max_workspace_files = 2;
  max_workspace_bytes = 100;
}

abbrev turn : Text → FileKind → ℕ → Turn
turn rel kind size = record {
  cancelled = false;
  late = false;
  item = ok (record { rel = rel; kind = kind; size = size });
}

abbrev walk : (Text → Bool) → List Turn
walk visit =
    turn [] directory 0
    ∷ turn (text "src") directory 0
    ∷ turn (text "src/a.rs") file 60
    ∷ turn (text "link") other 0
    ∷ turn (text "b.rs") file 40
    ∷ (if visit (text "build") then turn (text "build") file 1 ∷ [] else [])

abbrev copied : List TreeEntry
copied =
    record { rel = text "src/a.rs"; kind = file; size = 60 }
    ∷ record { rel = text "b.rs"; kind = file; size = 40 }
    ∷ []

abbrev packed : Text → EntryType → ArchiveTurn
packed path kind = record {
  cancelled = false;
  late = false;
  item = ok (record { path = path; entry_type = kind; size = 60 });
}

-- Commands succeed, and the difference shows a change.
abbrev git : Command → Result Output
git c = elim c [
  | [] ↦ err (bail [])
  | word ∷ rest ↦ ok (record {
    code = some (if text_eq word (text "diff") then pos 1 else pos 0);
    stderr = [];
    stdout = text "abc";
  })
]

abbrev no_replace : Text → Text → Text
no_replace message token = message

abbrev repository : GitWorkspace
repository = record {
  clone_url = text "https://host/r.git";
  base_branch = text "main";
  branch = text "work";
  base_sha = none;
  head_sha = none;
  username = text "runner";
  token = text "t";
  commit_message = text "done";
  publish_mode = if_changed;
}

workspace_tests :
    (copy_tree true walk limits ≡ ok copied)
    × (copy_tree true walk (record limits { max_workspace_bytes = 99 })
        ≡ err (bail (text "workspace byte limit exceeded")))
    × (copy_tree false walk limits ≡ err (bail (text "workspace is not a directory")))
    × (unpack limits (text "/tmp/w") (packed (text "a/../../b") regular ∷ [])
        ≡ err (bail (text "archive path traversal detected")))
    × (unpack limits (text "/tmp/w") (packed (text "a") symlink ∷ [])
        ≡ err (bail (text "links are not allowed in archives")))
    × (unpack limits (text "/tmp/w") (packed (text "a") regular ∷ packed (text "b") regular ∷ [])
        ≡ err (bail (text "archive expanded size limit exceeded")))
    × ((publish_git git no_replace (ok tt) (WorkspaceSpec.git repository)).0 ≡ ok tt)
unfolding workspace
workspace_tests = (refl, refl, refl, refl, refl, refl, refl)

copy_tree_iff_example : (copy_tree true walk limits ≡ ok copied) ↔ (
    (true ≡ true)
    × ((es : List TreeEntry) × AreYields (walk (λ rel. not (is_derived_path rel))) es
        × (copied ≡ copied_files es)
        × (length copied ≤ 2)
        × (Trees.total copied ≤ 100)))
copy_tree_iff_example = copy_tree_iff limits (omega arith) (omega arith) true walk copied

abbrev entries : List ArchiveEntry
entries = record { path = text "a"; entry_type = regular; size = 60 } ∷ []

unpack_iff_example :
    (unpack limits (text "/tmp/w") (packed (text "a") regular ∷ []) ≡ ok entries) ↔ (
      AreYielded (packed (text "a") regular ∷ []) entries
      × All (IsContained (text "/tmp/w")) entries
      × (length entries ≤ 2)
      × (expanded entries ≤ 100))
unpack_iff_example =
    unpack_iff limits (omega arith) (omega arith) (text "/tmp/w") (packed (text "a") regular ∷ [])
      entries

abbrev written : Result (Unit {0})
written = ok tt

publish_git_iff_example :
    ((publish_git git no_replace written (WorkspaceSpec.git repository)).0 ≡ ok tt) ↔ (
      Succeeds git no_replace (text "config" ∷ text "user.name" ∷ text "AI Kodu Runner" ∷ [])
      × (written ≡ ok tt)
      × Succeeds git no_replace
          (text "config" ∷ text "user.email" ∷ text "runner@ai-kodu.local" ∷ [])
      × Succeeds git no_replace (text "add" ∷ text "-A" ∷ [])
      × ((diff : Output) × (git diff_command ≡ ok diff)
          × IsSettled git no_replace repository diff.code))
publish_git_iff_example = publish_git_iff git no_replace written repository (λ e. cc)
