-- ===== src/Workspace/Prepare.antt =====
-- `prepare`: a tree is copied, an archive is downloaded and unpacked, or a repository is cloned and its
-- revisions are checked. `git` is as for the publication; the URL parser, the HTTP client and the tar
-- library are parameters, as is the state of the staging directory.
use ai_kodu_runner.Base.{
  Text, text, text_eq, trim, member, ends_with, is_empty, map, Bool, not, ◌&&◌, Option, none, some,
  List, [], ◌∷◌, ◌++◌, Result, ok, err, bail, if◌then◌else◌,
}
use ai_kodu_runner.Config.{Limits}
use ai_kodu_runner.Protocol.{WorkspaceSpec, GitWorkspace, lines}
use ai_kodu_runner.Workspace.Copy.{Turn, TreeEntry, copy_tree}
use ai_kodu_runner.Workspace.Archive.{ArchiveEntry}
use ai_kodu_runner.Workspace.Publish.{
  Output, Command, Script, ◌>>=◌, ◌>>◌, is_success, redact_git_token, run_git_output, git_with_auth,
}

abbrev pub clone_command : GitWorkspace → Command
clone_command w =
    text "-c"
    ∷ (text "http.extraheader=Authorization: Bearer " ++ w.token)
    ∷ text "clone"
    ∷ text "--depth"
    ∷ text "1"
    ∷ text "--branch"
    ∷ w.branch
    ∷ text "--single-branch"
    ∷ w.clone_url
    ∷ text "."
    ∷ []

abbrev pub base_refspec : GitWorkspace → Text
base_refspec w =
    text "+refs/heads/" ++ (w.base_branch ++ (text ":refs/remotes/origin/" ++ w.base_branch))

abbrev pub revision_command : Text → Command
revision_command revision = text "rev-parse" ∷ revision ∷ []

module _ (git : Command → Result Output) (replace : Text → Text → Text) where
  unfoldable pub clone : GitWorkspace → Script (Unit {0})
  clone w = do
    output ← run_git_output git replace (clone_command w) (text "clone git workspace")
    if is_success output.code then (ok tt, []) else (
      err (
          bail
            (text "git clone failed: " ++ trim (redact_git_token replace output.stderr w.token))),
      [],
    )

  -- Without an expected revision nothing is asked.
  unfoldable pub verify_revision :
      (revision : Text) (expected : Option Text) (name : Text) → Script (Unit {0})
  verify_revision revision none name = (ok tt, [])
  verify_revision revision (some expected) name = do
    output ← run_git_output git replace (revision_command revision) (text "resolve " ++ name)
    if not (is_success output.code)
        then (
          err (
              bail (
                name
                ++ (text " " ++ (expected ++ text " is not available in the prepared workspace")))),
          [],
        )
        else if not (text_eq (trim output.stdout) expected)
        then (
          err (
              bail (
                name
                ++ (text " mismatch: expected "
                    ++ (expected ++ (text ", got " ++ trim output.stdout))))),
          [],
        )
        else (ok tt, [])

  unfoldable pub fetch_base : GitWorkspace → Script (Unit {0})
  fetch_base w =
      if text_eq w.base_branch w.branch
      then (ok tt, [])
      else git_with_auth git replace w.token
          (text "fetch" ∷ text "--depth" ∷ text "1" ∷ text "origin" ∷ base_refspec w ∷ [])
          (text "fetch base branch")

  unfoldable pub prepare_git : GitWorkspace → Script (Unit {0})
  prepare_git w = do
    clone w
    fetch_base w
    verify_revision (text "HEAD") w.head_sha (text "head_sha")
    verify_revision (text "refs/remotes/origin/" ++ w.base_branch) w.base_sha (text "base_sha")

-- `exclude_runner_files`: the text of the file of exclusions.
abbrev pub runner_patterns : List Text
runner_patterns =
    text ".cache/"
    ∷ text ".ai-kodu-runner/"
    ∷ text ".dart_tool/"
    ∷ text ".runner-cache/"
    ∷ text "build/"
    ∷ text "node_modules/"
    ∷ text "prompt.md"
    ∷ []

abbrev pub newline : Text
newline = 10 ∷ []

-- A last line without its end is ended before the pattern is added.
unfoldable pub exclude : (existing pattern : Text) → Text
exclude existing pattern =
    if member pattern (map trim (lines existing))
    then existing
    else (if not (is_empty existing) && not (ends_with newline existing)
        then existing ++ newline
        else existing)
      ++ (pattern ++ newline)

unfoldable pub exclude_all : (existing : Text) → List Text → Text
exclude_all existing [] = existing
exclude_all existing (pattern ∷ rest) = exclude_all (exclude existing pattern) rest

-- `read_to_string(...).unwrap_or_default()`
abbrev pub text_or_default : Option Text → Text
text_or_default none = []
text_or_default (some s) = s

unfoldable pub exclude_runner_files :
    (existing : Option Text) (write : Text → Result (Unit {0})) → Result (Unit {0})
exclude_runner_files existing write = write (exclude_all (text_or_default existing) runner_patterns)

-- What the staging directory holds.
pub data Contents : Type 0 where
  tree : List TreeEntry → Contents
  archive : List ArchiveEntry → Contents
  repository : Contents

abbrev pub step {ℓ} : {A : Type ℓ} → Result A → Script A
step r = (r, [])

module _ (git : Command → Result Output) (replace : Text → Text → Text)
    (source_is_dir : (path : Text) → Bool) (walk_dir : (path : Text) → (Text → Bool) → List Turn)
    (download : (url : Text) → Result (List ArchiveEntry)) (limits : Limits) where
  unfoldable pub fill : WorkspaceSpec → Script Contents
  fill (WorkspaceSpec.local path) = do
    copied ← step (copy_tree (source_is_dir path) (walk_dir path) limits)
    step (ok (tree copied))
  fill (WorkspaceSpec.archive_url url) = do
    entries ← step (download url)
    step (ok (archive entries))
  fill (WorkspaceSpec.git w) = do prepare_git git replace w; step (ok repository)

  -- `has_git` says whether the directory then holds a directory `.git`, and `existing` what its file
  -- of exclusions says.
  unfoldable pub prepare :
      (has_git : Contents → Bool)
      → (existing : Option Text) → (write : Text → Result (Unit {0})) → WorkspaceSpec
      → Script Contents
  unfolding fill
  prepare has_git existing write spec = do
    contents ← fill spec
    if has_git contents then step (exclude_runner_files existing write) else step (ok tt)
    step (ok contents)
