-- ===== src/Workspace/Trials.antt =====
-- Tests of what fills a workspace, and an instance of the theorem on repositories.
use ai_kodu_runner.Base.{
  ℕ, ◌≤◌, length, concat, arith, ◌⊎◌, pos, Text, text, true, false, none, some, List, [], ◌∷◌, ◌++◌,
  Result, ok, err, bail, ◌≡◌, ◌↔◌, refl,
}
use ai_kodu_runner.Protocol.{lines, GitWorkspace, WorkspaceSpec, if_changed}
use ai_kodu_runner.Protocol.Sample.{texts}
use ai_kodu_runner.Config.{Limits, default_local, platform_from_env}
use ai_kodu_runner.Workspace.Archive.{ArchiveEntry}
use ai_kodu_runner.Workspace.Publish
use ai_kodu_runner.Workspace.Publish.{
  Output, Command, redact_git_token, run_git_output, git_with_auth,
}
use ai_kodu_runner.Workspace.Download.{Arrival, chunk, expired, download_loop, download_archive}
use ai_kodu_runner.Workspace.Prepare.{
  clone, fetch_base, verify_revision, prepare_git, exclude, exclude_all, exclude_runner_files, fill,
  prepare, clone_command, repository,
}
use ai_kodu_runner.Workspace.Publishing.{Succeeds}
use ai_kodu_runner.Workspace.Downloaded.{received_chunks, download_loop_iff}
use ai_kodu_runner.Workspace.Prepared.{IsAt, fetch_command, prepare_git_iff}

abbrev limits : Limits
limits = record ((default_local (λ _. none) (text "/work")).limits) {
  max_archive_download_bytes = 3;
}

-- Each command succeeds and prints a revision.
abbrev git : Command → Result Output
git c = ok (record { code = some (pos 0); stderr = []; stdout = text "abc\n" })

abbrev no_replace : Text → Text → Text
no_replace message token = message

abbrev source : GitWorkspace
source = record {
  clone_url = text "https://host/r.git";
  base_branch = text "main";
  branch = text "feature";
  base_sha = none;
  head_sha = some (text "abc");
  username = text "u";
  token = text "t";
  commit_message = text "done";
  publish_mode = if_changed;
}

abbrev patterns_file : Text
patterns_file =
    text
      ".cache/\n.ai-kodu-runner/\n.dart_tool/\n.runner-cache/\nbuild/\nnode_modules/\nprompt.md\n"

abbrev write_patterns : Text → Result (Unit {0})
write_patterns s = err (bail s)

abbrev no_download : Text → Result (List ArchiveEntry)
no_download url = err (bail url)

workspace : Unit {0}
unfolding texts default_local platform_from_env Publish.◌>>=◌ redact_git_token run_git_output
    git_with_auth download_loop download_archive clone fetch_base verify_revision prepare_git
    exclude exclude_all exclude_runner_files fill prepare lines
workspace = tt

preparation_tests :
    (download_loop limits [] (chunk (ok (1 ∷ 2 ∷ [])) ∷ chunk (ok (3 ∷ [])) ∷ [])
      ≡ ok (1 ∷ 2 ∷ 3 ∷ []))
    × (download_loop limits [] (chunk (ok (1 ∷ 2 ∷ [])) ∷ chunk (ok (3 ∷ 4 ∷ [])) ∷ [])
        ≡ err (bail (text "archive download limit exceeded")))
    × (download_loop limits [] (chunk (ok []) ∷ expired ∷ [])
        ≡ err (bail (text "workspace preparation timed out")))
    × (exclude_runner_files none write_patterns ≡ err (bail patterns_file))
    × (exclude_runner_files (some patterns_file) write_patterns ≡ err (bail patterns_file))
    × (exclude (text "a") (text "b") ≡ text "a\nb\n")
    × ((prepare_git git no_replace (record source { head_sha = some (text "d") })).0
        ≡ err (bail (text "head_sha mismatch: expected d, got abc")))
    × ((prepare git no_replace
          (λ _. true)
          (λ _ _. [])
          no_download
          limits
          (λ _. false)
          none
          write_patterns
          (WorkspaceSpec.git source)).0
        ≡ ok repository)
unfolding workspace
preparation_tests = (refl, refl, refl, refl, refl, refl, refl, refl)

prepare_git_iff_example : ((prepare_git git no_replace source).0 ≡ ok tt) ↔ (
    Succeeds git no_replace (clone_command source)
    × ((text "main" ≡ text "feature") ⊎ Succeeds git no_replace (fetch_command source))
    × IsAt git no_replace (text "HEAD") (some (text "abc"))
    × IsAt git no_replace (text "refs/remotes/origin/" ++ text "main") none)
prepare_git_iff_example = prepare_git_iff git no_replace source

abbrev arrivals : List Arrival
arrivals = chunk (ok (1 ∷ 2 ∷ [])) ∷ chunk (ok (3 ∷ [])) ∷ []

download_loop_iff_example : (download_loop limits [] arrivals ≡ ok (1 ∷ 2 ∷ 3 ∷ [])) ↔ (
    (cs : List (List ℕ)) × (arrivals ≡ received_chunks cs)
    × (1 ∷ 2 ∷ 3 ∷ [] ≡ concat cs)
    × (length {A = ℕ} (1 ∷ 2 ∷ 3 ∷ []) ≤ 3))
download_loop_iff_example = download_loop_iff limits (omega arith) arrivals (1 ∷ 2 ∷ 3 ∷ [])
