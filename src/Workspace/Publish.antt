-- ===== src/Workspace/Publish.antt =====
-- `publish_git`, as the commands that it issues and its result. `git` runs a command: it gives the exit
-- code and the standard error, or an error where the run is cancelled, late or impossible. `excluded`
-- is the result of writing the file of exclusions.
use ai_kodu_runner.Base.{
  ℤ, pos, zero, suc, Text, text, trim, is_empty, Bool, false, Option, none, some, List, [], ◌∷◌,
  ◌++◌, Result, ok, err, bail, if◌then◌else◌, is_zero,
}
use ai_kodu_runner.Protocol.{WorkspaceSpec, GitWorkspace, disabled, required}

pub record Output : Type 0 where
  pub code : Option ℤ
  pub stderr : Text
  pub stdout : Text

abbrev pub Command : Type 0
Command = List Text

-- A result, with the commands issued so far.
abbrev pub Script {ℓ} : Type ℓ → Type ℓ
Script A = Result A × List Command

abbrev pub continue {ℓ} : {A : Type ℓ} → List Command → Script A → Script A
continue issued rest = (rest.0, issued ++ rest.1)

infixl 5 ◌>>=◌
unfoldable pub ◌>>=◌ {ℓ κ} : {A : Type ℓ} {B : Type κ} → Script A → (A → Script B) → Script B
(ok a, issued) >>= f = continue issued (f a)
(err e, issued) >>= f = (err e, issued)

infixl 5 ◌>>◌
abbrev pub ◌>>◌ {ℓ} : {B : Type ℓ} → Script (Unit {0}) → Script B → Script B
m >> k = m >>= λ _. k

-- `output.status.success()`
abbrev pub is_success : Option ℤ → Bool
is_success none = false
is_success (some c) = is_zero c

-- `message.replace(token, "<redacted-git-token>")` is a parameter: the redaction of a token that is
-- not empty.
unfoldable pub redact_git_token : (replace : Text → Text → Text) (message token : Text) → Text
redact_git_token replace message token = if is_empty token then message else replace message token

abbrev pub diff_command : Command
diff_command = text "diff" ∷ text "--cached" ∷ text "--quiet" ∷ text "--exit-code" ∷ []

abbrev pub push_command : GitWorkspace → Command
push_command w =
    text "-c"
    ∷ (text "http.extraheader=Authorization: Bearer " ++ w.token)
    ∷ text "push"
    ∷ text "origin"
    ∷ w.branch
    ∷ []

module _ (git : Command → Result Output) (replace : Text → Text → Text) where
  -- `run_git_output`: a command that cannot be run fails with the operation's name.
  unfoldable pub run_git_output : Command → (operation : Text) → Script Output
  run_git_output args operation = elim (git args) [
    | err e ↦ (err (bail operation), args ∷ [])
    | ok output ↦ (ok output, args ∷ [])
  ]

  unfoldable pub run_git_command : Command → (operation : Text) → Script (Unit {0})
  run_git_command args operation = do
    output ← run_git_output args operation
    if is_success output.code then (ok tt, []) else (err (bail (operation ++ text " failed")), [])

  -- The header with the token stands before the arguments.
  unfoldable pub git_with_auth : (token : Text) → Command → (operation : Text) → Script (Unit {0})
  git_with_auth token args operation = do
    output ←
        run_git_output
          (text "-c" ∷ (text "http.extraheader=Authorization: Bearer " ++ token) ∷ args) operation
    if is_success output.code then (ok tt, []) else (
      err (
          bail (
            operation
            ++ (text " failed: " ++ trim (redact_git_token replace output.stderr token)))),
      [],
    )

  unfoldable pub commit_and_push : GitWorkspace → Script (Unit {0})
  commit_and_push w = do
    run_git_command (text "commit" ∷ text "-m" ∷ w.commit_message ∷ []) (text "git commit")
    git_with_auth w.token (text "push" ∷ text "origin" ∷ w.branch ∷ []) (text "git push")

  -- By the exit code of the difference: 0 is a clean tree, 1 is a change.
  unfoldable pub after_diff : GitWorkspace → Option ℤ → Script (Unit {0})
  after_diff w (some (pos zero)) = elim w.publish_mode [
    | required ↦
        (err (bail (text "git publish required changes, but the working tree is clean")), [])
    | _ ↦ (ok tt, [])
  ]
  after_diff w (some (pos (suc zero))) = commit_and_push w
  after_diff w _ = (err (bail (text "git diff failed")), [])

  unfoldable pub publish_changes : (excluded : Result (Unit {0})) → GitWorkspace → Script (Unit {0})
  publish_changes excluded w = do
    run_git_command (text "config" ∷ text "user.name" ∷ text "AI Kodu Runner" ∷ [])
        (text "git user configuration")
    (excluded, [])
    run_git_command (text "config" ∷ text "user.email" ∷ text "runner@ai-kodu.local" ∷ [])
        (text "git user configuration")
    run_git_command (text "add" ∷ text "-A" ∷ []) (text "git add")
    diff ← run_git_output diff_command (text "inspect staged git changes")
    after_diff w diff.code

  unfoldable pub publish_git : (excluded : Result (Unit {0})) → WorkspaceSpec → Script (Unit {0})
  publish_git excluded (WorkspaceSpec.git w) = elim w.publish_mode [
    | disabled ↦ (ok tt, [])
    | _ ↦ publish_changes excluded w
  ]
  publish_git excluded _ = (ok tt, [])
