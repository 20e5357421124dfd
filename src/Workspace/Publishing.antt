-- ===== src/Workspace/Publishing.antt =====
-- When a Git workspace is published.
use ai_kodu_runner.Base.{
  ℤ, pos, zero, suc, negsuc, Text, text, Bool, true, false, Option, none, some, [], ◌∷◌, ◌++◌,
  Result, ok, err, Error, bail, ◌≡◌, ◌≢◌, ◌⊎◌, ◌↔◌, inl, inr, refl, arith, if◌then◌else◌,
}
use ai_kodu_runner.Protocol.{
  WorkspaceSpec, GitWorkspace, GitPublishMode, disabled, if_changed, required,
}
use ai_kodu_runner.Workspace.Publish
use ai_kodu_runner.Workspace.Publish.{
  Output, Command, Script, is_success, redact_git_token, run_git_output, run_git_command,
  git_with_auth, diff_command, push_command, commit_and_push, after_diff, publish_changes,
  publish_git,
}

-- A script succeeds through its first part.
pub bind_iff :
    {A : Type 0} {B : Type 0} (m : Script A) (f : A → Script B) (b : B)
    → ((Publish.◌>>=◌ m f).0 ≡ ok b) ↔ ((a : A) × (m.0 ≡ ok a) × ((f a).0 ≡ ok b))
unfolding Publish.◌>>=◌
bind_iff (ok a, issued) f b = (λ h. (a, refl, h), λ h. ground (arith, h.1, h.2))
bind_iff (err e, issued) f b = (λ h. cc, λ h. cc (h.1))

pub output_iff :
    (r : Result Output) (c : Command) (operation : Text) (o : Output)
    → ((elim r as (λ _. Script Output) [
      | err e ↦ (err (bail operation), c ∷ [])
      | ok output ↦ (ok output, c ∷ [])
    ]).0
        ≡ ok o)
      ↔ (r ≡ ok o)
output_iff (err e) c operation o = (λ h. cc, λ h. cc)
output_iff (ok x) c operation o = (λ h. h, λ h. h)

mode_iff :
    (mode : GitPublishMode) (failure : Error)
    → ((elim mode as (λ _. Script (Unit {0})) [ required ↦ (err failure, []) | _ ↦ (ok tt, []) ]).0
        ≡ ok tt)
      ↔ (mode ≢ required)
mode_iff required failure = (λ h. cc, λ h. absurd (h refl))
mode_iff disabled failure = (λ h e. cc, λ h. refl)
mode_iff if_changed failure = (λ h e. cc, λ h. refl)

pub status_iff :
    (good : Bool) (failure : Error)
    → ((if◌then◌else◌ {A = Script (Unit {0})} good (ok tt, []) (err failure, [])).0 ≡ ok tt)
      ↔ (good ≡ true)
status_iff true failure = (λ h. refl, λ h. refl)
status_iff false failure = (λ h. cc, λ h. cc)

module _ (git : Command → Result Output) (replace : Text → Text → Text) where
  -- The command runs and ends with exit code 0.
  abbrev pub Succeeds : Command → Type 0
  Succeeds c = (o : Output) × (git c ≡ ok o) × (is_success o.code ≡ true)

  command_iff :
      (c : Command) (operation : Text)
      → ((run_git_command git replace c operation).0 ≡ ok tt) ↔ Succeeds c
  unfolding run_git_command run_git_output
  command_iff c operation =
      let (split, join) = bind_iff (run_git_output git replace c operation) _ tt in
      (
        λ h.
            let (o, ran, rest) = split h in
            (
              o,
              (output_iff (git c) c operation o).0 ran,
              (status_iff (is_success o.code) _).0 rest,
            ),
        λ (o, ran, good). join (
          o,
          (output_iff (git c) c operation o).1 ran,
          (status_iff (is_success o.code) _).1 good,
        ),
      )

  pub auth_iff :
      (token : Text) (args : Command) (operation : Text)
      → ((git_with_auth git replace token args operation).0 ≡ ok tt)
        ↔ Succeeds (text "-c" ∷ (text "http.extraheader=Authorization: Bearer " ++ token) ∷ args)
  unfolding git_with_auth run_git_output
  auth_iff token args operation =
      let c : Command =
        text "-c" ∷ (text "http.extraheader=Authorization: Bearer " ++ token) ∷ args in
      let (split, join) = bind_iff (run_git_output git replace c operation) _ tt in
      (
        λ h.
            let (o, ran, rest) = split h in
            (
              o,
              (output_iff (git c) c operation o).0 ran,
              (status_iff (is_success o.code) _).0 rest,
            ),
        λ (o, ran, good). join (
          o,
          (output_iff (git c) c operation o).1 ran,
          (status_iff (is_success o.code) _).1 good,
        ),
      )

  abbrev pub commit_command : GitWorkspace → Command
  commit_command w = text "commit" ∷ text "-m" ∷ w.commit_message ∷ []

  -- A clean tree is good enough, or the change is committed and pushed.
  abbrev pub IsSettled : GitWorkspace → Option ℤ → Type 0
  IsSettled w code =
      ((code ≡ some (pos 0)) × (w.publish_mode ≢ required))
      ⊎ ((code ≡ some (pos 1)) × Succeeds (commit_command w) × Succeeds (push_command w))

  pushed_iff :
      (w : GitWorkspace)
      → ((commit_and_push git replace w).0 ≡ ok tt)
        ↔ (Succeeds (commit_command w) × Succeeds (push_command w))
  unfolding commit_and_push
  pushed_iff w =
      let (split, join) =
        bind_iff (run_git_command git replace (commit_command w) (text "git commit")) _ tt in
      let commit = command_iff (commit_command w) (text "git commit") in
      let push = auth_iff w.token (text "push" ∷ text "origin" ∷ w.branch ∷ []) (text "git push") in
      (
        λ h. let (_, first, second) = split h in (commit.0 first, push.0 second),
        λ (first, second). join (tt, commit.1 first, push.1 second),
      )

  after_diff_iff :
      (w : GitWorkspace) (code : Option ℤ)
      → ((after_diff git replace w code).0 ≡ ok tt) ↔ IsSettled w code
  unfolding after_diff
  after_diff_iff w none = (λ h. cc, λ h. ground (arith, h))
  after_diff_iff w (some (negsuc n)) = (λ h. cc, λ h. ground (arith, h))
  after_diff_iff w (some (pos zero)) = (
    λ h. inl (refl, (mode_iff w.publish_mode _).0 h),
    λ h. elim h [
      | inl clean ↦ (mode_iff w.publish_mode _).1 clean.1
      | inr changed ↦ absurd (ground (arith, changed.0))
    ],
  )
  after_diff_iff w (some (pos (suc zero))) =
      let (to, from) = pushed_iff w in
      (
        λ h. let (commit, push) = to h in inr (refl, commit, push),
        λ h. elim h [
          | inl clean ↦ absurd (ground (arith, clean.0))
          | inr changed ↦ from (changed.1, changed.2)
        ],
      )
  after_diff_iff w (some (pos (suc (suc n)))) = (
    λ h. cc,
    λ h. elim h [
      | inl clean ↦ absurd (ground (arith, clean.0))
      | inr changed ↦ absurd (ground (arith, changed.0))
    ],
  )

  diff_iff :
      (o : Output)
      → ((run_git_output git replace diff_command (text "inspect staged git changes")).0 ≡ ok o)
        ↔ (git diff_command ≡ ok o)
  unfolding run_git_output
  diff_iff o = output_iff (git diff_command) diff_command (text "inspect staged git changes") o

  changes_iff :
      (excluded : Result (Unit {0})) (w : GitWorkspace)
      → ((publish_changes git replace excluded w).0 ≡ ok tt) ↔ (
          Succeeds (text "config" ∷ text "user.name" ∷ text "AI Kodu Runner" ∷ [])
          × (excluded ≡ ok tt)
          × Succeeds (text "config" ∷ text "user.email" ∷ text "runner@ai-kodu.local" ∷ [])
          × Succeeds (text "add" ∷ text "-A" ∷ [])
          × ((diff : Output) × (git diff_command ≡ ok diff) × IsSettled w diff.code))
  unfolding publish_changes
  changes_iff excluded w =
      let name =
        command_iff (text "config" ∷ text "user.name" ∷ text "AI Kodu Runner" ∷ [])
          (text "git user configuration") in
      let email =
        command_iff (text "config" ∷ text "user.email" ∷ text "runner@ai-kodu.local" ∷ [])
          (text "git user configuration") in
      let add = command_iff (text "add" ∷ text "-A" ∷ []) (text "git add") in
      (
        λ h.
            let (_, first, h1) = (bind_iff _ _ tt).0 h in
            let (_, second, h2) = (bind_iff _ _ tt).0 h1 in
            let (_, third, h3) = (bind_iff _ _ tt).0 h2 in
            let (_, fourth, h4) = (bind_iff _ _ tt).0 h3 in
            let (diff, ran, h5) = (bind_iff _ _ tt).0 h4 in
            (
              name.0 first,
              second,
              email.0 third,
              add.0 fourth,
              (diff, (diff_iff diff).0 ran, (after_diff_iff w diff.code).0 h5),
            ),
        λ (first, second, third, fourth, (diff, ran, settled)). (bind_iff _ _ tt).1 (
          tt,
          name.1 first,
          (bind_iff _ _ tt).1 (
            tt,
            second,
            (bind_iff _ _ tt).1 (
              tt,
              email.1 third,
              (bind_iff _ _ tt).1 (
                tt,
                add.1 fourth,
                (bind_iff _ _ tt).1
                    (diff, (diff_iff diff).1 ran, (after_diff_iff w diff.code).1 settled),
              ),
            ),
          ),
        ),
      )

  enabled_iff :
      (w : GitWorkspace) (excluded : Result (Unit {0}))
      → w.publish_mode ≢ disabled
      → ((publish_git git replace excluded (WorkspaceSpec.git w)).0 ≡ ok tt)
        ↔ ((publish_changes git replace excluded w).0 ≡ ok tt)
  unfolding publish_git
  enabled_iff w excluded enabled = ground (arith, enabled)

  -- A Git workspace whose publication is enabled is published exactly when the user is configured, the
  -- exclusions are written, everything is added and the difference is computed; and then either the
  -- tree is clean and no change is required, or it has changed and is committed and pushed.
  pub publish_git_iff :
      (excluded : Result (Unit {0})) (w : GitWorkspace)
      → w.publish_mode ≢ disabled
      → ((publish_git git replace excluded (WorkspaceSpec.git w)).0 ≡ ok tt) ↔ (
          Succeeds (text "config" ∷ text "user.name" ∷ text "AI Kodu Runner" ∷ [])
          × (excluded ≡ ok tt)
          × Succeeds (text "config" ∷ text "user.email" ∷ text "runner@ai-kodu.local" ∷ [])
          × Succeeds (text "add" ∷ text "-A" ∷ [])
          × ((diff : Output) × (git diff_command ≡ ok diff) × IsSettled w diff.code))
  unfolding publish_git
  publish_git_iff excluded w enabled =
      let (enter, leave) = enabled_iff w excluded enabled in
      let (to, from) = changes_iff excluded w in (λ h. to (enter h), λ h. leave (from h))
