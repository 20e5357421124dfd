-- ===== src/Workspace/Prepared.antt =====
-- When a repository is prepared.
use ai_kodu_runner.Base.{
  Text, text, text_eq, text_eq_iff, trim, Bool, true, false, not, Option, none, some, [], ◌∷◌, ◌++◌,
  Result, ok, err, Error, ◌≡◌, ◌⊎◌, ◌↔◌, inl, inr, refl, arith, if◌then◌else◌,
}
use ai_kodu_runner.Protocol.{GitWorkspace}
use ai_kodu_runner.Workspace.Publish.{Output, Command, Script, is_success, run_git_output}
use ai_kodu_runner.Workspace.Prepare.{
  clone_command, base_refspec, revision_command, clone, verify_revision, fetch_base, prepare_git,
}
use ai_kodu_runner.Workspace.Publishing.{bind_iff, output_iff, status_iff, auth_iff, Succeeds}

abbrev pub fetch_command : GitWorkspace → Command
fetch_command w =
    text "-c"
    ∷ (text "http.extraheader=Authorization: Bearer " ++ w.token)
    ∷ text "fetch"
    ∷ text "--depth"
    ∷ text "1"
    ∷ text "origin"
    ∷ (text "+refs/heads/" ++ (w.base_branch ++ (text ":refs/remotes/origin/" ++ w.base_branch)))
    ∷ []

-- Two tests, each with its failure.
tests_iff :
    (a b : Bool) (e f : Error)
    → ((if◌then◌else◌ {A = Script (Unit {0})}
          (not a)
          (err e, [])
          (if◌then◌else◌ {A = Script (Unit {0})} (not b) (err f, []) (ok tt, []))).0
        ≡ ok tt)
      ↔ ((a ≡ true) × (b ≡ true))
tests_iff true true e f = (λ h. (refl, refl), λ h. refl)
tests_iff true false e f = (λ h. cc, λ h. cc (h.1))
tests_iff false b e f = (λ h. cc, λ h. cc (h.0))

skip_iff :
    (skipped : Bool) (m : Script (Unit {0}))
    → ((if◌then◌else◌ {A = Script (Unit {0})} skipped (ok tt, []) m).0 ≡ ok tt)
      ↔ ((skipped ≡ true) ⊎ (m.0 ≡ ok tt))
skip_iff true m = (λ h. inl refl, λ h. refl)
skip_iff false m = (inr, λ h. elim h [ inl e ↦ absurd (ground (arith, e)) | inr e ↦ e ])

module _ (git : Command → Result Output) (replace : Text → Text → Text) where
  -- Where a revision is expected, git resolves the name to it.
  abbrev pub IsAt : (revision : Text) (expected : Option Text) → Type 0
  IsAt revision none = Unit
  IsAt revision (some sha) =
      (o : Output) × (git (revision_command revision) ≡ ok o)
      × (is_success o.code ≡ true)
      × (trim o.stdout ≡ sha)

  clone_iff :
      (w : GitWorkspace)
      → ((clone git replace w).0 ≡ ok tt) ↔ Succeeds git replace (clone_command w)
  unfolding clone run_git_output
  clone_iff w =
      let c = clone_command w in
      let operation = text "clone git workspace" in
      let (split, join) = bind_iff (run_git_output git replace c operation) _ tt in
      (
        λ h.
            let (o, ran, rest) = split h in
            (
              o,
              (output_iff (git c) c operation o).0 ran,
              (status_iff (is_success o.code) _).0 rest,
            ),
        λ (o, ran, good). join (
          o,
          (output_iff (git c) c operation o).1 ran,
          (status_iff (is_success o.code) _).1 good,
        ),
      )

  verify_iff :
      (revision : Text) (expected : Option Text) (name : Text)
      → ((verify_revision git replace revision expected name).0 ≡ ok tt) ↔ IsAt revision expected
  unfolding verify_revision run_git_output
  verify_iff revision none name = (λ h. tt, λ h. refl)
  verify_iff revision (some sha) name =
      let c = revision_command revision in
      let operation = text "resolve " ++ name in
      let (split, join) = bind_iff (run_git_output git replace c operation) _ tt in
      (
        λ h.
            let (o, ran, rest) = split h in
            let (good, same) =
              (tests_iff (is_success o.code) (text_eq (trim o.stdout) sha) _ _).0 rest in
            (
              o,
              (output_iff (git c) c operation o).0 ran,
              good,
              (text_eq_iff (trim o.stdout) sha).0 same,
            ),
        λ (o, ran, good, same). join (
          o,
          (output_iff (git c) c operation o).1 ran,
          (tests_iff (is_success o.code) (text_eq (trim o.stdout) sha) _ _).1
              (good, (text_eq_iff (trim o.stdout) sha).1 same),
        ),
      )

  fetch_iff :
      (w : GitWorkspace)
      → ((fetch_base git replace w).0 ≡ ok tt)
        ↔ ((w.base_branch ≡ w.branch) ⊎ Succeeds git replace (fetch_command w))
  unfolding fetch_base
  fetch_iff w =
      let (to, from) = skip_iff (text_eq w.base_branch w.branch) _ in
      let same = text_eq_iff w.base_branch w.branch in
      let auth =
        auth_iff git replace w.token
          (text "fetch" ∷ text "--depth" ∷ text "1" ∷ text "origin" ∷ base_refspec w ∷ [])
          (text "fetch base branch") in
      (
        λ h. elim (to h) [ inl e ↦ inl (same.0 e) | inr e ↦ inr (auth.0 e) ],
        λ h. elim h [ inl e ↦ from (inl (same.1 e)) | inr e ↦ from (inr (auth.1 e)) ],
      )

  -- The preparation of a repository succeeds exactly when the clone succeeds, so does the fetch of the
  -- base branch where the two branches do not have the same name, and git resolves HEAD and the base
  -- branch of the remote to the revisions that are expected, where they are.
  pub prepare_git_iff :
      (w : GitWorkspace)
      → ((prepare_git git replace w).0 ≡ ok tt) ↔ (
          Succeeds git replace (clone_command w)
          × ((w.base_branch ≡ w.branch) ⊎ Succeeds git replace (fetch_command w))
          × IsAt (text "HEAD") w.head_sha
          × IsAt (text "refs/remotes/origin/" ++ w.base_branch) w.base_sha)
  unfolding prepare_git
  prepare_git_iff w =
      let head = verify_iff (text "HEAD") w.head_sha (text "head_sha") in
      let base =
        verify_iff (text "refs/remotes/origin/" ++ w.base_branch) w.base_sha (text "base_sha") in
      let (split, join) = bind_iff (clone git replace w) _ tt in
      let (split', join') = bind_iff (fetch_base git replace w) _ tt in
      let (split'', join'') =
        bind_iff (verify_revision git replace (text "HEAD") w.head_sha (text "head_sha")) _ tt in
      (
        λ h.
            let (_, cloned, rest) = split h in
            let (_, fetched, rest') = split' rest in
            let (_, at_head, at_base) = split'' rest' in
            ((clone_iff w).0 cloned, (fetch_iff w).0 fetched, head.0 at_head, base.0 at_base),
        λ (cloned, fetched, at_head, at_base). join (
          tt,
          (clone_iff w).1 cloned,
          join' (tt, (fetch_iff w).1 fetched, join'' (tt, head.1 at_head, base.1 at_base)),
        ),
      )
