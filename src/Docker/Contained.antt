-- ===== src/Docker/Contained.antt =====
-- Where the feedback file of a workflow lies.
use ai_kodu_runner.Base.{
  Text, true, false, some, [], ◌∷◌, ◌++◌, text, bail, Result, ok, err, >>=-eq-ok, >>-eq-ok_iff,
  bail_if-eq-ok_iff, not_iff, ◌≡◌, ◌≢◌, refl, sym, ap, subst, arith,
}
use ai_kodu_runner.Protocol.{Component, components, validate_feedback_file}
use ai_kodu_runner.Policy.{components_start}
use ai_kodu_runner.Docker.FeedbackPath.{
  FilePath, FileSystem, parent, is_symlink, and_then, or_bail, walk_above, check_target,
  safe_feedback_path,
}
use ai_kodu_runner.Docker.Walked.{
  above_of, components-normal, or_bail-eq-ok, IsDirectory, Keeps, AreDirectories, below,
  walk_above-AreDirectories,
}

module _ (fs : FileSystem) where
  open fs use {Files, canonicalize, symlink_metadata, create_dir, created, kept}

  -- What a target that is accepted has been checked for.
  target_lem :
      (base target result : FilePath) (s : Files)
      → check_target fs base target s ≡ ok result
      → (result ≡ target)
        × (is_symlink (symlink_metadata s target) ≡ false)
        × ((above canonical : FilePath) × (parent target ≡ some above)
            × (canonicalize s above ≡ ok canonical)
            × (components_start base canonical ≡ true))
  unfolding check_target
  target_lem base target result s h =
      let (linked, above_found) = (>>-eq-ok_iff _ _ result).0 h in
      let (above, is_above, rest) =
        >>=-eq-ok (or_bail (parent target) (text "feedback_file has no parent directory")) _
          above_found in
      let (canonical, resolved, checked) = >>=-eq-ok (canonicalize s above) _ rest in
      let (inside, same) = (>>-eq-ok_iff _ _ result).0 checked in
      (
        ground (arith, same),
        (bail_if-eq-ok_iff _ _).0 linked,
        (
          above,
          canonical,
          or_bail-eq-ok (parent target) _ above is_above,
          resolved,
          (not_iff _).0 ((bail_if-eq-ok_iff _ _).0 inside),
        ),
      )

  and_then-eq-ok :
      (r : Result (Unit {0})) (t end : Files) (rest : Files → Result FilePath × Files)
      (p : FilePath)
      → and_then fs (r, t) rest ≡ (ok p, end)
      → (r ≡ ok tt) × (rest t ≡ (ok p, end))
  and_then-eq-ok (ok done) t end rest p h = (refl, h)
  and_then-eq-ok (err e) t end rest p h = cc

  -- A place for the feedback: below the canonical workspace, by directories that are no links, and
  -- itself no link.
  abbrev pub IsContained :
      (root : FilePath) → (feedback_file : Text) → (target : FilePath) → (s s' : Files) → Type 0
  IsContained root feedback_file target s s' =
      (base : FilePath) × (relative : Text) × (validate_feedback_file feedback_file ≡ ok relative)
      × (canonicalize s root ≡ ok base)
      × (target ≡ base ++ components relative)
      × ((front rest : FilePath) (c : Component)
          → components relative ≡ front ++ c ∷ rest
          → front ≢ []
          → IsDirectory fs s' (base ++ front))
      × (is_symlink (symlink_metadata s' target) ≡ false)
      × ((above canonical : FilePath) × (parent target ≡ some above)
          × (canonicalize s' above ≡ ok canonical)
          × (components_start base canonical ≡ true))

  resolved_lem :
      (root base : FilePath) (feedback_file relative : Text) (target : FilePath) (s s' : Files)
      → validate_feedback_file feedback_file ≡ ok relative
      → canonicalize s root ≡ ok base
      → and_then fs
          (walk_above fs base (components relative) s)
          (λ t. (check_target fs base (base ++ components relative) t, t))
        ≡ (ok target, s')
      → IsContained root feedback_file target s s' × Keeps fs s s'
  resolved_lem root base feedback_file relative target s s' valid is_base h =
      let walked = walk_above fs base (components relative) s in
      let (went, ended) = and_then-eq-ok walked.0 walked.1 s' _ target h in
      let same : walked.1 ≡ s' = ap (λ r. r.1) ended in
      let (dirs, keeps) =
        walk_above-AreDirectories fs (components relative) base s s'
          (components-normal feedback_file relative valid) (λ i. (went i, same i)) in
      let (is_target, no_link, inside) = target_lem base (base ++ components relative) target s' (
        subst (λ t. check_target fs base (base ++ components relative) t ≡ ok target) same
          (ap (λ r. r.0) ended)) in
      (
        (
          base,
          relative,
          valid,
          is_base,
          is_target,
          λ front rest c split n.
              below fs front c rest base s' n
                (subst (λ cs. AreDirectories fs s' base (above_of cs)) split dirs),
          subst (λ p. is_symlink (symlink_metadata s' p) ≡ false) (sym is_target) no_link,
          subst
              (λ p.
                (above canonical : FilePath) × (parent p ≡ some above)
                × (canonicalize s' above ≡ ok canonical)
                × (components_start base canonical ≡ true))
              (sym is_target) inside,
        ),
        keeps,
      )

  based_lem :
      (r : Result FilePath) (root : FilePath) (feedback_file relative : Text) (target : FilePath)
      (s s' : Files)
      → validate_feedback_file feedback_file ≡ ok relative
      → canonicalize s root ≡ r
      → (elim r as (λ _. Result FilePath × Files) [
        | err e ↦ (err (bail (text "canonicalize feedback workspace")), s)
        | ok base ↦
            and_then fs
              (walk_above fs base (components relative) s)
              (λ t. (check_target fs base (base ++ components relative) t, t))
      ])
        ≡ (ok target, s')
      → IsContained root feedback_file target s s' × Keeps fs s s'
  based_lem (err e) root feedback_file relative target s s' valid is h = cc h
  based_lem (ok base) root feedback_file relative target s s' valid is h =
      resolved_lem root base feedback_file relative target s s' valid is h

  validated_lem :
      (v : Result Text) (root : FilePath) (feedback_file : Text) (target : FilePath) (s s' : Files)
      → validate_feedback_file feedback_file ≡ v
      → (elim v as (λ _. Result FilePath × Files) [
        | err e ↦ (err e, s)
        | ok relative ↦ elim (canonicalize s root) [
          | err e ↦ (err (bail (text "canonicalize feedback workspace")), s)
          | ok base ↦
              and_then fs
                (walk_above fs base (components relative) s)
                (λ t. (check_target fs base (base ++ components relative) t, t))
        ]
      ])
        ≡ (ok target, s')
      → IsContained root feedback_file target s s' × Keeps fs s s'
  validated_lem (err e) root feedback_file target s s' valid h = cc h
  validated_lem (ok relative) root feedback_file target s s' valid h =
      based_lem (canonicalize s root) root feedback_file relative target s s' valid refl h

  -- The path that is given for the feedback is the feedback file's below the canonical workspace. When
  -- the function returns, every path between the two is a directory and no link, the path itself is
  -- no link, its parent resolves to a path below the workspace, and every file that was there is
  -- there with its type.
  pub safe_feedback_path_lem :
      (root : FilePath) (feedback_file : Text) (target : FilePath) (s s' : Files)
      → safe_feedback_path fs root feedback_file s ≡ (ok target, s')
      → IsContained root feedback_file target s s' × Keeps fs s s'
  unfolding safe_feedback_path
  safe_feedback_path_lem root feedback_file target s s' h =
      validated_lem (validate_feedback_file feedback_file) root feedback_file target s s' refl h
