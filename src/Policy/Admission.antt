-- ===== src/Policy/Admission.antt =====
-- What `validate_with_context` admits: a job is admitted exactly when it is well formed and asks for
-- nothing that the policy forbids.
use ai_kodu_runner.Base.{
  Text, text, text_eq_iff, member, true, false, not, ◌||◌, Option, none, some, List, [], ◌∷◌, ◌++◌,
  map, any, All, ◌≡◌, ◌↔◌, refl, ok, arith, >>-eq-ok_iff, ◌>>◌, >>=-eq-ok, ap,
}
use ai_kodu_runner.Protocol.{
  Resources, WorkspaceSpec, SecretSpec, JobSpec, Component, normal, components,
}
use ai_kodu_runner.Protocol.WellFormed.{
  IsWellFormed, Distinct, Fresh, Fresh-cons, Fresh-nil, validate_iff,
}
use ai_kodu_runner.Config.{RunnerConfig}
use ai_kodu_runner.Policy.Defs.{
  ValidationContext, requires_digest, clamp, check_names, check_policy_secret, check_policy_secrets,
  join, component_eq, components_start, path_starts_with, is_within, canonical_or, check_workspace,
  validate_with_context,
}

abbrev pub secret_name : SecretSpec → Text
secret_name s = s.name

-- The texts of `xs`, put in front of `seen` one by one.
abbrev pushed : List Text → List Text → List Text
pushed seen [] = seen
pushed seen (x ∷ xs) = pushed (x ∷ seen) xs

member-pushed :
    (y : Text) (seen xs : List Text) → member y (pushed seen xs) ≡ (member y seen || member y xs)
unfolding member
member-pushed y seen [] = ground arith
member-pushed y seen (x ∷ xs) = ground (arith, member-pushed y (x ∷ seen) xs)

Fresh-pushed : (xs ys : List Text) → Fresh (pushed [] xs) ys ↔ Fresh xs ys
unfolding member
Fresh-pushed xs [] = (λ h. tt, λ h. tt)
Fresh-pushed xs (y ∷ ys) =
    let (to, from) = Fresh-pushed xs ys in
    (
      λ h. (ground (arith, h.0, member-pushed y [] xs), to h.1),
      λ h. (ground (arith, h.0, member-pushed y [] xs), from h.1),
    )

check_names_iff :
    (seen xs out : List Text)
    → (check_names seen xs ≡ ok out) ↔ (Fresh seen xs × Distinct xs × (out ≡ pushed seen xs))
unfolding check_names
check_names_iff seen [] out = (λ h. (tt, tt, ground arith), λ h. ground (arith, h.2))
check_names_iff seen (x ∷ xs) out =
    let (to, from) = check_names_iff (x ∷ seen) xs out in
    let (split, join) = Fresh-cons x seen xs in
    (
      λ h.
          let rest = to (ground arith) in
          let apart = split rest.0 in ((ground arith, apart.1), (apart.0, rest.1), rest.2),
      λ h. ground (arith, h.0.0, from (join (h.1.0, h.0.1), h.1.1, h.2)),
    )

-- A secret that the policy lets through.
pub record IsAllowedSecret (allowed : List Text) (s : SecretSpec) : Type 0 where
  pub named : member s.name allowed ≡ true
  pub inline : s.secret_ref ≡ none

check_policy_secret_iff :
    (allowed seen : List Text) (s : SecretSpec)
    → (check_policy_secret allowed seen s ≡ ok tt)
      ↔ (IsAllowedSecret allowed s × (member s.name seen ≡ false))
unfolding check_policy_secret
check_policy_secret_iff allowed seen s = (
  λ h. (record { named = ground arith; inline = ground arith }, ground arith),
  λ h. ground (arith, h.0.named, h.0.inline, h.1),
)

check_policy_secrets_iff :
    (allowed seen : List Text) (xs : List SecretSpec)
    → (check_policy_secrets allowed seen xs ≡ ok tt) ↔ (
        All (IsAllowedSecret allowed) xs
        × Fresh seen (map secret_name xs)
        × Distinct (map secret_name xs))
unfolding check_policy_secrets
check_policy_secrets_iff allowed seen [] = (λ h. (tt, tt, tt), λ h. refl)
check_policy_secrets_iff allowed seen (s ∷ xs) =
    let (to, from) = check_policy_secrets_iff allowed (s.name ∷ seen) xs in
    let (split, join) = Fresh-cons s.name seen (map secret_name xs) in
    let (good, bad) = check_policy_secret_iff allowed seen s in
    (
      λ h.
          let first = good (ground arith) in
          let rest = to (ground arith) in
          let apart = split rest.1 in ((first.0, rest.0), (first.1, apart.1), (apart.0, rest.2)),
      λ h. ground (arith, bad (h.0.0, h.1.0), from (h.0.1, join (h.2.0, h.1.1), h.2.1)),
    )

pub component_eq_iff : (d c : Component) → (component_eq d c ≡ true) ↔ (d ≡ c)
unfolding component_eq
component_eq_iff (normal a) (normal b) =
    let (to, from) = text_eq_iff a b in (λ h. ap normal (to h), λ h. from (ground arith))
component_eq_iff d c = (λ h. ground arith, λ h. ground arith)

components_start_iff :
    (ds cs : List Component)
    → (components_start ds cs ≡ true) ↔ ((below : List Component) × (cs ≡ ds ++ below))
unfolding components_start
components_start_iff [] cs = (λ h. (cs, refl), λ h. refl)
components_start_iff (d ∷ ds) [] = (λ h. cc, λ h. cc (h.1))
components_start_iff (d ∷ ds) (c ∷ cs) =
    let (to, from) = components_start_iff ds cs in
    let (same, eq) = component_eq_iff d c in
    (
      λ h. let rest = to (ground arith) in (rest.0, ground (arith, rest.1, same)),
      λ h. ground (arith, h.1, eq, from (h.0, ground (arith, h.1))),
    )

variables_iff :
    (allowed xs : List Text)
    → (any (λ x. not (member x allowed)) xs ≡ false) ↔ All (λ x. member x allowed ≡ true) xs
variables_iff allowed [] = (λ h. tt, λ h. refl)
variables_iff allowed (x ∷ xs) =
    let (to, from) = variables_iff allowed xs in
    (λ h. (ground arith, to (ground arith)), λ h. ground (arith, h.0, from h.1))

-- A path, if there is one, starts with the root's components.
resolved_iff :
    (root : Text) (found : Option Text)
    → (elim found [ none ↦ false | some p ↦ path_starts_with p root ] ≡ true) ↔ (
        (real : Text) × (below : List Component) × (found ≡ some real)
        × (components real ≡ components root ++ below))
unfolding path_starts_with
resolved_iff root none = (λ h. cc, λ h. cc (h.2))
resolved_iff root (some real) =
    let (to, from) = components_start_iff (components root) (components real) in
    (
      λ h. let rest = to h in (real, rest.0, refl, rest.1),
      λ h. from (h.1, ground (arith, h.2, h.3)),
    )

module _ (canonicalize : Text → Option Text) where
  -- The workspace is not a local directory, or one that exists and stands below the root.
  abbrev pub IsContained : Text → WorkspaceSpec → Type 0
  IsContained root (WorkspaceSpec.local path) =
      (real : Text) × (below : List Component) × (canonicalize (join root path) ≡ some real)
      × (components real ≡ components root ++ below)
  IsContained root _ = Unit

  is_within_iff :
      (path root : Text)
      → (is_within canonicalize path root ≡ true) ↔ (
          (real : Text) × (below : List Component) × (canonicalize path ≡ some real)
          × (components real ≡ components root ++ below))
  unfolding is_within
  is_within_iff path root = resolved_iff root (canonicalize path)

  check_workspace_iff :
      (root : Text) (w : WorkspaceSpec)
      → (check_workspace canonicalize root w ≡ ok tt) ↔ IsContained root w
  unfolding check_workspace
  check_workspace_iff root (WorkspaceSpec.local path) =
      let (to, from) = is_within_iff (join root path) root in
      (λ h. to (ground arith), λ h. ground (arith, from h))
  check_workspace_iff root (WorkspaceSpec.git _) = (λ h. tt, λ h. refl)
  check_workspace_iff root (WorkspaceSpec.archive_url _) = (λ h. tt, λ h. refl)

  -- A job that the policy of the configuration lets run.
  pub record IsAdmitted (c : RunnerConfig) (context : ValidationContext) (spec : JobSpec)
      : Type 0 where
    pub well_formed : IsWellFormed (requires_digest context) spec
    pub network : spec.network.mode ≡ text "bridge" → c.security.allow_network ≡ true
    pub variables :
        All (λ x. member x c.security.allowed_environment ≡ true) spec.environment_from_runner
    pub once : Distinct spec.environment_from_runner
    pub secrets : All (IsAllowedSecret c.security.allowed_environment) spec.secrets
    pub apart : Fresh spec.environment_from_runner (map secret_name spec.secrets)
    pub once_secrets : Distinct (map secret_name spec.secrets)
    pub workspace : IsContained (canonical_or canonicalize c.work_dir) spec.workspace

  -- The runner admits a job exactly when it is well formed and within the policy: the network is
  -- allowed where it asks for it, its variables and secrets are allowed, named once and apart, its
  -- secrets carry their values, and a local workspace stands below the working directory. It then gets
  -- the clamped resources.
  pub validate_with_context_iff :
      (spec : JobSpec) (c : RunnerConfig) (context : ValidationContext) (r : Resources)
      → (validate_with_context canonicalize spec c context ≡ ok r)
        ↔ (IsAdmitted c context spec × (r ≡ clamp spec.resources c))
  unfolding validate_with_context
  validate_with_context_iff spec c context r =
      let allowed = c.security.allowed_environment in
      let (formed, unformed) = validate_iff spec (requires_digest context) in
      let (variables, no_variables) = variables_iff allowed spec.environment_from_runner in
      let names = check_names_iff [] spec.environment_from_runner in
      let (secrets, no_secrets) =
        check_policy_secrets_iff allowed (pushed [] spec.environment_from_runner) spec.secrets in
      let (apart, no_apart) =
        Fresh-pushed spec.environment_from_runner (map secret_name spec.secrets) in
      let (inside, no_inside) =
        check_workspace_iff (canonical_or canonicalize c.work_dir) spec.workspace in
      let bridge = text_eq_iff spec.network.mode (text "bridge") in
      (
        λ h.
            let first = (>>-eq-ok_iff _ _ r).0 h in
            let second = (>>-eq-ok_iff _ _ r).0 first.1 in
            let third = (>>-eq-ok_iff _ _ r).0 second.1 in
            let (out, read, rest) = >>=-eq-ok _ _ third.1 in
            let named = (names out).0 read in
            let here =
              check_workspace canonicalize (canonical_or canonicalize c.work_dir) spec.workspace in
            let finish = ok (clamp spec.resources c) in
            let fourth =
              (>>-eq-ok_iff (check_policy_secrets allowed out spec.secrets) (here >> finish) r).0
                rest in
            let fifth = (>>-eq-ok_iff here finish r).0 fourth.1 in
            let kept = secrets (ground (arith, named.2, fourth.0)) in
            (
              record {
                well_formed = formed first.0;
                network = λ b. ground (arith, second.0, bridge.1 b);
                variables = variables (ground (arith, third.0));
                once = named.1;
                secrets = kept.0;
                apart = apart kept.1;
                once_secrets = kept.2;
                workspace = inside fifth.0;
              },
              ground (arith, fifth.1),
            ),
        λ h. ground (
          arith,
          unformed h.0.well_formed,
          h.0.network,
          bridge.0,
          no_variables h.0.variables,
          (names (pushed [] spec.environment_from_runner)).1
              (Fresh-nil spec.environment_from_runner, h.0.once, refl),
          no_secrets (h.0.secrets, no_apart h.0.apart, h.0.once_secrets),
          no_inside h.0.workspace,
          h.1,
        ),
      )
