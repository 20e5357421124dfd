-- ===== src/Policy/Environment.antt =====
-- The environment that an admitted job's container gets.
use ai_kodu_runner.Base.{
  Text, text, true, Option, none, some, is_some, List, [], ◌∷◌, ◌++◌, map, All, ◌≡◌, ◌↔◌, refl,
  Result, ok, err, bail, arith, >>=-eq-ok,
}
use ai_kodu_runner.Protocol.{SecretSpec, JobSpec}
use ai_kodu_runner.Config.{RunnerConfig, Environment}
use ai_kodu_runner.Policy.Defs.{
  ValidationContext, variable_entries, secret_entries, environment_for_job,
}
use ai_kodu_runner.Policy.Admission.{IsAllowedSecret, IsAdmitted}

abbrev pub secret_entry : SecretSpec → Text
secret_entry s = s.name ++ (text "=" ++ s.value)

module _ (env : Environment) where
  -- The entry of a variable; the text after the sign is empty where the variable is not set.
  abbrev pub variable_entry : Text → Text
  variable_entry key = key ++ (text "=" ++ elim (env key) [ none ↦ [] | some value ↦ value ])

  found :
      (key : Text) {next : Text → Result (List Text)} {out : List Text} (value : Option Text)
      → elim value [
        | none ↦ err (bail (text "missing environment secret: " ++ key))
        | some v ↦ next v
      ]
        ≡ ok out
      → (v : Text) × (value ≡ some v) × (next v ≡ ok out)
  found key none h = cc
  found key (some v) h = (v, refl, h)

  variable_entries_iff :
      (keys out : List Text)
      → (variable_entries env keys ≡ ok out)
        ↔ (All (λ k. is_some (env k) ≡ true) keys × (out ≡ map variable_entry keys))
  unfolding variable_entries
  variable_entries_iff [] out = (λ h. (tt, ground arith), λ h. ground (arith, h.1))
  variable_entries_iff (key ∷ keys) out = (
    λ h.
        let (value, set, rest) = found key (env key) h in
        let (more, read, same) = >>=-eq-ok (variable_entries env keys) _ rest in
        let (all, entries) = (variable_entries_iff keys more).0 read in
        ((ground (arith, set), all), ground (arith, set, same, entries)),
    λ h.
        ground (
          arith,
          h.0.0,
          h.1,
          (variable_entries_iff keys (map variable_entry keys)).1 (h.0.1, refl),
        ),
  )

  secret_entries_eq :
      (allowed : List Text) (secrets : List SecretSpec)
      → All (IsAllowedSecret allowed) secrets
      → secret_entries env allowed secrets ≡ ok (map secret_entry secrets)
  unfolding secret_entries
  secret_entries_eq allowed [] h = refl
  secret_entries_eq allowed (s ∷ secrets) h =
      ground (arith, h.0.named, h.0.inline, secret_entries_eq allowed secrets h.1)

  -- For an admitted job the environment is computed exactly when every variable that it asks for is
  -- set on the runner, and it is then those variables with their values and the secrets with theirs,
  -- in the order of the specification.
  pub environment_for_job_iff :
      (canonicalize : Text → Option Text) (c : RunnerConfig) (context : ValidationContext)
      (spec : JobSpec)
      → IsAdmitted canonicalize c context spec
      → (out : List Text)
      → (environment_for_job env spec c ≡ ok out) ↔ (
          All (λ k. is_some (env k) ≡ true) spec.environment_from_runner
          × (out
              ≡ map variable_entry spec.environment_from_runner ++ map secret_entry spec.secrets))
  unfolding environment_for_job
  environment_for_job_iff canonicalize c context spec admitted out =
      let secrets =
        secret_entries_eq c.security.allowed_environment spec.secrets admitted.secrets in
      let variables = map variable_entry spec.environment_from_runner in
      (
        λ h.
            let (some_variables, read, rest) =
              >>=-eq-ok (variable_entries env spec.environment_from_runner) _ h in
            let (all, same) =
              (variable_entries_iff spec.environment_from_runner some_variables).0 read in
            (all, ground (arith, secrets, same, rest)),
        λ h. ground (
          arith,
          secrets,
          h.1,
          (variable_entries_iff spec.environment_from_runner variables).1 (h.0, refl),
        ),
      )
