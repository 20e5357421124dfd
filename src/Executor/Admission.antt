-- ===== src/Executor/Admission.antt =====
-- Which executor a job gets, and what registration keeps.
use ai_kodu_runner.Base.{
  Text, text_eq, text_eq_iff, trim, member, true, Option, none, some, List, [], ◌∷◌, All, is_empty,
  IsBlank, trim_iff, ◌≡◌, ◌⊎◌, ◌↔◌, refl, ok, err, arith, inl, inr, ap, sym, subst, if◌then◌else◌,
  is_ok, Bool-cases, >>-eq-ok_iff, text, bail, ◌++◌, ◌>>=◌, ◌>>◌,
}
use ai_kodu_runner.Protocol.{
  IsolationLevel, container, sandboxed, dedicated, ExecutionRequirements, JobSpec,
}
use ai_kodu_runner.Protocol.WellFormed.{OnSome}
use ai_kodu_runner.Executor.Defs.{
  ExecutorCapabilities, Executor, ExecutorFactory, supports, isolation_eq, check_supported,
  satisfies, lookup, insert, register, get, admission_failure, default_requirements, select_for,
}

-- What an executor must offer to a job with these requirements.
pub record IsSatisfied (c : ExecutorCapabilities) (r : ExecutionRequirements) : Type 0 where
  pub isolation : (r.isolation ≡ container) ⊎ (r.isolation ≡ c.isolation)
  pub capabilities : All (λ name. member name c.capabilities ≡ true) r.capabilities

isolation_eq_iff : (a b : IsolationLevel) → (isolation_eq a b ≡ true) ↔ (a ≡ b)
unfolding isolation_eq
isolation_eq_iff container b = (λ h. ground arith, λ h. ground arith)
isolation_eq_iff sandboxed b = (λ h. ground arith, λ h. ground arith)
isolation_eq_iff dedicated b = (λ h. ground arith, λ h. ground arith)

check_supported_iff :
    (c : ExecutorCapabilities) (names : List Text)
    → (check_supported c names ≡ ok tt) ↔ All (λ name. member name c.capabilities ≡ true) names
unfolding check_supported supports
check_supported_iff c [] = (λ h. tt, λ h. refl)
check_supported_iff c (name ∷ names) =
    let (to, from) = check_supported_iff c names in
    (λ h. (ground arith, to (ground arith)), λ h. ground (arith, h.0, from h.1))

satisfies_iff :
    (c : ExecutorCapabilities) (r : ExecutionRequirements)
    → (satisfies c r ≡ ok tt) ↔ IsSatisfied c r
unfolding satisfies
satisfies_iff c r =
    let (to, from) = check_supported_iff c r.capabilities in
    let any_level = isolation_eq_iff r.isolation container in
    let same_level = isolation_eq_iff r.isolation c.isolation in
    (
      λ h. record {
        isolation = ground (arith, any_level, same_level);
        capabilities = to (ground arith);
      },
      λ h. ground (arith, any_level, same_level, h.isolation, from h.capabilities),
    )

-- A job without requirements asks for nothing, so any executor meets them.
requirements_iff :
    (c : ExecutorCapabilities) (e : Option ExecutionRequirements)
    → (admission_failure (satisfies c (default_requirements e)) ≡ ok tt)
      ↔ OnSome (λ r. IsSatisfied c r) e
unfolding admission_failure default_requirements
requirements_iff c none = (
  λ h. tt,
  λ h. ground (
    arith,
    (satisfies_iff c (record { isolation = container; capabilities = [] })).1
        (record { isolation = inl refl; capabilities = tt }),
  ),
)
requirements_iff c (some r) =
    let (to, from) = satisfies_iff c r in (λ h. to (ground arith), λ h. ground (arith, from h))

chosen_iff :
    (found : Option Executor) (name : Text) (e : Option ExecutionRequirements) (executor : Executor)
    → ((elim found [
      | none ↦ err (bail (text "executor is not registered: " ++ name))
      | some x ↦ ok x
    ]
          >>= λ x. admission_failure (satisfies x.capabilities (default_requirements e)) >> ok x)
        ≡ ok executor)
      ↔ ((found ≡ some executor) × OnSome (λ r. IsSatisfied executor.capabilities r) e)
chosen_iff none name e executor = (λ h. cc, λ h. cc (h.0))
chosen_iff (some x) name e executor =
    let (to, from) = requirements_iff x.capabilities e in
    let (split, join) =
      >>-eq-ok_iff (admission_failure (satisfies x.capabilities (default_requirements e))) (ok x)
        executor in
    (
      λ h.
          let parts = split h in
          let same : x ≡ executor = ok_inj parts.1 in
          (
            ap some same,
            subst (λ y. OnSome (λ r. IsSatisfied y.capabilities r) e) same (to parts.0),
          ),
      λ h.
          let same : x ≡ executor = some_inj h.0 in
          join (
            from (subst (λ y. OnSome (λ r. IsSatisfied y.capabilities r) e) (sym same) h.1),
            ap ok same,
          ),
    )
  where
    ok_inj : {a b : Executor} → ok a ≡ ok b → a ≡ b
    ok_inj h = cc

    some_inj : {a b : Executor} → some a ≡ some b → a ≡ b
    some_inj h = cc

-- A job gets the executor that is registered under the name it asks for, exactly when that one
-- meets the requirements it states, if it states any; no other one is tried.
pub select_for_iff :
    (spec : JobSpec) (factory : ExecutorFactory) (executor : Executor)
    → (select_for spec factory ≡ ok executor) ↔ (
        (lookup spec.executor factory ≡ some executor)
        × OnSome (λ r. IsSatisfied executor.capabilities r) spec.execution)
unfolding select_for get
select_for_iff spec factory executor =
    chosen_iff (lookup spec.executor factory) spec.executor spec.execution executor

lookup-insert :
    (name k : Text) (executor : Executor) (factory : ExecutorFactory)
    → lookup name factory ≡ none
    → lookup k (insert name executor factory)
      ≡ (if text_eq name k then some executor else lookup k factory)
unfolding lookup insert
lookup-insert name k executor [] h = refl
lookup-insert name k executor (entry ∷ rest) h = ground (
  arith,
  lookup-insert name k executor rest,
  text_eq_iff name k,
  text_eq_iff entry.0 k,
  text_eq_iff entry.0 name,
)

-- Registration succeeds exactly for a name that is not blank and not taken, and then adds that name
-- with its executor: what every other name finds stays.
pub register_iff :
    (name : Text) (executor : Executor) (factory : ExecutorFactory)
    → ((is_ok (register name executor factory) ≡ true)
        ↔ ((¬ IsBlank name) × (lookup name factory ≡ none)))
      × ((after : ExecutorFactory)
          → register name executor factory ≡ ok after
          → (k : Text)
          → lookup k after ≡ (if text_eq name k then some executor else lookup k factory))
unfolding register
register_iff name executor factory =
    let (blank, not_blank) = trim_iff name in
    (
      (
        λ h. ((λ b. ground (arith, not_blank b)), ground arith),
        λ h. elim (Bool-cases (is_empty (trim name))) [
          | inl e ↦ absurd (h.0 (blank e))
          | inr e ↦ ground (arith, e, h.1)
        ],
      ),
      λ after h k. ground (arith, h, lookup-insert name k executor factory),
    )
