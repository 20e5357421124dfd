-- ===== src/Executor/Defs.antt =====
-- Executors, their capabilities, and the factory. A set of names is the list of its members, without
-- repetition; the factory's map is a list in the order of its keys.
use ai_kodu_runner.Base.{
  Text, text, text_eq, trim, member, Bool, true, false, not, ◌&&◌, Option, none, some, is_some,
  List, [], ◌∷◌, ◌++◌, map, is_empty, Result, ok, err, bail, to_string, ◌>>=◌, ◌>>◌, bail_if,
  if◌then◌else◌,
}
use ai_kodu_runner.Journal.{text_leb}
use ai_kodu_runner.Protocol.{
  IsolationLevel, container, sandboxed, dedicated, ExecutionRequirements, JobSpec, JobResult,
}

pub record ExecutorCapabilities : Type 0 where
  pub isolation : IsolationLevel
  pub capabilities : List Text

abbrev pub default_capabilities : ExecutorCapabilities
default_capabilities = record { isolation = container; capabilities = [] }

unfoldable pub collect : List Text → List Text
collect [] = []
collect (n ∷ ns) = let rest = collect ns in if member n rest then rest else n ∷ rest

-- `ExecutorCapabilities::new`
unfoldable pub new_capabilities : List Text → ExecutorCapabilities
unfolding collect
new_capabilities names = record { isolation = container; capabilities = collect names }

unfoldable pub supports : ExecutorCapabilities → Text → Bool
supports c name = member name c.capabilities

unfoldable pub isolation_eq : IsolationLevel → IsolationLevel → Bool
isolation_eq container container = true
isolation_eq sandboxed sandboxed = true
isolation_eq dedicated dedicated = true
isolation_eq _ _ = false

-- `{:?}` of a level
abbrev pub isolation_name : IsolationLevel → Text
isolation_name container = text "Container"
isolation_name sandboxed = text "Sandboxed"
isolation_name dedicated = text "Dedicated"

unfoldable pub check_supported : ExecutorCapabilities → List Text → Result (Unit {0})
unfolding supports
check_supported c [] = ok tt
check_supported c (name ∷ rest) =
    bail_if (not (supports c name)) (text "executor does not support capability: " ++ name)
    >> check_supported c rest

unfoldable pub satisfies : ExecutorCapabilities → ExecutionRequirements → Result (Unit {0})
unfolding isolation_eq check_supported
satisfies c requirements = do
  bail_if
      (not (isolation_eq requirements.isolation container)
        && not (isolation_eq requirements.isolation c.isolation))
      (text "executor does not support required isolation: "
        ++ isolation_name requirements.isolation)
  check_supported c requirements.capabilities

pub record DoctorCheck : Type 0 where
  pub name : Text
  pub healthy : Bool
  pub message : Text

pub record DoctorReport : Type 0 where
  pub executor : Text
  pub healthy : Bool
  pub capabilities : ExecutorCapabilities
  pub checks : List DoctorCheck

-- What an executor offers. `run` takes the specification and the state of the cancellation token, if
-- there is one, and gives what the job ended with.
pub record Executor : Type 0 where
  pub capabilities : ExecutorCapabilities
  pub doctor : Result DoctorReport
  pub run : JobSpec → Option Bool → Result JobResult
  pub cleanup : Result (Unit {0})

abbrev pub ExecutorFactory : Type 0
ExecutorFactory = List (Text × Executor)

unfoldable pub lookup : Text → ExecutorFactory → Option Executor
lookup name [] = none
lookup name (entry ∷ rest) = if text_eq entry.0 name then some entry.1 else lookup name rest

-- `BTreeMap::insert` of a key that is not there: the keys stay in order.
unfoldable pub insert : Text → Executor → ExecutorFactory → ExecutorFactory
insert name executor [] = (name, executor) ∷ []
insert name executor (entry ∷ rest) =
    if text_leb name entry.0
    then (name, executor) ∷ entry ∷ rest
    else entry ∷ insert name executor rest

unfoldable pub register : Text → Executor → ExecutorFactory → Result ExecutorFactory
unfolding insert
register name executor factory = do
  bail_if (is_empty (trim name)) (text "executor name must not be empty")
  bail_if (is_some (lookup name factory)) (text "executor already registered: " ++ name)
  ok (insert name executor factory)

unfoldable pub get : Text → ExecutorFactory → Result Executor
get name factory = elim (lookup name factory) [
  | none ↦ err (bail (text "executor is not registered: " ++ name))
  | some executor ↦ ok executor
]

-- `.map_err(|error| anyhow!("executor admission failed: {error}"))`
unfoldable pub admission_failure : Result (Unit {0}) → Result (Unit {0})
admission_failure (ok t) = ok t
admission_failure (err e) = err (bail (text "executor admission failed: " ++ to_string e))

unfoldable pub default_requirements : Option ExecutionRequirements → ExecutionRequirements
default_requirements none = record { isolation = container; capabilities = [] }
default_requirements (some requirements) = requirements

unfoldable pub select_for : JobSpec → ExecutorFactory → Result Executor
unfolding admission_failure default_requirements
select_for spec factory = do
  executor ← get spec.executor factory
  admission_failure (satisfies executor.capabilities (default_requirements spec.execution))
  ok executor

abbrev pub names : ExecutorFactory → List Text
names factory = map (λ entry. entry.0) factory
