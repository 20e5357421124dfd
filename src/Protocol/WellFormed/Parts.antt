-- ===== src/Protocol/WellFormed/Parts.antt =====
-- The predicates on the parts of a job specification.
use ai_kodu_runner.Base.{
  ℕ, ◌*◌, ◌≤◌, ◌<◌, Text, text, byte_len, bytes, contains_whitespace, contains, Bool, true, false,
  Option, none, some, List, [], ◌∷◌, map, length, All, IsBlank, is_some, ◌≡◌, ◌≢◌, ◌⊎◌, starts_with,
  ends_with, contains_char, split, ◌++◌,
}
use ai_kodu_runner.Protocol.Types.{
  ExecutionRequirements, ServiceSpec, HealthcheckSpec, WorkflowSpec, VerifierSpec, CommandSpec,
  SecretSpec, JobSpec,
}

-- No text stands twice.
abbrev pub Distinct : List Text → Type 0
Distinct [] = Unit
Distinct (x ∷ xs) = All (λ y. x ≢ y) xs × Distinct xs

-- A letter or a digit of ASCII.
abbrev pub IsLetterOrDigit : ℕ → Type 0
IsLetterOrDigit b =
    ((b'0' ≤ b) × (b ≤ b'9')) ⊎ ((b'A' ≤ b) × (b ≤ b'Z')) ⊎ ((b'a' ≤ b) × (b ≤ b'z'))

abbrev pub IsNameByte : ℕ → Type 0
IsNameByte b = IsLetterOrDigit b ⊎ (b ≡ b'_') ⊎ (b ≡ b'-') ⊎ (b ≡ b'.')

abbrev pub IsSecretByte : ℕ → Type 0
IsSecretByte b = IsLetterOrDigit b ⊎ (b ≡ b'_')

pub record IsCapability (c : Text) : Type 0 where
  pub nonempty : c ≢ []
  pub short : byte_len c ≤ 64
  pub named : All IsNameByte (bytes c)

pub record IsExecution (e : ExecutionRequirements) : Type 0 where
  pub few : length e.capabilities ≤ 32
  pub each : All IsCapability e.capabilities
  pub distinct : Distinct e.capabilities

abbrev pub OnSome {ℓ κ} : {A : Type ℓ} → (A → Type κ) → Option A → Type κ
OnSome P none = Unit
OnSome P (some a) = P a

-- An image reference by digest.
abbrev pub IsPinned : Text → Type 0
IsPinned image = contains (text "@sha256:") image ≡ true

abbrev pub IsImage : Text → Type 0
IsImage image = (¬ IsBlank image) × (contains_whitespace image ≡ false)

pub record IsAlias (a : Text) : Type 0 where
  pub nonblank : ¬ IsBlank a
  pub one_word : contains_whitespace a ≡ false
  pub named : All IsNameByte (bytes a)

pub record IsHealthcheck (h : HealthcheckSpec) : Type 0 where
  pub nonempty : h.command ≢ []
  pub positive : 0 < h.timeout_seconds
  pub bounded : h.timeout_seconds ≤ 3600

pub record IsService (daemon : Bool) (s : ServiceSpec) : Type 0 where
  pub nonblank : ¬ IsBlank s.name
  pub named : All IsNameByte (bytes s.name)
  pub image : IsImage s.image
  pub pinned : daemon ≡ true → IsPinned s.image
  pub alias : OnSome IsAlias s.alias
  pub healthcheck : OnSome IsHealthcheck s.healthcheck

abbrev pub service_name : ServiceSpec → Text
service_name s = s.name

abbrev pub HasCommand : CommandSpec → Type 0
HasCommand c = c.command ≢ []

pub record IsVerifier (v : VerifierSpec) : Type 0 where
  pub nonblank : ¬ IsBlank v.name
  pub nonempty : v.command ≢ []

-- The second text is the place that the first names below the workspace.
abbrev pub IsPlaced : (value relative : Text) → Type 0
IsPlaced value relative =
    (value ≡ text "/workspace/" ++ relative)
    ⊎ ((value ≡ relative) × (starts_with (text "/") value ≡ false))

abbrev pub StartsPlain : List Text → Type 0
StartsPlain [] = Unit
StartsPlain (part ∷ parts) = part ≢ text "."

-- A feedback path and its place: no backslash or colon in it, no part between slashes that is "..",
-- and no part that is "." at the front, within or at the end.
pub record IsFeedback (value relative : Text) : Type 0 where
  pub placed : IsPlaced value relative
  pub nonempty : relative ≢ []
  pub no_backslash : contains_char 92 relative ≡ false
  pub no_colon : contains_char b':' relative ≡ false
  pub no_dot : relative ≢ text "."
  pub no_dot_first : starts_with (text "./") relative ≡ false
  pub no_dot_within : contains (text "/./") relative ≡ false
  pub no_dot_last : ends_with (text "/.") relative ≡ false
  pub no_root : starts_with (text "/") relative ≡ false
  pub starts_plain : StartsPlain (split b'/' relative)
  pub no_parent : All (λ part. part ≢ text "..") (split b'/' relative)

pub record IsWorkflow (daemon : Bool) (w : WorkflowSpec) : Type 0 where
  pub initialize : OnSome HasCommand w.initialize
  pub agent : HasCommand w.agent
  pub some_iteration : 0 < w.max_iterations
  pub few_iterations : w.max_iterations ≤ 20
  pub feedback : (path : Text) × IsFeedback w.feedback_file path
  pub verifiers : All IsVerifier w.verifiers
  pub few_services : length w.services ≤ 16
  pub services : All (IsService daemon) w.services
  pub distinct : Distinct (map service_name w.services)

abbrev pub IsReference : Text → Type 0
IsReference r = (r ≢ []) × (byte_len r ≤ 512)

pub record IsSecret (s : SecretSpec) : Type 0 where
  pub nonempty : s.name ≢ []
  pub short : byte_len s.name ≤ 128
  pub named : All IsSecretByte (bytes s.name)
  pub either : is_some s.secret_ref ≡ true → s.value ≡ []
  pub reference : OnSome IsReference s.secret_ref
  pub small : byte_len s.value ≤ 64 * 1024

-- A specification that the runner may take; `daemon` asks for images by digest.
pub record IsWellFormed (daemon : Bool) (spec : JobSpec) : Type 0 where
  pub version :
      (spec.api_version ≡ text "ai-kodu-runner.dev/v1alpha1")
      ⊎ (spec.api_version ≡ text "ai-kodu-runner.dev/v1beta1")
  pub executor : spec.executor ≡ text "docker"
  pub requirements :
      spec.api_version ≡ text "ai-kodu-runner.dev/v1beta1" → is_some spec.execution ≡ true
  pub execution : OnSome IsExecution spec.execution
  pub runs : is_some spec.workflow ≡ false → spec.command ≢ []
  pub workflow : OnSome (IsWorkflow daemon) spec.workflow
  pub image : IsImage spec.image
  pub pinned : daemon ≡ true → IsPinned spec.image
  pub network : (spec.network.mode ≡ text "bridge") ⊎ (spec.network.mode ≡ text "none")
  pub few_secrets : length spec.secrets ≤ 32
  pub secrets : All IsSecret spec.secrets
