-- ===== src/Config/Examples.antt =====
-- Tests of the configuration, and instances of its theorems.
use ai_kodu_runner.Base.{
  text, split, strip_prefix, is_whitespace, All, none, some, ok, err, bail, length, ◌≡◌, ◌⊎◌, ◌↔◌,
  refl, if◌then◌else◌, text_eq,
}
use ai_kodu_runner.Config.Defs.{
  Environment, RunnerConfig, default_platform, validate_platform, load, default_local,
  resolve_token,
}
use ai_kodu_runner.Config.Platform.{IsPart, validate_platform_iff}

config : Unit {0}
unfolding text split strip_prefix is_whitespace text_eq validate_platform load default_local
    resolve_token
config = tt

abbrev no_env : Environment
no_env _ = none

abbrev arm_env : Environment
arm_env n = if text_eq n (text "RUNNER_PLATFORM") then some (text "linux/arm64/v8") else none

platform_tests :
    (validate_platform default_platform ≡ ok tt)
    × (validate_platform (text "linux/arm64/v8") ≡ ok tt)
    × (validate_platform (text "linux/") ≡ err (bail (text "invalid Docker platform")))
    × (validate_platform (text "linux/arm 64") ≡ err (bail (text "invalid Docker platform")))
unfolding config
platform_tests = (refl, refl, refl, refl)

abbrev loaded : RunnerConfig
loaded = record (default_local no_env (text "/work")) {
  name = none;
  runner_token = some (text "env:TOKEN");
}

load_tests :
    (load no_env (text "u-1") loaded ≡ ok (record loaded { runner_id = text "u-1" }))
    × (resolve_token arm_env loaded ≡ err (bail (text "missing secret environment variable TOKEN")))
unfolding config
load_tests = (refl, refl)

validate_platform_iff_example : (validate_platform (text "linux/amd64") ≡ ok tt) ↔ (
    ((length (split b'/' (text "linux/amd64")) ≡ 2)
      ⊎ (length (split b'/' (text "linux/amd64")) ≡ 3))
    × All IsPart (split b'/' (text "linux/amd64")))
validate_platform_iff_example = validate_platform_iff (text "linux/amd64")
