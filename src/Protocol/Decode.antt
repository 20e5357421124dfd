-- ===== src/Protocol/Decode.antt =====
-- `JobSpec::from_json`, which chooses the decoder by `api_version`. The JSON parser and the derived
-- decoders are not the repository's code: they are the fields of `Codec`.
use ai_kodu_runner.Base.{
  Text, text, text_eq, Option, none, some, ◌++◌, Result, ok, err, bail, ◌>>=◌, ◌≡◌, if◌then◌else◌,
}
use ai_kodu_runner.Protocol.Types.{JobSpec, JobSpecV1beta1, from_v1beta1}
use ai_kodu_runner.Protocol.Validate.{v1alpha1, v1beta1}

pub record Codec : Type 1 where
  pub Value : Type 0
  -- `serde_json::from_str`
  pub parse : Text → Result Value
  -- `value.get("api_version").and_then(Value::as_str)`
  pub version : Value → Option Text
  -- `serde_json::from_value` at the two types
  pub alpha : Value → Result JobSpec
  pub beta : Value → Result JobSpecV1beta1
  -- A derived decoder fills the field `api_version` with the member of that name.
  pub alpha-version : (v : Value) (s : JobSpec) → alpha v ≡ ok s → version v ≡ some s.api_version
  pub beta-version :
      (v : Value) (s : JobSpecV1beta1) → beta v ≡ ok s → version v ≡ some s.api_version

module _ (c : Codec) where
  open c use {Value, parse, version, alpha, beta}

  unfoldable pub by_version : Value → Option Text → Result JobSpec
  by_version value none = err (bail (text "missing api_version"))
  by_version value (some v) =
      if text_eq v v1alpha1
      then alpha value
      else if text_eq v v1beta1
      then (do spec ← beta value; ok (from_v1beta1 spec))
      else err (bail (text "unsupported api_version: " ++ v))

  unfoldable pub from_json : Text → Result JobSpec
  unfolding by_version
  from_json document = do value ← parse document; by_version value (version value)
