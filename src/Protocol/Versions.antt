-- ===== src/Protocol/Versions.antt =====
-- Which versions the decoder admits, and what it fills in.
use ai_kodu_runner.Base.{
  Text, text, text_eq, text_eq_iff, Option, none, some, Bool-cases, true, false, is_some, ok, ◌>>=◌,
  ◌≡◌, refl, ◌⊎◌, inl, inr, arith, >>=-eq-ok,
}
use ai_kodu_runner.Protocol.Types.{JobSpec, from_v1beta1}
use ai_kodu_runner.Protocol.Validate.{v1alpha1, v1beta1}
use ai_kodu_runner.Protocol.Decode.{Codec, by_version, from_json}

versions_differ : text_eq v1beta1 v1alpha1 ≡ false
unfolding text_eq text
versions_differ = refl

module _ (c : Codec) where
  by_version_supported :
      (value : c.Value) (v : Option Text) (spec : JobSpec)
      → c.version value ≡ v
      → by_version c value v ≡ ok spec
      → ((spec.api_version ≡ v1alpha1)
          ⊎ ((spec.api_version ≡ v1beta1)
              × (spec.executor ≡ text "docker")
              × (is_some spec.execution ≡ true)))
  unfolding by_version from_v1beta1
  by_version_supported value none spec e h = ground arith
  by_version_supported value (some v) spec e h = elim (Bool-cases (text_eq v v1alpha1)) [
    | inl a ↦
        let decoded : c.alpha value ≡ ok spec = ground arith in
        inl (ground (arith, c.alpha-version value spec decoded, text_eq_iff v v1alpha1))
    | inr a ↦ elim (Bool-cases (text_eq v v1beta1)) [
      | inl b ↦
          let (s, decoded, same) = >>=-eq-ok (c.beta value) _ (beta_branch a b) in
          inr (
            ground (arith, c.beta-version value s decoded, text_eq_iff v v1beta1),
            ground arith,
            ground arith,
          )
      | inr b ↦ ground arith
    ]
  ]
    where
      beta_branch :
          text_eq v v1alpha1 ≡ false
          → text_eq v v1beta1 ≡ true
          → (c.beta value >>= λ s. ok (from_v1beta1 s)) ≡ ok spec
      beta_branch a b = ground arith

  -- A document that decodes has one of the two versions, and a `v1beta1` job names the executor
  -- `docker` and states its requirements: the first three tests of `validate` pass.
  pub from_json_supported :
      (document : Text) (spec : JobSpec)
      → from_json c document ≡ ok spec
      → (spec.api_version ≡ v1alpha1)
        ⊎ ((spec.api_version ≡ v1beta1)
            × (spec.executor ≡ text "docker")
            × (is_some spec.execution ≡ true))
  unfolding from_json
  from_json_supported document spec h =
      let (value, _, decoded) = >>=-eq-ok (c.parse document) _ h in
      by_version_supported value (c.version value) spec refl decoded
