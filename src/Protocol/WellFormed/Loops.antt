-- ===== src/Protocol/WellFormed/Loops.antt =====
-- Each loop of the validator accepts exactly the lists whose items meet their predicate and do not
-- repeat a name.
use ai_kodu_runner.Base.{
  nil_of_is_empty, Text, bytes, member, Bool, false, Option, none, some, List, [], ◌∷◌, map, All,
  IsBlank, ◌≡◌, ◌↔◌, refl, ok, arith,
}
use ai_kodu_runner.Protocol.Types.{ServiceSpec, HealthcheckSpec, SecretSpec}
use ai_kodu_runner.Protocol.Validate.{
  check_capabilities, bad_alias, bad_healthcheck, has_digest, bad_capability, bad_service,
  bad_secret_name, check_service, check_services, bad_secret_ref, check_secret, check_secrets,
}
use ai_kodu_runner.Protocol.WellFormed.Parts.{
  Distinct, IsNameByte, IsCapability, OnSome, IsImage, IsAlias, IsHealthcheck, IsService,
  service_name, IsReference, IsSecret,
}
use ai_kodu_runner.Protocol.WellFormed.Tests.{
  Fresh, is_empty_iff, nonblank_iff, named_iff, secret_named_iff, Fresh-cons,
}

bad_capability_iff :
    (seen : List Text) (c : Text)
    → (bad_capability seen c ≡ false) ↔ (IsCapability c × (member c seen ≡ false))
unfolding bad_capability
bad_capability_iff seen c =
    let (full, filled) = is_empty_iff c in
    let (named, spelled) = named_iff (bytes c) in
    (
      λ h. (
        record {
          nonempty = full (ground arith);
          short = ground arith;
          named = named (ground arith);
        },
        ground arith,
      ),
      λ h. ground (arith, filled h.0.nonempty, h.0.short, spelled h.0.named),
    )

pub check_capabilities_iff :
    (seen xs : List Text)
    → (check_capabilities seen xs ≡ ok tt) ↔ (All IsCapability xs × Fresh seen xs × Distinct xs)
unfolding check_capabilities
check_capabilities_iff seen [] = (λ h. (tt, tt, tt), λ h. refl)
check_capabilities_iff seen (c ∷ xs) =
    let (to, from) = check_capabilities_iff (c ∷ seen) xs in
    let (split, join) = Fresh-cons c seen xs in
    let (good, bad) = bad_capability_iff seen c in
    (
      λ h.
          let first = good (ground arith) in
          let rest = to (ground arith) in
          let apart = split rest.1 in ((first.0, rest.0), (first.1, apart.1), (apart.0, rest.2)),
      λ h. ground (arith, bad (h.0.0, h.1.0), from (h.0.1, join (h.2.0, h.1.1), h.2.1)),
    )

bad_alias_iff : (a : Option Text) → (bad_alias a ≡ false) ↔ OnSome IsAlias a
unfolding bad_alias
bad_alias_iff none = (λ h. tt, λ h. refl)
bad_alias_iff (some a) =
    let (full, filled) = nonblank_iff a in
    let (named, spelled) = named_iff (bytes a) in
    (
      λ h. record {
        nonblank = full (ground arith);
        one_word = ground arith;
        named = named (ground arith);
      },
      λ h. ground (arith, filled h.nonblank, h.one_word, spelled h.named),
    )

bad_healthcheck_iff :
    (c : Option HealthcheckSpec) → (bad_healthcheck c ≡ false) ↔ OnSome IsHealthcheck c
unfolding bad_healthcheck
bad_healthcheck_iff none = (λ h. tt, λ h. refl)
bad_healthcheck_iff (some c) =
    let (full, filled) = is_empty_iff c.command in
    (
      λ h. record {
        nonempty = full (ground arith);
        positive = ground arith;
        bounded = ground arith;
      },
      λ h. ground (arith, filled h.nonempty, h.positive, h.bounded),
    )

-- The first test on a service, without the optional fields.
bad_service_iff :
    (seen : List Text) (s : ServiceSpec)
    → (bad_service seen s ≡ false) ↔ (
        (¬ IsBlank s.name)
        × (member s.name seen ≡ false)
        × IsImage s.image
        × All IsNameByte (bytes s.name))
unfolding bad_service
bad_service_iff seen s =
    let (full, filled) = nonblank_iff s.name in
    let (shown, seen_image) = nonblank_iff s.image in
    let (named, spelled) = named_iff (bytes s.name) in
    (
      λ h. (
        full (ground arith),
        ground arith,
        (shown (ground arith), ground arith),
        named (ground arith),
      ),
      λ h. ground (arith, filled h.0, h.1, seen_image h.2.0, h.2.1, spelled h.3),
    )

check_service_iff :
    (daemon : Bool) (seen : List Text) (s : ServiceSpec)
    → (check_service daemon seen s ≡ ok tt) ↔ (IsService daemon s × (member s.name seen ≡ false))
unfolding check_service has_digest
check_service_iff daemon seen s =
    let (good, bad) = bad_service_iff seen s in
    let (alias, no_alias) = bad_alias_iff s.alias in
    let (health, no_health) = bad_healthcheck_iff s.healthcheck in
    (
      λ h.
          let first = good (ground arith) in
          (
            record {
              nonblank = first.0;
              named = first.3;
              image = first.2;
              pinned = λ d. ground arith;
              alias = alias (ground arith);
              healthcheck = health (ground arith);
            },
            first.1,
          ),
      λ h. ground (
        arith,
        bad (h.0.nonblank, h.1, h.0.image, h.0.named),
        h.0.pinned,
        no_alias h.0.alias,
        no_health h.0.healthcheck,
      ),
    )

pub check_services_iff :
    (daemon : Bool) (seen : List Text) (xs : List ServiceSpec)
    → (check_services daemon seen xs ≡ ok tt) ↔ (
        All (IsService daemon) xs
        × Fresh seen (map service_name xs)
        × Distinct (map service_name xs))
unfolding check_services
check_services_iff daemon seen [] = (λ h. (tt, tt, tt), λ h. refl)
check_services_iff daemon seen (s ∷ xs) =
    let (to, from) = check_services_iff daemon (s.name ∷ seen) xs in
    let (split, join) = Fresh-cons s.name seen (map service_name xs) in
    let (good, bad) = check_service_iff daemon seen s in
    (
      λ h.
          let first = good (ground arith) in
          let rest = to (ground arith) in
          let apart = split rest.1 in ((first.0, rest.0), (first.1, apart.1), (apart.0, rest.2)),
      λ h. ground (arith, bad (h.0.0, h.1.0), from (h.0.1, join (h.2.0, h.1.1), h.2.1)),
    )

bad_secret_ref_iff : (r : Option Text) → (bad_secret_ref r ≡ false) ↔ OnSome IsReference r
unfolding bad_secret_ref
bad_secret_ref_iff none = (λ h. tt, λ h. refl)
bad_secret_ref_iff (some r) =
    let (full, filled) = is_empty_iff r in
    (λ h. (full (ground arith), ground arith), λ h. ground (arith, filled h.0, h.1))

check_secret_iff : (s : SecretSpec) → (check_secret s ≡ ok tt) ↔ IsSecret s
unfolding check_secret bad_secret_name
check_secret_iff s =
    let (full, filled) = is_empty_iff s.name in
    let (named, spelled) = secret_named_iff (bytes s.name) in
    let (reference, no_reference) = bad_secret_ref_iff s.secret_ref in
    (
      λ h. record {
        nonempty = full (ground arith);
        short = ground arith;
        named = named (ground arith);
        either = λ r. nil_of_is_empty s.value (ground arith);
        reference = reference (ground arith);
        small = ground arith;
      },
      λ h. ground (
        arith,
        filled h.nonempty,
        h.short,
        spelled h.named,
        h.either,
        no_reference h.reference,
        h.small,
      ),
    )

pub check_secrets_iff : (xs : List SecretSpec) → (check_secrets xs ≡ ok tt) ↔ All IsSecret xs
unfolding check_secrets
check_secrets_iff [] = (λ h. tt, λ h. refl)
check_secrets_iff (s ∷ xs) =
    let (to, from) = check_secrets_iff xs in
    let (good, bad) = check_secret_iff s in
    (λ h. (good (ground arith), to (ground arith)), λ h. ground (arith, bad h.0, from h.1))
