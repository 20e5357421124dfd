-- ===== src/Base/Outcome.antt =====
-- `anyhow::Result`: a value or an error. An error is a message, or a `DockerFailure` that a caller
-- finds again by `downcast_ref`.
use mathlib.Core.Path.{◌≡◌, refl}
use mathlib.Core.Bool.{Bool, true, false}
use mathlib.Core.Logic.{◌↔◌}
use mathlib.Core.List.{◌++◌}
use ai_kodu_runner.Base.Strings.{Text, text}

pub record DockerFailure : Type 0 where
  pub code : Text
  pub phase : Text
  pub message : Text
  pub retryable : Bool

pub data Error : Type 0 where
  bail : Text → Error
  docker : DockerFailure → Error

-- `error.to_string()`
unfoldable pub to_string : Error → Text
to_string (bail m) = m
to_string (docker f) =
    text "Docker " ++ (f.code ++ (text " during " ++ (f.phase ++ (text ": " ++ f.message))))

pub data Result {ℓ} (T : Type ℓ) : Type ℓ where
  err : Error → Result T
  ok : T → Result T

abbrev pub is_ok {ℓ} : {T : Type ℓ} → Result T → Bool
is_ok (err _) = false
is_ok (ok _) = true

-- `if b { bail!(m) }`
abbrev pub bail_if : Bool → Text → Result (Unit {0})
bail_if b m = elim b [ false ↦ ok tt | true ↦ err (bail m) ]

module _ {ℓ κ} {T : Type ℓ} {U : Type κ} where
  infixl 5 ◌>>=◌
  -- The operator `?`: the first error is the result.
  abbrev pub ◌>>=◌ : Result T → (T → Result U) → Result U
  err failure >>= next = err failure
  ok value >>= next = next value

  -- Where a chain succeeds, its first link did.
  pub >>=-eq-ok :
      (first : Result T) (next : T → Result U) {u : U}
      → (first >>= next) ≡ ok u
      → (t : T) × (first ≡ ok t) × (next t ≡ ok u)
  >>=-eq-ok (ok value) next e = (value, refl, e)
  >>=-eq-ok (err failure) next e = cc

infixl 5 ◌>>◌
abbrev pub ◌>>◌ {κ} : {U : Type κ} → Result (Unit {0}) → Result U → Result U
check >> rest = check >>= λ _. rest

pub ok-injective {ℓ} : {A : Type ℓ} {a b : A} → ok a ≡ ok b → a ≡ b
ok-injective h = cc

-- A check, then the rest: both succeed.
pub >>-eq-ok_iff {ℓ} :
    {B : Type ℓ} (m : Result (Unit {0})) (k : Result B) (b : B)
    → ((m >> k) ≡ ok b) ↔ ((m ≡ ok tt) × (k ≡ ok b))
>>-eq-ok_iff (ok tt) k b = (λ h. (refl, h), λ h. h.1)
>>-eq-ok_iff (err e) k b = (λ h. cc, λ h. cc)

pub bail_if-eq-ok_iff : (b : Bool) (m : Text) → (bail_if b m ≡ ok tt) ↔ (b ≡ false)
bail_if-eq-ok_iff true m = (λ h. cc, λ h. cc)
bail_if-eq-ok_iff false m = (λ h. refl, λ h. refl)
