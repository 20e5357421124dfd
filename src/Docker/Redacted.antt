-- ===== src/Docker/Redacted.antt =====
-- What is left in a redacted diagnostic.
use ai_kodu_runner.Base.{
  ℕ, ◌+◌, leb, ◌&&◌, map, Text, text, text_eq, Bool, true, false, if◌then◌else◌, ◌≡◌, refl, sym,
  ◌⊎◌, ◌↔◌, inl, inr, contains, ends_with, arith,
}
use ai_kodu_runner.Docker.Redaction.{
  Json, null, boolean, number, string, array, object, Values, no_values, value, Fields, no_fields,
  field, to_ascii_lowercase, is_sensitive, redacted, redacted_command, redact_entry,
  redact_diagnostic_value, redact_values, redact_fields, redact_secrets, redact_secret_values,
  redact_secret, redact_secret_fields,
}

-- A name, in lower case, under which no value is left.
abbrev pub IsSensitive : Text → Type 0
IsSensitive name =
    (contains (text "token") name ≡ true)
    ⊎ (contains (text "password") name ≡ true)
    ⊎ (contains (text "secret") name ≡ true)
    ⊎ (contains (text "authorization") name ≡ true)
    ⊎ (ends_with (text "apikey") name ≡ true)
    ⊎ (ends_with (text "api_key") name ≡ true)
    ⊎ (ends_with (text "_key") name ≡ true)

is_sensitive_iff : (name : Text) → (is_sensitive name ≡ true) ↔ IsSensitive name
unfolding is_sensitive
is_sensitive_iff name = (λ h. ground (arith, h), λ h. ground (arith, h))

-- The value of a name, by whether it is sensitive.
abbrev pub NamedIs : (name : Text) → (x : Json) → (within : Type 0) → Type 0
NamedIs name x within = (IsSensitive name × (x ≡ redacted)) ⊎ ((¬ IsSensitive name) × within)

-- A letter between A and Z becomes the small one.
abbrev pub small : ℕ → ℕ
small c = if leb b'A' c && leb c b'Z' then c + 32 else c

-- What an entry's name asks of its value: commands and sensitive values are replaced, the entries of
-- `secrets` are as the third argument says, all others as the fourth.
abbrev pub EntryIs : (key : Text) → (x : Json) → (in_secrets within : Type 0) → Type 0
EntryIs key x in_secrets within =
    let name = map small key in
    if text_eq name (text "command")
    then (x ≡ redacted_command)
    else if text_eq name (text "secrets")
    then in_secrets
    else NamedIs name x within

-- Nowhere in the value does an entry hold what its name forbids, nor a secret its value.
mutual
  pub IsRedacted : Json → Type 0
  IsRedacted (array vs) = AllAreRedacted vs
  IsRedacted (object fs) = FieldsAreRedacted fs
  IsRedacted null = Unit
  IsRedacted (boolean b) = Unit
  IsRedacted (number n) = Unit
  IsRedacted (string s) = Unit

  pub AllAreRedacted : Values → Type 0
  AllAreRedacted no_values = Unit
  AllAreRedacted (value v rest) = IsRedacted v × AllAreRedacted rest

  pub FieldsAreRedacted : Fields → Type 0
  FieldsAreRedacted no_fields = Unit
  FieldsAreRedacted (field key v rest) =
      EntryIs key v (SecretsAreRedacted v) (IsRedacted v) × FieldsAreRedacted rest

  pub SecretsAreRedacted : Json → Type 0
  SecretsAreRedacted (array vs) = AllSecretsAreRedacted vs
  SecretsAreRedacted (object fs) = FieldsAreRedacted fs
  SecretsAreRedacted null = Unit
  SecretsAreRedacted (boolean b) = Unit
  SecretsAreRedacted (number n) = Unit
  SecretsAreRedacted (string s) = Unit

  pub AllSecretsAreRedacted : Values → Type 0
  AllSecretsAreRedacted no_values = Unit
  AllSecretsAreRedacted (value v rest) = SecretIsRedacted v × AllSecretsAreRedacted rest

  pub SecretIsRedacted : Json → Type 0
  SecretIsRedacted (array vs) = AllAreRedacted vs
  SecretIsRedacted (object fs) = SecretFieldsAreRedacted fs
  SecretIsRedacted null = Unit
  SecretIsRedacted (boolean b) = Unit
  SecretIsRedacted (number n) = Unit
  SecretIsRedacted (string s) = Unit

  pub SecretFieldsAreRedacted : Fields → Type 0
  SecretFieldsAreRedacted no_fields = Unit
  SecretFieldsAreRedacted (field key v rest) =
      (if text_eq key (text "value")
        then (v ≡ redacted)
        else EntryIs key v (SecretsAreRedacted v) (IsRedacted v))
      × SecretFieldsAreRedacted rest

entry_by :
    (name : Text) (command secrets sensitive : Bool) (a b : Json) (S W : Json → Type 0)
    → (sensitive ≡ true ↔ IsSensitive name)
    → S a
    → W b
    → let x =
        if command
        then redacted_command
        else if secrets
        then a
        else if sensitive
        then redacted
        else b in
      if command then (x ≡ redacted_command) else if secrets then S x else NamedIs name x (W x)
entry_by name true secrets sensitive a b S W i s w = refl
entry_by name false true sensitive a b S W i s w = s
entry_by name false false true a b S W (to, from) s w = inl (to refl, refl)
entry_by name false false false a b S W (to, from) s w = inr (λ h. cc (from h), w)

redact_entry_lem :
    (key : Text) (a b : Json) (S W : Json → Type 0)
    → S a
    → W b
    → EntryIs key (redact_entry key a b) (S (redact_entry key a b)) (W (redact_entry key a b))
unfolding redact_entry to_ascii_lowercase
redact_entry_lem key a b S W s w =
    let name = to_ascii_lowercase key in
    entry_by name (text_eq name (text "command")) (text_eq name (text "secrets"))
      (is_sensitive name) a b S W (is_sensitive_iff name) s w

secret_field :
    (is_value : Bool) (key : Text) (x : Json) (rest : Fields)
    → EntryIs key x (SecretsAreRedacted x) (IsRedacted x)
    → is_value ≡ text_eq key (text "value")
    → SecretFieldsAreRedacted rest
    → SecretFieldsAreRedacted (if is_value then field key redacted rest else field key x rest)
unfolding SecretFieldsAreRedacted
secret_field true key x rest e is r = (rw (sym is), r)
secret_field false key x rest e is r = (rw (sym is) e, r)

mutual
  unfolding redact_diagnostic_value redact_values redact_fields redact_secrets redact_secret_values
      redact_secret redact_secret_fields IsRedacted

  at_value : (v : Json) → IsRedacted (redact_diagnostic_value v)
  at_value (array vs) = at_values vs
  at_value (object fs) = at_fields fs
  at_value null = tt
  at_value (boolean b) = tt
  at_value (number n) = tt
  at_value (string s) = tt

  at_values : (vs : Values) → AllAreRedacted (redact_values vs)
  at_values no_values = tt
  at_values (value v rest) = (at_value v, at_values rest)

  at_fields : (fs : Fields) → FieldsAreRedacted (redact_fields fs)
  at_fields no_fields = tt
  at_fields (field key v rest) = (
    redact_entry_lem key (redact_secrets v) (redact_diagnostic_value v) SecretsAreRedacted
        IsRedacted (at_secrets v) (at_value v),
    at_fields rest,
  )

  at_secrets : (v : Json) → SecretsAreRedacted (redact_secrets v)
  at_secrets (array vs) = at_secret_values vs
  at_secrets (object fs) = at_fields fs
  at_secrets null = tt
  at_secrets (boolean b) = tt
  at_secrets (number n) = tt
  at_secrets (string s) = tt

  at_secret_values : (vs : Values) → AllSecretsAreRedacted (redact_secret_values vs)
  at_secret_values no_values = tt
  at_secret_values (value v rest) = (at_secret v, at_secret_values rest)

  at_secret : (v : Json) → SecretIsRedacted (redact_secret v)
  at_secret (array vs) = at_values vs
  at_secret (object fs) = at_secret_fields fs
  at_secret null = tt
  at_secret (boolean b) = tt
  at_secret (number n) = tt
  at_secret (string s) = tt

  at_secret_fields : (fs : Fields) → SecretFieldsAreRedacted (redact_secret_fields fs)
  at_secret_fields no_fields = tt
  at_secret_fields (field key v rest) =
      secret_field _ key _ _
        (redact_entry_lem key (redact_secrets v) (redact_diagnostic_value v) SecretsAreRedacted
          IsRedacted (at_secrets v) (at_value v))
        refl (at_secret_fields rest)
