-- ===== src/Docker/Redaction.antt =====
-- What is removed from diagnostics before they are exported. A JSON value is that of `serde_json`, an
-- object the list of its entries; numbers stand as their text.
use ai_kodu_runner.Base.{
  ℕ, ◌+◌, ◌*◌, Text, text, text_eq, bytes, contains, ends_with, is_empty, Bool, true, ◌&&◌, ◌||◌,
  none, some, List, [], ◌∷◌, ◌++◌, map, length, take, ltb, leb, Error, to_string, if◌then◌else◌,
  DockerFailure,
}
use ai_kodu_runner.Config.{Environment}
use ai_kodu_runner.Protocol.{JobSpec, SecretSpec, WorkspaceSpec}

mutual
  pub data Json : Type 0 where
    null : Json
    boolean : Bool → Json
    number : Text → Json
    string : Text → Json
    array : Values → Json
    object : Fields → Json

  pub data Values : Type 0 where
    no_values : Values
    value : Json → Values → Values

  pub data Fields : Type 0 where
    no_fields : Fields
    field : Text → Json → Fields → Fields

-- `key.to_ascii_lowercase()`
unfoldable pub to_ascii_lowercase : Text → Text
to_ascii_lowercase key = map (λ c. if leb b'A' c && leb c b'Z' then c + 32 else c) key

-- The names under which a value is removed as a whole.
unfoldable pub is_sensitive : Text → Bool
is_sensitive normalized =
    contains (text "token") normalized
    || contains (text "password") normalized
    || contains (text "secret") normalized
    || contains (text "authorization") normalized
    || ends_with (text "apikey") normalized
    || ends_with (text "api_key") normalized
    || ends_with (text "_key") normalized

abbrev pub redacted : Json
redacted = string (text "<redacted>")

abbrev pub redacted_command : Json
redacted_command =
    array (value (string (text "<redacted: command may contain credentials>")) no_values)

-- What becomes of an entry: a command or a value under a sensitive name is replaced, `secrets` and any
-- other value are redacted within.
unfoldable pub redact_entry : (key : Text) → (within_secrets within : Json) → Json
unfolding is_sensitive to_ascii_lowercase
redact_entry key within_secrets within =
    let normalized = to_ascii_lowercase key in
    if text_eq normalized (text "command")
    then redacted_command
    else if text_eq normalized (text "secrets")
    then within_secrets
    else if is_sensitive normalized
    then redacted
    else within

-- The list of secrets is redacted in one pass: the value of each is replaced, the rest of it redacted
-- as anywhere. The source replaces the values first.
unfoldable mutual
  unfolding redact_entry

  pub redact_diagnostic_value : Json → Json
  redact_diagnostic_value (array values) = array (redact_values values)
  redact_diagnostic_value (object fields) = object (redact_fields fields)
  redact_diagnostic_value null = null
  redact_diagnostic_value (boolean b) = boolean b
  redact_diagnostic_value (number n) = number n
  redact_diagnostic_value (string s) = string s

  pub redact_values : Values → Values
  redact_values no_values = no_values
  redact_values (value v rest) = value (redact_diagnostic_value v) (redact_values rest)

  pub redact_fields : Fields → Fields
  redact_fields no_fields = no_fields
  redact_fields (field key v rest) =
      field key (redact_entry key (redact_secrets v) (redact_diagnostic_value v))
        (redact_fields rest)

  pub redact_secrets : Json → Json
  redact_secrets (array values) = array (redact_secret_values values)
  redact_secrets (object fields) = object (redact_fields fields)
  redact_secrets null = null
  redact_secrets (boolean b) = boolean b
  redact_secrets (number n) = number n
  redact_secrets (string s) = string s

  pub redact_secret_values : Values → Values
  redact_secret_values no_values = no_values
  redact_secret_values (value v rest) = value (redact_secret v) (redact_secret_values rest)

  pub redact_secret : Json → Json
  redact_secret (array values) = array (redact_values values)
  redact_secret (object fields) = object (redact_secret_fields fields)
  redact_secret null = null
  redact_secret (boolean b) = boolean b
  redact_secret (number n) = number n
  redact_secret (string s) = string s

  pub redact_secret_fields : Fields → Fields
  redact_secret_fields no_fields = no_fields
  redact_secret_fields (field key v rest) =
      if text_eq key (text "value")
      then field key redacted (redact_secret_fields rest)
      else field key (redact_entry key (redact_secrets v) (redact_diagnostic_value v))
          (redact_secret_fields rest)

-- The message of an engine's error: at most 500 characters.
unfoldable pub sanitize_docker_error : Error → Text
unfolding redact_diagnostic_value
sanitize_docker_error error = take 500 (elim (redact_diagnostic_value (string (to_string error))) [
  | string s ↦ s
  | _ ↦ text "Docker operation failed"
])

unfoldable pub image_pull : Error → DockerFailure
unfolding sanitize_docker_error
image_pull error = record {
  code = text "image_pull_failed";
  phase = text "image_pull";
  message = sanitize_docker_error error;
  retryable = true;
}

abbrev pub max_diagnostic_bytes : ℕ
max_diagnostic_bytes = 64 * 1024

abbrev pub truncation_mark : List ℕ
truncation_mark = bytes (text "\n[diagnostic output truncated]\n")

-- The values that must not be shown: the token of a Git workspace, the secrets, and the variables that
-- the job takes from the runner's environment, where they are set.
unfoldable pub variable_values : Environment → List Text → List Text
variable_values env [] = []
variable_values env (name ∷ rest) =
    let more = variable_values env rest in elim (env name) [ none ↦ more | some v ↦ v ∷ more ]

unfoldable pub diagnostic_secrets : Environment → JobSpec → List Text
unfolding variable_values
diagnostic_secrets env spec =
    elim spec.workspace [ WorkspaceSpec.git w ↦ w.token ∷ [] | _ ↦ [] ]
    ++ map (λ (s : SecretSpec). s.value) spec.secrets
    ++ variable_values env spec.environment_from_runner

-- `text.replace(secret, "<redacted>")`, the first parameter, for each secret that is not empty.
unfoldable pub replace_secrets : (Text → Text → Text) → List Text → Text → Text
replace_secrets replace [] s = s
replace_secrets replace (secret ∷ rest) s =
    replace_secrets replace rest (if is_empty secret then s else replace s secret)

unfoldable pub cap_diagnostic : List ℕ → List ℕ
cap_diagnostic output =
    if ltb max_diagnostic_bytes (length output)
    then take max_diagnostic_bytes output ++ truncation_mark
    else output

unfoldable pub redact_diagnostic_bytes :
    (List ℕ → Text) → (Text → Text → Text) → Environment → JobSpec → List ℕ → List ℕ
unfolding replace_secrets diagnostic_secrets cap_diagnostic
redact_diagnostic_bytes from_utf8_lossy replace env spec output =
    cap_diagnostic
      (bytes (replace_secrets replace (diagnostic_secrets env spec) (from_utf8_lossy output)))
