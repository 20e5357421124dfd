-- ===== src/Docker/Engine.antt =====
-- What the Docker executor acts on: the log stream, the journal, the containers and networks that it
-- makes, and the commands that it runs; and its operations as steps on that state. What the outside
-- world answers is a function of the number of answers asked for before.
use ai_kodu_runner.Base.{ℕ, ◌+◌, ℤ, Text, Bool, Option, List, Result, ok, err, Error, ◌≡◌, refl, ap}
use ai_kodu_runner.Config.{Environment}
use ai_kodu_runner.Protocol.{F64, CommandSpec, JobSpec}
use ai_kodu_runner.Journal.{Journal, Action}
use ai_kodu_runner.Docker.Output.{LogTurn}
use ai_kodu_runner.Docker.Redaction.{Json}
use ai_kodu_runner.Docker.Stream.{Sending, LogStream}

pub data ExecutionTermination : Type 0 where
  cancelled timed_out : ExecutionTermination

pub record ExecResult : Type 0 where
  pub status : ℤ
  pub stdout : List ℕ
  pub stderr : List ℕ
  pub truncated : Bool
  pub termination : Option ExecutionTermination

-- What a `select!` takes: the token, the deadline, or the answer of the call.
pub data Pick {ℓ} (A : Type ℓ) : Type ℓ where
  cancels expires : Pick A
  takes : Result A → Pick A

-- `StartExecResults`: the turns of the output, up to its end.
pub data StartExecResults : Type 0 where
  attached : List LogTurn → StartExecResults
  detached : StartExecResults

-- How the engine plays the calls of one `exec_command`.
pub record Script : Type 0 where
  pub create_exec : Pick (Unit {0})
  pub start_exec : Pick StartExecResults
  pub inspect_exec : Result (Option ℤ)

-- A turn of the pull of an image.
pub data PullTurn : Type 0 where
  cancels expires : PullTurn
  item : Result (Unit {0}) → PullTurn

-- The part of a container's configuration that bounds it.
pub record HostConfig : Type 0 where
  pub binds : List Text
  pub network_mode : Option Text
  pub memory : ℤ
  pub nano_cpus : ℤ
  pub pids_limit : ℤ
  pub cap_drop : List Text
  pub security_opt : List Text
  pub readonly_rootfs : Bool
  pub tmpfs : List (Text × Text)

pub record ContainerConfig : Type 0 where
  pub image : Text
  pub cmd : List Text
  pub working_dir : Option Text
  pub env : List Text
  pub aliases : List Text
  pub healthcheck : Option (List Text)
  pub labels : List (Text × Text)
  pub host_config : HostConfig

-- What the engine lists of a container and of a network of this runner.
pub record ContainerSummary : Type 0 where
  pub id : Option Text
  pub state : Option Text

pub record NetworkSummary : Type 0 where
  pub id : Option Text
  pub containers : Option (List Text)

-- The outside world: the token, the deadline, the files, the engine, and the channel of the log.
pub record Host : Type 0 where
  pub is_cancelled : ℕ → Bool
  pub is_late : ℕ → Bool
  pub script : ℕ → Script
  pub write_file : ℕ → Result (Unit {0})
  pub create : ℕ → Result Text
  pub request : ℕ → Result (Unit {0})
  pub pull : Text → ℕ → List PullTurn
  pub polls : ℕ → ℕ
  pub list_containers : ℕ → Result (List ContainerSummary)
  pub list_networks : ℕ → Result (List NetworkSummary)
  pub image_of : ℕ → Option Text
  pub open_journal : ℕ → Result (Unit {0})
  pub prepare : ℕ → Result Text
  pub feedback_path : ℕ → Result (Unit {0})
  pub logs : ℕ → List LogTurn
  pub exit_code : ℕ → Result (Option ℤ)
  pub publish : ℕ → Result (Unit {0})
  pub export : ℕ → Result (Option (List Text))
  pub elapsed : ℕ → ℕ
  pub uuid : ℕ → Text
  pub to_value : JobSpec → Result Json
  pub to_vec_pretty : Json → Result (List ℕ)
  pub replace : Text → Text → Text
  pub environment : Environment
  pub to_nano_cpus : F64 → ℤ
  pub clock : ℕ → Text
  pub later : (seconds : ℕ) → ℕ → Text
  pub from_utf8_lossy : List ℕ → Text
  pub debug_strings : List Text → Text
  pub log_sender : Option (ℕ → Sending)

-- A command that has been run in a container, with its result.
pub record Ran : Type 0 where
  pub container : Text
  pub command : CommandSpec
  pub result : Result ExecResult

-- `containers` and `networks` are those made and not yet removed, `made` what the containers were made
-- with, `refused` the containers and networks that the engine was asked to remove and has refused to,
-- `diagnostics` the files written for a failed job, `stopped` the containers asked to stop, `feedback` the texts written to the feedback file, `history` the commands run, and
-- `now` the number of answers asked for.
pub record World : Type 0 where
  pub journal : Journal
  pub log : LogStream
  pub containers : List Text
  pub networks : List Text
  pub made : List ContainerConfig
  pub refused : List Text
  pub diagnostics : List (Text × List ℕ)
  pub stopped : List Text
  pub feedback : List Text
  pub history : List Ran
  pub now : ℕ

-- A step that may fail, and the state that it leaves either way.
abbrev pub Run {ℓ} : Type ℓ → Type ℓ
Run A = World → Result A × World

module _ {ℓ} {A : Type ℓ} where
  abbrev pub pure : A → Run A
  pure a w = (ok a, w)

  abbrev pub fail : Error → Run A
  fail e w = (err e, w)

  -- The next answer of the outside world.
  unfoldable pub ask : (ℕ → A) → Run A
  ask f w = (ok (f w.now), record w { now = w.now + 1 })

  -- The same for an answer that may be an error, with `?`.
  unfoldable pub ask_result : (ℕ → Result A) → Run A
  ask_result f w = (f w.now, record w { now = w.now + 1 })

  -- A method of the journal, with `?`.
  unfoldable pub journaled : Action A → Run A
  journaled m w = ((m w.journal).0, record w { journal = (m w.journal).1 })

-- A value read off the state.
unfoldable pub look {ℓ} : {A : Type ℓ} → (World → A) → Run A
look f w = (ok (f w), w)

unfoldable pub update : (World → World) → Run (Unit {0})
update f w = (ok tt, f w)

module _ {ℓ κ} {A : Type ℓ} {B : Type κ} where
  abbrev pub proceed : Result A → (A → Run B) → Run B
  proceed (ok a) f w = f a w
  proceed (err e) f w = (err e, w)

  infixl 5 ◌>>=◌
  unfoldable pub ◌>>=◌ : Run A → (A → Run B) → Run B
  ◌>>=◌ m f w = let (r, w') = m w in proceed r f w'

  proceed_ok :
      (r : Result A) (f : A → Run B) (w end : World) {b : B}
      → proceed r f w ≡ (ok b, end)
      → (a : A) × (r ≡ ok a) × (f a w ≡ (ok b, end))
  proceed_ok (ok a) f w end h = (a, refl, h)
  proceed_ok (err e) f w end h = cc

  -- Where a chain succeeds, its first link did.
  pub >>=-eq-ok :
      (m : Run A) (f : A → Run B) (w end : World) {b : B}
      → (m >>= f) w ≡ (ok b, end)
      → (a : A) × ((between : World) × (m w ≡ (ok a, between)) × (f a between ≡ (ok b, end)))
  unfolding ◌>>=◌
  >>=-eq-ok m f w end h =
      let (a, first, rest) = proceed_ok (m w).0 f (m w).1 end h in
      (a, ((m w).1, ap (λ r. (r, (m w).1)) first, rest))

infixl 5 ◌>>◌
abbrev pub ◌>>◌ {ℓ} : {B : Type ℓ} → Run (Unit {0}) → Run B → Run B
m >> k = m >>= λ _. k

-- A result as `?` reads it.
unfoldable pub lift {ℓ} : {A : Type ℓ} → Result A → Run A
lift (ok a) = pure a
lift (err e) = fail e

-- `match m { Err(error) => { cleanup; return Err(error) } }`
unfoldable pub on_error {ℓ} : {A : Type ℓ} → Run A → (cleanup : Run (Unit {0})) → Run A
on_error m cleanup w =
    let (r, end) = m w in elim r [ ok a ↦ (ok a, end) | err e ↦ (err e, (cleanup end).1) ]
