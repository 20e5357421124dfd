-- ===== src/Docker/Resources.antt =====
-- The containers and networks of a job: how they are made, started and removed, and the pull of an
-- image.
use ai_kodu_runner.Base.{
  ℕ, ◌+◌, ◌*◌, ◌-◌, ◌%◌, ◌^◌, ltb, ℤ, pos, negsuc, Text, text, text_eq, Bool, true, false, Option,
  none, some, List, [], ◌∷◌, ◌++◌, Result, ok, err, Error, bail, docker, if◌then◌else◌,
}
use ai_kodu_runner.Config.{RunnerConfig}
use ai_kodu_runner.Docker.Engine.{
  ExecutionTermination, PullTurn, ContainerConfig, Host, Run, pure, fail, ask, ask_result, update,
  ◌>>=◌, ◌>>◌,
}
use ai_kodu_runner.Docker.Redaction.{image_pull}

-- The error of a job that is ended before it runs.
unfoldable pub termination_error : ExecutionTermination → Error
termination_error ExecutionTermination.cancelled = bail (text "execution cancelled")
termination_error ExecutionTermination.timed_out = bail (text "execution timed out")

-- The list without the identifier.
unfoldable pub without : Text → List Text → List Text
without id [] = []
without id (x ∷ xs) = let rest = without id xs in if text_eq id x then rest else x ∷ rest

-- What is there after the engine has answered a removal, and what it has refused to remove.
abbrev pub left_after : Result (Unit {0}) → (id : Text) → List Text → List Text
left_after (ok tt) id ids = without id ids
left_after (err e) id ids = ids

abbrev pub refused_after : Result (Unit {0}) → (id : Text) → List Text → List Text
refused_after (ok tt) id refused = refused
refused_after (err e) id refused = id ∷ refused

-- The number from which a signed one of 64 bits starts again at the least.
abbrev i64_end : ℕ
i64_end = 2 ^ 63

-- `i64` that wraps around
unfoldable pub wrap_i64 : ℤ → ℤ
wrap_i64 (pos n) = let m = n % 2 ^ 64 in if ltb m i64_end then pos m else negsuc (2 ^ 64 - 1 - m)
wrap_i64 (negsuc n) = let m = n % 2 ^ 64 in if ltb m i64_end then negsuc m else pos (2 ^ 64 - 1 - m)

-- `i64` times a constant
unfoldable pub scale : ℤ → ℕ → ℤ
unfolding wrap_i64
scale (pos n) k = wrap_i64 (pos (n * k))
scale (negsuc n) k = wrap_i64 (negsuc ((n + 1) * k - 1))

abbrev pub Labels : Type 0
Labels = List (Text × Text)

unfoldable pub base_labels : RunnerConfig → (job_id : Text) → Labels
base_labels config job_id =
    (text "ai-kodu-runner.managed", text "true")
    ∷ (text "ai-kodu-runner.runner_id", config.runner_id)
    ∷ (text "ai-kodu-runner.job_id", job_id)
    ∷ []

unfoldable pub runtime_tmpfs : Labels
runtime_tmpfs =
    (text "/tmp", text "rw,noexec,nosuid,size=256m")
    ∷ (
      text "/home/opencode/.opencode",
      text "rw,nosuid,nodev,uid=10001,gid=10001,mode=0700,size=64m",
    )
    ∷ (
      text "/home/opencode/.config/opencode",
      text "rw,nosuid,nodev,uid=10001,gid=10001,mode=0700,size=512m",
    )
    ∷ (
      text "/home/opencode/.local/share/opencode",
      text "rw,nosuid,nodev,uid=10001,gid=10001,mode=0700,size=1g",
    )
    ∷ (
      text "/home/opencode/.local/state",
      text "rw,nosuid,nodev,uid=10001,gid=10001,mode=0700,size=32m",
    )
    ∷ (
      text "/home/opencode/.cache/npm",
      text "rw,nosuid,nodev,uid=10001,gid=10001,mode=0700,size=1g",
    )
    ∷ (
      text "/home/opencode/.cache/opencode",
      text "rw,nosuid,nodev,uid=10001,gid=10001,mode=0700,size=128m",
    )
    ∷ (
      text "/home/opencode/.pub-cache",
      text "rw,nosuid,nodev,uid=10001,gid=10001,mode=0700,size=1g",
    )
    ∷ []

module _ (host : Host) where
  unfoldable pub create_network : Run Text
  create_network = do
    id ← ask_result host.create
    update (λ w. record w { networks = id ∷ w.networks })
    pure id

  unfoldable pub create_container : ContainerConfig → Run Text
  create_container made = do
    id ← ask_result host.create
    update (λ w. record w { containers = id ∷ w.containers; made = w.made ++ made ∷ [] })
    pure id

  unfoldable pub start_container : (id : Text) → Run (Unit {0})
  start_container id = ask_result host.request

  -- The engine is asked to remove a container; a container that it refuses to remove is still there, and
  -- the error is passed over.
  unfoldable pub remove_container : (id : Text) → Run (Unit {0})
  unfolding without
  remove_container id = do
    answer ← ask host.request
    update (λ w. record w {
      containers = left_after answer id w.containers;
      refused = refused_after answer id w.refused;
    })

  unfoldable pub remove_containers : List Text → Run (Unit {0})
  unfolding remove_container
  remove_containers [] = pure tt
  remove_containers (id ∷ rest) = do remove_container id; remove_containers rest

  unfoldable pub remove_network : Option Text → Run (Unit {0})
  unfolding without
  remove_network none = pure tt
  remove_network (some id) = do
    answer ← ask host.request
    update (λ w. record w {
      networks = left_after answer id w.networks;
      refused = refused_after answer id w.refused;
    })

module _ (config : RunnerConfig) (host : Host) where
  unfoldable pub pull_loop : List PullTurn → Run (Option ExecutionTermination)
  pull_loop [] = pure none
  pull_loop (PullTurn.cancels ∷ rest) = pure (some ExecutionTermination.cancelled)
  pull_loop (PullTurn.expires ∷ rest) = pure (some ExecutionTermination.timed_out)
  pull_loop (PullTurn.item (ok tt) ∷ rest) = pull_loop rest
  pull_loop (PullTurn.item (err e) ∷ rest) = fail (docker (image_pull e))

  unfoldable pub pulls_always : Bool
  pulls_always = elim config.docker.pull_policy [
    | none ↦ false
    | some policy ↦ text_eq policy (text "always")
  ]

  unfoldable pub pull : (image : Text) → Run (Option ExecutionTermination)
  unfolding pull_loop pulls_always
  pull image = do
    cancelled ← ask host.is_cancelled
    elim cancelled [
      | true ↦ pure (some ExecutionTermination.cancelled)
      | false ↦ do
        late ← ask host.is_late
        elim late [
          | true ↦ pure (some ExecutionTermination.timed_out)
          | false ↦ elim pulls_always [
            | true ↦ do turns ← ask (host.pull image); pull_loop turns
            | false ↦ pure none
          ]
        ]
    ]

  -- A pull that is ended from outside is an error.
  unfoldable pub pull_or_fail : (image : Text) → Run (Unit {0})
  unfolding pull termination_error
  pull_or_fail image = do
    ended ← pull image
    elim ended [ some reason ↦ fail (termination_error reason) | none ↦ pure tt ]
