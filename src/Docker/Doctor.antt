-- ===== src/Docker/Doctor.antt =====
-- The two `doctor` functions and the making of the Docker executor. `version` is the engine's answer,
-- `context` the message that an error is given.
use ai_kodu_runner.Base.{
  pos, Text, text, Option, none, some, [], ◌∷◌, ◌++◌, ℕ, Result, ok, err, bail, true, false,
}
use ai_kodu_runner.Config.{RunnerConfig, validate_platform}
use ai_kodu_runner.Executor.{ExecutorCapabilities, new_capabilities, DoctorReport}
use ai_kodu_runner.Docker.Engine.{
  ContainerConfig, Host, Run, pure, ask_result, lift, update, ◌>>=◌, ◌>>◌,
}
use ai_kodu_runner.Docker.Stream.{LogStream}
use ai_kodu_runner.Docker.Resources.{without, create_container}

unfoldable pub docker_capabilities : ExecutorCapabilities
docker_capabilities =
    new_capabilities
      (text "artifacts" ∷ text "cancellation" ∷ text "network" ∷ text "streaming_logs" ∷ [])

-- `.context("connect to Docker Engine/Desktop")?`
abbrev pub connect_context : Result (Unit {0}) → Result (Unit {0})
connect_context (ok t) = ok t
connect_context (err e) = err (bail (text "connect to Docker Engine/Desktop"))

-- `with_log_sender`: the state of a new executor's log.
unfoldable pub with_log_sender : (connect : Result (Unit {0})) → RunnerConfig → Result LogStream
with_log_sender connect config = elim (validate_platform config.docker.platform) [
  | err e ↦ err e
  | ok tt ↦ elim (connect_context connect) [
    | err e ↦ err e
    | ok tt ↦ ok (record { context = none; log_sequence = 0; dropped_log_chunks = 0; offered = [] })
  ]
]

abbrev pub test_container : ContainerConfig
test_container = record {
  image = text "alpine:3.20";
  cmd = text "true" ∷ [];
  working_dir = none;
  env = [];
  aliases = [];
  healthcheck = none;
  labels = [];
  host_config = record {
    binds = [];
    network_mode = none;
    memory = pos 0;
    nano_cpus = pos 0;
    pids_limit = pos 0;
    cap_drop = [];
    security_opt = [];
    readonly_rootfs = false;
    tmpfs = [];
  };
}

-- `.context("Docker ping")?`
abbrev pub ping_context : Result (Unit {0}) → Result (Unit {0})
ping_context (ok t) = ok t
ping_context (err e) = err (bail (text "Docker ping"))

abbrev pub or_else : Option Text → Text → Text
or_else none message = message
or_else (some t) message = t

module _ (version : ℕ → Result (Option Text)) (host : Host) where
  -- A ping, the version, and a container that is made and removed.
  unfoldable pub probe : Run (Option Text)
  unfolding create_container without
  probe = do
    ask_result (λ n. ping_context (host.request n))
    found ← ask_result version
    id ← create_container host test_container
    ask_result host.request
    update (λ w. record w { containers = without id w.containers })
    pure found

  unfoldable pub docker_doctor : Run DoctorReport
  unfolding probe
  docker_doctor = do
    found ← probe
    pure (record {
      executor = text "docker";
      healthy = true;
      capabilities = docker_capabilities;
      checks =
          record {
            name = text "docker_ping";
            healthy = true;
            message = text "Docker Engine responded to ping";
          }
          ∷ record {
            name = text "docker_version";
            healthy = true;
            message = or_else found (text "Docker version unavailable");
          }
          ∷ record {
            name = text "test_container";
            healthy = true;
            message = text "Docker can create and remove a test container";
          }
          ∷ [];
    })

-- What `DockerExecutor::doctor` prints; `api` is the engine's version of the interface, as it is shown.
unfoldable pub doctor_text : (os arch api : Text) → Text
doctor_text os arch api =
    text "host_os: "
    ++ (os
        ++ (text "\narchitecture: "
            ++ (arch
                ++ (text "\ndocker_api: "
                    ++ (api
                        ++ text
                            "\nexecutor: docker\ncapabilities: network, artifacts, streaming_logs, cancellation\ntest_container: ok")))))

-- `api_version` is the engine's answer as it is shown, `default_api` the library's version.
unfoldable pub doctor :
    (connect : Result (Unit {0}))
    → (api_version : ℕ → Result (Option Text)) → (os arch default_api : Text) → Host
    → Run Text
unfolding probe doctor_text
doctor connect api_version os arch default_api host = do
  lift (connect_context connect)
  api ← probe api_version host
  pure (doctor_text os arch (or_else api default_api))
