-- ===== src/Docker/Services.antt =====
-- `start_services`: the services of a workflow are created and started one by one, then awaited.
use ai_kodu_runner.Base.{
  ℕ, zero, suc, ◌*◌, Text, text, contains_char, contains_whitespace, is_empty, trim, is_zero, Bool,
  true, false, ◌||◌, Option, none, some, List, [], ◌∷◌, ◌++◌, map, bail,
}
use ai_kodu_runner.Config.{RunnerConfig}
use ai_kodu_runner.Protocol.{Resources, ServiceSpec}
use ai_kodu_runner.Docker.Engine.{
  ContainerConfig, Host, Run, pure, fail, on_error, ask, ◌>>=◌, ◌>>◌,
}
use ai_kodu_runner.Docker.Exec.{exec_command}
use ai_kodu_runner.Docker.Resources.{
  termination_error, scale, base_labels, pull_or_fail, create_container, start_container,
  remove_container, remove_containers,
}

abbrev pub or_else : Option Text → Text → Text
or_else none s = s
or_else (some t) s = t

unfoldable pub service_container :
    RunnerConfig → Host → (job_id : Text) → Resources → ServiceSpec → ContainerConfig
unfolding base_labels scale
service_container config host job_id resources service = record {
  image = service.image;
  cmd = service.command;
  working_dir = none;
  env = map (λ (k, v). k ++ (text "=" ++ v)) service.environment;
  aliases = or_else service.alias service.name ∷ [];
  healthcheck = elim service.healthcheck [ none ↦ none | some h ↦ some (text "CMD" ∷ h.command) ];
  labels = base_labels config job_id ++ (text "ai-kodu-runner.service", service.name) ∷ [];
  host_config = record {
    binds = [];
    network_mode = none;
    memory = scale resources.memory_mb (1024 * 1024);
    nano_cpus = host.to_nano_cpus resources.cpu;
    pids_limit = resources.pids;
    cap_drop = [];
    security_opt = text "no-new-privileges:true" ∷ [];
    readonly_rootfs = false;
    tmpfs = [];
  };
}

abbrev pub has_bad_name : ServiceSpec → Bool
has_bad_name service =
    is_empty (trim service.name)
    || contains_char b'/' service.name
    || contains_char b':' service.name

abbrev pub has_bad_image : ServiceSpec → Bool
has_bad_image service = is_empty (trim service.image) || contains_whitespace service.image

-- `return Err(…)` from a test, with nothing removed.
abbrev pub fail_if : Bool → Text → Run (Unit {0})
fail_if b message = elim b [ true ↦ fail (bail message) | false ↦ pure tt ]

module _ (config : RunnerConfig) (host : Host) where
  -- A service, once those before it are started: an error removes it and them.
  unfoldable pub start_service :
      (job_id : Text) → Resources → (ids : List Text) → ServiceSpec → Run Text
  unfolding service_container
  start_service job_id resources ids service = do
    on_error (pull_or_fail config host service.image) (remove_containers host ids)
    id ←
        on_error (create_container host (service_container config host job_id resources service))
          (remove_containers host ids)
    on_error (start_container host id) (do remove_container host id; remove_containers host ids)
    pure id

  unfoldable pub create_services :
      (job_id : Text) → Resources → List ServiceSpec → (ids : List Text) → Run (List Text)
  unfolding start_service
  create_services job_id resources [] ids = pure ids
  create_services job_id resources (service ∷ rest) ids = do
    fail_if (has_bad_name service) (text "invalid service name: " ++ service.name)
    fail_if (has_bad_image service) (text "invalid service image for " ++ service.name)
    id ← start_service job_id resources ids service
    create_services job_id resources rest (ids ++ id ∷ [])

  -- One poll of a service; `again` is what follows where it is not healthy yet.
  unfoldable pub health_check :
      (service : ServiceSpec)
      → (id : Text) → (command ids : List Text) → (again : Text → Run (Unit {0})) → Run (Unit {0})
  health_check service id command ids again = do
    result ←
        exec_command config.limits.max_log_bytes host id
          (record { command = command; working_directory = none })
    elim result.termination [
      | some reason ↦ do remove_containers host ids; fail (termination_error reason)
      | none ↦ elim (is_zero result.status) [
        | true ↦ pure tt
        | false ↦ again (
            text "service "
            ++ (service.name
                ++ (text " did not become healthy: stdout: "
                    ++ (host.from_utf8_lossy result.stdout
                        ++ (text "\nstderr: " ++ host.from_utf8_lossy result.stderr)))))
      ]
    ]

  unfoldable pub give_up : (ids : List Text) → (message : Text) → Run (Unit {0})
  give_up ids message = do remove_containers host ids; fail (bail message)

  -- `polls` is the number of polls before the clock reaches the health deadline; after the last one
  -- the services are removed.
  unfoldable pub health_loop :
      (service : ServiceSpec)
      → (id : Text) → (command ids : List Text) → (polls : ℕ) → Run (Unit {0})
  unfolding health_check give_up
  health_loop service id command ids zero = health_check service id command ids (give_up ids)
  health_loop service id command ids (suc left) =
      health_check service id command ids (λ _. health_loop service id command ids left)

  unfoldable pub await_services : List ServiceSpec → (ids rest : List Text) → Run (Unit {0})
  unfolding health_loop
  await_services [] ids rest = pure tt
  await_services (service ∷ services) ids [] = pure tt
  await_services (service ∷ services) ids (id ∷ rest) = elim service.healthcheck [
    | none ↦ await_services services ids rest
    | some healthcheck ↦ do
      polls ← ask host.polls
      health_loop service id healthcheck.command ids polls
      await_services services ids rest
  ]

  unfoldable pub start_services : (job_id : Text) → Resources → List ServiceSpec → Run (List Text)
  unfolding create_services await_services
  start_services job_id resources services = do
    ids ← create_services job_id resources services []
    await_services services ids ids
    pure ids
