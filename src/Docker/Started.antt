-- ===== src/Docker/Started.antt =====
-- The containers that the services of a workflow are started in, and what is known of the directory
-- and of the network of a job.
use ai_kodu_runner.Base.{
  ℕ, zero, suc, Text, text, text_eq, true, some, is_zero, is_empty, List, [], ◌∷◌, ◌++◌, ◌≡◌, refl,
  ap, inl, inr,
}
use ai_kodu_runner.Config.{RunnerConfig}
use ai_kodu_runner.Protocol.{JobSpec, ServiceSpec, WorkflowSpec}
use ai_kodu_runner.Lifecycle.{State}
use ai_kodu_runner.Docker.Engine.{Host, World, Run, ask_result}
use ai_kodu_runner.Docker.Services.{
  has_bad_name, has_bad_image, start_service, create_services, health_check, give_up, health_loop,
  await_services, start_services,
}
use ai_kodu_runner.Docker.Job.{Network, record_state, prepare_job, open_network}
use ai_kodu_runner.Docker.RunWorkflow.{workflow_services}
use ai_kodu_runner.Docker.Frame.{exec_command-IsQuiet}
use ai_kodu_runner.Docker.Quiet.{pull_or_fail-IsQuiet}
use ai_kodu_runner.Docker.Ends.{Ends, any_end, Ends-pure, Ends-test, Ends->>=}
use ai_kodu_runner.Docker.Makes.{
  Makes, ask-Makes, ask_result-Makes, create_network-Makes, quiet-Makes, fail-Makes, pure-Makes,
  on_error-Makes, test-Makes, option-Makes, option-given-Makes, >>=-Makes, create_container-Makes,
  remove_containers-Makes, remove_network-Makes, makes,
}
use ai_kodu_runner.Docker.Profile.{
  IsBridged, IsConfined, resources, IsPrepared, IsFit, service-IsConfined,
}

module _ (config : RunnerConfig) (host : Host) (spec : JobSpec) where
  -- The containers that the step makes are confined.
  abbrev pub Safe {ℓ} : {A : Type ℓ} → Run A → Type 0
  Safe m = Makes (IsConfined config host spec) m

  pub record_state-Safe : (s : State) → Safe (record_state config host spec s)
  unfolding record_state
  record_state-Safe s = search makes

  module _ (bridged : IsBridged config host spec true) where
    start_service-Safe :
        (ids : List Text) (service : ServiceSpec)
        → Safe (start_service config host spec.id (resources config host spec) ids service)
    unfolding start_service
    start_service-Safe ids service =
        let made = service-IsConfined config host spec service bridged in
        let pulled = quiet-Makes _ _ (pull_or_fail-IsQuiet config host service.image) in
        >>=-Makes _ _ _ (on_error-Makes _ _ _ pulled (remove_containers-Makes _ host ids)) (λ _.
          >>=-Makes _ _ _
            (on_error-Makes _ _ _ (create_container-Makes _ host _ made)
              (remove_containers-Makes _ host ids))
            (λ id. search makes))

    create_services-Safe :
        (services : List ServiceSpec) (ids : List Text)
        → Safe (create_services config host spec.id (resources config host spec) services ids)
    unfolding create_services
    create_services-Safe [] ids = pure-Makes _ ids
    create_services-Safe (service ∷ rest) ids =
        >>=-Makes _ _ _
          (test-Makes _ (has_bad_name service) _ _ (fail-Makes _ _ _) (pure-Makes _ tt))
          (λ _.
            >>=-Makes _ _ _
              (test-Makes _ (has_bad_image service) _ _ (fail-Makes _ _ _) (pure-Makes _ tt))
              (λ _.
                >>=-Makes _ _ _ (start_service-Safe ids service)
                  (λ id. create_services-Safe rest (ids ++ id ∷ []))))

  health_check-Safe :
      (service : ServiceSpec) (id : Text) (command ids : List Text) (again : Text → Run (Unit {0}))
      → ((message : Text) → Safe (again message))
      → Safe (health_check config host service id command ids again)
  unfolding health_check
  health_check-Safe service id command ids again next =
      >>=-Makes _ _ _ (quiet-Makes _ _ (exec_command-IsQuiet _ host id _)) (λ r.
        option-Makes _ r.termination _ _
          (test-Makes _ (is_zero r.status) _ _ (pure-Makes _ tt) (next _))
          (λ reason. >>=-Makes _ _ _ (remove_containers-Makes _ host ids) (λ _. fail-Makes _ _ _)))

  health_loop-Safe :
      (service : ServiceSpec) (id : Text) (command ids : List Text) (polls : ℕ)
      → Safe (health_loop config host service id command ids polls)
  unfolding health_loop give_up
  health_loop-Safe service id command ids zero =
      health_check-Safe service id command ids (give_up config host ids)
        (λ message. >>=-Makes _ _ _ (remove_containers-Makes _ host ids) (λ _. fail-Makes _ _ _))
  health_loop-Safe service id command ids (suc left) =
      health_check-Safe service id command ids
        (λ _. health_loop config host service id command ids left)
        (λ message. health_loop-Safe service id command ids left)

  await_services-Safe :
      (services : List ServiceSpec) (ids rest : List Text)
      → Safe (await_services config host services ids rest)
  unfolding await_services
  await_services-Safe [] ids rest = pure-Makes _ tt
  await_services-Safe (service ∷ services) ids [] = pure-Makes _ tt
  await_services-Safe (service ∷ services) ids (id ∷ rest) =
      option-Makes _ service.healthcheck _ _ (await_services-Safe services ids rest) (λ h.
        >>=-Makes _ _ _ (ask-Makes _ host.polls) (λ polls.
          >>=-Makes _ _ _ (health_loop-Safe service id h.command ids polls)
            (λ _. await_services-Safe services ids rest)))

  start_services-Safe :
      (services : List ServiceSpec)
      → IsBridged config host spec true
      → Safe (start_services config host spec.id (resources config host spec) services)
  unfolding start_services
  start_services-Safe services bridged =
      >>=-Makes _ _ _ (create_services-Safe bridged services [])
        (λ ids. >>=-Makes _ _ _ (await_services-Safe services ids ids) (λ _. pure-Makes _ ids))

  with_network :
      (network : Network) (id : Text)
      → IsFit config host spec network
      → network.id ≡ some id
      → IsBridged config host spec true
  with_network network id (inl bridged) given = bridged
  with_network network id (inr missing) given = cc

  pub workflow_services-Safe :
      (workflow : WorkflowSpec) (network : Network)
      → IsFit config host spec network
      → Safe (workflow_services config host spec workflow (resources config host spec) network)
  unfolding workflow_services
  workflow_services-Safe workflow network fit =
      option-given-Makes _ network.id _ _
        (test-Makes _ (is_empty workflow.services) _ _ (pure-Makes _ []) (fail-Makes _ _ _))
        (λ id given.
          on_error-Makes _ _ _
            (start_services-Safe workflow.services (with_network network id fit given))
            (remove_network-Makes _ host (some id)))

  pub prepare_job-Safe : Safe (prepare_job config host spec)
  unfolding prepare_job
  prepare_job-Safe = >>=-Makes _ _ _ (ask_result-Makes _ host.open_journal) (λ _.
      >>=-Makes _ _ _ (record_state-Safe _) (λ _. >>=-Makes _ _ _ (record_state-Safe _) (λ _.
        >>=-Makes _ _ _ (ask_result-Makes _ host.prepare) (λ directory.
          >>=-Makes _ _ _ (quiet-Makes _ _ (pull_or_fail-IsQuiet config host spec.image))
            (λ _. pure-Makes _ directory)))))

  asked-IsPrepared :
      (w : World) → Ends (ask_result host.prepare) w (λ d _. IsPrepared config host spec d)
  unfolding Ends ask_result
  asked-IsPrepared w d end h = (w.now, ap (λ p. p.0) h)

  pub prepare_job-IsPrepared :
      (w : World) → Ends (prepare_job config host spec) w (λ d _. IsPrepared config host spec d)
  unfolding prepare_job
  prepare_job-IsPrepared w = Ends->>= _ _ w _ _ (any_end _ w) (λ _ w1 _.
      Ends->>= _ _ w1 _ _ (any_end _ w1) (λ _ w2 _. Ends->>= _ _ w2 _ _ (any_end _ w2) (λ _ w3 _.
        Ends->>= _ _ w3 _ _ (asked-IsPrepared w3) (λ directory w4 given.
          Ends->>= _ _ w4 _ _ (any_end _ w4) (λ _ w5 _. Ends-pure directory w5 _ given)))))

  pub open_network-Safe : Safe (open_network config host spec)
  unfolding open_network
  open_network-Safe = >>=-Makes _ _ _ (ask-Makes _ host.uuid) (λ uuid.
      test-Makes _ (text_eq spec.network.mode (text "bridge")) _ _
        (>>=-Makes _ _ _ (create_network-Makes _ host) (λ id. pure-Makes _ _)) (pure-Makes _ _))

  pub open_network-IsFit :
      (w : World) → Ends (open_network config host spec) w (λ n _. IsFit config host spec n)
  unfolding open_network
  open_network-IsFit w = Ends->>= _ _ w _ _ (any_end _ w) (λ uuid w1 _.
      Ends-test (text_eq spec.network.mode (text "bridge")) _ _ w1 _
        (λ bridged. Ends->>= _ _ w1 _ _ (any_end _ w1) (λ id w2 _. Ends-pure _ w2 _ (inl bridged)))
        (λ _. Ends-pure _ w1 _ (inr refl)))
