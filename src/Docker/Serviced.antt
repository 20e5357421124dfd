-- ===== src/Docker/Serviced.antt =====
-- The services of a workflow, as far as the track of its containers goes.
use ai_kodu_runner.Base.{
  ℕ, zero, suc, Text, text_eq, member, is_zero, Bool, ◌||◌, List, [], ◌∷◌, ◌++◌, ◌≡◌, refl, arith,
}
use ai_kodu_runner.Config.{RunnerConfig}
use ai_kodu_runner.Protocol.{Resources, JobSpec, ServiceSpec}
use ai_kodu_runner.Lifecycle.{State}
use ai_kodu_runner.Docker.Engine.{Host, World, Run}
use ai_kodu_runner.Docker.Resources.{start_container}
use ai_kodu_runner.Docker.Services.{
  fail_if, start_service, create_services, health_check, give_up, health_loop, await_services,
  start_services,
}
use ai_kodu_runner.Docker.Frame.{
  IsQuiet, ask-IsQuiet, ask_result-IsQuiet, test-IsQuiet, exec_command-IsQuiet, fail-IsQuiet, quiet,
}
use ai_kodu_runner.Docker.Ends.{
  Ends, any_end, Ends-pure, Ends-fail, Ends-on_error, Ends-test, Ends-option, Ends->>=,
}
use ai_kodu_runner.Docker.Track.{Track}
use ai_kodu_runner.Docker.Tidy.{quiet_Ends, create_container-Ends, pull_or_fail-Ends}

member_last :
    (x id : Text) (ids : List Text) → member x (ids ++ id ∷ []) ≡ (text_eq id x || member x ids)
unfolding member
member_last x id [] = refl
member_last x id (y ∷ ys) = ground (arith, member_last x id ys)

module _ (spec : JobSpec) (start : World) (config : RunnerConfig) (host : Host) where
  -- A new container stands last in the list of the services.
  put_last :
      (states : List State) (id : Text) (ids ns : List Text) (w : World)
      → Track host spec states (id ∷ ids) ns start w
      → Track host spec states (ids ++ id ∷ []) ns start w
  unfolding member
  put_last states id ids ns w t = record {
    logged = t.logged;
    own_containers = λ x there.
        let found = t.own_containers x there in ground (arith, found, member_last x id ids);
    own_networks = t.own_networks;
    refusals = t.refusals;
  }

  start_service-Ends :
      (resources : Resources) (ids ns : List Text) (service : ServiceSpec) (states : List State)
      (w : World)
      → Track host spec states ids ns start w
      → Ends
          (start_service config host spec.id resources ids service)
          w
          (λ id end. Track host spec states (ids ++ id ∷ []) ns start end)
  unfolding start_service start_container
  start_service-Ends resources ids ns service states w t =
      Ends->>= _ _ w _ _
        (Ends-on_error _ _ w _
          (pull_or_fail-Ends host spec start config service.image states ids ns w t))
        (λ _ w1 t1.
          Ends->>= _ _ w1 _ _
            (Ends-on_error _ _ w1 _ (create_container-Ends host spec start _ states ids ns w1 t1))
            (λ id w2 t2.
              Ends->>= _ _ w2 _ _
                (Ends-on_error _ _ w2 _ (
                  quiet_Ends host spec start _ states (id ∷ ids) ns w2
                    (ask_result-IsQuiet host.request) t2))
                (λ _ w3 t3. Ends-pure id w3 _ (put_last states id ids ns w3 t3))))

  fail_if-IsQuiet : (b : Bool) (message : Text) → IsQuiet (fail_if b message)
  fail_if-IsQuiet b message = test-IsQuiet b _ _ (fail-IsQuiet _ _) (search quiet)

  create_services-Ends :
      (resources : Resources) (services : List ServiceSpec) (ids ns : List Text)
      (states : List State) (w : World)
      → Track host spec states ids ns start w
      → Ends
          (create_services config host spec.id resources services ids)
          w
          (λ all end. Track host spec states all ns start end)
  unfolding create_services
  create_services-Ends resources [] ids ns states w t = Ends-pure ids w _ t
  create_services-Ends resources (service ∷ rest) ids ns states w t =
      Ends->>= _ _ w _ _ (quiet_Ends host spec start _ states ids ns w (fail_if-IsQuiet _ _) t)
        (λ _ w1 t1.
          Ends->>= _ _ w1 _ _
            (quiet_Ends host spec start _ states ids ns w1 (fail_if-IsQuiet _ _) t1)
            (λ _ w2 t2.
              Ends->>= _ _ w2 _ _ (start_service-Ends resources ids ns service states w2 t2)
                (λ id w3 t3. create_services-Ends resources rest (ids ++ id ∷ []) ns states w3 t3)))

  health_check-Ends :
      (service : ServiceSpec) (id : Text) (command ids : List Text) (again : Text → Run (Unit {0}))
      (states : List State) (cs ns : List Text) (w : World)
      → ((message : Text) (end : World)
          → Track host spec states cs ns start end
          → Ends (again message) end (λ _ end. Track host spec states cs ns start end))
      → Track host spec states cs ns start w
      → Ends
          (health_check config host service id command ids again)
          w
          (λ _ end. Track host spec states cs ns start end)
  unfolding health_check
  health_check-Ends service id command ids again states cs ns w next t =
      Ends->>= _ _ w _ _
        (quiet_Ends host spec start _ states cs ns w (exec_command-IsQuiet _ host id _) t)
        (λ r w1 t1.
          Ends-option r.termination _ _ w1 _
            (λ _.
              Ends-test (is_zero r.status) _ _ w1 _ (λ _. Ends-pure tt w1 _ t1) (λ _. next _ w1 t1))
            (λ reason _.
              Ends->>= _ _ w1 (λ _ _. Unit) _ (any_end _ w1) (λ _ w2 _. Ends-fail _ w2 _)))

  health_loop-Ends :
      (service : ServiceSpec) (id : Text) (command ids : List Text) (polls : ℕ)
      (states : List State) (cs ns : List Text) (w : World)
      → Track host spec states cs ns start w
      → Ends
          (health_loop config host service id command ids polls)
          w
          (λ _ end. Track host spec states cs ns start end)
  unfolding health_loop give_up
  health_loop-Ends service id command ids zero states cs ns w t =
      health_check-Ends service id command ids (give_up config host ids) states cs ns w
        (λ message end _.
          Ends->>= _ _ end (λ _ _. Unit) _ (any_end _ end) (λ _ w2 _. Ends-fail _ w2 _))
        t
  health_loop-Ends service id command ids (suc left) states cs ns w t =
      health_check-Ends service id command ids
        (λ _. health_loop config host service id command ids left) states cs ns w
        (λ message end t1. health_loop-Ends service id command ids left states cs ns end t1) t

  await_services-Ends :
      (services : List ServiceSpec) (ids rest : List Text) (states : List State) (cs ns : List Text)
      (w : World)
      → Track host spec states cs ns start w
      → Ends
          (await_services config host services ids rest)
          w
          (λ _ end. Track host spec states cs ns start end)
  unfolding await_services
  await_services-Ends [] ids rest states cs ns w t = Ends-pure tt w _ t
  await_services-Ends (service ∷ services) ids [] states cs ns w t = Ends-pure tt w _ t
  await_services-Ends (service ∷ services) ids (id ∷ rest) states cs ns w t =
      Ends-option service.healthcheck _ _ w _
        (λ _. await_services-Ends services ids rest states cs ns w t)
        (λ h _.
          Ends->>= _ _ w _ _
            (quiet_Ends host spec start _ states cs ns w (ask-IsQuiet host.polls) t)
            (λ polls w1 t1.
              Ends->>= _ _ w1 _ _
                (health_loop-Ends service id h.command ids polls states cs ns w1 t1)
                (λ _ w2 t2. await_services-Ends services ids rest states cs ns w2 t2)))

  pub start_services-Ends :
      (resources : Resources) (services : List ServiceSpec) (ns : List Text) (states : List State)
      (w : World)
      → Track host spec states [] ns start w
      → Ends
          (start_services config host spec.id resources services)
          w
          (λ ids end. Track host spec states ids ns start end)
  unfolding start_services
  start_services-Ends resources services ns states w t =
      Ends->>= _ _ w _ _ (create_services-Ends resources services [] ns states w t) (λ ids w1 t1.
        Ends->>= _ _ w1 _ _ (await_services-Ends services ids ids states ids ns w1 t1)
          (λ _ w2 t2. Ends-pure ids w2 _ t2))
