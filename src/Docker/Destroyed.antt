-- ===== src/Docker/Destroyed.antt =====
-- A workflow that gives a result: what it has recorded, and what it leaves behind.
use ai_kodu_runner.Base.{
  ℕ, Text, text, text_eq, is_empty, ◌&&◌, Option, List, [], ◌∷◌, ◌++◌, Result, ok, err, ◌≡◌, refl,
  sym, subst,
}
use ai_kodu_runner.Config.{RunnerConfig}
use ai_kodu_runner.Protocol.{Resources, JobSpec, JobResult, WorkflowSpec}
use ai_kodu_runner.Lifecycle.{
  State, received, preparing, running, collecting, destroying, destroyed, from_str,
}
use ai_kodu_runner.Policy.{environment_for_job}
use ai_kodu_runner.Docker.Engine.{ContainerConfig, Host, World, update}
use ai_kodu_runner.Docker.Resources.{start_container}
use ai_kodu_runner.Docker.Flow.{Flow}
use ai_kodu_runner.Docker.Job.{
  Network, write_diagnostic, write_failure_diagnostics, collect_artifacts,
}
use ai_kodu_runner.Docker.RunWorkflow.{
  workflow_services, launch, run_in_container, destroy, workflow_result, run_workflow,
}
use ai_kodu_runner.Docker.Frame.{
  IsQuiet, >>=-IsQuiet, ask-IsQuiet, ask_result-IsQuiet, test-IsQuiet, fail-IsQuiet,
  dropped-IsQuiet, quiet,
}
use ai_kodu_runner.Docker.Quiet.{write_feedback-IsQuiet, run_commands-IsQuiet}
use ai_kodu_runner.Docker.Ends.{
  Ends, Ends-pure, Ends-fail, Ends-lift, Ends-on_error, Ends-test, Ends-option, Ends->>=,
  Ends-weaken,
}
use ai_kodu_runner.Docker.Track.{Track, network_ids}
use ai_kodu_runner.Docker.Tidy.{
  quiet_Ends, record_state-Ends, create_container-Ends, remove_container-Ends,
  remove_containers-Ends, remove_network-Ends, prepare_job-Ends, open_network-Ends,
}
use ai_kodu_runner.Docker.Serviced.{start_services-Ends}

module _ (config : RunnerConfig) (host : Host) (spec : JobSpec) where
  diagnostic-IsQuiet :
      (name : Text) (content : List ℕ)
      → IsQuiet (update (λ w. record w { diagnostics = w.diagnostics ++ (name, content) ∷ [] }))
  unfolding update IsQuiet
  diagnostic-IsQuiet name content w = (refl, refl, refl, refl, refl)

  write_diagnostic-IsQuiet :
      (name : Text) (content : Result (List ℕ))
      → IsQuiet (write_diagnostic config host name content)
  unfolding write_diagnostic
  write_diagnostic-IsQuiet name (err e) = fail-IsQuiet _ e
  write_diagnostic-IsQuiet name (ok content) = search (quiet, diagnostic-IsQuiet)

  pub collect_artifacts-IsQuiet :
      (status : Text) (phase : Option Text) (out error : List ℕ)
      → IsQuiet (collect_artifacts config host spec status phase out error)
  unfolding collect_artifacts write_failure_diagnostics
  collect_artifacts-IsQuiet status phase out error =
      >>=-IsQuiet _ _
        (test-IsQuiet (text_eq status (text "completed")) _ _ (search quiet)
          (search (quiet, write_diagnostic-IsQuiet)))
        (λ _.
          test-IsQuiet (text_eq status (text "completed") && is_empty spec.artifacts) _ _
            (search quiet) (search quiet))

module _ (spec : JobSpec) (start : World) (config : RunnerConfig) (host : Host) where
  workflow_services-Ends :
      (workflow : WorkflowSpec) (resources : Resources) (network : Network) (states : List State)
      (w : World)
      → Track host spec states [] (network_ids network) start w
      → Ends
          (workflow_services config host spec workflow resources network)
          w
          (λ ids end. Track host spec states ids (network_ids network) start end)
  unfolding workflow_services
  workflow_services-Ends workflow resources network states w t =
      Ends-option network.id _ _ w _
        (λ _.
          Ends-test (is_empty workflow.services) _ _ w _ (λ _. Ends-pure [] w _ t)
            (λ _. Ends-fail _ w _))
        (λ id _. Ends-on_error _ _ w _ (
          start_services-Ends spec start config host resources workflow.services
            (network_ids network) states w t))

  launch-Ends :
      (container : ContainerConfig) (services : List Text) (network : Network) (states : List State)
      (w : World)
      → Track host spec states services (network_ids network) start w
      → Ends
          (launch config host container services network)
          w
          (λ id end. Track host spec states (id ∷ services) (network_ids network) start end)
  unfolding launch start_container
  launch-Ends container services network states w t =
      let ns = network_ids network in
      Ends->>= _ _ w _ _
        (Ends-on_error _ _ w _
          (create_container-Ends host spec start container states services ns w t))
        (λ id w1 t1.
          Ends->>= _ _ w1 _ _
            (Ends-on_error _ _ w1 _ (
              quiet_Ends host spec start _ states (id ∷ services) ns w1
                (ask_result-IsQuiet host.request) t1))
            (λ _ w2 t2. Ends-pure id w2 _ t2))

  run_in_container-Ends :
      (id : Text) (workflow : WorkflowSpec) (states : List State) (cs ns : List Text) (w : World)
      → Track host spec states cs ns start w
      → Ends
          (run_in_container config host id spec workflow)
          w
          (λ _ end. Track host spec (states ++ running ∷ []) cs ns start end)
  unfolding run_in_container
  run_in_container-Ends id workflow states cs ns w t =
      Ends->>= _ _ w _ _
        (quiet_Ends host spec start _ states cs ns w (ask_result-IsQuiet host.feedback_path) t)
        (λ _ w1 t1.
          Ends->>= _ _ w1 _ _
            (quiet_Ends host spec start _ states cs ns w1 (write_feedback-IsQuiet config host _) t1)
            (λ _ w2 t2.
              Ends->>= _ _ w2 _ _
                (record_state-Ends host spec start config running states cs ns w2 t2)
                (λ _ w3 t3.
                  quiet_Ends host spec start _ _ cs ns w3
                    (run_commands-IsQuiet config host id workflow) t3)))

  pub destroy-Ends :
      (id : Text) (services : List Text) (network : Network) (states : List State) (w : World)
      → Track host spec states (id ∷ services) (network_ids network) start w
      → Ends
          (destroy config host id services network spec)
          w
          (λ _ end. Track host spec (states ++ destroying ∷ [] ++ destroyed ∷ []) [] [] start end)
  unfolding destroy
  destroy-Ends id services network states w t =
      let ns = network_ids network in
      let cs = id ∷ services in
      Ends->>= _ _ w _ _ (record_state-Ends host spec start config destroying states cs ns w t)
        (λ _ w1 t1.
          Ends->>= _ _ w1 _ _
            (quiet_Ends host spec start _ _ cs ns w1 (ask-IsQuiet host.image_of) t1)
            (λ image w2 t2.
              Ends->>= _ _ w2 _ _ (remove_container-Ends host spec start id _ services ns w2 t2)
                (λ _ w3 t3.
                  Ends->>= _ _ w3 _ _ (remove_containers-Ends host spec start services _ ns w3 t3)
                    (λ _ w4 t4.
                      Ends->>= _ _ w4 _ _ (remove_network-Ends host spec start network _ w4 t4)
                        (λ _ w5 t5.
                          Ends->>= _ _ w5 _ _
                            (record_state-Ends host spec start config destroyed _ [] [] w5 t5)
                            (λ _ w6 t6. Ends-pure image w6 _ t6))))))

  -- The status of the result, and the track.
  result-Ends :
      (id : Text) (flow : Flow) (image : Option Text) (collected : List Text × Option Text)
      (states : List State) (w : World)
      → Track host spec states [] [] start w
      → Ends
          (workflow_result config host id spec flow image collected)
          w
          (λ r end. (r.status ≡ flow.final_status) × Track host spec states [] [] start end)
  unfolding workflow_result
  result-Ends id flow image collected states w t =
      Ends->>= _ _ w _ _ (quiet_Ends host spec start _ states [] [] w (ask-IsQuiet host.clock) t)
        (λ _ w1 t1.
          Ends->>= _ _ w1 _ _
            (quiet_Ends host spec start _ states [] [] w1 (ask-IsQuiet host.clock) t1)
            (λ _ w2 t2.
              Ends->>= _ _ w2 _ _
                (quiet_Ends host spec start _ states [] [] w2 (ask-IsQuiet host.elapsed) t2)
                (λ _ w3 t3.
                  Ends->>= _ _ w3 _ _
                    (quiet_Ends host spec start _ states [] [] w3 dropped-IsQuiet t3)
                    (λ _ w4 t4. Ends-pure _ w4 _ (refl, t4)))))

  unfoldable pub IsTidy : JobResult → World → Type 0
  IsTidy r end =
      Track host spec
        (received
          ∷ preparing
          ∷ running
          ∷ collecting
          ∷ from_str r.status
          ∷ destroying
          ∷ destroyed
          ∷ [])
        [] [] start end

  pub run_workflow-Ends :
      (workflow : WorkflowSpec) (resources : Resources) (w : World)
      → Track host spec [] [] [] start w
      → Ends (run_workflow config host spec workflow resources) w IsTidy
  unfolding run_workflow IsTidy
  run_workflow-Ends workflow resources w t =
      Ends->>= _ _ w _ _ (prepare_job-Ends host spec start config w t) (λ directory w1 t1.
        Ends->>= _ _ w1 _ _ (open_network-Ends host spec start config _ w1 t1) (λ network w2 t2.
          Ends->>= _ _ w2
            (λ _ end.
              Track host spec (received ∷ preparing ∷ []) [] (network_ids network) start end)
            _ (Ends-lift (environment_for_job host.environment spec config) w2 _ (λ env _. t2))
            (λ env w3 t3.
              Ends->>= _ _ w3 _ _ (workflow_services-Ends workflow resources network _ w3 t3)
                (λ services w4 t4.
                  Ends->>= _ _ w4 _ _ (launch-Ends _ services network _ w4 t4) (λ id w5 t5.
                    Ends->>= _ _ w5 _ _
                      (run_in_container-Ends id workflow _ (id ∷ services) (network_ids network) w5
                        t5)
                      (λ flow w6 t6.
                        Ends->>= _ _ w6 _ _
                          (record_state-Ends host spec start config collecting _ (id ∷ services)
                            (network_ids network) w6 t6)
                          (λ _ w7 t7.
                            Ends->>= _ _ w7 _ _
                              (quiet_Ends host spec start _ _ (id ∷ services) (network_ids network)
                                w7
                                (collect_artifacts-IsQuiet config host spec flow.final_status
                                  flow.failed_phase flow.stdout flow.stderr)
                                t7)
                              (λ collected w8 t8.
                                Ends->>= _ _ w8 _ _
                                  (record_state-Ends host spec start config
                                    (from_str flow.final_status) _ (id ∷ services)
                                    (network_ids network) w8 t8)
                                  (λ _ w9 t9.
                                    Ends->>= _ _ w9 _ _ (destroy-Ends id services network _ w9 t9)
                                      (λ image w10 t10.
                                        Ends-weaken _ w10 _ _
                                          (result-Ends id flow image collected _ w10 t10)
                                          (λ r end (status, track).
                                            subst
                                              (λ s.
                                                Track host spec
                                                  (received
                                                    ∷ preparing
                                                    ∷ running
                                                    ∷ collecting
                                                    ∷ from_str s
                                                    ∷ destroying
                                                    ∷ destroyed
                                                    ∷ [])
                                                  [] [] start end)
                                              (sym status) track)))))))))))
