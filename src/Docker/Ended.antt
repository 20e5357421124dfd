-- ===== src/Docker/Ended.antt =====
-- A job that gives a result: what it has recorded, and what it leaves behind.
use ai_kodu_runner.Base.{
  inl, ℕ, ℤ, Text, text, text_eq, member, true, false, not, ◌||◌, ◌&&◌, Option, some, List, [], ◌∷◌,
  ◌++◌, ok, ◌≡◌, refl, sym, subst,
}
use mathlib.Core.List.{append-nil}
use ai_kodu_runner.Config.{RunnerConfig}
use ai_kodu_runner.Protocol.{Resources, JobSpec, JobResult}
use ai_kodu_runner.Lifecycle.{
  State, received, preparing, running, collecting, destroying, destroyed, from_str,
}
use ai_kodu_runner.Policy
use ai_kodu_runner.Policy.{environment_for_job}
use ai_kodu_runner.Docker.Output.{LogTurn, LogState, no_log, raw_status}
use ai_kodu_runner.Docker.Engine.{ContainerConfig, Host, World, update}
use ai_kodu_runner.Docker.Exec.{emit}
use ai_kodu_runner.Docker.Resources.{start_container}
use ai_kodu_runner.Docker.Job.{Network}
use ai_kodu_runner.Docker.RunCommand.{
  Ending, stop_container, container_logs, launch_command, inspect_container, end_command,
  command_result, run_command, begin_job, run,
}
use ai_kodu_runner.Docker.Frame.{
  IsQuiet, >>=-IsQuiet, pure-IsQuiet, ask-IsQuiet, ask_result-IsQuiet, test-IsQuiet, fail-IsQuiet,
  dropped-IsQuiet, quiet,
}
use ai_kodu_runner.Docker.Ends.{
  Ends, any_end, Ends-pure, Ends-fail, Ends-lift, Ends-on_error, Ends-update, Ends-option,
  Ends-result, Ends->>=, Ends-weaken,
}
use ai_kodu_runner.Docker.Track.{AreRefused, Within-refl, Track, network_ids, events, entered}
use ai_kodu_runner.Docker.Tidy.{
  quiet_Ends, record_state-Ends, create_container-Ends, prepare_job-Ends, open_network-Ends,
}
use ai_kodu_runner.Docker.Destroyed.{
  collect_artifacts-IsQuiet, destroy-Ends, IsTidy, run_workflow-Ends,
}

module _ (config : RunnerConfig) (host : Host) where
  emit-IsQuiet :
      (stream : Text) (message : List ℕ)
      → IsQuiet (update (emit config.limits.max_log_bytes host stream message))
  unfolding update emit IsQuiet
  emit-IsQuiet stream message w = (refl, refl, refl, refl, refl)

  pub container_logs-IsQuiet :
      (id : Text) (turns : List LogTurn) (s : LogState)
      → IsQuiet (container_logs config host id s turns)
  unfolding container_logs stop_container
  container_logs-IsQuiet id [] s = pure-IsQuiet s
  container_logs-IsQuiet id (LogTurn.cancelled ∷ rest) s = search quiet
  container_logs-IsQuiet id (LogTurn.timed_out ∷ rest) s = search quiet
  container_logs-IsQuiet id (LogTurn.std_out message ∷ rest) s =
      >>=-IsQuiet _ _ (emit-IsQuiet _ _) (λ _. container_logs-IsQuiet id rest _)
  container_logs-IsQuiet id (LogTurn.std_err message ∷ rest) s =
      >>=-IsQuiet _ _ (emit-IsQuiet _ _) (λ _. container_logs-IsQuiet id rest _)
  container_logs-IsQuiet id (LogTurn.other ∷ rest) s = container_logs-IsQuiet id rest s
  container_logs-IsQuiet id (LogTurn.failed e ∷ rest) s = fail-IsQuiet _ e

  pub end_command-IsQuiet : (s : LogState) (status : ℤ) → IsQuiet (end_command config host s status)
  unfolding end_command
  end_command-IsQuiet s status =
      >>=-IsQuiet _ _ (test-IsQuiet s.cancellation_requested _ _ (search quiet) (search quiet))
        (λ token.
          >>=-IsQuiet _ _
            (test-IsQuiet (token || s.timeout_requested) _ _ (search quiet) (search quiet))
            (λ passed.
              >>=-IsQuiet _ _
                (test-IsQuiet
                  (text_eq
                    (raw_status (s.cancellation_requested || token)
                      (not (s.cancellation_requested || token) && (s.timeout_requested || passed))
                      status)
                    (text "completed"))
                  _ _ (search quiet) (search quiet))
                (λ published. search quiet)))

module _ (spec : JobSpec) (start : World) (config : RunnerConfig) (host : Host) where
  launch_command-Ends :
      (container : ContainerConfig) (network : Network) (states : List State) (w : World)
      → Track host spec states [] (network_ids network) start w
      → Ends (launch_command config host container spec network) w (λ id end.
        Track host spec (states ++ running ∷ []) (id ∷ []) (network_ids network) start end)
  unfolding launch_command start_container
  launch_command-Ends container network states w t =
      let ns = network_ids network in
      Ends->>= _ _ w _ _
        (Ends-on_error _ _ w _ (create_container-Ends host spec start container states [] ns w t))
        (λ id w1 t1.
          Ends->>= _ _ w1 _ _
            (record_state-Ends host spec start config running states (id ∷ []) ns w1 t1)
            (λ _ w2 t2.
              Ends->>= _ _ w2 _ _
                (Ends-on_error _ _ w2 _ (
                  quiet_Ends host spec start _ _ (id ∷ []) ns w2 (ask_result-IsQuiet host.request)
                    t2))
                (λ _ w3 t3. Ends-pure id w3 _ t3)))

  inspect_container-Ends :
      (id : Text) (network : Network) (states : List State) (cs ns : List Text) (w : World)
      → Track host spec states cs ns start w
      → Ends
          (inspect_container config host id network)
          w
          (λ _ end. Track host spec states cs ns start end)
  unfolding inspect_container
  inspect_container-Ends id network states cs ns w t =
      Ends->>= _ _ w _ _
        (quiet_Ends host spec start _ states cs ns w (ask-IsQuiet host.exit_code) t)
        (λ answer w1 t1.
          Ends-result answer _ _ w1 _ (λ code. Ends-pure _ w1 _ t1)
            (λ e.
              Ends->>= _ _ w1 (λ _ _. Unit) _ (any_end _ w1)
                (λ _ w2 _.
                  Ends->>= _ _ w2 (λ _ _. Unit) _ (any_end _ w2) (λ _ w3 _. Ends-fail _ w3 _))))

  command_result-Ends :
      (id : Text) (ending : Ending) (image : Option Text) (collected : List Text × Option Text)
      (states : List State) (w : World)
      → Track host spec states [] [] start w
      → Ends
          (command_result config host id spec ending image collected)
          w
          (λ r end. (r.status ≡ ending.status) × Track host spec states [] [] start end)
  unfolding command_result
  command_result-Ends id ending image collected states w t =
      Ends->>= _ _ w _ _ (quiet_Ends host spec start _ states [] [] w (ask-IsQuiet host.clock) t)
        (λ _ w1 t1.
          Ends->>= _ _ w1 _ _
            (quiet_Ends host spec start _ states [] [] w1 (ask-IsQuiet host.clock) t1)
            (λ _ w2 t2.
              Ends->>= _ _ w2 _ _
                (quiet_Ends host spec start _ states [] [] w2 (ask-IsQuiet host.elapsed) t2)
                (λ _ w3 t3.
                  Ends->>= _ _ w3 _ _
                    (quiet_Ends host spec start _ states [] [] w3 dropped-IsQuiet t3)
                    (λ _ w4 t4. Ends-pure _ w4 _ (refl, t4)))))

  -- The part of a command's run that follows its launch.
  run_command-Ends :
      (resources : Resources) (w : World)
      → Track host spec [] [] [] start w
      → Ends (run_command config host spec resources) w (IsTidy spec start config host)
  unfolding run_command IsTidy
  run_command-Ends resources w t =
      Ends->>= _ _ w _ _ (prepare_job-Ends host spec start config w t) (λ directory w1 t1.
        Ends->>= _ _ w1 _ _ (open_network-Ends host spec start config _ w1 t1) (λ network w2 t2.
          Ends->>= _ _ w2
            (λ _ end.
              Track host spec (received ∷ preparing ∷ []) [] (network_ids network) start end)
            _ (Ends-lift (environment_for_job host.environment spec config) w2 _ (λ env _. t2))
            (λ env w3 t3.
              Ends->>= _ _ w3 _ _
                (quiet_Ends host spec start _ _ [] (network_ids network) w3
                  (ask-IsQuiet (host.later resources.timeout_seconds)) t3)
                (λ expires_at w4 t4.
                  Ends->>= _ _ w4 _ _ (launch_command-Ends _ network _ w4 t4) (λ id w5 t5.
                    Ends->>= _ _ w5 _ _
                      (quiet_Ends host spec start _ _ (id ∷ []) (network_ids network) w5
                        (ask-IsQuiet host.logs) t5)
                      (λ turns w6 t6.
                        Ends->>= _ _ w6 _ _
                          (quiet_Ends host spec start _ _ (id ∷ []) (network_ids network) w6
                            (container_logs-IsQuiet config host id turns no_log) t6)
                          (λ log w7 t7.
                            Ends->>= _ _ w7 _ _
                              (inspect_container-Ends id network _ (id ∷ []) (network_ids network)
                                w7 t7)
                              (λ status w8 t8.
                                Ends->>= _ _ w8 _ _
                                  (record_state-Ends host spec start config collecting _ (id ∷ [])
                                    (network_ids network) w8 t8)
                                  (λ _ w9 t9.
                                    Ends->>= _ _ w9 _ _
                                      (quiet_Ends host spec start _ _ (id ∷ [])
                                        (network_ids network) w9
                                        (end_command-IsQuiet config host log status) t9)
                                      (λ ending wa ta.
                                        Ends->>= _ _ wa _ _
                                          (quiet_Ends host spec start _ _ (id ∷ [])
                                            (network_ids network) wa
                                            (collect_artifacts-IsQuiet config host spec
                                              ending.status (some (text "command"))
                                              ending.log.stdout ending.stderr)
                                            ta)
                                          (λ collected wb tb.
                                            Ends->>= _ _ wb _ _
                                              (record_state-Ends host spec start config
                                                (from_str ending.status) _ (id ∷ [])
                                                (network_ids network) wb tb)
                                              (λ _ wc tc.
                                                Ends->>= _ _ wc _ _
                                                  (destroy-Ends spec start config host id [] network
                                                    _ wc tc)
                                                  (λ image wd td.
                                                    Ends-weaken _ wd _ _
                                                      (command_result-Ends id ending image collected
                                                        _ wd td)
                                                      (λ r end (status, track).
                                                        subst
                                                          (λ s.
                                                            Track host spec
                                                            (received
                                                            ∷ preparing
                                                            ∷ running
                                                            ∷ collecting
                                                            ∷ from_str s
                                                            ∷ destroying
                                                            ∷ destroyed
                                                            ∷ [])
                                                            [] [] start end)
                                                          (sym status) track))))))))))))))

  begin_job-Ends :
      (w : World)
      → Track host spec [] [] [] start w
      → Ends (update (begin_job spec)) w (λ _ end. Track host spec [] [] [] start end)
  unfolding begin_job
  begin_job-Ends w t = Ends-update (begin_job spec) w _ (record {
    logged = t.logged;
    own_containers = t.own_containers;
    own_networks = t.own_networks;
    refusals = t.refusals;
  })

  run-Ends :
      (canonicalize : Text → Option Text) (w : World)
      → Track host spec [] [] [] start w
      → Ends (run config host canonicalize spec) w (IsTidy spec start config host)
  unfolding run
  run-Ends canonicalize w t = Ends->>= _ _ w _ _ (begin_job-Ends w t) (λ _ w1 t1.
      Ends->>= _ _ w1 (λ _ end. Track host spec [] [] [] start end) _
        (Ends-lift (Policy.validate canonicalize spec config false) w1 _ (λ _ _. t1))
        (λ resources w2 t2.
          Ends-option spec.workflow _ _ w2 _ (λ _. run_command-Ends resources w2 t2)
            (λ workflow _. run_workflow-Ends spec start config host workflow resources w2 t2)))

  -- A job that gives a result, by a workflow or by a command, has recorded, in this order, that it was
  -- received, prepared, run, collected, then the state of the result's status, destroying and
  -- destroyed, and nothing else; and every container and every network that it has made, those of its
  -- services included, has been removed, unless it is noted as refused; and nothing is newly noted so
  -- unless the engine has answered a request with an error.
  pub run_lem :
      (canonicalize : Text → Option Text) (r : JobResult) (end : World)
      → run config host canonicalize spec start ≡ (ok r, end)
      → (events end
          ≡ events start
            ++ entered spec (
                received
                ∷ preparing
                ∷ running
                ∷ collecting
                ∷ from_str r.status
                ∷ destroying
                ∷ destroyed
                ∷ []))
        × ((x : Text)
            → member x end.containers ≡ true
            → member x (end.refused ++ start.containers) ≡ true)
        × ((x : Text)
            → member x end.networks ≡ true
            → member x (end.refused ++ start.networks) ≡ true)
        × AreRefused host start.refused end.refused
  unfolding Ends IsTidy member
  run_lem canonicalize r end h =
      let before : Track host spec [] [] [] start start = record {
        logged = sym (append-nil (events start));
        own_containers = Within-refl start.refused start.containers;
        own_networks = Within-refl start.refused start.networks;
        refusals = λ x there. inl there;
      } in
      let track = run-Ends canonicalize start before r end h in
      (track.logged, track.own_containers, track.own_networks, track.refusals)
