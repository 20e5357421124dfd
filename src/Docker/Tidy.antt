-- ===== src/Docker/Tidy.antt =====
-- What a finished workflow leaves behind: its events, and no container or network of its own.
use ai_kodu_runner.Base.{
  Text, text, text_eq, Option, none, some, List, [], ◌∷◌, ◌++◌, map, ok, ◌≡◌, ap, sym, ◌∙◌, subst,
}
use mathlib.Core.List.{append_assoc, map-append}
use ai_kodu_runner.Config.{RunnerConfig}
use ai_kodu_runner.Protocol.{JobSpec}
use ai_kodu_runner.Lifecycle.{State, received, preparing, as_str}
use ai_kodu_runner.Journal.{transition}
use ai_kodu_runner.Docker.Engine.{ContainerConfig, Host, World, Run, ask}
use ai_kodu_runner.Docker.Resources.{
  create_network, create_container, remove_container, remove_containers, remove_network,
  pull_or_fail,
}
use ai_kodu_runner.Docker.Job.{Network, record_state, prepare_job, open_network}
use ai_kodu_runner.Docker.Frame.{Keeps, IsQuiet, ask-IsQuiet, ask_result-IsQuiet}
use ai_kodu_runner.Docker.Quiet.{pull_or_fail-IsQuiet}
use ai_kodu_runner.Docker.Ends.{Ends, Ends-pure, Ends-journaled, Ends-update, Ends-test, Ends->>=}
use ai_kodu_runner.Docker.Track.{
  AreRefused-after, event_of, transition_event, events, entered, listed, network_ids, Track,
  Within-left_after, Within-refused_after, Within-more,
}

module _ (host : Host) (spec : JobSpec) (start : World) where
  event_next :
      (now : Text) (s : State) (states : List State) (w : World)
      → events w ≡ events start ++ entered spec states
      → (transition now spec.id spec.attempt s w.journal).0 ≡ ok tt
      → events (record w { journal = (transition now spec.id spec.attempt s w.journal).1 })
        ≡ events start ++ entered spec (states ++ s ∷ [])
  event_next now s states w h done =
      transition_event now spec.id spec.attempt s w.journal done
      ∙ ap (λ es. es ++ (spec.id, spec.attempt, as_str s) ∷ []) h
      ∙ append_assoc (events start) (entered spec states) _
      ∙ ap (λ es. events start ++ es)
          (sym (map-append (λ s. (spec.id, spec.attempt, as_str s)) states (s ∷ [])))

  -- What leaves the journal, the containers and the networks leaves the track.
  pub Track-Keeps :
      (states : List State) (cs ns : List Text) (a b : World)
      → Keeps a b
      → Track host spec states cs ns start a
      → Track host spec states cs ns start b
  Track-Keeps states cs ns a b (journal, containers, networks, made, refused) t = record {
    logged = ap (λ j. map event_of j.tables.events) journal ∙ t.logged;
    own_containers = rw (containers, refused) (t.own_containers);
    own_networks = rw (networks, refused) (t.own_networks);
    refusals = rw refused (t.refusals);
  }

  pub quiet_Ends {ℓ} :
      {A : Type ℓ} (m : Run A) (states : List State) (cs ns : List Text) (w : World)
      → IsQuiet m
      → Track host spec states cs ns start w
      → Ends m w (λ _ end. Track host spec states cs ns start end)
  unfolding Ends IsQuiet
  quiet_Ends m states cs ns w quiet t a end h =
      Track-Keeps states cs ns w end (subst (λ r. Keeps w r.1) h (quiet w)) t

  request_Ends :
      (states : List State) (cs ns : List Text) (w : World)
      → Track host spec states cs ns start w
      → Ends
          (ask host.request)
          w
          (λ answer end. (host.request w.now ≡ answer) × Track host spec states cs ns start end)
  unfolding Ends ask
  request_Ends states cs ns w t answer end h =
      (cc (ap (λ p. p.0) h), quiet_Ends _ states cs ns w (ask-IsQuiet host.request) t answer end h)

  -- A recorded state is the next event.
  pub record_state-Ends :
      (config : RunnerConfig) (s : State) (states : List State) (cs ns : List Text) (w : World)
      → Track host spec states cs ns start w
      → Ends
          (record_state config host spec s)
          w
          (λ _ end. Track host spec (states ++ s ∷ []) cs ns start end)
  unfolding record_state
  record_state-Ends config s states cs ns w t =
      Ends->>= _ _ w _ _ (quiet_Ends _ states cs ns w (ask-IsQuiet host.clock) t) (λ now asked t'.
        Ends-journaled _ asked _ (λ _ done. record {
          logged = event_next now s states asked t'.logged done;
          own_containers = t'.own_containers;
          own_networks = t'.own_networks;
          refusals = t'.refusals;
        }))

  pub create_container-Ends :
      (c : ContainerConfig) (states : List State) (cs ns : List Text) (w : World)
      → Track host spec states cs ns start w
      → Ends (create_container host c) w (λ id end. Track host spec states (id ∷ cs) ns start end)
  unfolding create_container
  create_container-Ends c states cs ns w t =
      Ends->>= _ _ w _ _ (quiet_Ends _ states cs ns w (ask_result-IsQuiet host.create) t)
        (λ id between t'.
          Ends->>= _ _ between _ _
            (Ends-update _ between (λ _ end. Track host spec states (id ∷ cs) ns start end)
              (record {
                logged = t'.logged;
                own_containers = Within-more id _ cs _ t'.own_containers;
                own_networks = t'.own_networks;
                refusals = t'.refusals;
              }))
            (λ _ end t''. Ends-pure id end _ t''))

  pub create_network-Ends :
      (states : List State) (cs ns : List Text) (w : World)
      → Track host spec states cs ns start w
      → Ends (create_network host) w (λ id end. Track host spec states cs (id ∷ ns) start end)
  unfolding create_network
  create_network-Ends states cs ns w t =
      Ends->>= _ _ w _ _ (quiet_Ends _ states cs ns w (ask_result-IsQuiet host.create) t)
        (λ id between t'.
          Ends->>= _ _ between _ _
            (Ends-update _ between (λ _ end. Track host spec states cs (id ∷ ns) start end)
              (record {
                logged = t'.logged;
                own_containers = t'.own_containers;
                own_networks = Within-more id _ ns _ t'.own_networks;
                refusals = t'.refusals;
              }))
            (λ _ end t''. Ends-pure id end _ t''))

  -- A container that is removed is no longer listed; one that is not is refused.
  pub remove_container-Ends :
      (id : Text) (states : List State) (cs ns : List Text) (w : World)
      → Track host spec states (id ∷ cs) ns start w
      → Ends (remove_container host id) w (λ _ end. Track host spec states cs ns start end)
  unfolding remove_container
  remove_container-Ends id states cs ns w t =
      Ends->>= _ _ w _ _ (request_Ends states (id ∷ cs) ns w t) (λ answer between (asked, t').
        Ends-update _ between _ (record {
          logged = t'.logged;
          own_containers =
              Within-left_after answer id between.containers cs between.refused start.containers
                t'.own_containers;
          own_networks =
              Within-refused_after answer id between.networks ns between.refused start.networks
                t'.own_networks;
          refusals =
              AreRefused-after host answer w.now id start.refused between.refused asked t'.refusals;
        }))

  pub remove_containers-Ends :
      (ids : List Text) (states : List State) (ns : List Text) (w : World)
      → Track host spec states ids ns start w
      → Ends (remove_containers host ids) w (λ _ end. Track host spec states [] ns start end)
  unfolding remove_containers
  remove_containers-Ends [] states ns w t = Ends-pure tt w _ t
  remove_containers-Ends (id ∷ ids) states ns w t =
      Ends->>= _ _ w _ _ (remove_container-Ends id states ids ns w t)
        (λ _ between t'. remove_containers-Ends ids states ns between t')

  pub remove_network-Ends :
      (network : Network) (states : List State) (w : World)
      → Track host spec states [] (network_ids network) start w
      → Ends (remove_network host network.id) w (λ _ end. Track host spec states [] [] start end)
  unfolding remove_network
  remove_network-Ends network states w t = by_id network.id t
    where
      by_id :
          (id : Option Text)
          → Track host spec states [] (listed id) start w
          → Ends (remove_network host id) w (λ _ end. Track host spec states [] [] start end)
      by_id none t = Ends-pure tt w _ t
      by_id (some id) t =
          Ends->>= _ _ w _ _ (request_Ends states [] (id ∷ []) w t) (λ answer between (asked, t').
            Ends-update _ between _ (record {
              logged = t'.logged;
              own_containers =
                  Within-refused_after answer id between.containers [] between.refused
                    start.containers t'.own_containers;
              own_networks =
                  Within-left_after answer id between.networks [] between.refused start.networks
                    t'.own_networks;
              refusals =
                  AreRefused-after host answer w.now id start.refused between.refused asked
                    t'.refusals;
            }))

  pub pull_or_fail-Ends :
      (config : RunnerConfig) (image : Text) (states : List State) (cs ns : List Text) (w : World)
      → Track host spec states cs ns start w
      → Ends (pull_or_fail config host image) w (λ _ end. Track host spec states cs ns start end)
  pull_or_fail-Ends config image states cs ns w t =
      quiet_Ends _ states cs ns w (pull_or_fail-IsQuiet config host image) t

  pub prepare_job-Ends :
      (config : RunnerConfig) (w : World)
      → Track host spec [] [] [] start w
      → Ends
          (prepare_job config host spec)
          w
          (λ _ end. Track host spec (received ∷ preparing ∷ []) [] [] start end)
  unfolding prepare_job
  prepare_job-Ends config w t =
      Ends->>= _ _ w _ _ (quiet_Ends _ [] [] [] w (ask_result-IsQuiet host.open_journal) t)
        (λ _ w1 t1.
          Ends->>= _ _ w1 _ _ (record_state-Ends config received [] [] [] w1 t1) (λ _ w2 t2.
            Ends->>= _ _ w2 _ _ (record_state-Ends config preparing _ [] [] w2 t2) (λ _ w3 t3.
              Ends->>= _ _ w3 _ _ (quiet_Ends _ _ [] [] w3 (ask_result-IsQuiet host.prepare) t3)
                (λ directory w4 t4.
                  Ends->>= _ _ w4 _ _ (pull_or_fail-Ends config spec.image _ [] [] w4 t4)
                    (λ _ w5 t5. Ends-pure directory w5 _ t5)))))

  pub open_network-Ends :
      (config : RunnerConfig) (states : List State) (w : World)
      → Track host spec states [] [] start w
      → Ends
          (open_network config host spec)
          w
          (λ network end. Track host spec states [] (network_ids network) start end)
  unfolding open_network
  open_network-Ends config states w t =
      Ends->>= _ _ w _ _ (quiet_Ends _ states [] [] w (ask-IsQuiet host.uuid) t) (λ uuid w1 t1.
        Ends-test (text_eq spec.network.mode (text "bridge")) _ _ w1 _
          (λ _.
            Ends->>= _ _ w1 _ _ (create_network-Ends states [] [] w1 t1)
              (λ id w2 t2. Ends-pure _ w2 _ t2))
          (λ _. Ends-pure _ w1 _ t1))
