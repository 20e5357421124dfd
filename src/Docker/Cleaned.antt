-- ===== src/Docker/Cleaned.antt =====
-- What a clean-up that succeeds removes and records.
use ai_kodu_runner.Base.{
  subst, none, ℕ, ◌+◌, Text, Bool, ◌||◌, List, [], ◌∷◌, ◌++◌, map, Result, ok, ◌≡◌, inl, inr,
  if◌then◌else◌, refl, ap, sym, ◌∙◌, arith,
}
use mathlib.Core.List.{append-nil, append_assoc}
use ai_kodu_runner.Lifecycle.{State, destroying, destroyed, as_str}
use ai_kodu_runner.Journal.{unfinished, unfinished_rows, statement-cases}
use ai_kodu_runner.Docker.Engine.{
  ContainerSummary, NetworkSummary, Host, World, ask, ask_result, journaled, ◌>>=◌,
}
use ai_kodu_runner.Docker.Cleanup.{
  Progress, no_progress, enter_state, destroy_jobs, finish_cleanup, cleanup,
}
use ai_kodu_runner.Docker.Ends.{
  Ends, Ends-pure, Ends-fail, Ends-test, Ends-option, Ends-journaled, Ends->>=, Ends-weaken,
}
use ai_kodu_runner.Docker.Frame.{Keeps}
use ai_kodu_runner.Docker.Track.{event_of, events, transition_event}
use ai_kodu_runner.Docker.Cleared.{
  IsLeft, IsLeft-first, IsLeft-last, idle_containers, idle_networks, any_runs, any_used,
  destructions, clean_containers-Ends, clean_networks-Ends,
}

module _ (host : Host) where
  -- The events of the first state, then those; the containers and networks stay.
  abbrev Then : List (Text × ℕ × Text) → World → World → Type 0
  Then es w end =
      (events end ≡ events w ++ es) × (end.containers ≡ w.containers) × (end.networks ≡ w.networks)

  enter_state-Ends :
      (id : Text) (attempt : ℕ) (s : State) (w : World)
      → Ends
          (enter_state host (id, attempt) s)
          w
          (λ _ end. Then ((id, attempt, as_str s) ∷ []) w end)
  unfolding enter_state Ends ask ◌>>=◌
  enter_state-Ends id attempt s w =
      Ends-journaled _ (record w { now = w.now + 1 }) _
        (λ _ done. (transition_event (host.clock w.now) id attempt s w.journal done, refl, refl))

  destroy_jobs-Ends :
      (jobs : List (Text × ℕ)) (w : World)
      → Ends (destroy_jobs host jobs) w (λ _ end. Then (destructions jobs) w end)
  unfolding destroy_jobs
  destroy_jobs-Ends [] w = Ends-pure tt w _ (sym (append-nil (events w)), refl, refl)
  destroy_jobs-Ends ((id, attempt) ∷ jobs) w =
      Ends->>= _ _ w _ _ (enter_state-Ends id attempt destroying w) (λ _ w1 (e1, c1, n1).
        Ends->>= _ _ w1 _ _ (enter_state-Ends id attempt destroyed w1) (λ _ w2 (e2, c2, n2).
          Ends-weaken _ w2 _ _ (destroy_jobs-Ends jobs w2) (λ _ end (e3, c3, n3). (
            e3
                ∙ ap (λ es. es ++ destructions jobs)
                    (e2 ∙ ap (λ es. es ++ (id, attempt, as_str destroyed) ∷ []) e1)
                ∙ append_assoc (events w ++ (id, attempt, as_str destroying) ∷ []) _
                    (destructions jobs)
                ∙ append_assoc (events w) _ ((id, attempt, as_str destroyed) ∷ destructions jobs),
            c3 ∙ c2 ∙ c1,
            n3 ∙ n2 ∙ n1,
          ))))

  -- The unfinished jobs, read from the journal, which is left as it is.
  unfinished-Ends :
      (w : World)
      → Ends
          (journaled unfinished)
          w
          (λ jobs end. (jobs ≡ unfinished_rows w.journal.tables.jobs) × Then [] w end)
  unfolding unfinished
  unfinished-Ends w = Ends-journaled _ w _ (λ jobs done.
      elim (statement-cases (λ t. (unfinished_rows t.jobs, t)) w.journal) [
        | inl (value, same) ↦ (
          cc (sym done ∙ value),
          (ap (λ t. map event_of t.events) same ∙ sym (append-nil (events w)), refl, refl),
        )
        | inr ((e, refused), same) ↦ absurd (cc (sym done ∙ refused))
      ])

  abbrev recorded : Bool → World → List (Text × ℕ × Text)
  recorded active w = if active then [] else destructions (unfinished_rows w.journal.tables.jobs)

  -- It succeeds only where no error has been noted.
  finish_cleanup-Ends :
      (p : Progress) (w : World)
      → Ends
          (finish_cleanup host p)
          w
          (λ _ end. (p.cleanup_error ≡ none) × Then (recorded p.active_resources w) w end)
  unfolding finish_cleanup
  finish_cleanup-Ends p w =
      Ends-option p.cleanup_error _ _ w _
        (λ calm.
          Ends-test p.active_resources _ _ w _
            (λ used. Ends-pure tt w _ (calm, (rw used (sym (append-nil (events w))), refl, refl)))
            (λ unused. Ends->>= _ _ w _ _ (unfinished-Ends w) (λ jobs w1 (read, (e1, c1, n1)).
              Ends-weaken _ w1 _ _ (destroy_jobs-Ends jobs w1) (λ _ end (e2, c2, n2). (
                calm,
                (
                  rw unused (
                      e2
                      ∙ ap (λ es. es ++ destructions jobs) (e1 ∙ append-nil (events w))
                      ∙ ap (λ js. events w ++ destructions js) read),
                  c2 ∙ c1,
                  n2 ∙ n1,
                ),
              )))))
        (λ error _. Ends-fail _ w _)

  asked_result :
      {A : Type 0} (f : ℕ → Result A) (w : World)
      → Ends (ask_result f) w (λ a end. (f w.now ≡ ok a) × Keeps w end)
  unfolding Ends ask_result
  asked_result f w a end h = (ap (λ p. p.0) h, Keeps-of (ap (λ p. p.1) h))
    where
      Keeps-of : record w { now = w.now + 1 } ≡ end → Keeps w end
      Keeps-of same = subst (Keeps w) same (refl, refl, refl, refl, refl)

  -- The engine has listed containers and networks; the idle ones are gone and no other; and the
  -- unfinished jobs are destroyed where nothing is in use.
  abbrev pub IsCleaned : World → World → Type 0
  IsCleaned w end =
      (items : List ContainerSummary) × ((networks : List NetworkSummary) × ((n : ℕ)
          × (host.list_containers n ≡ ok items))
        × ((n : ℕ) × (host.list_networks n ≡ ok networks))
        × IsLeft (idle_containers items) w.containers end.containers
        × IsLeft (idle_networks networks) w.networks end.networks
        × (events end
            ≡ events w
              ++ (if any_runs items || any_used networks
                  then []
                  else destructions (unfinished_rows w.journal.tables.jobs))))

  cleanup-Ends : (w : World) → Ends (cleanup host) w (λ _ end. IsCleaned w end)
  unfolding cleanup
  cleanup-Ends w =
      Ends->>= _ _ w _ _ (asked_result host.list_containers w)
        (λ items w1 (listed, (j1, c1, n1, m1, r1)).
          Ends->>= _ _ w1 _ _ (clean_containers-Ends host items no_progress w1) (λ p w2 t2.
            Ends->>= _ _ w2 _ _ (asked_result host.list_networks w2)
              (λ networks w3 (listed', (j3, c3, n3, m3, r3)).
                Ends->>= _ _ w3 _ _ (clean_networks-Ends host networks p w3) (λ q w4 t4.
                  Ends->>= _ _ w4 _ _ (asked_result host.open_journal w4)
                    (λ _ w5 (_, (j5, c5, n5, m5, r5)).
                      Ends-weaken _ w5 _ _ (finish_cleanup-Ends q w5) (λ _ end (calm, (e6, c6, n6)).
                        let same : w5.journal ≡ w.journal =
                          j5 ∙ t4.same_journal ∙ j3 ∙ t2.same_journal ∙ j1 in
                        let active : q.active_resources ≡ (any_runs items || any_used networks) =
                          ground (arith, t4.noted, t2.noted) in
                        (
                          items,
                          (
                            networks,
                            (w.now, listed),
                            (w2.now, listed'),
                            IsLeft-first (idle_containers items) _ _ _ _ _ _ c1
                                (t2.left (t4.no_error calm)) c3 (t4.left calm) (c6 ∙ c5),
                            IsLeft-last (idle_networks networks) _ _ _ _ _ _ n1
                                (t2.left_over (t4.no_error calm)) n3 (t4.left_over calm) (n6 ∙ n5),
                            e6
                                ∙ ap
                                    (λ j.
                                      map event_of j.tables.events
                                      ++ (if q.active_resources
                                          then []
                                          else destructions (unfinished_rows j.tables.jobs)))
                                    same
                                ∙ ap
                                    (λ b.
                                      events w
                                      ++ (if b
                                          then []
                                          else destructions
                                              (unfinished_rows w.journal.tables.jobs)))
                                    active,
                          ),
                        )))))))

  -- A clean-up that succeeds has removed the containers that the engine listed and that do not run, and
  -- the networks that it listed and that no container is attached to, none of which the engine has
  -- refused to remove, and nothing else; and it has recorded every job that the journal holds as
  -- unfinished as destroying and destroyed, in order, where nothing listed is in use, and no event
  -- where something is.
  pub cleanup_lem : (w end : World) → cleanup host w ≡ (ok tt, end) → IsCleaned w end
  unfolding Ends
  cleanup_lem w end h = cleanup-Ends w tt end h
