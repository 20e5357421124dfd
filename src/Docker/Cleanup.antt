-- ===== src/Docker/Cleanup.antt =====
-- `cleanup`: the removal of what is left of this runner's jobs. The engine lists the containers and
-- networks that carry the runner's labels.
use ai_kodu_runner.Base.{
  ℕ, Text, text, text_eq, is_empty, Bool, true, false, not, Option, none, some, List, [], ◌∷◌, ◌++◌,
  Result, ok, err, bail, to_string,
}
use ai_kodu_runner.Lifecycle.{State, destroying, destroyed}
use ai_kodu_runner.Journal.{transition, unfinished}
use ai_kodu_runner.Docker.Engine.{
  ContainerSummary, NetworkSummary, Host, Run, pure, fail, ask, ask_result, journaled, update,
  ◌>>=◌, ◌>>◌,
}
use ai_kodu_runner.Docker.Resources.{left_after, refused_after}

-- Whether anything is in use, and the first error.
pub record Progress : Type 0 where
  pub active_resources : Bool
  pub cleanup_error : Option Text

abbrev pub no_progress : Progress
no_progress = record { active_resources = false; cleanup_error = none }

-- `cleanup_error.get_or_insert(…)` on an error
abbrev pub note_error : Result (Unit {0}) → Progress → Progress
note_error (ok tt) p = p
note_error (err e) p = record p {
  cleanup_error = elim p.cleanup_error [ none ↦ some (to_string e) | some first ↦ some first ];
}

abbrev pub is_running : ContainerSummary → Bool
is_running c = elim c.state [ none ↦ false | some s ↦ text_eq s (text "running") ]

abbrev pub is_attached : NetworkSummary → Bool
is_attached n = elim n.containers [ none ↦ false | some cs ↦ not (is_empty cs) ]

module _ (host : Host) where
  -- A container that runs is left alone.
  unfoldable pub clean_containers : List ContainerSummary → Progress → Run Progress
  clean_containers [] p = pure p
  clean_containers (c ∷ rest) p = elim (is_running c) [
    | true ↦ clean_containers rest (record p { active_resources = true })
    | false ↦ elim c.id [
      | none ↦ clean_containers rest p
      | some id ↦ do
        answer ← ask host.request
        update (λ w. record w {
          containers = left_after answer id w.containers;
          refused = refused_after answer id w.refused;
        })
        clean_containers rest (note_error answer p)
    ]
  ]

  -- A network with containers is left alone.
  unfoldable pub clean_networks : List NetworkSummary → Progress → Run Progress
  clean_networks [] p = pure p
  clean_networks (n ∷ rest) p = elim (is_attached n) [
    | true ↦ clean_networks rest (record p { active_resources = true })
    | false ↦ elim n.id [
      | none ↦ clean_networks rest p
      | some id ↦ do
        answer ← ask host.request
        update (λ w. record w {
          networks = left_after answer id w.networks;
          refused = refused_after answer id w.refused;
        })
        clean_networks rest (note_error answer p)
    ]
  ]

  unfoldable pub enter_state : Text × ℕ → State → Run (Unit {0})
  enter_state (id, attempt) state = do
    now ← ask host.clock
    journaled (transition now id attempt state)

  unfoldable pub destroy_jobs : List (Text × ℕ) → Run (Unit {0})
  unfolding enter_state
  destroy_jobs [] = pure tt
  destroy_jobs (job ∷ rest) = do
    enter_state job destroying
    enter_state job destroyed
    destroy_jobs rest

  unfoldable pub finish_cleanup : Progress → Run (Unit {0})
  unfolding destroy_jobs
  finish_cleanup p = elim p.cleanup_error [
    | some error ↦ fail (bail (text "cleanup incomplete: " ++ error))
    | none ↦ elim p.active_resources [
      | true ↦ pure tt
      | false ↦ do jobs ← journaled unfinished; destroy_jobs jobs
    ]
  ]

  unfoldable pub cleanup : Run (Unit {0})
  unfolding clean_containers clean_networks finish_cleanup
  cleanup = do
    items ← ask_result host.list_containers
    cleaned ← clean_containers items no_progress
    networks ← ask_result host.list_networks
    progress ← clean_networks networks cleaned
    ask_result host.open_journal
    finish_cleanup progress
