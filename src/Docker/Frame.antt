-- ===== src/Docker/Frame.antt =====
-- What the commands of a workflow leave as it is: the journal, the containers and the networks,
-- and what containers have been made with.
use ai_kodu_runner.Base.{
  ℕ, ◌+◌, ℤ, Text, Bool, true, false, Option, none, some, List, [], ◌∷◌, ◌++◌, Result, ok, err,
  Error, ◌≡◌, refl, ◌∙◌,
}
use ai_kodu_runner.Protocol.{CommandSpec}
use ai_kodu_runner.Docker.Output.{LogTurn}
use ai_kodu_runner.Docker.Engine.{
  Pick, cancels, expires, takes, StartExecResults, attached, detached, Script, Host, World, Run,
  pure, fail, proceed, ask, ask_result, update, look, ◌>>=◌,
}
use ai_kodu_runner.Docker.Exec.{
  append_bounded, interrupt, emit, exec_loop, exec_started, exec_created, exec_command,
}
use ai_kodu_runner.Docker.Flow.{set_phase}

-- The second state has the journal, the containers and the networks of the first; between them no
-- container has been made and no removal has been refused.
abbrev pub Keeps : World → World → Type 0
Keeps w end =
    (end.journal ≡ w.journal)
    × (end.containers ≡ w.containers)
    × (end.networks ≡ w.networks)
    × (end.made ≡ w.made)
    × (end.refused ≡ w.refused)

Keeps-trans : (a b c : World) → Keeps a b → Keeps b c → Keeps a c
Keeps-trans a b c (j, k, n, m, r) (j', k', n', m', r') = (j' ∙ j, k' ∙ k, n' ∙ n, m' ∙ m, r' ∙ r)

-- Every run of the step keeps them.
unfoldable pub IsQuiet {ℓ} : {A : Type ℓ} → Run A → Type 0
IsQuiet m = (w : World) → Keeps w (m w).1

module _ {ℓ κ} {A : Type ℓ} {B : Type κ} where
  proceed_quiet :
      (r : Result A) (f : A → Run B)
      → ((a : A) → IsQuiet (f a))
      → (w : World) → Keeps w (proceed r f w).1
  unfolding IsQuiet
  proceed_quiet (ok a) f q w = q a w
  proceed_quiet (err e) f q w = (refl, refl, refl, refl, refl)

  pub >>=-IsQuiet :
      (m : Run A) (f : A → Run B) → IsQuiet m → ((a : A) → IsQuiet (f a)) → IsQuiet (m >>= f)
  unfolding ◌>>=◌ IsQuiet
  >>=-IsQuiet m f q r w =
      Keeps-trans w (m w).1 (proceed (m w).0 f (m w).1).1 (q w) (proceed_quiet (m w).0 f r (m w).1)

module _ {ℓ} {A : Type ℓ} where
  pub pure-IsQuiet : (a : A) → IsQuiet (pure a)
  unfolding IsQuiet
  pure-IsQuiet a w = (refl, refl, refl, refl, refl)

  pub ask-IsQuiet : (f : ℕ → A) → IsQuiet (ask f)
  unfolding ask IsQuiet
  ask-IsQuiet f w = (refl, refl, refl, refl, refl)

  pub ask_result-IsQuiet : (f : ℕ → Result A) → IsQuiet (ask_result f)
  unfolding ask_result IsQuiet
  ask_result-IsQuiet f w = (refl, refl, refl, refl, refl)

module _ (max_log_bytes : ℕ) (host : Host) where
  -- Within a command the history is kept as well.
  exec_loop_kept :
      (id : Text) (answer : Result (Option ℤ)) (turns : List LogTurn) (out error : List ℕ)
      (cut : Bool) (w : World)
      → let end = (exec_loop max_log_bytes host id answer out error cut turns w).1 in
        (end.history ≡ w.history) × Keeps w end
  unfolding exec_loop interrupt emit append_bounded
  exec_loop_kept id answer [] out error cut w = (refl, (refl, refl, refl, refl, refl))
  exec_loop_kept id answer (LogTurn.cancelled ∷ rest) out error cut w =
      (refl, (refl, refl, refl, refl, refl))
  exec_loop_kept id answer (LogTurn.timed_out ∷ rest) out error cut w =
      (refl, (refl, refl, refl, refl, refl))
  exec_loop_kept id answer (LogTurn.std_out message ∷ rest) out error cut w =
      exec_loop_kept id answer rest _ error _ _
  exec_loop_kept id answer (LogTurn.std_err message ∷ rest) out error cut w =
      exec_loop_kept id answer rest out _ _ _
  exec_loop_kept id answer (LogTurn.other ∷ rest) out error cut w =
      exec_loop_kept id answer rest out error cut w
  exec_loop_kept id answer (LogTurn.failed e ∷ rest) out error cut w =
      (refl, (refl, refl, refl, refl, refl))

  exec_started_kept :
      (id : Text) (script : Script) (start : Pick StartExecResults) (w : World)
      → let end = (exec_started max_log_bytes host id script start w).1 in
        (end.history ≡ w.history) × Keeps w end
  unfolding exec_started interrupt
  exec_started_kept id script cancels w = (refl, (refl, refl, refl, refl, refl))
  exec_started_kept id script expires w = (refl, (refl, refl, refl, refl, refl))
  exec_started_kept id script (takes (err e)) w = (refl, (refl, refl, refl, refl, refl))
  exec_started_kept id script (takes (ok (attached output))) w =
      exec_loop_kept id script.inspect_exec output [] [] false w
  exec_started_kept id script (takes (ok detached)) w = (refl, (refl, refl, refl, refl, refl))

  exec_created_kept :
      (id : Text) (script : Script) (create : Pick (Unit {0})) (w : World)
      → let end = (exec_created max_log_bytes host id script create w).1 in
        (end.history ≡ w.history) × Keeps w end
  unfolding exec_created interrupt
  exec_created_kept id script cancels w = (refl, (refl, refl, refl, refl, refl))
  exec_created_kept id script expires w = (refl, (refl, refl, refl, refl, refl))
  exec_created_kept id script (takes (err e)) w = (refl, (refl, refl, refl, refl, refl))
  exec_created_kept id script (takes (ok tt)) w = exec_started_kept id script script.start_exec w

  -- A command adds itself to the history, with its result.
  pub exec_command_noted :
      (id : Text) (c : CommandSpec) (w : World)
      → (exec_command max_log_bytes host id c w).1.history
        ≡ w.history
          ++ record {
            container = id;
            command = c;
            result = (exec_command max_log_bytes host id c w).0;
          }
            ∷ []
  unfolding exec_command
  exec_command_noted id c w =
      let script = host.script w.now in
      let kept = exec_created_kept id script script.create_exec (record w { now = w.now + 1 }) in
      rw (kept.0)

  pub exec_command-IsQuiet :
      (id : Text) (c : CommandSpec) → IsQuiet (exec_command max_log_bytes host id c)
  unfolding exec_command IsQuiet
  exec_command-IsQuiet id c w =
      let script = host.script w.now in
      (exec_created_kept id script script.create_exec (record w { now = w.now + 1 })).1

module _ {ℓ} {A : Type ℓ} where
  pub test-IsQuiet :
      (b : Bool) (m k : Run A) → IsQuiet m → IsQuiet k → IsQuiet (elim b [ true ↦ m | false ↦ k ])
  test-IsQuiet true m k p q = p
  test-IsQuiet false m k p q = q

  pub option-IsQuiet {κ} :
      {B : Type κ} (o : Option B) (m : Run A) (k : B → Run A)
      → IsQuiet m
      → ((b : B) → IsQuiet (k b))
      → IsQuiet (elim o [ none ↦ m | some b ↦ k b ])
  option-IsQuiet none m k p q = p
  option-IsQuiet (some b) m k p q = q b

-- The updates of the executor's own state.
pub phase-IsQuiet : (phase : Text) → IsQuiet (set_phase phase)
unfolding set_phase update IsQuiet
phase-IsQuiet phase w = (refl, refl, refl, refl, refl)

pub feedback-IsQuiet :
    (content : Text) → IsQuiet (update (λ w. record w { feedback = w.feedback ++ content ∷ [] }))
unfolding update IsQuiet
feedback-IsQuiet content w = (refl, refl, refl, refl, refl)

pub stop-IsQuiet : (id : Text) → IsQuiet (update (λ w. record w { stopped = w.stopped ++ id ∷ [] }))
unfolding update IsQuiet
stop-IsQuiet id w = (refl, refl, refl, refl, refl)

pub dropped-IsQuiet : IsQuiet (look (λ w. w.log.dropped_log_chunks))
unfolding look IsQuiet
dropped-IsQuiet w = (refl, refl, refl, refl, refl)

pub ruleset quiet = (
  >>=-IsQuiet, pure-IsQuiet, ask-IsQuiet, ask_result-IsQuiet, exec_command-IsQuiet, test-IsQuiet,
  option-IsQuiet, phase-IsQuiet, feedback-IsQuiet, stop-IsQuiet,
)

pub fail-IsQuiet {ℓ} : (A : Type ℓ) (e : Error) → IsQuiet {A = A} (fail e)
unfolding IsQuiet
fail-IsQuiet A e w = (refl, refl, refl, refl, refl)
