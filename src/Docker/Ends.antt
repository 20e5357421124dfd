-- ===== src/Docker/Ends.antt =====
-- What holds where a step on the executor's state succeeds, rule by rule.
use ai_kodu_runner.Base.{
  ℕ, Text, Bool, true, false, Option, none, some, [], ◌∷◌, ◌++◌, Result, ok, err, Error, ◌≡◌, refl,
  ap, sym, ◌∙◌, subst,
}
use ai_kodu_runner.Config.{RunnerConfig}
use ai_kodu_runner.Protocol.{CommandSpec}
use ai_kodu_runner.Docker.Engine.{
  ExecutionTermination, ExecResult, Host, World, Run, pure, fail, lift, on_error, journaled, ask,
  update, ◌>>=◌, >>=-eq-ok,
}
use ai_kodu_runner.Journal.{Action}
use ai_kodu_runner.Docker.Exec.{exec_command}
use ai_kodu_runner.Docker.Flow.{Flow, set_phase, collect_output, capture}
use ai_kodu_runner.Docker.Frame.{exec_command_noted}

-- Where the step succeeds from the state, its value and the state after it are as stated.
unfoldable pub Ends {ℓ} : {A : Type ℓ} → Run A → World → (A → World → Type 0) → Type ℓ
Ends {A = A} m w Q = (a : A) (end : World) → m w ≡ (ok a, end) → Q a end

pub any_end {ℓ} : {A : Type ℓ} (m : Run A) (w : World) → Ends m w (λ _ _. Unit)
unfolding Ends
any_end m w a end h = tt

module _ {ℓ} {A : Type ℓ} where
  pub Ends-pure : (a : A) (w : World) (Q : A → World → Type 0) → Q a w → Ends (pure a) w Q
  unfolding Ends
  Ends-pure a w Q q b end h =
      let value : a ≡ b = cc (ap (λ p. p.0) h) in
      let state : w ≡ end = ap (λ p. p.1) h in
      subst (λ v. Q v end) value (subst (λ v. Q a v) state q)

  pub Ends-weaken :
      (m : Run A) (w : World) (R Q : A → World → Type 0)
      → Ends m w R
      → ((a : A) (end : World) → R a end → Q a end)
      → Ends m w Q
  unfolding Ends
  Ends-weaken m w R Q p weaken a end h = weaken a end (p a end h)

  pub Ends-test :
      (b : Bool) (m k : Run A) (w : World) (Q : A → World → Type 0)
      → (b ≡ true → Ends m w Q)
      → (b ≡ false → Ends k w Q)
      → Ends (elim b [ true ↦ m | false ↦ k ]) w Q
  Ends-test true m k w Q p q = p refl
  Ends-test false m k w Q p q = q refl

  pub Ends-option {κ} :
      {B : Type κ} (o : Option B) (m : Run A) (k : B → Run A) (w : World) (Q : A → World → Type 0)
      → (o ≡ none → Ends m w Q)
      → ((b : B) → o ≡ some b → Ends (k b) w Q)
      → Ends (elim o [ none ↦ m | some b ↦ k b ]) w Q
  Ends-option none m k w Q p q = p refl
  Ends-option (some b) m k w Q p q = q b refl

  pub Ends-fail : (e : Error) (w : World) (Q : A → World → Type 0) → Ends (fail e) w Q
  unfolding Ends
  Ends-fail e w Q a end h = cc (ap (λ p. p.0) h)

  pub Ends-lift :
      (r : Result A) (w : World) (Q : A → World → Type 0)
      → ((a : A) → r ≡ ok a → Q a w)
      → Ends (lift r) w Q
  unfolding lift
  Ends-lift (ok a) w Q q = Ends-pure a w Q (q a refl)
  Ends-lift (err e) w Q q = Ends-fail e w Q

  pub Ends-journaled :
      (m : Action A) (w : World) (Q : A → World → Type 0)
      → ((a : A) → (m w.journal).0 ≡ ok a → Q a (record w { journal = (m w.journal).1 }))
      → Ends (journaled m) w Q
  unfolding Ends journaled
  Ends-journaled m w Q q a end h = subst (λ e. Q a e) (ap (λ p. p.1) h) (q a (ap (λ p. p.0) h))

  pub Ends-on_error :
      (m : Run A) (cleanup : Run (Unit {0})) (w : World) (Q : A → World → Type 0)
      → Ends m w Q
      → Ends (on_error m cleanup) w Q
  unfolding Ends on_error
  Ends-on_error m cleanup w Q q a end h =
      by_result (m w).0 (m w).1 (λ e. q a (m w).1 (ap (λ r. (r, (m w).1)) e)) h
    where
      by_result :
          (r : Result A) (after : World)
          → (r ≡ ok a → Q a after)
          → ◌≡◌ {A = Result A × World}
              (elim r [ ok a ↦ (ok a, after) | err e ↦ (err e, (cleanup after).1) ])
              (ok a, end)
          → Q a end
      by_result (ok b) after q h = subst (λ e. Q a e) (ap (λ p. p.1) h) (q (ap (λ p. p.0) h))
      by_result (err e) after q h = cc (ap (λ p. p.0) h)

  pub Ends-result {κ} :
      {B : Type κ} (r : Result B) (k : B → Run A) (m : Error → Run A) (w : World)
      (Q : A → World → Type 0)
      → ((b : B) → Ends (k b) w Q)
      → ((e : Error) → Ends (m e) w Q)
      → Ends (elim r [ ok b ↦ k b | err e ↦ m e ]) w Q
  Ends-result (ok b) k m w Q p q = p b
  Ends-result (err e) k m w Q p q = q e

  -- Asking leaves the history.
  pub Ends-ask : (f : ℕ → A) (w : World) → Ends (ask f) w (λ _ end. end.history ≡ w.history)
  unfolding Ends ask
  Ends-ask f w a end h = sym (ap (λ p. p.1.history) h)

pub Ends-update :
    (f : World → World) (w : World) (Q : Unit {0} → World → Type 0)
    → Q tt (f w)
    → Ends (update f) w Q
unfolding Ends update
Ends-update f w Q q a end h = subst (λ e. Q a e) (ap (λ p. p.1) h) q

module _ {ℓ κ} {A : Type ℓ} {B : Type κ} where
  pub Ends->>= :
      (m : Run A) (f : A → Run B) (w : World) (R : A → World → Type 0) (Q : B → World → Type 0)
      → Ends m w R
      → ((a : A) (between : World) → R a between → Ends (f a) between Q)
      → Ends (m >>= f) w Q
  unfolding Ends
  Ends->>= m f w R Q first next b end h =
      let (a, (between, done, rest)) = >>=-eq-ok m f w end h in
      next a between (first a between done) b end rest

module _ (config : RunnerConfig) (host : Host) where
  phase-Ends :
      (phase : Text) (w : World) → Ends (set_phase phase) w (λ _ end. end.history ≡ w.history)
  unfolding Ends set_phase update
  phase-Ends phase w a end h = sym (ap (λ p. p.1.history) h)

  exec_command-Ends :
      (id : Text) (c : CommandSpec) (w : World)
      → Ends (exec_command config.limits.max_log_bytes host id c) w (λ result end.
        end.history ≡ w.history ++ record { container = id; command = c; result = ok result } ∷ [])
  unfolding Ends
  exec_command-Ends id c w result end h =
      ap (λ p. p.1.history) (sym h)
      ∙ exec_command_noted config.limits.max_log_bytes host id c w
      ∙ ap (λ p. w.history ++ record { container = id; command = c; result = p.0 } ∷ []) h

  -- A command that ends is the last of the history, with its result, and its output is collected.
  pub capture-Ends :
      (id phase : Text) (c : CommandSpec) (flow : Flow) (w : World)
      → Ends (capture config host id phase c flow) w (λ (result, after) end.
        (after ≡ collect_output config host result flow)
        × (end.history
            ≡ w.history ++ record { container = id; command = c; result = ok result } ∷ []))
  unfolding capture
  capture-Ends id phase c flow w = Ends->>= _ _ w _ _ (phase-Ends phase w) (λ _ phased same.
      Ends->>= _ _ phased _ _ (exec_command-Ends id c phased) (λ result ran noted.
        Ends-pure _ ran _ (
          refl,
          noted
              ∙ ap (λ h. h ++ record { container = id; command = c; result = ok result } ∷ []) same,
        )))

  -- A command, then what is done by its termination.
  pub captured-Ends {ℓ} :
      {A : Type ℓ} (id phase : Text) (c : CommandSpec) (flow : Flow)
      (ended : ExecResult → Flow → ExecutionTermination → Run A) (next : ExecResult → Flow → Run A)
      (w : World) (Q : A → World → Type 0)
      → ((r : ExecResult) (t : ExecutionTermination) (end : World)
          → Ends (ended r (collect_output config host r flow) t) end Q)
      → ((r : ExecResult) (end : World)
          → r.termination ≡ none
          → end.history ≡ w.history ++ record { container = id; command = c; result = ok r } ∷ []
          → Ends (next r (collect_output config host r flow)) end Q)
      → Ends
          (capture config host id phase c flow >>= λ (r, after). elim r.termination [
            | some t ↦ ended r after t
            | none ↦ next r after
          ])
          w
          Q
  captured-Ends id phase c flow ended next w Q p q =
      Ends->>= _ _ w _ _ (capture-Ends id phase c flow w) (λ (r, after) end (kept, noted).
        subst (λ f. Ends (elim r.termination [ some t ↦ ended r f t | none ↦ next r f ]) end Q)
          (sym kept)
          (Ends-option r.termination _ _ end Q (λ unended. q r end unended noted)
            (λ t _. p r t end)))
