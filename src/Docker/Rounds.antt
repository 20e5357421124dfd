-- ===== src/Docker/Rounds.antt =====
-- The rounds of a workflow: what a round must run, and what each part of one promises.
use ai_kodu_runner.Base.{
  ℕ, Text, text, Bool, true, not, ◌&&◌, Option, none, some, is_some, is_zero, List, [], ◌∷◌, ◌++◌,
  map, ok, ◌≡◌, refl, sym, ◌∙◌, arith,
}
use mathlib.Core.List.{append-nil}
use ai_kodu_runner.Config.{RunnerConfig}
use ai_kodu_runner.Protocol.{CommandSpec, VerifierSpec, WorkflowSpec}
use ai_kodu_runner.Docker.Engine.{ExecResult, Host, World, pure}
use ai_kodu_runner.Docker.Flow.{Flow, Round, collect_output, verifier_command}
use ai_kodu_runner.Docker.Iterations.{
  judge, verifier_loop, mandatory_loop, publish_command, publish_round, first_round, check_round,
}
use ai_kodu_runner.Docker.Ends.{
  Ends, Ends-pure, Ends-weaken, Ends-test, Ends-option, Ends->>=, captured-Ends,
}
use ai_kodu_runner.Docker.Passed.{
  Expected, verifier_expected, all_required, published, IsPassed, HasRun-trans, HasRun-one, Promise,
}

module _ (config : RunnerConfig) (host : Host) where
  pub same_status :
      (r : ExecResult) (flow : Flow)
      → (collect_output config host r flow).final_status ≡ flow.final_status
  unfolding collect_output
  same_status r flow = refl

  same_termination :
      (r : ExecResult) (flow : Flow)
      → (collect_output config host r flow).termination ≡ flow.termination
  unfolding collect_output
  same_termination r flow = refl

  judged :
      (required : Bool) (title : Text) (r : ExecResult) (after : Flow) (round : Round)
      → ((judge config host required title r after round).flow.final_status ≡ after.final_status)
        × ((judge config host required title r after round).flow.termination ≡ after.termination)
        × ((judge config host required title r after round).all_passed ≡ true
            → (round.all_passed ≡ true) × (required ≡ true → is_zero r.status ≡ true))
  unfolding judge
  judged required title r after round = ground arith

  -- One verifier, then the others.
  verified :
      (id : Text) (c : CommandSpec) (required : Bool) (es : List Expected) (title : Text)
      (r : ExecResult) (round end : Round) (w between last : World)
      → r.termination ≡ none
      → between.history ≡ w.history ++ record { container = id; command = c; result = ok r } ∷ []
      → Promise id es between
          (judge config host required title r (collect_output config host r round.flow) round)
          end
          last
      → Promise id ((c, required) ∷ es) w round end last
  verified id c required es title r round end w between last unended noted (status, rest) =
      let after = collect_output config host r round.flow in
      let (kept, open_still, good) = judged required title r after round in
      (
        status ∙ kept ∙ same_status r round.flow,
        λ passed.
            let (still, ran) = rest passed in
            let (was, zero_status) = good still.1 in
            (
              (sym (same_termination r round.flow) ∙ sym open_still ∙ still.0, was),
              HasRun-trans id ((c, required) ∷ []) es w between last
                  (HasRun-one id c required r w between unended noted zero_status) ran,
            ),
      )

  verifier_loop-Ends :
      (id : Text) (vs : List VerifierSpec) (round : Round) (w : World)
      → Ends
          (verifier_loop config host id vs round)
          w
          (Promise id (map verifier_expected vs) w round)
  unfolding verifier_loop
  verifier_loop-Ends id [] round w =
      Ends-pure round w _ (refl, λ passed. (passed, ([], sym (append-nil w.history), tt)))
  verifier_loop-Ends id (v ∷ vs) round w =
      captured-Ends config host id _ _ round.flow _ _ w _
        (λ r t end.
          Ends-pure _ end _ (same_status r round.flow, λ passed. ground (arith, passed.0)))
        (λ r between unended noted.
          Ends-weaken _ between _ _ (verifier_loop-Ends id vs _ between) (λ after end.
            verified id (verifier_command v) v.required (map verifier_expected vs)
              (text "Verifier " ++ v.name) r round after w between end unended noted))

  mandatory_loop-Ends :
      (id : Text) (vs : List CommandSpec) (round : Round) (w : World)
      → Ends (mandatory_loop config host id vs round) w (Promise id (all_required vs) w round)
  unfolding mandatory_loop
  mandatory_loop-Ends id [] round w =
      Ends-pure round w _ (refl, λ passed. (passed, ([], sym (append-nil w.history), tt)))
  mandatory_loop-Ends id (v ∷ vs) round w =
      Ends-option round.flow.termination _ _ w _
        (λ _.
          captured-Ends config host id _ v round.flow _ _ w _
            (λ r t end.
              Ends-pure _ end _ (same_status r round.flow, λ passed. ground (arith, passed.0)))
            (λ r between unended noted.
              Ends-weaken _ between _ _ (mandatory_loop-Ends id vs _ between) (λ after end.
                verified id v true (all_required vs)
                  (text "Mandatory verifier " ++ host.debug_strings v.command) r round after w
                  between end unended noted)))
        (λ t ended. Ends-pure _ w _ (refl, λ passed. ground (arith, passed.0, ended)))

  published_round :
      (id : Text) (c : CommandSpec) (round : Round) (w : World)
      → IsPassed round
      → Ends (publish_command config host id c round) w (Promise id ((c, true) ∷ []) w round)
  unfolding publish_command
  published_round id c round w good =
      captured-Ends config host id _ c round.flow _ _ w _
        (λ r t end.
          Ends-pure _ end _ (same_status r round.flow, λ passed. ground (arith, passed.0)))
        (λ r between unended noted. Ends-pure _ between _ (
          ground (arith, same_status r round.flow),
          λ passed. (good, HasRun-one id c true r w between unended noted (λ _. passed.1)),
        ))

  publish_round-Ends :
      (id : Text) (workflow : WorkflowSpec) (round : Round) (w : World)
      → Ends
          (publish_round config host id workflow round)
          w
          (Promise id (published workflow.publish) w round)
  unfolding publish_round
  publish_round-Ends id workflow round w =
      Ends-test (not (is_some round.flow.termination) && round.all_passed) _ _ w _
        (λ due. by_command workflow.publish (ground (arith, due), ground (arith, due)))
        (λ shut. Ends-pure round w _ (refl, λ passed. ground (arith, shut, passed.0, passed.1)))
    where
      by_command :
          (publish : Option CommandSpec)
          → IsPassed round
          → Ends
              (elim publish [
                | some publish ↦ publish_command config host id publish round
                | none ↦ pure round
              ])
              w
              (Promise id (published publish) w round)
      by_command none good =
          Ends-pure round w _ (refl, λ passed. (good, ([], sym (append-nil w.history), tt)))
      by_command (some c) good = published_round id c round w good

  pub started :
      (iteration : ℕ) (r : ExecResult) (after : Flow)
      → (first_round config host iteration r after).flow.final_status ≡ after.final_status
  unfolding first_round
  started iteration r after = ground arith

  unfoldable pub checks : WorkflowSpec → List Expected
  checks workflow =
      map verifier_expected workflow.verifiers
      ++ (all_required config.security.mandatory_verifiers ++ published workflow.publish)

  pub check_round-Ends :
      (id : Text) (workflow : WorkflowSpec) (round : Round) (w : World)
      → Ends (check_round config host id workflow round) w (Promise id (checks workflow) w round)
  unfolding check_round checks
  check_round-Ends id workflow round w =
      let vs = map verifier_expected workflow.verifiers in
      let ms = all_required config.security.mandatory_verifiers in
      Ends->>= _ _ w _ _ (verifier_loop-Ends id workflow.verifiers round w) (λ r1 w1 (s1, p1).
        Ends->>= _ _ w1 _ _ (mandatory_loop-Ends id config.security.mandatory_verifiers r1 w1)
          (λ r2 w2 (s2, p2).
            Ends-weaken _ w2 _ _ (publish_round-Ends id workflow r2 w2) (λ r3 w3 (s3, p3). (
              s3 ∙ s2 ∙ s1,
              λ passed.
                  let (good2, ran3) = p3 passed in
                  let (good1, ran2) = p2 good2 in
                  let (good0, ran1) = p1 good1 in
                  (
                    good0,
                    HasRun-trans id vs (ms ++ published workflow.publish) w w1 w3 ran1
                        (HasRun-trans id ms (published workflow.publish) w1 w2 w3 ran2 ran3),
                  ),
            ))))
