-- ===== src/Docker/Passed.antt =====
-- What the commands of a round are, and when the history holds a whole one.
use ai_kodu_runner.Base.{
  Text, Bool, true, Option, none, some, is_zero, List, [], ◌∷◌, ◌++◌, map, ok, ◌≡◌, refl, ap, ◌∙◌,
}
use mathlib.Core.List.{append_assoc}
use ai_kodu_runner.Protocol.{CommandSpec, VerifierSpec, WorkflowSpec}
use ai_kodu_runner.Docker.Engine.{ExecResult, Ran, World}
use ai_kodu_runner.Docker.Flow.{Round, verifier_command}

-- A command of a round, and whether its failure fails the round.
abbrev pub Expected : Type 0
Expected = CommandSpec × Bool

abbrev pub verifier_expected : VerifierSpec → Expected
verifier_expected v = (verifier_command v, v.required)

abbrev pub all_required : List CommandSpec → List Expected
all_required cs = map (λ c. (c, true)) cs

abbrev pub published : Option CommandSpec → List Expected
published none = []
published (some c) = (c, true) ∷ []

-- A whole round: the agent, the verifiers, the runner's own, and the publication where there is one.
abbrev pub expected_round : (mandatory : List CommandSpec) → WorkflowSpec → List Expected
expected_round mandatory workflow =
    (workflow.agent, true)
    ∷ (map verifier_expected workflow.verifiers
        ++ (all_required mandatory ++ published workflow.publish))

-- A command ran as expected: in the container, to its own end, and with exit code 0 if it must.
abbrev pub RanAs : (id : Text) → Expected → Ran → Type 0
RanAs id (c, required) r =
    (r.container ≡ id)
    × (r.command ≡ c)
    × ((result : ExecResult) × (r.result ≡ ok result)
        × (result.termination ≡ none)
        × (required ≡ true → is_zero result.status ≡ true))

-- The commands ran as expected, one for one and in order.
abbrev pub AllRanAs : (id : Text) → List Expected → List Ran → Type 0
AllRanAs id [] [] = Unit
AllRanAs id (e ∷ es) (r ∷ rs) = RanAs id e r × AllRanAs id es rs
AllRanAs id [] (r ∷ rs) = ⊥
AllRanAs id (e ∷ es) [] = ⊥

AllRanAs-append :
    (id : Text) (es fs : List Expected) (rs ss : List Ran)
    → AllRanAs id es rs
    → AllRanAs id fs ss
    → AllRanAs id (es ++ fs) (rs ++ ss)
AllRanAs-append id [] fs [] ss p q = q
AllRanAs-append id (e ∷ es) fs (r ∷ rs) ss (h, p) q = (h, AllRanAs-append id es fs rs ss p q)
AllRanAs-append id [] fs (r ∷ rs) ss p q = absurd p
AllRanAs-append id (e ∷ es) fs [] ss p q = absurd p

-- After the world's history, commands have run as expected.
abbrev pub HasRun : (id : Text) → List Expected → World → World → Type 0
HasRun id es w end = (rs : List Ran) × (end.history ≡ w.history ++ rs) × AllRanAs id es rs

-- Nothing has ended the round, and everything has passed.
abbrev pub IsPassed : Round → Type 0
IsPassed round = (round.flow.termination ≡ none) × (round.all_passed ≡ true)

pub HasRun-trans :
    (id : Text) (es fs : List Expected) (a b c : World)
    → HasRun id es a b
    → HasRun id fs b c
    → HasRun id (es ++ fs) a c
HasRun-trans id es fs a b c (rs, before, p) (ss, after, q) = (
  rs ++ ss,
  after ∙ ap (λ h. h ++ ss) before ∙ append_assoc a.history rs ss,
  AllRanAs-append id es fs rs ss p q,
)

pub HasRun-one :
    (id : Text) (c : CommandSpec) (required : Bool) (r : ExecResult) (w end : World)
    → r.termination ≡ none
    → end.history ≡ w.history ++ record { container = id; command = c; result = ok r } ∷ []
    → (required ≡ true → is_zero r.status ≡ true)
    → HasRun id ((c, required) ∷ []) w end
HasRun-one id c required r w end unended noted good = (
  record { container = id; command = c; result = ok r } ∷ [],
  noted,
  ((refl, refl, (r, refl, unended, good)), tt),
)

-- What a part of a round promises: the status stays, and where the round has passed after it, it had
-- passed before, and the part's commands have run as expected.
abbrev pub Promise : (id : Text) → List Expected → World → Round → Round → World → Type 0
Promise id es w before after end =
    (after.flow.final_status ≡ before.flow.final_status)
    × (IsPassed after → IsPassed before × HasRun id es w end)
