-- ===== src/Control/Beats.antt =====
-- When the heartbeat ends a job.
use ai_kodu_runner.Base.{
  Bool, true, false, none, some, List, [], ◌∷◌, Error, bail, ◌≡◌, refl, if◌then◌else◌, All,
}
use ai_kodu_runner.Control.Heartbeat.{
  go_on, cancel, lease_lost, Tick, shut_down, answered, refused, Beat, heartbeat_loop,
}

-- The control plane has not ended the job, and nobody has shut the runner down.
abbrev pub IsOngoing : Tick → Type 0
IsOngoing shut_down = ⊥
IsOngoing (answered go_on) = Unit
IsOngoing (answered cancel) = ⊥
IsOngoing (answered lease_lost) = ⊥
IsOngoing (refused e) = Unit

abbrev pub is_refused : Tick → Bool
is_refused (refused e) = true
is_refused _ = false

-- Three failures stand one after another.
abbrev pub three_refused : List Tick → Bool
three_refused (refused a ∷ refused b ∷ refused c ∷ rest) = true
three_refused (t ∷ rest) = three_refused rest
three_refused [] = false

abbrev pub lost : Beat
lost = record { decision = some lease_lost; cancels = true }

abbrev pub beating : Beat
beating = record { decision = none; cancels = false }

abbrev pub verdict : Bool → Beat
verdict three = if three then lost else beating

-- The count of failures stands for as many failed heartbeats before the ticks.
counted :
    (d e : Error) (ticks : List Tick)
    → All IsOngoing ticks
    → (heartbeat_loop 0 ticks ≡ verdict (three_refused ticks))
      × (heartbeat_loop 1 ticks ≡ verdict (three_refused (refused d ∷ ticks)))
      × (heartbeat_loop 2 ticks ≡ verdict (three_refused (refused d ∷ refused e ∷ ticks)))
unfolding heartbeat_loop
counted d e [] h = (refl, refl, refl)
counted d e (shut_down ∷ ticks) h = absurd h.0
counted d e (answered cancel ∷ ticks) h = absurd h.0
counted d e (answered lease_lost ∷ ticks) h = absurd h.0
counted d e (answered go_on ∷ ticks) h =
    let (none_yet, _, _) = counted d e ticks h.1 in (none_yet, none_yet, none_yet)
counted d e (refused f ∷ ticks) h =
    let (_, one, _) = counted f e ticks h.1 in
    let (_, _, two) = counted d f ticks h.1 in (one, two, refl)

-- While the control plane does not end the job and the runner is not shut down, the heartbeat ends
-- it, as a lost lease, exactly when three heartbeats in a row have failed.
pub heartbeat_loop_lem :
    (ticks : List Tick)
    → All IsOngoing ticks
    → heartbeat_loop 0 ticks ≡ verdict (three_refused ticks)
heartbeat_loop_lem ticks h = let (start, _, _) = counted (bail []) (bail []) ticks h in start
