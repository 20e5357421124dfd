-- ===== src/Docker/Track.antt =====
-- What a job has recorded and what it has made, up to a point of its run.
use ai_kodu_runner.Base.{
  Error, ◌⊎◌, ℕ, Text, text_eq, text_eq_iff, member, true, false, ◌||◌, Option, none, some, List,
  [], ◌∷◌, ◌++◌, map, Result, ok, err, ◌≡◌, inl, inr, ap, sym, ◌∙◌, arith,
}
use mathlib.Core.List.{map-append}
use ai_kodu_runner.Protocol.{JobSpec}
use ai_kodu_runner.Lifecycle.{State, as_str}
use ai_kodu_runner.Journal.{EventRow, Journal, transition}
use ai_kodu_runner.Journal.Jobs.{transition_effect}
use ai_kodu_runner.Docker.Engine.{Host, World}
use ai_kodu_runner.Docker.Resources.{without, left_after, refused_after}
use ai_kodu_runner.Docker.Job.{Network}

-- An event without its time.
abbrev pub event_of : EventRow → Text × ℕ × Text
event_of r = (r.job_id, r.attempt, r.state)

-- A transition that succeeds is the next event.
pub transition_event :
    (now id : Text) (attempt : ℕ) (s : State) (j : Journal)
    → (transition now id attempt s j).0 ≡ ok tt
    → map event_of (transition now id attempt s j).1.tables.events
      ≡ map event_of j.tables.events ++ (id, attempt, as_str s) ∷ []
transition_event now id attempt s j done = elim (transition_effect now id attempt s j) [
  | inl (_, others, appended) ↦ ap (map event_of) appended ∙ map-append event_of j.tables.events _
  | inr ((e, refused), same) ↦ absurd (cc (sym done ∙ refused))
]

abbrev pub events : World → List (Text × ℕ × Text)
events w = map event_of w.journal.tables.events

abbrev pub entered : JobSpec → List State → List (Text × ℕ × Text)
entered spec states = map (λ s. (spec.id, spec.attempt, as_str s)) states

-- Whatever is in the first list is in the second or in the third.
abbrev pub Within : (xs own before : List Text) → Type 0
Within xs own before = (x : Text) → member x xs ≡ true → (member x own || member x before) ≡ true

abbrev pub listed : Option Text → List Text
listed none = []
listed (some id) = id ∷ []

abbrev pub network_ids : Network → List Text
network_ids network = listed network.id

-- What is noted as refused was so before, or the engine has refused a request.
abbrev pub AreRefused : Host → (before after : List Text) → Type 0
AreRefused host before after =
    (x : Text)
    → member x after ≡ true
    → (member x before ≡ true) ⊎ ((n : ℕ) × ((e : Error) × (host.request n ≡ err e)))

pub AreRefused-after :
    (host : Host) (answer : Result (Unit {0})) (n : ℕ) (id : Text) (before refused : List Text)
    → host.request n ≡ answer
    → AreRefused host before refused
    → AreRefused host before (refused_after answer id refused)
AreRefused-after host (ok tt) n id before refused asked h x there = h x there
AreRefused-after host (err e) n id before refused asked h x there = inr (n, (e, asked))

-- Since the state `start` the job has entered the states; and of its containers and networks those that
-- are still there are at most those listed and those that the engine has refused to remove.
pub record Track (host : Host) (spec : JobSpec) (states : List State)
    (containers networks : List Text) (start w : World) : Type 0 where
  pub logged : events w ≡ events start ++ entered spec states
  pub own_containers : Within w.containers containers (w.refused ++ start.containers)
  pub own_networks : Within w.networks networks (w.refused ++ start.networks)
  pub refusals : AreRefused host start.refused w.refused

kept_without :
    (id x : Text) (ys : List Text)
    → member x (without id ys) ≡ true
    → (member x ys ≡ true) × (text_eq id x ≡ false)
unfolding member without
kept_without id x [] h = cc
kept_without id x (y ∷ ys) h =
    ground (arith, kept_without id x ys, text_eq_iff id y, text_eq_iff id x, text_eq_iff y x)

Within-without :
    (id : Text) (xs own before : List Text)
    → Within xs (id ∷ own) before
    → Within (without id xs) own before
unfolding member
Within-without id xs own before h x there =
    let (was, other) = kept_without id x xs there in
    let found = h x was in ground (arith, found, other)

-- After a removal: it is there no longer, or it is refused.
pub Within-left_after :
    (answer : Result (Unit {0})) (id : Text) (xs own refused before : List Text)
    → Within xs (id ∷ own) (refused ++ before)
    → Within (left_after answer id xs) own (refused_after answer id refused ++ before)
unfolding member
Within-left_after (ok tt) id xs own refused before h x there =
    Within-without id xs own (refused ++ before) h x there
Within-left_after (err e) id xs own refused before h x there = ground (arith, h x there)

-- One more refusal changes nothing for what is there besides.
pub Within-refused_after :
    (answer : Result (Unit {0})) (id : Text) (xs own refused before : List Text)
    → Within xs own (refused ++ before)
    → Within xs own (refused_after answer id refused ++ before)
unfolding member
Within-refused_after (ok tt) id xs own refused before h x there = h x there
Within-refused_after (err e) id xs own refused before h x there = ground (arith, h x there)

pub Within-more :
    (id : Text) (xs own before : List Text)
    → Within xs own before
    → Within (id ∷ xs) (id ∷ own) before
unfolding member
Within-more id xs own before h x there = ground (arith, h x, there)

pub Within-refl : (refused xs : List Text) → Within xs [] (refused ++ xs)
unfolding member
Within-refl [] xs x there = there
Within-refl (r ∷ refused) xs x there = ground (arith, Within-refl refused xs x there)
