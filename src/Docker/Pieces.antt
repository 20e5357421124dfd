-- ===== src/Docker/Pieces.antt =====
-- The pieces that an output is offered in, and the events of a log.
use ai_kodu_runner.Base.{
  ℕ, zero, suc, ◌≤◌, ◌<◌, Text, some, List, [], ◌∷◌, ◌++◌, map, length, take, drop, concat, All,
  length-take, length-drop, take-append-drop, ◌≡◌, refl, ap, ◌∙◌, arith,
}
use ai_kodu_runner.Docker.Stream.{
  Sending, taken, closed, full, LogStream, set_log_phase, chunk_size, chunks_from, chunks,
  on_sending,
}

chunks_from_lem :
    (fuel n : ℕ) (bytes : List ℕ)
    → length bytes ≤ fuel
    → 0 < n
    → (concat (chunks_from fuel n bytes) ≡ bytes)
      × All (λ c. length c ≤ n) (chunks_from fuel n bytes)
unfolding chunks_from
chunks_from_lem zero n [] h pos = (refl, tt)
chunks_from_lem zero n (b ∷ bytes) h pos = absurd (omega arith)
chunks_from_lem (suc fuel) n [] h pos = (refl, tt)
chunks_from_lem (suc fuel) n (b ∷ bytes) h pos =
    let (same, short) =
      chunks_from_lem fuel n (drop n (b ∷ bytes)) (omega (arith, length-drop n (b ∷ bytes))) pos in
    (
      ap (λ r. take n (b ∷ bytes) ++ r) same ∙ take-append-drop n (b ∷ bytes),
      (omega (arith, length-take n (b ∷ bytes)), short),
    )

pub chunks_lem :
    (bytes : List ℕ)
    → (concat (chunks chunk_size bytes) ≡ bytes)
      × All (λ c. length c ≤ 65536) (chunks chunk_size bytes)
unfolding chunks
chunks_lem bytes = chunks_from_lem (length bytes) chunk_size bytes (omega arith) (omega arith)

pub length-map : {B : Type 0} (f : List ℕ → B) (xs : List (List ℕ)) → length (map f xs) ≡ length xs
length-map f [] = refl
length-map f (x ∷ xs) = ap suc (length-map f xs)

-- A piece of the output: the phase, the stream, the bytes.
abbrev pub Piece : Type 0
Piece = Text × Text × List ℕ

-- What the executor does with its log during a job.
pub data Event : Type 0 where
  phase : Text → Event
  output : (stream : Text) (bytes : List ℕ) → Event

-- The pieces of a sequence of events, each under the phase of its moment: the pieces of an output are
-- at most 64 KiB, and together its bytes.
abbrev pub Splits : (current : Text) → List Event → List Piece → Type 0
Splits current [] pieces = pieces ≡ []
Splits current (phase name ∷ rest) pieces = Splits name rest pieces
Splits current (output stream bytes ∷ rest) pieces =
    (parts : List (List ℕ)) × (later : List Piece) × (pieces
      ≡ map (λ part. (current, stream, part)) parts ++ later)
    × (concat parts ≡ bytes)
    × All (λ part. length part ≤ 65536) parts
    × Splits current rest later

-- Whether the channel takes a chunk changes only the count of those that are dropped.
pub on_sending-keeps :
    (answer : Sending) (s : LogStream)
    → ((on_sending answer s).offered ≡ s.offered)
      × ((on_sending answer s).log_sequence ≡ s.log_sequence)
      × ((on_sending answer s).context ≡ s.context)
unfolding on_sending
on_sending-keeps taken s = (refl, refl, refl)
on_sending-keeps closed s = (refl, refl, refl)
on_sending-keeps full s = (refl, refl, refl)

pub phase_lem :
    (id : Text) (attempt : ℕ) (current name : Text) (s : LogStream)
    → s.context ≡ some (id, attempt, current)
    → ((set_log_phase name s).offered ≡ s.offered)
      × ((set_log_phase name s).log_sequence ≡ s.log_sequence)
      × ((set_log_phase name s).context ≡ some (id, attempt, name))
unfolding set_log_phase
phase_lem id attempt current name s c = (ground (arith, c), ground (arith, c), ground (arith, c))
