-- ===== src/Docker/Stream.antt =====
-- The log stream of a job: `begin_log_stream`, `set_log_phase` and `emit_log`. What the channel
-- answers is a function of the number of chunks offered before.
use ai_kodu_runner.Base.{
  ℕ, zero, suc, ◌+◌, ◌*◌, ◌%◌, ◌^◌, Text, text, text_eq, Option, none, some, List, [], ◌∷◌, ◌++◌,
  length, take, drop, if◌then◌else◌,
}
use ai_kodu_runner.Protocol.{LogChunk}

-- The result of `try_send`.
pub data Sending : Type 0 where
  taken closed full : Sending

-- `offered` is what the code does not keep: every chunk handed to the channel, in order.
pub record LogStream : Type 0 where
  pub context : Option (Text × ℕ × Text)
  pub log_sequence : ℕ
  pub dropped_log_chunks : ℕ
  pub offered : List LogChunk

unfoldable pub begin_log_stream : (id : Text) → (attempt : ℕ) → LogStream → LogStream
begin_log_stream id attempt s = record s {
  context = some (id, attempt, text "running");
  log_sequence = 0;
  dropped_log_chunks = 0;
}

unfoldable pub set_log_phase : (phase : Text) → LogStream → LogStream
set_log_phase phase s = elim s.context [
  | none ↦ s
  | some (id, attempt, current) ↦ record s { context = some (id, attempt, phase) }
]

abbrev pub chunk_size : ℕ
chunk_size = 64 * 1024

-- The fuel is spent on one chunk each.
unfoldable pub chunks_from : (fuel n : ℕ) → List ℕ → List (List ℕ)
chunks_from zero n bytes = []
chunks_from (suc fuel) n [] = []
chunks_from (suc fuel) n (b ∷ bytes) = take n (b ∷ bytes) ∷ chunks_from fuel n (drop n (b ∷ bytes))

-- `bytes.chunks(n)`
unfoldable pub chunks : ℕ → List ℕ → List (List ℕ)
chunks n bytes = chunks_from (length bytes) n bytes

unfoldable pub on_sending : Sending → LogStream → LogStream
on_sending Sending.taken s = s
on_sending Sending.closed s = s
on_sending Sending.full s = record s { dropped_log_chunks = (s.dropped_log_chunks + 1) % 2 ^ 64 }

module _ (from_utf8_lossy : List ℕ → Text) (try_send : ℕ → Sending) where
  unfoldable pub emit_chunk :
      (attempt : ℕ) → (phase stream : Text) → LogStream → (chunk : List ℕ) → LogStream
  unfolding on_sending
  emit_chunk attempt phase stream s chunk =
      let sequence = (s.log_sequence + 1) % 2 ^ 64 in
      on_sending (try_send (length s.offered)) (record s {
        log_sequence = sequence;
        offered =
            s.offered
            ++ record {
              attempt = attempt;
              sequence = sequence;
              stream = stream;
              phase = phase;
              level = some (if text_eq stream (text "stderr") then text "warn" else text "info");
              message = from_utf8_lossy chunk;
            }
              ∷ [];
      })

  unfoldable pub emit_chunks :
      (attempt : ℕ) → (phase stream : Text) → LogStream → List (List ℕ) → LogStream
  unfolding emit_chunk
  emit_chunks attempt phase stream s [] = s
  emit_chunks attempt phase stream s (chunk ∷ rest) =
      emit_chunks attempt phase stream (emit_chunk attempt phase stream s chunk) rest

-- An executor without a sender emits nothing, and so does a stream that is not begun.
unfoldable pub emit_log :
    (List ℕ → Text)
    → Option (ℕ → Sending)
    → (stream : Text) → (bytes : List ℕ) → LogStream
    → LogStream
unfolding emit_chunks chunks
emit_log from_utf8_lossy none stream bytes s = s
emit_log from_utf8_lossy (some try_send) stream bytes s = elim s.context [
  | none ↦ s
  | some (id, attempt, phase) ↦
      emit_chunks from_utf8_lossy try_send attempt phase stream s (chunks chunk_size bytes)
]
