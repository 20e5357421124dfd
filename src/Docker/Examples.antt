-- ===== src/Docker/Examples.antt =====
-- Tests of the log and the status, and instances of their theorems.
use ai_kodu_runner.Base.{
  ℕ, Text, text_eq, ◌++◌, map, pos, text, true, false, none, some, List, [], ◌∷◌, Result, ok, err,
  bail, ◌≡◌, refl,
}
use ai_kodu_runner.Docker.Output.{
  LogTurn, timed_out, std_out, std_err, LogState, no_log, accept, log_loop, final_status,
}
use ai_kodu_runner.Protocol.{LogChunk}
use ai_kodu_runner.Docker.Stream.{
  Sending, full, LogStream, begin_log_stream, set_log_phase, chunks_from, chunks, on_sending,
  emit_chunk, emit_chunks, emit_log,
}
use ai_kodu_runner.Docker.Pieces.{Piece, Event, phase, output, Splits}
use ai_kodu_runner.Docker.Streamed.{AreChunks, play, log_stream_lem}

abbrev turns : List LogTurn
turns =
    std_out (1 ∷ 2 ∷ []) ∷ std_err (3 ∷ []) ∷ std_out (4 ∷ []) ∷ timed_out ∷ std_out (5 ∷ []) ∷ []

abbrev whole : LogState
whole = record {
  stdout = 1 ∷ 2 ∷ 4 ∷ [];
  stderr = 3 ∷ [];
  log_bytes = 4;
  truncated = false;
  cancellation_requested = false;
  timeout_requested = true;
}

abbrev published : Result (Unit {0})
published = ok tt

log_tests :
    (log_loop 4 no_log turns ≡ ok whole)
    × (log_loop 3 no_log turns
        ≡ ok (record whole { stdout = 1 ∷ 2 ∷ []; log_bytes = 3; truncated = true }))
    × (final_status whole false true (pos 0) published ≡ (text "timed_out", none))
    × (final_status no_log false false (pos 0) (err (bail [])) ≡ (text "failed", some (pos 1)))
unfolding log_loop accept final_status
log_tests = (refl, refl, refl, refl)

abbrev lossy : List ℕ → Text
lossy bytes = bytes

abbrev full_channel : ℕ → Sending
full_channel n = full

abbrev silent : LogStream
silent = record { context = none; log_sequence = 7; dropped_log_chunks = 0; offered = [] }

abbrev events : List Event
events =
    output (text "stdout") (1 ∷ 2 ∷ [])
    ∷ phase (text "verify")
    ∷ output (text "stderr") (3 ∷ [])
    ∷ []

stream_tests :
    (map (λ c. c.sequence) (play lossy full_channel events (begin_log_stream [] 1 silent)).offered
      ≡ 1 ∷ 2 ∷ [])
    × (map (λ c. c.phase) (play lossy full_channel events (begin_log_stream [] 1 silent)).offered
        ≡ text "running" ∷ text "verify" ∷ [])
    × ((play lossy full_channel events (begin_log_stream [] 1 silent)).dropped_log_chunks ≡ 2)
    × (chunks 2 (1 ∷ 2 ∷ 3 ∷ []) ≡ (1 ∷ 2 ∷ []) ∷ (3 ∷ []) ∷ [])
unfolding play begin_log_stream set_log_phase emit_log emit_chunks emit_chunk on_sending chunks
    chunks_from text text_eq
stream_tests = (refl, refl, refl, refl)

log_stream_lem_example :
    (pieces : List Piece) × ((new : List LogChunk) × ((play lossy full_channel events
          (begin_log_stream [] 1 silent)).offered
        ≡ [] ++ new)
      × AreChunks lossy full_channel 1 1 new pieces)
    × Splits (text "running") events pieces
log_stream_lem_example = log_stream_lem lossy full_channel [] 1 events silent
