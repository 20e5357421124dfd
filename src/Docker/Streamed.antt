-- ===== src/Docker/Streamed.antt =====
-- The chunks of a job's log: their numbers, their phases, and the bytes that they carry.
use ai_kodu_runner.Base.{
  ℕ, suc, ◌+◌, ◌%◌, ◌^◌, Text, text, text_eq, some, List, [], ◌∷◌, ◌++◌, map, length, ◌≡◌, refl,
  sym, subst, ap, ◌∙◌, arith, if◌then◌else◌,
}
use mathlib.Core.List.{append_assoc, append-nil}
use ai_kodu_runner.Protocol.{LogChunk}
use ai_kodu_runner.Docker.Stream.{
  Sending, LogStream, begin_log_stream, set_log_phase, chunk_size, chunks, emit_chunk, emit_chunks,
  emit_log,
}
use ai_kodu_runner.Docker.Pieces.{
  phase, output, chunks_lem, length-map, Piece, Event, Splits, on_sending-keeps, phase_lem,
}

module _ (from_utf8_lossy : List ℕ → Text) (try_send : ℕ → Sending) where
  -- Chunks that carry the pieces, numbered from `n`, as far as 64 bits number them.
  abbrev pub AreChunks : (attempt n : ℕ) → List LogChunk → List Piece → Type 0
  AreChunks attempt n [] [] = Unit
  AreChunks attempt n (c ∷ cs) ((current, stream, part) ∷ pieces) =
      (c.attempt ≡ attempt)
      × (c.sequence ≡ n % 2 ^ 64)
      × (c.phase ≡ current)
      × (c.stream ≡ stream)
      × (c.message ≡ from_utf8_lossy part)
      × AreChunks attempt (suc n) cs pieces
  AreChunks attempt n _ _ = ⊥

  unfoldable pub play : List Event → LogStream → LogStream
  unfolding set_log_phase emit_log
  play [] s = s
  play (phase name ∷ rest) s = play rest (set_log_phase name s)
  play (output stream bytes ∷ rest) s =
      play rest (emit_log from_utf8_lossy (some try_send) stream bytes s)

  -- The state after chunks have been offered.
  abbrev Offers : (attempt n : ℕ) → (s after : LogStream) → List Piece → Type 0
  Offers attempt n s after pieces =
      (new : List LogChunk) × (after.offered ≡ s.offered ++ new)
      × AreChunks attempt (suc n) new pieces

  AreChunks-append :
      (attempt n : ℕ) (cs ds : List LogChunk) (ps qs : List Piece)
      → AreChunks attempt n cs ps
      → AreChunks attempt (n + length ps) ds qs
      → AreChunks attempt n (cs ++ ds) (ps ++ qs)
  AreChunks-append attempt n [] ds [] qs a b =
      subst (λ k. AreChunks attempt k ds qs) (omega arith) b
  AreChunks-append attempt n (c ∷ cs) ds (p ∷ ps) qs (at, seq, ph, st, m, rest) b = (
    at,
    seq,
    ph,
    st,
    m,
    AreChunks-append attempt (suc n) cs ds ps qs rest
        (subst (λ k. AreChunks attempt k ds qs) (omega arith) b),
  )
  AreChunks-append attempt n [] ds (p ∷ ps) qs a b = absurd a
  AreChunks-append attempt n (c ∷ cs) ds [] qs a b = absurd a

  -- One run of chunks after another.
  Offers-then :
      (attempt n : ℕ) (s s' after : LogStream) (ps qs : List Piece)
      → Offers attempt n s s' ps
      → Offers attempt (n + length ps) s' after qs
      → Offers attempt n s after (ps ++ qs)
  Offers-then attempt n s s' after ps qs (new, first, a) (more, second, b) = (
    new ++ more,
    second ∙ ap (λ r. r ++ more) first ∙ append_assoc s.offered new more,
    AreChunks-append attempt (suc n) new more ps qs a
        (subst (λ k. AreChunks attempt k more qs) (omega arith) b),
  )

  emit_chunk_lem :
      (attempt n : ℕ) (current stream : Text) (part : List ℕ) (s : LogStream)
      → s.log_sequence ≡ n % 2 ^ 64
      → let after = emit_chunk from_utf8_lossy try_send attempt current stream s part in
        Offers attempt n s after ((current, stream, part) ∷ [])
        × (after.log_sequence ≡ suc n % 2 ^ 64)
        × (after.context ≡ s.context)
  unfolding emit_chunk
  emit_chunk_lem attempt n current stream part s h =
      let sequence = (s.log_sequence + 1) % 2 ^ 64 in
      let c : LogChunk = record {
        attempt = attempt;
        sequence = sequence;
        stream = stream;
        phase = current;
        level = some (if text_eq stream (text "stderr") then text "warn" else text "info");
        message = from_utf8_lossy part;
      } in
      let s' : LogStream = record s { log_sequence = sequence; offered = s.offered ++ c ∷ [] } in
      let (offered, counted, kept) = on_sending-keeps (try_send (length s.offered)) s' in
      (
        ((c ∷ []), offered, (refl, omega (arith, h), refl, refl, refl, tt)),
        counted ∙ omega (arith, h),
        kept,
      )

  emit_chunks_lem :
      (attempt n : ℕ) (current stream : Text) (parts : List (List ℕ)) (s : LogStream)
      → s.log_sequence ≡ n % 2 ^ 64
      → let after = emit_chunks from_utf8_lossy try_send attempt current stream s parts in
        Offers attempt n s after (map (λ part. (current, stream, part)) parts)
        × (after.log_sequence ≡ (n + length parts) % 2 ^ 64)
        × (after.context ≡ s.context)
  unfolding emit_chunks
  emit_chunks_lem attempt n current stream [] s h =
      (([], sym (append-nil s.offered), tt), omega (arith, h), refl)
  emit_chunks_lem attempt n current stream (part ∷ parts) s h =
      let s' = emit_chunk from_utf8_lossy try_send attempt current stream s part in
      let after = emit_chunks from_utf8_lossy try_send attempt current stream s' parts in
      let pieces : List Piece = map (λ part. (current, stream, part)) parts in
      let (one, counted, kept) = emit_chunk_lem attempt n current stream part s h in
      let (many, counted', kept') =
        emit_chunks_lem attempt (suc n) current stream parts s' counted in
      (
        Offers-then attempt n s s' after ((current, stream, part) ∷ []) pieces one
            (subst (λ k. Offers attempt k s' after pieces) (omega arith) many),
        counted' ∙ omega arith,
        kept' ∙ kept,
      )

  emit_log_begun :
      (id : Text) (attempt : ℕ) (current stream : Text) (bytes : List ℕ) (s : LogStream)
      → s.context ≡ some (id, attempt, current)
      → emit_log from_utf8_lossy (some try_send) stream bytes s
        ≡ emit_chunks from_utf8_lossy try_send attempt current stream s (chunks chunk_size bytes)
  unfolding emit_log
  emit_log_begun id attempt current stream bytes s c = ground (arith, c)

  emit_log_lem :
      (id : Text) (attempt n : ℕ) (current stream : Text) (bytes : List ℕ) (s : LogStream)
      → s.context ≡ some (id, attempt, current)
      → s.log_sequence ≡ n % 2 ^ 64
      → let after = emit_log from_utf8_lossy (some try_send) stream bytes s in
        let parts = chunks chunk_size bytes in
        Offers attempt n s after (map (λ part. (current, stream, part)) parts)
        × (after.log_sequence ≡ (n + length parts) % 2 ^ 64)
        × (after.context ≡ s.context)
  emit_log_lem id attempt n current stream bytes s c h =
      rw (emit_log_begun id attempt current stream bytes s c)
        (emit_chunks_lem attempt n current stream (chunks chunk_size bytes) s h)

  -- What the events of a job offer to the channel, from any point on.
  play_lem :
      (id : Text) (attempt n : ℕ) (current : Text) (events : List Event) (s : LogStream)
      → s.context ≡ some (id, attempt, current)
      → s.log_sequence ≡ n % 2 ^ 64
      → (pieces : List Piece) × Offers attempt n s (play events s) pieces
        × Splits current events pieces
  unfolding play
  play_lem id attempt n current [] s c h = ([], ([], sym (append-nil s.offered), tt), refl)
  play_lem id attempt n current (phase name ∷ rest) s c h =
      let (kept, counted, renamed) = phase_lem id attempt current name s c in
      let (pieces, (new, offered, are), splits) =
        play_lem id attempt n name rest (set_log_phase name s) renamed (counted ∙ h) in
      (pieces, (new, offered ∙ ap (λ r. r ++ new) kept, are), splits)
  play_lem id attempt n current (output stream bytes ∷ rest) s c h =
      let parts = chunks chunk_size bytes in
      let s' = emit_log from_utf8_lossy (some try_send) stream bytes s in
      let (offers, counted, kept) = emit_log_lem id attempt n current stream bytes s c h in
      let (later, more, splits) =
        play_lem id attempt (n + length parts) current rest s' (kept ∙ c) counted in
      let own : List Piece = map (λ part. (current, stream, part)) parts in
      let (whole, short) = chunks_lem bytes in
      (
        own ++ later,
        Offers-then attempt n s s' (play rest s') own later offers (
            subst (λ k. Offers attempt k s' (play rest s') later)
              (omega (arith, length-map {B = Piece} (λ part. (current, stream, part)) parts)) more),
        (parts, later, refl, whole, short, splits),
      )

  -- What a job's log offers to the channel, after the log is begun: chunks under the attempt of the
  -- job, numbered 1, 2, 3 and so on modulo 2^64, each under the phase of its moment and the stream of
  -- its output, and the chunks of an output are at most 64 KiB each and together its bytes, in their
  -- order.
  pub log_stream_lem :
      (id : Text) (attempt : ℕ) (events : List Event) (s : LogStream)
      → (pieces : List Piece) × ((new : List LogChunk) × ((play events
              (begin_log_stream id attempt s)).offered
            ≡ s.offered ++ new)
          × AreChunks attempt 1 new pieces)
        × Splits (text "running") events pieces
  unfolding begin_log_stream
  log_stream_lem id attempt events s =
      play_lem id attempt 0 (text "running") events (begin_log_stream id attempt s) refl refl
