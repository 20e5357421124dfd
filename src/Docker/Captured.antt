-- ===== src/Docker/Captured.antt =====
-- What the log loop captures.
use ai_kodu_runner.Base.{
  ℕ, ◌+◌, ◌-◌, ◌≤◌, false, List, [], ◌∷◌, ◌++◌, length, length-append, length-take, take_all, min,
  ok, ◌≡◌, ap, ◌∙◌, arith,
}
use mathlib.Core.List.{append_assoc, append-nil}
use ai_kodu_runner.Docker.Output.{
  LogTurn, cancelled, timed_out, std_out, std_err, other, failed, LogState, no_log, accept,
  log_loop,
}

-- The bytes that one of the streams has up to the turn that stops the loop.
abbrev pub written_out : List LogTurn → List ℕ
written_out [] = []
written_out (cancelled ∷ rest) = []
written_out (timed_out ∷ rest) = []
written_out (std_out message ∷ rest) = message ++ written_out rest
written_out (std_err message ∷ rest) = written_out rest
written_out (other ∷ rest) = written_out rest
written_out (failed e ∷ rest) = []

abbrev pub written_err : List LogTurn → List ℕ
written_err [] = []
written_err (cancelled ∷ rest) = []
written_err (timed_out ∷ rest) = []
written_err (std_out message ∷ rest) = written_err rest
written_err (std_err message ∷ rest) = message ++ written_err rest
written_err (other ∷ rest) = written_err rest
written_err (failed e ∷ rest) = []

-- The count is that of both streams, and within the limit.
pub record IsBounded (max_log_bytes : ℕ) (s : LogState) : Type 0 where
  pub counted : s.log_bytes ≡ length s.stdout + length s.stderr
  pub within : s.log_bytes ≤ max_log_bytes

module _ (max_log_bytes : ℕ) where
  accept_lem :
      (s : LogState) (message : List ℕ)
      → s.log_bytes ≤ max_log_bytes
      → let (kept, after) = accept max_log_bytes s message in
        (after.log_bytes ≡ s.log_bytes + length kept)
        × (after.log_bytes ≤ max_log_bytes)
        × (after.truncated ≡ false → (s.truncated ≡ false) × (kept ≡ message))
  unfolding accept
  accept_lem s message h =
      let n = min (length message) (max_log_bytes - s.log_bytes) in
      ground (arith, h, length-take n message, take_all n message)

  -- The streams are as they were.
  out_kept :
      (s : LogState) (message : List ℕ) → (accept max_log_bytes s message).1.stdout ≡ s.stdout
  unfolding accept
  out_kept s message = ground arith

  err_kept :
      (s : LogState) (message : List ℕ) → (accept max_log_bytes s message).1.stderr ≡ s.stderr
  unfolding accept
  err_kept s message = ground arith

  out_same :
      (s : LogState) (message : List ℕ)
      → length (accept max_log_bytes s message).1.stdout ≡ length s.stdout
  out_same s message = ap length (out_kept s message)

  err_same :
      (s : LogState) (message : List ℕ)
      → length (accept max_log_bytes s message).1.stderr ≡ length s.stderr
  err_same s message = ap length (err_kept s message)

  loop_lem :
      (s : LogState) (turns : List LogTurn) (end : LogState)
      → IsBounded max_log_bytes s
      → log_loop max_log_bytes s turns ≡ ok end
      → IsBounded max_log_bytes end
        × (end.truncated ≡ false
            → (s.truncated ≡ false)
              × (end.stdout ≡ s.stdout ++ written_out turns)
              × (end.stderr ≡ s.stderr ++ written_err turns))
  unfolding log_loop
  loop_lem s [] end w h = (
    record { counted = ground (arith, h, w.counted); within = ground (arith, h, w.within) },
    λ t. (
      ground (arith, h, t),
      ground (arith, h, append-nil s.stdout),
      ground (arith, h, append-nil s.stderr),
    ),
  )
  loop_lem s (cancelled ∷ turns) end w h = (
    record { counted = ground (arith, h, w.counted); within = ground (arith, h, w.within) },
    λ t. (
      ground (arith, h, t),
      ground (arith, h, append-nil s.stdout),
      ground (arith, h, append-nil s.stderr),
    ),
  )
  loop_lem s (timed_out ∷ turns) end w h = (
    record { counted = ground (arith, h, w.counted); within = ground (arith, h, w.within) },
    λ t. (
      ground (arith, h, t),
      ground (arith, h, append-nil s.stdout),
      ground (arith, h, append-nil s.stderr),
    ),
  )
  loop_lem s (failed e ∷ turns) end w h = cc
  loop_lem s (other ∷ turns) end w h = loop_lem s turns end w h
  loop_lem s (std_out message ∷ turns) end w h =
      let (count, within, whole) = accept_lem s message w.within in
      let kept = (accept max_log_bytes s message).0 in
      let after = (accept max_log_bytes s message).1 in
      let (bounded, captured) =
        loop_lem (record after { stdout = s.stdout ++ kept }) turns end
          (record {
            counted =
                omega (arith, count, w.counted, length-append s.stdout kept, err_same s message);
            within = within;
          })
          h in
      (
        bounded,
        λ t.
            let (none_cut, out, error) = captured t in
            let (start, all) = whole none_cut in
            (
              start,
              out
                  ∙ ap (λ k. (s.stdout ++ k) ++ written_out turns) all
                  ∙ append_assoc s.stdout message (written_out turns),
              error ∙ ap (λ k. k ++ written_err turns) (err_kept s message),
            ),
      )
  loop_lem s (std_err message ∷ turns) end w h =
      let (count, within, whole) = accept_lem s message w.within in
      let kept = (accept max_log_bytes s message).0 in
      let after = (accept max_log_bytes s message).1 in
      let (bounded, captured) =
        loop_lem (record after { stderr = s.stderr ++ kept }) turns end
          (record {
            counted =
                omega (arith, count, w.counted, length-append s.stderr kept, out_same s message);
            within = within;
          })
          h in
      (
        bounded,
        λ t.
            let (none_cut, out, error) = captured t in
            let (start, all) = whole none_cut in
            (
              start,
              out ∙ ap (λ k. k ++ written_out turns) (out_kept s message),
              error
                  ∙ ap (λ k. (s.stderr ++ k) ++ written_err turns) all
                  ∙ append_assoc s.stderr message (written_err turns),
            ),
      )

  -- A log loop that ends without a failure of the stream has captured at most the limit, both streams
  -- together; and where it reports no truncation, each stream is what the container wrote to it up to
  -- the end of the loop.
  pub log_loop_lem :
      (turns : List LogTurn) (end : LogState)
      → log_loop max_log_bytes no_log turns ≡ ok end
      → (length end.stdout + length end.stderr ≤ max_log_bytes)
        × (end.truncated ≡ false
            → (end.stdout ≡ written_out turns) × (end.stderr ≡ written_err turns))
  log_loop_lem turns end h =
      let (bounded, captured) =
        loop_lem no_log turns end (record { counted = omega arith; within = omega arith }) h in
      (
        omega (arith, bounded.counted, bounded.within),
        λ t. let (_, out, error) = captured t in (out, error),
      )
