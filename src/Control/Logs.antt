-- ===== src/Control/Logs.antt =====
-- The upload of log chunks. `answer n` is the outcome of the n-th call of `log_chunk`.
use ai_kodu_runner.Base.{
  ℕ, zero, suc, ◌+◌, Bool, true, false, not, ◌||◌, List, [], ◌∷◌, Error, if◌then◌else◌,
}
use ai_kodu_runner.Protocol.{LogChunk}

-- A call of the control plane: it answers, fails or times out.
pub data Answer : Type 0 where
  accepted : Answer
  rejected : Error → Answer
  timed_out : Answer

abbrev pub is_accepted : Answer → Bool
is_accepted accepted = true
is_accepted (rejected e) = false
is_accepted timed_out = false

abbrev pub log_upload_attempts : ℕ
log_upload_attempts = 3

-- The attempts that are left: whether the chunk is delivered, and how many calls have been made.
unfoldable pub upload_chunk : (ℕ → Answer) → (left calls : ℕ) → Bool × ℕ
upload_chunk answer zero calls = (false, calls)
upload_chunk answer (suc left) calls =
    let again = upload_chunk answer left (calls + 1) in
    if is_accepted (answer calls) then (true, calls + 1) else again

pub record Upload : Type 0 where
  pub loss : Bool
  pub delivered : List LogChunk
  pub calls : ℕ

unfoldable pub upload_logs : (ℕ → Answer) → (calls : ℕ) → List LogChunk → Upload
upload_logs answer calls [] = record { loss = false; delivered = []; calls = calls }
upload_logs answer calls (chunk ∷ chunks) =
    let (delivered, after) = upload_chunk answer log_upload_attempts calls in
    let rest = upload_logs answer after chunks in
    record {
      loss = not delivered || rest.loss;
      delivered = if delivered then chunk ∷ rest.delivered else rest.delivered;
      calls = rest.calls;
    }
