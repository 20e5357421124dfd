-- ===== src/Workspace/Download.antt =====
-- `download_archive`: the request, the chunks as they arrive and the unpacking. The URL parser, the HTTP
-- client and the tar library are parameters.
use ai_kodu_runner.Base.{
  ℕ, ◌+◌, min, Text, text, text_eq, Bool, false, not, Option, none, some, List, [], ◌∷◌, ◌++◌,
  length, Result, ok, err, bail, ◌>>=◌, ◌>>◌, bail_if, ltb, if◌then◌else◌,
}
use ai_kodu_runner.Config.{Limits}
use ai_kodu_runner.Workspace.Archive.{ArchiveTurn, ArchiveEntry, unpack}

-- What `select!` takes while an archive is downloaded.
pub data Arrival : Type 0 where
  chunk : Result (List ℕ) → Arrival
  stopped expired : Arrival

-- The answer to the download's request, its chunks as they arrive.
pub record Download : Type 0 where
  pub content_length : Option ℕ
  pub bytes_stream : List Arrival

-- `saturating_add` of 64 bits
abbrev pub saturating_add : ℕ → ℕ → ℕ
saturating_add a b = min (a + b) 18446744073709551615

unfoldable pub download_loop : Limits → (received : List ℕ) → List Arrival → Result (List ℕ)
download_loop limits received [] = ok received
download_loop limits received (stopped ∷ rest) = err (bail (text "workspace preparation cancelled"))
download_loop limits received (expired ∷ rest) = err (bail (text "workspace preparation timed out"))
download_loop limits received (chunk (err e) ∷ rest) = err e
download_loop limits received (chunk (ok c) ∷ rest) =
    let more = download_loop limits (received ++ c) rest in
    if ltb limits.max_archive_download_bytes (saturating_add (length received) (length c))
    then err (bail (text "archive download limit exceeded"))
    else more

-- `length > limits.max_archive_download_bytes` for the length that is announced, if it is
abbrev pub is_too_long : Limits → Option ℕ → Bool
is_too_long limits none = false
is_too_long limits (some n) = ltb limits.max_archive_download_bytes n

module _ (parse_scheme : Text → Result Text) (get : (url : Text) → Result Download)
    (entries : List ℕ → Result (List ArchiveTurn)) where
  -- `get` fails where the request does, and where the run is cancelled or late before the answer.
  unfoldable pub download_archive : Limits → (to url : Text) → Result (List ArchiveEntry)
  unfolding download_loop
  download_archive limits to url = do
    scheme ← parse_scheme url
    bail_if (not (text_eq scheme (text "https"))) (text "archive URL must use HTTPS")
    response ← get url
    bail_if (is_too_long limits response.content_length) (text "archive download limit exceeded")
    received ← download_loop limits [] response.bytes_stream
    turns ← entries received
    unpack limits to turns
