-- ===== src/Control/Http.antt =====
-- src/control/http.rs: the requests to the control plane and what becomes of its answers. The client
-- library sends a request and gives a response or an error; it also prints and parses the bodies.
use ai_kodu_runner.Base.{
  ℕ, ◌==◌, leb, Text, text, decimal, ◌&&◌, ◌||◌, Option, none, some, List, [], ◌∷◌, ◌++◌, reverse,
  Result, ok, err, bail, ◌>>=◌, ◌>>◌, if◌then◌else◌,
}
use ai_kodu_runner.Config.{RunnerConfig, Environment, resolve_token}
use ai_kodu_runner.Protocol.{JobResult, LogChunk, Codec, from_json}
use ai_kodu_runner.Control.Heartbeat.{HeartbeatDecision, go_on, lease_lost}
use ai_kodu_runner.Control.Completion.{completion_idempotency_key}
use ai_kodu_runner.Control.Daemon.{LeasedJob}

pub record Request : Type 0 where
  pub url : Text
  pub headers : List (Text × Text)
  pub bearer : Text
  pub json : Option Text

pub record Response : Type 0 where
  pub status : ℕ
  pub body : Text

pub record HttpControlPlane : Type 0 where
  pub base : Text
  pub token : Text
  pub runner : Text

-- `Lease` as it is decoded: the job's document is printed again, and read by its version.
pub record RawLease (Value : Type 0) : Type 0 where
  pub lease_id : Text
  pub spec : Value

module _ (c : Codec) where
  unfoldable pub decode_lease :
      (raw_lease : Text → Result (RawLease c.Value))
      → (to_string : c.Value → Result Text) → (body : Text) → Result LeasedJob
  decode_lease raw_lease to_string body = do
    raw ← raw_lease body
    document ← to_string raw.spec
    spec ← from_json c document
    ok (record { lease_id = raw.lease_id; spec = spec })

-- `.context(message)?` on an option
abbrev pub require : Option Text → Text → Result Text
require none message = err (bail message)
require (some t) message = ok t

-- `client` is the result of building the HTTP client.
unfoldable pub new_plane :
    (client : Result (Unit {0})) → Environment → RunnerConfig → Result HttpControlPlane
new_plane client env config = do
  client
  base ← require config.server_url (text "server_url is required for daemon")
  token ← resolve_token env config
  present ← require token (text "runner_token is required for daemon")
  ok (record { base = base; token = present; runner = config.runner_id })

unfoldable pub trim_start_slashes : Text → Text
trim_start_slashes [] = []
trim_start_slashes (c ∷ s) = let rest = trim_start_slashes s in if c == b'/' then rest else c ∷ s

-- `base.trim_end_matches('/')`, then the path.
unfoldable pub endpoint : HttpControlPlane → (path : Text) → Text
unfolding trim_start_slashes
endpoint plane path = reverse (trim_start_slashes (reverse plane.base)) ++ path

-- `error_for_status()?`: the client and server errors.
unfoldable pub error_for_status : Response → Result Response
error_for_status r =
    if leb 400 r.status && leb r.status 599 then err (bail (text "HTTP status error")) else ok r

-- 204 goes on, and 409 or 410 says that the lease is lost, before the other errors are errors.
unfoldable pub heartbeat_response :
    (decode : Text → Result HeartbeatDecision) → Response → Result HeartbeatDecision
unfolding error_for_status
heartbeat_response decode r =
    if r.status == 204
    then ok go_on
    else if r.status == 409 || r.status == 410
    then ok lease_lost
    else error_for_status r >>= λ good. decode good.body

module _ (send : Request → Result Response) (plane : HttpControlPlane) where
  unfoldable pub request : Request → Result Response
  unfolding error_for_status
  request b = do r ← send (record b { bearer = plane.token }); error_for_status r

  abbrev pub post : (path : Text) → (headers : List (Text × Text)) → (json : Option Text) → Request
  post path headers json = record {
    url = endpoint plane path;
    headers = headers;
    bearer = [];
    json = json;
  }

  -- 204 says that there is no job.
  unfoldable pub request_lease :
      (runner_json : Text → Text) → (decode : Text → Result LeasedJob) → Result (Option LeasedJob)
  unfolding request endpoint
  request_lease runner_json decode = do
    r ← request (post (text "/v1/runner/lease") [] (some (runner_json plane.runner)))
    if r.status == 204 then ok none else (do job ← decode r.body; ok (some job))

  unfoldable pub complete :
      (to_json : JobResult → Text) → (lease : Text) → JobResult → Result (Unit {0})
  unfolding request endpoint
  complete to_json lease result = do
    r ← request (
        post (text "/v1/runner/jobs/" ++ (result.job_id ++ text "/complete"))
          ((text "x-lease-id", lease)
            ∷ (text "x-job-attempt", decimal result.attempt)
            ∷ (text "Idempotency-Key", completion_idempotency_key result.job_id result.attempt)
            ∷ [])
          (some (to_json result)))
    ok tt

  unfoldable pub heartbeat :
      (decode : Text → Result HeartbeatDecision) → (lease : Text) → Result HeartbeatDecision
  unfolding endpoint heartbeat_response
  heartbeat decode lease = do
    r ←
        send
          (record (post (text "/v1/runner/leases/" ++ (lease ++ text "/heartbeat"))
            ((text "x-lease-id", lease) ∷ []) none) { bearer = plane.token })
    heartbeat_response decode r

  unfoldable pub log_chunk :
      (to_json : LogChunk → Text) → (lease job_id : Text) → LogChunk → Result (Unit {0})
  unfolding request endpoint
  log_chunk to_json lease job_id chunk = do
    r ← request (
        post (text "/v1/runner/jobs/" ++ (job_id ++ text "/logs")) ((text "x-lease-id", lease) ∷ [])
          (some (to_json chunk)))
    ok tt
