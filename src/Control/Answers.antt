-- ===== src/Control/Answers.antt =====
-- When a heartbeat ends a lease.
use ai_kodu_runner.Base.{
  Text, text, none, [], ◌∷◌, ◌++◌, Result, ok, ◌≡◌, ◌≢◌, ◌⊎◌, inl, inr, ◌↔◌, ◌<◌, arith, >>=-eq-ok,
  Bool-cases, ==_iff, ◌==◌, leb,
}
use ai_kodu_runner.Control.Heartbeat.{HeartbeatDecision, lease_lost}
use ai_kodu_runner.Control.Http.{
  Request, Response, HttpControlPlane, endpoint, error_for_status, heartbeat_response, heartbeat,
}

-- The request of a heartbeat.
unfoldable pub heartbeat_request : HttpControlPlane → (lease : Text) → Request
heartbeat_request plane lease = record {
  url = endpoint plane (text "/v1/runner/leases/" ++ (lease ++ text "/heartbeat"));
  headers = (text "x-lease-id", lease) ∷ [];
  bearer = plane.token;
  json = none;
}

-- A response that loses the lease.
abbrev pub IsLost : (decode : Text → Result HeartbeatDecision) → Response → Type 0
IsLost decode r =
    (r.status ≡ 409)
    ⊎ ((r.status ≡ 410)
        ⊎ ((r.status ≢ 204)
            × ((r.status < 400) ⊎ (599 < r.status))
            × (decode r.body ≡ ok lease_lost)))

heartbeat_response_to :
    (decode : Text → Result HeartbeatDecision) (r : Response)
    → heartbeat_response decode r ≡ ok lease_lost
    → IsLost decode r
unfolding heartbeat_response error_for_status
heartbeat_response_to decode r h = elim (Bool-cases (r.status == 409)) [
  | inl conflict ↦ inl ((==_iff r.status 409).0 conflict)
  | inr no_conflict ↦ elim (Bool-cases (r.status == 410)) [
    | inl gone ↦ inr (inl ((==_iff r.status 410).0 gone))
    | inr here ↦ elim (Bool-cases (leb 400 r.status)) [
      | inl big ↦ inr (
          inr (
            λ e. ground (arith, h, e),
            inr (ground (arith, h, no_conflict, here, big)),
            ground (arith, h, no_conflict, here, big),
          ))
      | inr small ↦ inr (
          inr (
            λ e. ground (arith, h, e),
            inl (ground (arith, small)),
            ground (arith, h, no_conflict, here, small),
          ))
    ]
  ]
]

heartbeat_response_from :
    (decode : Text → Result HeartbeatDecision) (r : Response)
    → IsLost decode r
    → heartbeat_response decode r ≡ ok lease_lost
unfolding heartbeat_response error_for_status
heartbeat_response_from decode r (inl h) = ground (arith, h)
heartbeat_response_from decode r (inr (inl h)) = ground (arith, h)
heartbeat_response_from decode r (inr (inr (other, inl small, said))) =
    ground (arith, other, small, said)
heartbeat_response_from decode r (inr (inr (other, inr large, said))) =
    ground (arith, other, large, said)

module _ (send : Request → Result Response) (plane : HttpControlPlane) where
  -- A heartbeat says that the lease is lost exactly when the control plane has answered its request,
  -- which carries the lease and the runner's token, with 409 or 410, or with a status that is neither
  -- 204 nor an error and a body that says so.
  pub heartbeat_iff :
      (decode : Text → Result HeartbeatDecision) (lease : Text)
      → (heartbeat send plane decode lease ≡ ok lease_lost)
        ↔ ((r : Response) × (send (heartbeat_request plane lease) ≡ ok r) × IsLost decode r)
  unfolding heartbeat heartbeat_request
  heartbeat_iff decode lease = (
    λ h.
        let (r, sent, read) =
          >>=-eq-ok (send (heartbeat_request plane lease)) (heartbeat_response decode) h in
        (r, sent, heartbeat_response_to decode r read),
    λ (r, sent, lost). rw sent (heartbeat_response_from decode r lost),
  )
