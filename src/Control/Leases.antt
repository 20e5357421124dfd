-- ===== src/Control/Leases.antt =====
-- When a request for a job gives one.
use ai_kodu_runner.Base.{
  Text, text, some, none, [], Result, ok, ◌≡◌, ◌≢◌, ◌⊎◌, inl, inr, ◌↔◌, ◌<◌, refl, arith, ap, ◌∙◌,
  >>=-eq-ok, ok-injective, Bool-cases, ◌==◌, leb, ◌>>=◌, Option, if◌then◌else◌, subst, sym,
}
use ai_kodu_runner.Protocol.{Codec, from_json}
use ai_kodu_runner.Control.Daemon.{LeasedJob}
use ai_kodu_runner.Control.Http.{
  Request, Response, RawLease, HttpControlPlane, endpoint, error_for_status, request, request_lease,
  decode_lease,
}

-- A status that is neither 204 nor an error.
abbrev pub HasBody : Response → Type 0
HasBody r = (r.status ≢ 204) × ((r.status < 400) ⊎ (599 < r.status))

good_iff :
    (r good : Response)
    → (error_for_status r ≡ ok good) ↔ ((good ≡ r) × ((r.status < 400) ⊎ (599 < r.status)))
unfolding error_for_status
good_iff r good = elim (Bool-cases (leb 400 r.status)) [
  | inl big ↦ elim (Bool-cases (leb r.status 599)) [
    | inl bad ↦ (λ h. cc (big, bad), λ h. ground (arith, big, bad, h.1))
    | inr above ↦ (
      λ h. (ground (arith, h, big, above), inr (ground (arith, above))),
      λ h. ground (arith, h.0, big, above),
    )
  ]
  | inr small ↦ (
    λ h. (ground (arith, h, small), inl (ground (arith, small))),
    λ h. ground (arith, h.0, small),
  )
]

some-injective {ℓ} : {A : Type ℓ} {a b : A} → some a ≡ some b → a ≡ b
some-injective h = cc

module _ (c : Codec) (raw_lease : Text → Result (RawLease c.Value))
    (to_string : c.Value → Result Text) where
  decode_iff :
      (body : Text) (job : LeasedJob)
      → (decode_lease c raw_lease to_string body ≡ ok job) ↔ (
          (raw : RawLease c.Value) × (document : Text) × (raw_lease body ≡ ok raw)
          × (to_string raw.spec ≡ ok document)
          × (from_json c document ≡ ok job.spec)
          × (job.lease_id ≡ raw.lease_id))
  unfolding decode_lease
  decode_iff body job = (
    λ h.
        let (raw, parsed, h1) = >>=-eq-ok (raw_lease body) _ h in
        let (document, printed, h2) = >>=-eq-ok (to_string raw.spec) _ h1 in
        let (spec, read, same) = >>=-eq-ok (from_json c document) _ h2 in
        (raw, document, parsed, printed, ground (arith, read, same), ground (arith, same)),
    λ (raw, document, parsed, printed, read, lease).
        rw (parsed, printed, read) (λ i. ok (record { lease_id = sym lease i; spec = job.spec })),
  )

  -- The answer to a request for a job, once it is no error.
  abbrev answer_to : Response → Result (Option LeasedJob)
  answer_to r =
      if r.status == 204
      then ok none
      else decode_lease c raw_lease to_string r.body >>= λ job. ok (some job)

  leased_lem :
      (r : Response) (job : LeasedJob)
      → answer_to r ≡ ok (some job)
      → (r.status ≢ 204)
        × ((job' : LeasedJob) × (decode_lease c raw_lease to_string r.body ≡ ok job')
            × (ok (some job') ≡ ok (some job)))
  leased_lem r job h = elim (Bool-cases (r.status == 204)) [
    | inl empty ↦ cc (rw empty at h)
    | inr full ↦ (
      λ e. ground (arith, full, e),
      >>=-eq-ok (decode_lease c raw_lease to_string r.body) _ (rw full at h),
    )
  ]

  not_204 :
      (r : Response) (job : LeasedJob)
      → r.status ≢ 204
      → decode_lease c raw_lease to_string r.body ≡ ok job
      → answer_to r ≡ ok (some job)
  not_204 r job other decoded = ground (arith, other, decoded)

  module _ (send : Request → Result Response) (plane : HttpControlPlane)
      (runner_json : Text → Text) where
    -- The request for a job, under the runner's token.
    abbrev pub lease_request : Request
    lease_request = record {
      url = endpoint plane (text "/v1/runner/lease");
      headers = [];
      bearer = plane.token;
      json = some (runner_json plane.runner);
    }

    -- A request for a job gives one exactly when the control plane answers with a status that is
    -- neither 204 nor an error and a body that holds a lease, whose job is of a version that is read;
    -- it is then that job under that lease.
    pub request_lease_iff :
        (job : LeasedJob)
        → (request_lease send plane runner_json (decode_lease c raw_lease to_string)
            ≡ ok (some job))
          ↔ ((r : Response) × (raw : RawLease c.Value) × (document : Text) × (send lease_request
                ≡ ok r)
              × HasBody r
              × (raw_lease r.body ≡ ok raw)
              × (to_string raw.spec ≡ ok document)
              × (from_json c document ≡ ok job.spec)
              × (job.lease_id ≡ raw.lease_id))
    unfolding request_lease request
    request_lease_iff job = (
      λ h.
          let (good, answered, h1) = >>=-eq-ok (send lease_request >>= error_for_status) _ h in
          let (r, sent, fine) = >>=-eq-ok (send lease_request) error_for_status answered in
          let (same, range) = (good_iff r good).0 fine in
          let (other, (job', decoded, given)) = leased_lem good job h1 in
          let (raw, document, parsed, printed, read, lease) =
            (decode_iff good.body job).0 (decoded ∙ ap ok (some-injective (ok-injective given))) in
          (
            good,
            raw,
            document,
            sent ∙ ap ok (sym same),
            (other, subst (λ (q : Response). (q.status < 400) ⊎ (599 < q.status)) (sym same) range),
            parsed,
            printed,
            read,
            lease,
          ),
      λ (r, raw, document, sent, (other, range), parsed, printed, read, lease).
          rw (sent, (good_iff r r).1 (refl, range))
            (not_204 r job other
              ((decode_iff r.body job).1 (raw, document, parsed, printed, read, lease))),
    )
