-- ===== src/Probe/Executor/Passed.antt =====
-- When a probe over HTTP passes.
use mathlib.Core.Path.{subst}
use foip_operator.Prelude.{
  ℕ, ◌≤◌, ℤ, pos, negsuc, ltb_ℤ, String, true, false, str_eq_iff, Option, none, some, ◌≡◌, refl,
  ◌⊎◌, inl, inr, arith,
}
use foip_operator.Prelude.Int.{wrap32}
use foip_operator.Api.Types.{
  FailoverProbeSpec, ProbeType, tcp_probe, tls_probe, https_probe, kubernetes_probe, no_type,
  other_type,
}
use foip_operator.Api.Validate.{validate_probe_spec, has_http}
use foip_operator.Probe.Phase.{contains_text}
use foip_operator.Probe.Session.{HttpResponse, run_session}
use foip_operator.Probe.Http.{
  HttpRequest, or_default, judge_response, byte_length, max_response_body,
}
use foip_operator.Probe.Executor.Asked.{Asks}
use foip_operator.Probe.Executor.Cases.{http_probe-cases, execute-cases}
use foip_operator.Probe.Executor.{
  Stack, Executed, Outcome, returned, panicked, send_request, judge_trip, http_probe, dispatch,
  execute, timeout_of, dispatched_at,
}

-- A response that the specification asks for.
pub record Matches (spec : FailoverProbeSpec) (response : HttpResponse) : Type 0 where
  pub size : byte_length response.body ≤ max_response_body
  pub low : ltb_ℤ (wrap32 response.status) (or_default spec.expected_status_min (pos 200)) ≡ false
  pub high : ltb_ℤ (or_default spec.expected_status_max (pos 299)) (wrap32 response.status) ≡ false
  pub body : (spec.body_match ≡ "") ⊎ (contains_text spec.body_match response.body ≡ true)

judge_response-Matches :
    (spec : FailoverProbeSpec) (response : HttpResponse)
    → (judge_response spec response).success ≡ true
    → Matches spec response
unfolding judge_response
judge_response-Matches spec response h = record {
  size = ground (arith, h);
  low = ground (arith, h);
  high = ground (arith, h);
  body = ground (arith, h, str_eq_iff spec.body_match "");
}

-- A run returned that the probe passed.
abbrev pub Passes : Outcome → Type 0
Passes (returned result) = result.success ≡ true
Passes panicked = ⊥

-- No status is both at least 300 and at most 299.
out_of_range :
    (status : ℤ) (low : ℕ)
    → 300 ≤ low
    → ltb_ℤ status (or_default (pos low) (pos 200)) ≡ false
    → ltb_ℤ (or_default (pos 0) (pos 299)) status ≡ false
    → ⊥
out_of_range (pos n) low bound h k = ground (arith, bound, h, k)
out_of_range (negsuc n) low bound h k = ground (arith, bound, h, k)

module _ {Conn : Type 0} (stack : Stack Conn) (spec : FailoverProbeSpec) where
  -- The session of a request ended with a response that the specification asks for.
  pub record Served (timeout : ℤ) (request : HttpRequest) : Type 0 where
    pub response : HttpResponse
    pub got :
        (run_session
          (stack.net timeout)
          spec.network_policy
          spec.follow_redirects
          dispatched_at
          (stack.session timeout request)).response
        ≡ some response
    pub matches : Matches spec response

  judge_trip-Served :
      (timeout : ℤ) (request : HttpRequest) (found : Option HttpResponse)
      → (run_session
          (stack.net timeout)
          spec.network_policy
          spec.follow_redirects
          dispatched_at
          (stack.session timeout request)).response
        ≡ found
      → (judge_trip stack spec found).success ≡ true
      → Served timeout request
  unfolding judge_trip
  judge_trip-Served timeout request none got h = absurd (cc h)
  judge_trip-Served timeout request (some response) got h = record {
    response = response;
    got = got;
    matches = judge_response-Matches spec response h;
  }

  send_request-Served :
      (timeout : ℤ) (request : HttpRequest)
      → Passes (send_request stack timeout spec request).outcome
      → Served timeout request
  unfolding send_request
  send_request-Served timeout request h = judge_trip-Served timeout request _ refl h

  -- The probe made its request, which is what the run did, and the request was served.
  abbrev pub AsksServed : ℤ → String → String → Executed → Type 0
  AsksServed timeout credential bundle run =
      (request : HttpRequest) × Asks stack spec credential bundle timeout request
      × (run ≡ send_request stack timeout spec request)
      × Served timeout request

  http_probe-Served :
      (timeout : ℤ) (credential bundle : String)
      → Passes (http_probe stack timeout spec credential bundle).outcome
      → AsksServed timeout credential bundle (http_probe stack timeout spec credential bundle)
  http_probe-Served timeout credential bundle h =
      elim (http_probe-cases stack timeout spec credential bundle) [
        | inl (reason, same) ↦ absurd (cc (rw same at h))
        | inr (request, asks, same) ↦
            (request, asks, same, send_request-Served timeout request (rw same at h))
      ]

  dispatch-Served :
      (timeout : ℤ) (type : ProbeType) (credential bundle : String)
      → has_http type ≡ true
      → Passes (dispatch stack timeout spec type credential bundle).outcome
      → AsksServed timeout credential bundle (dispatch stack timeout spec type credential bundle)
  unfolding dispatch
  dispatch-Served timeout ProbeType.http_probe credential bundle k h =
      http_probe-Served timeout credential bundle h
  dispatch-Served timeout https_probe credential bundle k h =
      http_probe-Served timeout credential bundle h
  dispatch-Served timeout tcp_probe credential bundle k h = absurd (cc k)
  dispatch-Served timeout tls_probe credential bundle k h = absurd (cc k)
  dispatch-Served timeout no_type credential bundle k h = absurd (cc k)
  dispatch-Served timeout kubernetes_probe credential bundle k h = absurd (cc k)
  dispatch-Served timeout (other_type s) credential bundle k h = absurd (cc k)

  -- An HTTP or HTTPS probe passes only if its specification is valid and its run was one request,
  -- to the endpoint of its target, with its method, its Host, its configuration of TLS and its
  -- credential (unless a header of the specification has the same key), and if that request was
  -- answered, redirects included, with a body of at most a mebibyte that has the text of the body
  -- match, and with a status in the expected range, which is 200 to 299 where a bound is zero.
  pub execute-Served :
      (credential bundle : String)
      → has_http spec.type ≡ true
      → Passes (execute stack spec credential bundle).outcome
      → (validate_probe_spec spec ≡ none)
        × AsksServed (timeout_of spec) credential bundle (execute stack spec credential bundle)
  execute-Served credential bundle http h = elim (execute-cases stack spec credential bundle) [
    | inl (reason, same) ↦ absurd (cc (rw same at h))
    | inr d ↦ (
      d.valid,
      rw d.same
          (dispatch-Served (timeout_of spec) spec.type credential bundle http (rw d.same at h)),
    )
  ]

  -- An HTTP or HTTPS probe whose specification expects at least status 300 and sets no upper bound
  -- never passes, whatever it is answered: the upper bound is then 299.
  pub execute-unsatisfied :
      (credential bundle : String) (low : ℕ)
      → has_http spec.type ≡ true
      → spec.expected_status_min ≡ pos low
      → 300 ≤ low
      → spec.expected_status_max ≡ pos 0
      → ¬ Passes (execute stack spec credential bundle).outcome
  execute-unsatisfied credential bundle low http min bound max h =
      let (valid, (request, asks, same, served)) = execute-Served credential bundle http h in
      let m = served.matches in
      out_of_range (wrap32 served.response.status) low bound
        (subst (λ z. ltb_ℤ (wrap32 served.response.status) (or_default z (pos 200)) ≡ false) min
          m.low)
        (subst (λ z. ltb_ℤ (or_default z (pos 299)) (wrap32 served.response.status) ≡ false) max
          m.high)
