-- ===== src/Probe/Executor/Cases.antt =====
-- The ways that a run of a probe takes: it is refused at once, or it goes on to the network.
use foip_operator.Prelude.{
  String, Bool, true, false, none, Option-cases, Bool-cases, ◌≡◌, refl, ◌⊎◌, inl, inr, ℤ,
}
use foip_operator.Api.Types.{FailoverProbeSpec, ProbeTarget, ProbeNetworkPolicy}
use foip_operator.Api.Validate.{validate_probe_spec, is_kubernetes}
use foip_operator.Controller.Env.{ok, Result-cases}
use foip_operator.Probe.{refused}
use foip_operator.Probe.Policy.{validate_target}
use foip_operator.Probe.Http.{HttpRequest, endpoint, scheme_of, or_text}
use foip_operator.Probe.Executor.Asked.{Asks, probe_request-Asks}
use foip_operator.Probe.Executor.{
  Stack, Executed, at_once, tls_config, connect, tcp, send_request, probe_request, request_url,
  http_probe, dispatch, execute, probe_error_text, timeout_of, validated_at,
}

module _ {Conn : Type 0} (stack : Stack Conn) where
  abbrev pub IsRefused : Executed → Type 0
  IsRefused run = (reason : String) × (run ≡ at_once (refused reason))

  pub tcp-cases :
      (timeout : ℤ) (target : ProbeTarget) (policy : ProbeNetworkPolicy) (tls_mode insecure : Bool)
      (bundle : String)
      → IsRefused (tcp stack timeout target policy tls_mode insecure bundle)
        ⊎ ((sound : Conn → Bool) × (tcp stack timeout target policy tls_mode insecure bundle
              ≡ connect stack timeout target policy sound))
  unfolding tcp
  tcp-cases timeout target policy false insecure bundle = inr (λ conn. true, refl)
  tcp-cases timeout target policy true insecure bundle =
      elim (Result-cases (tls_config stack target.sni insecure bundle)) [
        | inl (e, failed) ↦ inl (e.text, rw (failed, tcp) refl)
        | inr (config, fine) ↦
            inr (λ conn. stack.handshake timeout conn config, rw (fine, tcp) refl)
      ]

  pub http_probe-cases :
      (timeout : ℤ) (spec : FailoverProbeSpec) (credential bundle : String)
      → IsRefused (http_probe stack timeout spec credential bundle)
        ⊎ ((request : HttpRequest) × Asks stack spec credential bundle timeout request
            × (http_probe stack timeout spec credential bundle
                ≡ send_request stack timeout spec request))
  unfolding http_probe
  http_probe-cases timeout spec credential bundle =
      elim (Option-cases (
        endpoint (scheme_of spec.type) spec.target
          ((stack.net timeout).parse_url spec.target.address))) [
            | inl failed ↦ inl ("invalid request", rw (failed, http_probe) refl)
            | inr (at, parsed) ↦
                elim (Bool-cases (
                  stack.refuses_request (or_text spec.method "GET")
                    (request_url stack (scheme_of spec.type) at))) [
                      | inl refused ↦ inl ("invalid request", rw (parsed, refused, http_probe) refl)
                      | inr accepted ↦
                          elim (Result-cases
                            (tls_config stack spec.target.sni spec.insecure_skip_verify bundle)) [
                              | inl (e, failed) ↦
                                  inl (e.text, rw (parsed, accepted, failed, http_probe) refl)
                              | inr (config, fine) ↦ inr (
                                probe_request stack spec credential at config,
                                probe_request-Asks stack spec credential bundle timeout at config
                                    parsed fine,
                                rw (parsed, accepted, fine, http_probe) refl,
                              )
                            ]
                    ]
          ]

  -- A run that goes on is valid, and of another kind than Kubernetes only with a target that the
  -- policy permits.
  pub record Dispatched (spec : FailoverProbeSpec) (credential bundle : String) : Type 0 where
    pub valid : validate_probe_spec spec ≡ none
    pub same :
        execute stack spec credential bundle
        ≡ dispatch stack (timeout_of spec) spec spec.type credential bundle
    pub checked :
        (is_kubernetes spec.type ≡ true)
        ⊎ (validate_target
              (stack.net (timeout_of spec))
              validated_at
              spec.target
              spec.network_policy
            ≡ ok tt)

  pub execute-cases :
      (spec : FailoverProbeSpec) (credential bundle : String)
      → IsRefused (execute stack spec credential bundle) ⊎ Dispatched spec credential bundle
  unfolding execute
  execute-cases spec credential bundle = elim (Option-cases (validate_probe_spec spec)) [
    | inr (e, invalid) ↦ inl (probe_error_text e, rw (invalid, execute) refl)
    | inl valid ↦ elim (Bool-cases (is_kubernetes spec.type)) [
      | inl k ↦ inr (record { valid = valid; same = rw (valid, k, execute) refl; checked = inl k })
      | inr k ↦
          elim (Result-cases (
            validate_target (stack.net (timeout_of spec)) validated_at spec.target
              spec.network_policy)) [
                | inl (e, blocked) ↦
                    inl ("target blocked by network policy", rw (valid, k, blocked, execute) refl)
                | inr (unit, fine) ↦ inr (record {
                  valid = valid;
                  same = rw (valid, k, fine, execute) refl;
                  checked = inr fine;
                })
              ]
    ]
  ]
