-- ===== src/Probe/Executor/Reached.antt =====
-- A run of a probe reaches only what the network policy of its specification permits.
use foip_operator.Prelude.{String, Bool, true, false, none, [], All, ◌≡◌, refl, ◌⊎◌, inl, inr, ℤ}
use foip_operator.Api.Types.{
  FailoverProbeSpec, ProbeType, tcp_probe, tls_probe, https_probe, kubernetes_probe, no_type,
  other_type,
}
use foip_operator.Api.Validate.{validate_probe_spec, is_kubernetes}
use foip_operator.Probe.Policy.Allowed.{Permitted, dial_allowed_context-Permitted}
use foip_operator.Probe.Http.{HttpRequest}
use foip_operator.Probe.Executor.Cases.{tcp-cases, http_probe-cases, Dispatched, execute-cases}
use foip_operator.Probe.Executor.{
  Stack, Executed, connect, tcp, send_request, http_probe, dispatch, execute, timeout_of,
  validated_at, dispatched_at,
}
use foip_operator.Probe.Executor.Reach.{
  Reachable, Taken, validate_target-Reachable, run_session-Guarded,
}

module _ {Conn : Type 0} (stack : Stack Conn) where
  module _ (spec : FailoverProbeSpec) (timeout : ℤ) where
    -- Every address that is dialed is permitted, and every redirect that is taken leads to a host
    -- that the policy permits.
    abbrev pub Confined : Executed → Type 0
    Confined run =
        All (Permitted (stack.net timeout) spec.network_policy) run.tried
        × All (Taken (stack.net timeout) spec.network_policy spec.follow_redirects) run.followed

    connect-Confined :
        (sound : Conn → Bool)
        → Confined (connect stack timeout spec.target spec.network_policy sound)
    unfolding connect
    connect-Confined sound =
        (dial_allowed_context-Permitted (stack.net timeout) dispatched_at _ spec.network_policy, tt)

    tcp-Confined :
        (tls_mode : Bool) (bundle : String)
        → Confined (
            tcp stack timeout spec.target spec.network_policy tls_mode spec.insecure_skip_verify
              bundle)
    tcp-Confined tls_mode bundle =
        elim (tcp-cases stack timeout spec.target spec.network_policy tls_mode
          spec.insecure_skip_verify bundle) [
            | inl (reason, same) ↦ rw same (tt, tt)
            | inr (sound, same) ↦ rw same (connect-Confined sound)
          ]

    send_request-Confined :
        (request : HttpRequest) → Confined (send_request stack timeout spec request)
    unfolding send_request
    send_request-Confined request =
        run_session-Guarded (stack.net timeout) spec.network_policy spec.follow_redirects
          dispatched_at (stack.session timeout request)

    http_probe-Confined :
        (credential bundle : String) → Confined (http_probe stack timeout spec credential bundle)
    http_probe-Confined credential bundle =
        elim (http_probe-cases stack timeout spec credential bundle) [
          | inl (reason, same) ↦ rw same (tt, tt)
          | inr (request, asks, same) ↦ rw same (send_request-Confined request)
        ]

    dispatch-Confined :
        (type : ProbeType) (credential bundle : String)
        → Confined (dispatch stack timeout spec type credential bundle)
    unfolding dispatch
    dispatch-Confined tcp_probe credential bundle = tcp-Confined false bundle
    dispatch-Confined tls_probe credential bundle = tcp-Confined true bundle
    dispatch-Confined ProbeType.http_probe credential bundle = http_probe-Confined credential bundle
    dispatch-Confined https_probe credential bundle = http_probe-Confined credential bundle
    dispatch-Confined no_type credential bundle = (tt, tt)
    dispatch-Confined kubernetes_probe credential bundle = (tt, tt)
    dispatch-Confined (other_type s) credential bundle = (tt, tt)

  is_kubernetes-dispatch :
      (timeout : ℤ) (spec : FailoverProbeSpec) (type : ProbeType) (credential bundle : String)
      → is_kubernetes type ≡ true
      → (dispatch stack timeout spec type credential bundle).tried ≡ []
  unfolding dispatch
  is_kubernetes-dispatch timeout spec kubernetes_probe credential bundle h = refl
  is_kubernetes-dispatch timeout spec no_type credential bundle h = refl
  is_kubernetes-dispatch timeout spec (other_type s) credential bundle h = refl
  is_kubernetes-dispatch timeout spec tcp_probe credential bundle h = absurd (cc h)
  is_kubernetes-dispatch timeout spec tls_probe credential bundle h = absurd (cc h)
  is_kubernetes-dispatch timeout spec ProbeType.http_probe credential bundle h = absurd (cc h)
  is_kubernetes-dispatch timeout spec https_probe credential bundle h = absurd (cc h)

  dispatch-reached :
      (spec : FailoverProbeSpec) (credential bundle : String)
      → Dispatched stack spec credential bundle
      → ((dispatch stack (timeout_of spec) spec spec.type credential bundle).tried ≡ [])
        ⊎ ((validate_probe_spec spec ≡ none)
            × Reachable
                (stack.net (timeout_of spec))
                spec.network_policy
                spec.follow_redirects
                validated_at
                spec.target.address)
  dispatch-reached spec credential bundle d = elim d.checked [
    | inl k ↦ inl (is_kubernetes-dispatch (timeout_of spec) spec spec.type credential bundle k)
    | inr fine ↦ inr (
      d.valid,
      validate_target-Reachable (stack.net (timeout_of spec)) spec.network_policy
          spec.follow_redirects validated_at spec.target fine,
    )
  ]

  -- Whatever the specification, the credential and the certificates, and whatever names resolve to
  -- in the course of the run: a run of a probe dials only addresses that the network policy permits,
  -- it takes a redirect only if the specification follows redirects and the policy permits every
  -- address of the host, and it dials nothing at all unless the specification is valid and the policy
  -- permits every address of its own target.
  pub execute-Confined :
      (spec : FailoverProbeSpec) (credential bundle : String)
      → Confined spec (timeout_of spec) (execute stack spec credential bundle)
        × (((execute stack spec credential bundle).tried ≡ [])
            ⊎ ((validate_probe_spec spec ≡ none)
                × Reachable
                    (stack.net (timeout_of spec))
                    spec.network_policy
                    spec.follow_redirects
                    validated_at
                    spec.target.address))
  execute-Confined spec credential bundle = elim (execute-cases stack spec credential bundle) [
    | inl (reason, same) ↦ rw same ((tt, tt), inl refl)
    | inr d ↦ rw d.same (
      dispatch-Confined spec (timeout_of spec) spec.type credential bundle,
      dispatch-reached spec credential bundle d,
    )
  ]
