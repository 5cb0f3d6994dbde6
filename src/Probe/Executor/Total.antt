-- ===== src/Probe/Executor/Total.antt =====
-- A run of a probe returns a result: a connection is never nil without an error.
use foip_operator.Prelude.{
  ℕ, String, Bool, true, false, Option, none, some, Option-cases, List, [], ◌∷◌, ◌≡◌, ◌≢◌, refl, ap,
  ◌∙◌, inl, inr, ℤ,
}
use foip_operator.Api.Types.{
  FailoverProbeSpec, ProbeTarget, ProbeNetworkPolicy, ProbeType, tcp_probe, tls_probe, https_probe,
  kubernetes_probe, no_type, other_type,
}
use foip_operator.Controller.Env.{Error, Result, ok, err, Result-cases}
use foip_operator.Probe.Policy.{
  Address, Net, resolve, allowed_target_ips, dial_each, dial_allowed_context,
}
use foip_operator.Probe.Policy.Allowed.{allowed_target_ips-Passes}
use foip_operator.Probe.Executor.Cases.{tcp-cases, http_probe-cases, execute-cases}
use foip_operator.Probe.Executor.{
  Stack, Outcome, returned, panicked, close, connect, tcp, send_request, http_probe, dispatch,
  execute, timeout_of, dispatched_at,
}

abbrev pub Returns : Outcome → Type 0
Returns (returned result) = Unit {0}
Returns panicked = ⊥

module _ {Conn : Type 0} (net : Net Conn) where
  -- Behind a first error the loop has a connection or an error.
  dial_each-behind :
      (now : ℕ) (ips : List Address) (port : String) (e : Error)
      → (dial_each net now ips port (some e)).result ≢ ok none
  unfolding dial_each
  dial_each-behind now [] port e h = cc h
  dial_each-behind now (ip ∷ ips) port e h = elim (Result-cases (net.dial now ip port)) [
    | inr (conn, connected) ↦ cc (rw (connected, dial_each) at h)
    | inl (next, failed) ↦ dial_each-behind now ips port next (rw (failed, dial_each) at h)
  ]

  dial_each-connects :
      (now : ℕ) (ips : List Address) (port : String)
      → ips ≢ []
      → (dial_each net now ips port none).result ≢ ok none
  unfolding dial_each
  dial_each-connects now [] port some_ip h = some_ip refl
  dial_each-connects now (ip ∷ ips) port some_ip h = elim (Result-cases (net.dial now ip port)) [
    | inr (conn, connected) ↦ cc (rw (connected, dial_each) at h)
    | inl (e, failed) ↦ dial_each-behind now ips port e (rw (failed, dial_each) at h)
  ]

  module _ (found : (now : ℕ) (host : String) → net.lookup now host ≢ ok []) where
    resolve-nonempty :
        (now : ℕ) (host : String) (ips : List Address) → resolve net now host ≡ ok ips → ips ≢ []
    unfolding resolve
    resolve-nonempty now host ips h e = elim (Result-cases (net.lookup now host)) [
      | inr (addresses, listed) ↦ found now host (listed ∙ (rw (listed, resolve) at h) ∙ ap ok e)
      | inl (f, failed) ↦ elim (Option-cases (net.parse_ip host)) [
        | inl unparsed ↦ cc (rw (failed, unparsed, resolve) at h)
        | inr (ip, parsed) ↦ cc (rw (failed, parsed, resolve) at h, e)
      ]
    ]

    dial_allowed_context-connects :
        (now : ℕ) (address : String) (policy : ProbeNetworkPolicy)
        → (dial_allowed_context net now address policy).result ≢ ok none
    unfolding dial_allowed_context
    dial_allowed_context-connects now address policy h =
        elim (Option-cases (net.split_host_port address)) [
          | inl unsplit ↦ cc (rw (unsplit, dial_allowed_context) at h)
          | inr ((host, port), split) ↦
              elim (Result-cases (allowed_target_ips net now host policy)) [
                | inl (e, failed) ↦ cc (rw (split, failed, dial_allowed_context) at h)
                | inr (ips, success) ↦
                    dial_each-connects now ips port
                      (resolve-nonempty now host ips
                        (allowed_target_ips-Passes net now host policy ips success).resolved)
                      (rw (split, success, dial_allowed_context) at h)
              ]
        ]

module _ {Conn : Type 0} (stack : Stack Conn)
    (found : (timeout : ℤ) (now : ℕ) (host : String)
      → (stack.net timeout).lookup now host ≢ ok []) where
  close-Returns :
      (sound : Conn → Bool) (conn : Result (Option Conn))
      → conn ≢ ok none
      → Returns (close stack sound conn)
  unfolding close
  close-Returns sound (err e) h = tt
  close-Returns sound (ok none) h = h refl
  close-Returns sound (ok (some c)) h = tt

  connect-Returns :
      (timeout : ℤ) (target : ProbeTarget) (policy : ProbeNetworkPolicy) (sound : Conn → Bool)
      → Returns (connect stack timeout target policy sound).outcome
  unfolding connect
  connect-Returns timeout target policy sound =
      close-Returns sound _
        (dial_allowed_context-connects (stack.net timeout) (found timeout) dispatched_at _ policy)

  tcp-Returns :
      (timeout : ℤ) (target : ProbeTarget) (policy : ProbeNetworkPolicy) (tls_mode insecure : Bool)
      (bundle : String)
      → Returns (tcp stack timeout target policy tls_mode insecure bundle).outcome
  tcp-Returns timeout target policy tls_mode insecure bundle =
      elim (tcp-cases stack timeout target policy tls_mode insecure bundle) [
        | inl (reason, same) ↦ rw same tt
        | inr (sound, same) ↦ rw same (connect-Returns timeout target policy sound)
      ]

  http_probe-Returns :
      (timeout : ℤ) (spec : FailoverProbeSpec) (credential bundle : String)
      → Returns (http_probe stack timeout spec credential bundle).outcome
  unfolding send_request
  http_probe-Returns timeout spec credential bundle =
      elim (http_probe-cases stack timeout spec credential bundle) [
        | inl (reason, same) ↦ rw same tt
        | inr (request, asks, same) ↦ rw same tt
      ]

  dispatch-Returns :
      (timeout : ℤ) (spec : FailoverProbeSpec) (type : ProbeType) (credential bundle : String)
      → Returns (dispatch stack timeout spec type credential bundle).outcome
  unfolding dispatch
  dispatch-Returns timeout spec tcp_probe credential bundle =
      tcp-Returns timeout spec.target spec.network_policy false spec.insecure_skip_verify bundle
  dispatch-Returns timeout spec tls_probe credential bundle =
      tcp-Returns timeout spec.target spec.network_policy true spec.insecure_skip_verify bundle
  dispatch-Returns timeout spec ProbeType.http_probe credential bundle =
      http_probe-Returns timeout spec credential bundle
  dispatch-Returns timeout spec https_probe credential bundle =
      http_probe-Returns timeout spec credential bundle
  dispatch-Returns timeout spec no_type credential bundle = tt
  dispatch-Returns timeout spec kubernetes_probe credential bundle = tt
  dispatch-Returns timeout spec (other_type s) credential bundle = tt

  -- A run of a probe never calls a method on a nil connection: it returns a result, if no host
  -- resolves to an empty list of addresses without an error.
  pub execute-Returns :
      (spec : FailoverProbeSpec) (credential bundle : String)
      → Returns (execute stack spec credential bundle).outcome
  execute-Returns spec credential bundle = elim (execute-cases stack spec credential bundle) [
    | inl (reason, same) ↦ rw same tt
    | inr d ↦ rw d.same (dispatch-Returns (timeout_of spec) spec spec.type credential bundle)
  ]
