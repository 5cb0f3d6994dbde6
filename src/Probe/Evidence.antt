-- ===== src/Probe/Evidence.antt =====
-- The executors of internal/probe as evaluateProbePhase of internal/controller/probe_checks.go calls
-- them, and what the success of one run shows of the outside.
pub mod Gate
use mathlib.Core.Path.{subst}
use foip_operator.Prelude.{
  ℤ, String, Bool, true, false, not, ◌&&◌, Bool-cases, Option, none, some, Option-cases, inl, inr,
  List, [], ◌∷◌, All, ◌≡◌, refl, sym, ap, ◌∙◌, ◌⊎◌, if◌then◌else◌, ltb_ℤ, arith, inc32, str_eq,
  str_eq_iff, ◌≢◌,
}
use foip_operator.Prelude.Text.{itoa}
use foip_operator.Api.Types.{
  FailoverIp, FailoverProbe, FailoverProbeSpec, ProbePhase, ProbeType, ProbeTarget,
  ProbeNetworkPolicy, all_probes, SecretKeySelector, tcp_probe, tls_probe, https_probe, no_type,
  kubernetes_probe, other_type, ProbeObservation, KubernetesReadinessTarget,
}
use foip_operator.Api.Validate.{has_http}
use foip_operator.Controller.Env.{Result, ok, err, Result-cases}
use foip_operator.Probe.{
  ProbeResult, refused, passed, judge, observe, apply_probe_thresholds, previous_observation,
  find_observation, at_least_one,
}
use foip_operator.Probe.Policy.{dial_allowed_context}
use foip_operator.Probe.Phase.{
  is_kubernetes, Prober, resolve_probe_spec, run_probe, run_network, ca_bundle, secret_value,
  applies, evaluate_probe_phase,
}
use foip_operator.Probe.Phase.Gate.{Ran, Shown, shown, judged, evaluate_probe_phase-Shown}
use foip_operator.Probe.Http.{HttpRequest}
use foip_operator.Probe.Executor.{
  Stack, Outcome, returned, panicked, close, connect, tcp, dispatch, execute, timeout_of,
  dispatched_at,
}
use foip_operator.Probe.Executor.Cases.{tcp-cases, execute-cases}
use foip_operator.Probe.Executor.Passed.{Passes, AsksServed, execute-Served}
use foip_operator.Probe.Kubernetes.{Reader, execute_kubernetes}
use foip_operator.Probe.Kubernetes.Ready.{
  IsReady, execute_kubernetes-passed_iff, execute_kubernetes-success,
}

-- A panic ends the evaluation in the program; here it is the result of a failed run.
unfoldable pub result_of : Outcome → ProbeResult
result_of (returned result) = result
result_of panicked = refused "panic"

-- TCP and TLS.
abbrev pub is_stream : ProbeType → Bool
is_stream tcp_probe = true
is_stream tls_probe = true
is_stream _ = false

module _ {Conn Object : Type 0} (stack : Stack Conn) (reader : Reader Object) where
  -- The prober that evaluateProbePhase runs with.
  unfoldable pub with_executors : Prober → Prober
  with_executors base = record base {
    kubernetes = execute_kubernetes reader;
    execute = λ spec credential bundle. result_of (execute stack spec credential bundle).outcome;
  }

  -- A connection to the target was made.
  abbrev pub Connected : ℤ → ProbeTarget → ProbeNetworkPolicy → Type 0
  Connected timeout target policy =
      (conn : Conn) × ((dial_allowed_context (stack.net timeout) dispatched_at
          (stack.join_host_port target.address (itoa target.port)) policy).result
        ≡ ok (some conn))

  close-Connected :
      (sound : Conn → Bool) (result : Result (Option Conn))
      → Passes (close stack sound result)
      → (conn : Conn) × (result ≡ ok (some conn))
  unfolding close
  close-Connected sound (err e) h = absurd (cc h)
  close-Connected sound (ok none) h = absurd h
  close-Connected sound (ok (some conn)) h = (conn, refl)

  connect-Connected :
      (timeout : ℤ) (target : ProbeTarget) (policy : ProbeNetworkPolicy) (sound : Conn → Bool)
      → Passes (connect stack timeout target policy sound).outcome
      → Connected timeout target policy
  unfolding connect
  connect-Connected timeout target policy sound h = close-Connected sound _ h

  tcp-Connected :
      (timeout : ℤ) (spec : FailoverProbeSpec) (tls_mode : Bool) (bundle : String)
      → Passes
          (tcp stack timeout spec.target spec.network_policy tls_mode spec.insecure_skip_verify
            bundle).outcome
      → Connected timeout spec.target spec.network_policy
  tcp-Connected timeout spec tls_mode bundle h =
      elim (tcp-cases stack timeout spec.target spec.network_policy tls_mode
        spec.insecure_skip_verify bundle) [
          | inl (reason, same) ↦ absurd (cc (rw same at h))
          | inr (sound, same) ↦
              connect-Connected timeout spec.target spec.network_policy sound (rw same at h)
        ]

  dispatch-Connected :
      (timeout : ℤ) (spec : FailoverProbeSpec) (type : ProbeType) (credential bundle : String)
      → is_stream type ≡ true
      → Passes (dispatch stack timeout spec type credential bundle).outcome
      → Connected timeout spec.target spec.network_policy
  unfolding dispatch
  dispatch-Connected timeout spec tcp_probe credential bundle k h =
      tcp-Connected timeout spec false bundle h
  dispatch-Connected timeout spec tls_probe credential bundle k h =
      tcp-Connected timeout spec true bundle h
  dispatch-Connected timeout spec ProbeType.http_probe credential bundle k h = absurd (cc k)
  dispatch-Connected timeout spec https_probe credential bundle k h = absurd (cc k)
  dispatch-Connected timeout spec no_type credential bundle k h = absurd (cc k)
  dispatch-Connected timeout spec kubernetes_probe credential bundle k h = absurd (cc k)
  dispatch-Connected timeout spec (other_type s) credential bundle k h = absurd (cc k)

  -- A text is the value of a key of a Secret and not empty; it is empty where no key is asked for.
  abbrev pub ReadsSecret : Prober → Option SecretKeySelector → String → Type 0
  ReadsSecret base none text = text ≡ ""
  ReadsSecret base (some ref) text =
      (values : String → String) × (base.secret ref.name ≡ ok values)
      × (values ref.key ≡ text)
      × (text ≢ "")

  -- The credential and the certificates of a specification.
  abbrev pub Entrusted : Prober → FailoverProbeSpec → String → String → Type 0
  Entrusted base spec credential bundle =
      ReadsSecret base spec.credential_secret_ref credential
      × ReadsSecret base spec.ca_bundle_secret_ref bundle

  secret_value-ReadsSecret :
      (base : Prober) (ref : SecretKeySelector) (unloaded empty text : String)
      → secret_value (base.secret ref.name) ref.key unloaded empty ≡ ok text
      → ReadsSecret base (some ref) text
  unfolding secret_value
  secret_value-ReadsSecret base ref unloaded empty text h =
      elim (Result-cases (base.secret ref.name)) [
        | inl (e, failed) ↦ absurd (cc (rw (failed, secret_value) at h))
        | inr (values, loaded) ↦ elim (Bool-cases (str_eq (values ref.key) "")) [
          | inl blank ↦ absurd (cc (rw (loaded, blank, secret_value) at h))
          | inr given ↦
              let same : values ref.key ≡ text = cc (rw (loaded, given, secret_value) at h) in
              (values, loaded, same, ground (arith, given, same, str_eq_iff (values ref.key) ""))
        ]
      ]

  ca_bundle-ReadsSecret :
      (base : Prober) (ref : Option SecretKeySelector) (bundle : String)
      → ca_bundle (with_executors base) ref ≡ ok bundle
      → ReadsSecret base ref bundle
  unfolding ca_bundle with_executors
  ca_bundle-ReadsSecret base none bundle h = cc h
  ca_bundle-ReadsSecret base (some ref) bundle h = secret_value-ReadsSecret base ref _ _ bundle h

  -- What the success of a probe shows, by its kind.
  pub record Evidence (base : Prober) (spec : FailoverProbeSpec) : Type 0 where
    pub object :
        is_kubernetes spec.type ≡ true
        → (t : KubernetesReadinessTarget) × (spec.kubernetes ≡ some t) × IsReady reader t
    pub response :
        has_http spec.type ≡ true
        → (credential : String) × (bundle : String) × Entrusted base spec credential bundle
          × AsksServed stack spec
              (timeout_of spec)
              credential
              bundle
              (execute stack spec credential bundle)
    pub connection :
        is_stream spec.type ≡ true → Connected (timeout_of spec) spec.target spec.network_policy

  result_of-Passes : (outcome : Outcome) → (result_of outcome).success ≡ true → Passes outcome
  unfolding result_of
  result_of-Passes (returned result) h = h
  result_of-Passes panicked h = absurd (cc h)

  network-Evidence :
      (base : Prober) (spec : FailoverProbeSpec) (credential bundle : String)
      → Entrusted base spec credential bundle
      → is_kubernetes spec.type ≡ false
      → (result_of (execute stack spec credential bundle).outcome).success ≡ true
      → Evidence base spec
  network-Evidence base spec credential bundle entrusted other h =
      let passes = result_of-Passes (execute stack spec credential bundle).outcome h in
      record {
        object = λ k. absurd (cc (k, other));
        response = λ k. (
          credential,
          bundle,
          entrusted,
          (execute-Served stack spec credential bundle k passes).1,
        );
        connection = λ k. elim (execute-cases stack spec credential bundle) [
          | inl (reason, same) ↦ absurd (cc (rw same at passes))
          | inr d ↦
              dispatch-Connected (timeout_of spec) spec spec.type credential bundle k
                (rw d.same at passes)
        ];
      }

  object-Evidence :
      (base : Prober) (spec : FailoverProbeSpec) (type : ProbeType)
      → spec.type ≡ type
      → is_kubernetes type ≡ true
      → (execute_kubernetes reader spec.kubernetes).success ≡ true
      → Evidence base spec
  object-Evidence base spec kubernetes_probe same k h = record {
    object = λ _.
        (execute_kubernetes-passed_iff reader spec.kubernetes).0
          (execute_kubernetes-success reader spec.kubernetes h);
    response = λ r. absurd (cc (rw same at r));
    connection = λ r. absurd (cc (rw same at r));
  }
  object-Evidence base spec tcp_probe same k h = absurd (cc k)
  object-Evidence base spec tls_probe same k h = absurd (cc k)
  object-Evidence base spec ProbeType.http_probe same k h = absurd (cc k)
  object-Evidence base spec https_probe same k h = absurd (cc k)
  object-Evidence base spec no_type same k h = absurd (cc k)
  object-Evidence base spec (other_type s) same k h = absurd (cc k)

  module _ (base : Prober) where
    run_network-Evidence :
        (spec : FailoverProbeSpec) (bundle : String) (ref : Option SecretKeySelector)
        (result : ProbeResult)
        → spec.credential_secret_ref ≡ ref
        → ReadsSecret base spec.ca_bundle_secret_ref bundle
        → is_kubernetes spec.type ≡ false
        → run_network (with_executors base) spec bundle ref ≡ ok result
        → result.success ≡ true
        → Evidence base spec
    unfolding run_network with_executors
    run_network-Evidence spec bundle none result asked trusted other h success =
        let same : result_of (execute stack spec "" bundle).outcome ≡ result = cc h in
        network-Evidence base spec "" bundle (rw asked refl, trusted) other (rw same success)
    run_network-Evidence spec bundle (some ref) result asked trusted other h success =
        elim (Result-cases (
          secret_value (base.secret ref.name) ref.key "loading probe credential Secret: "
            "probe credential Secret key is empty")) [
              | inl (e, failed) ↦ absurd (cc (rw (failed, run_network) at h))
              | inr (credential, found) ↦
                  let same : result_of (execute stack spec credential bundle).outcome ≡ result =
                    cc (rw (found, run_network) at h) in
                  network-Evidence base spec credential bundle
                    (rw asked (secret_value-ReadsSecret base ref _ _ credential found), trusted)
                    other (rw same success)
            ]

    -- A run that succeeds has the evidence of its kind.
    pub run_probe-Evidence :
        (spec : FailoverProbeSpec) (result : ProbeResult)
        → run_probe (with_executors base) spec ≡ ok result
        → result.success ≡ true
        → Evidence base spec
    unfolding run_probe with_executors
    run_probe-Evidence spec result h success =
        elim (Result-cases (ca_bundle (with_executors base) spec.ca_bundle_secret_ref)) [
          | inl (e, failed) ↦ absurd (cc (rw (failed, run_probe) at h))
          | inr (bundle, found) ↦ elim (Bool-cases (is_kubernetes spec.type)) [
            | inl kind ↦
                let same : execute_kubernetes reader spec.kubernetes ≡ result =
                  cc (rw (found, kind, run_probe) at h) in
                object-Evidence base spec spec.type refl kind (rw same success)
            | inr other ↦
                run_network-Evidence spec bundle spec.credential_secret_ref result refl
                  (ca_bundle-ReadsSecret base spec.ca_bundle_secret_ref bundle found) other
                  (rw (found, other, run_probe) at h) success
          ]
        ]
