-- ===== src/Probe/Evidence/Gate.antt =====
-- evaluateProbePhase of internal/controller/probe_checks.go with the executors of internal/probe: what an
-- open gate shows of the outside.
use foip_operator.Prelude.{
  String, true, false, Bool-cases, Option, none, some, inl, inr, List, [], ◌∷◌, All, ◌≡◌, refl,
  ltb_ℤ, inc32,
}
use foip_operator.Api.Types.{
  FailoverIp, FailoverProbe, FailoverProbeSpec, ProbePhase, all_probes, ProbeObservation,
}
use foip_operator.Controller.Env.{ok}
use foip_operator.Probe.{
  ProbeResult, judge, observe, apply_probe_thresholds, previous_observation, find_observation,
  at_least_one,
}
use foip_operator.Probe.Phase.{Prober, resolve_probe_spec, applies, evaluate_probe_phase}
use foip_operator.Probe.Phase.Gate.{Shown, shown, evaluate_probe_phase-Shown}
use foip_operator.Probe.Executor.{Stack}
use foip_operator.Probe.Kubernetes.{Reader}
use foip_operator.Probe.Evidence.{with_executors, Evidence, run_probe-Evidence}

module _ {Conn Object : Type 0} (stack : Stack Conn) (reader : Reader Object) (base : Prober) where
  -- A success that is not the executor's stands on a stored success.
  abbrev pub Tolerated : FailoverProbe → Type 0
  Tolerated resource =
      (stored : ProbeObservation) × (find_observation resource.status.observations resource.name
        ≡ some stored)
      × (stored.success ≡ true)
      × (ltb_ℤ (inc32 stored.consecutive_failures) (at_least_one resource.spec.failure_threshold)
          ≡ true)

  judge-tolerated :
      (spec : FailoverProbeSpec) (previous : ProbeObservation) (result : ProbeResult)
      → result.success ≡ false
      → (judge spec previous result).result.success ≡ true
      → (previous.success ≡ true)
        × (ltb_ℤ (inc32 previous.consecutive_failures) (at_least_one spec.failure_threshold) ≡ true)
  unfolding judge
  judge-tolerated spec previous result failed h =
      elim (Bool-cases
        (ltb_ℤ (inc32 previous.consecutive_failures) (at_least_one spec.failure_threshold))) [
          | inr reached ↦ absurd (cc (rw (failed, reached, judge) at h))
          | inl below ↦ elim (Bool-cases previous.success) [
            | inl stored ↦ (stored, below)
            | inr never ↦ absurd (cc (rw (failed, below, never, judge) at h))
          ]
        ]

  -- How a probe let the gate open.
  pub data Opens (foip : FailoverIp) (phase : ProbePhase) (name : String) : Type 0 where
    elsewhere :
        (resource : FailoverProbe)
        → base.load name ≡ ok resource
        → applies base phase resource.spec ≡ false
        → Opens foip phase name
    evident :
        (resource : FailoverProbe) (spec : FailoverProbeSpec)
        → base.load name ≡ ok resource
        → resolve_probe_spec base foip resource.spec ≡ ok spec
        → Evidence stack reader base spec
        → Opens foip phase name
    tolerated :
        (resource : FailoverProbe)
        → base.load name ≡ ok resource
        → Tolerated resource
        → Opens foip phase name

  stored-Tolerated :
      (resource : FailoverProbe) (found : Option ProbeObservation)
      → find_observation resource.status.observations resource.name ≡ found
      → ((previous_observation found).success ≡ true)
        × (ltb_ℤ
              (inc32 (previous_observation found).consecutive_failures)
              (at_least_one resource.spec.failure_threshold)
            ≡ true)
      → Tolerated resource
  unfolding previous_observation
  stored-Tolerated resource none same (stored, below) = absurd (cc stored)
  stored-Tolerated resource (some o) same (stored, below) = (o, same, stored, below)

  Shown-Opens :
      (foip : FailoverIp) (phase : ProbePhase) (name : String)
      → Shown (with_executors stack reader base) foip phase name
      → Opens foip phase name
  unfolding with_executors observe apply_probe_thresholds resolve_probe_spec
  Shown-Opens foip phase name (Shown.elsewhere resource loaded other) =
      Opens.elsewhere resource loaded other
  Shown-Opens foip phase name (shown resource loaded mine ran success) =
      elim (Bool-cases ran.result.success) [
        | inl ok_run ↦
            evident resource ran.spec loaded ran.resolved
              (run_probe-Evidence stack reader base ran.spec ran.result ran.run ok_run)
        | inr failed ↦ tolerated resource loaded (
            stored-Tolerated resource _ refl
              (judge-tolerated resource.spec _ ran.result failed success))
      ]

  All-map :
      (P Q : String → Type 0)
      → ((name : String) → P name → Q name)
      → (names : List String) → All P names
      → All Q names
  All-map P Q f [] h = tt
  All-map P Q f (n ∷ ns) (here, rest) = (f n here, All-map P Q f ns rest)

  -- evaluateProbePhase with the executors, for a resource whose composition is AllProbes: if the gate
  -- is open, every probe that the resource names was loaded, and it is of another phase, or its
  -- resolved spec has the evidence of its kind (the object is ready, the response matches, the
  -- connection was made), or a failure is tolerated on a stored success, its failures in a row
  -- still below the threshold.
  pub evaluate_probe_phase-Opens :
      (foip : FailoverIp) (phase : ProbePhase)
      → foip.spec.probe_composition ≡ all_probes
      → evaluate_probe_phase (with_executors stack reader base) foip phase ≡ ok tt
      → All (Opens foip phase) foip.spec.probes
  evaluate_probe_phase-Opens foip phase all h =
      All-map (Shown (with_executors stack reader base) foip phase) (Opens foip phase)
        (Shown-Opens foip phase) foip.spec.probes
        (evaluate_probe_phase-Shown (with_executors stack reader base) foip phase all h)
