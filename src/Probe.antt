-- ===== src/Probe.antt =====
-- Probe outcomes: Aggregate of internal/probe/executor.go, and the thresholds and the stored
-- observations of internal/controller/probe_checks.go.
pub mod Laws
pub mod Policy
pub mod Phase
pub mod Session
pub mod Http
pub mod Executor
pub mod Kubernetes
pub mod Evidence
use Prim.Native.String.{◌++◌}
use foip_operator.Prelude.{
  ℕ, ℤ, pos, ◌+◌, String, Bool, true, false, not, ◌&&◌, Option, none, some, List, [], ◌∷◌, length,
  ◌==◌, ltb, ltb_ℤ, inc32, if◌then◌else◌, str_eq,
}
use foip_operator.Prelude.Text.{itoa}
use foip_operator.Api.Types.{
  ProbeComposition, no_composition, all_probes, any_probe, quorum_probes, other_composition,
  FailoverProbeSpec, ProbeObservation, FailoverProbeStatus, FailoverProbe, Condition,
  ConditionStatus, condition_true, condition_false,
}

pub record ProbeResult : Type 0 where
  pub success : Bool
  pub reason : String

abbrev pub passed : ProbeResult
passed = record { success = true; reason = "" }

abbrev pub refused : String → ProbeResult
refused reason = record { success = false; reason = reason }

-- The loop that counts the successes.
unfoldable pub successes : List ProbeResult → ℕ
successes [] = 0
successes (r ∷ rs) = let rest = successes rs in if r.success then rest + 1 else rest

-- The switch of Aggregate, over the number of results and of successes.
unfoldable pub compose : ProbeComposition → ℤ → ℕ → ℕ → ProbeResult
compose no_composition quorum total count =
    if count == total then passed else refused "not all probes succeeded"
compose all_probes quorum total count =
    if count == total then passed else refused "not all probes succeeded"
compose any_probe quorum total count = if ltb 0 count then passed else refused "no probe succeeded"
compose quorum_probes quorum total count =
    if not (ltb_ℤ (pos count) quorum)
    then passed
    else refused ("quorum not reached: " ++ itoa (pos count) ++ "/" ++ itoa quorum)
compose (other_composition s) quorum total count = refused "unsupported composition"

-- Aggregate.
unfoldable pub aggregate : ProbeComposition → ℤ → List ProbeResult → ProbeResult
aggregate c quorum [] = refused "no probe results"
aggregate c quorum (r ∷ rs) = compose c quorum (length (r ∷ rs)) (successes (r ∷ rs))

-- The first stored observation of a name.
unfoldable pub find_observation : List ProbeObservation → String → Option ProbeObservation
find_observation [] name = none
find_observation (o ∷ os) name = if str_eq o.name name then some o else find_observation os name

-- The zero observation.
abbrev pub no_observation : ProbeObservation
no_observation = record {
  name = "";
  success = false;
  reason = "";
  observed_at = 0;
  consecutive_successes = pos 0;
  consecutive_failures = pos 0;
}

unfoldable pub previous_observation : Option ProbeObservation → ProbeObservation
previous_observation none = no_observation
previous_observation (some o) = o

-- max(n, 1).
abbrev pub at_least_one : ℤ → ℤ
at_least_one n = if ltb_ℤ n (pos 1) then pos 1 else n

-- What applyProbeThresholds returns: the result, and the counts of successes and failures in a row.
pub record Judged : Type 0 where
  pub result : ProbeResult
  pub successes : ℤ
  pub failures : ℤ

-- applyProbeThresholds, over the previous observation.
unfoldable pub judge : FailoverProbeSpec → ProbeObservation → ProbeResult → Judged
judge spec previous result =
    if result.success
    then (let count = inc32 previous.consecutive_successes in
        if ltb_ℤ count (at_least_one spec.success_threshold)
        then record {
          result = refused "success threshold not reached";
          successes = count;
          failures = pos 0;
        }
        else record { result = result; successes = count; failures = pos 0 })
    else (let count = inc32 previous.consecutive_failures in
        if ltb_ℤ count (at_least_one spec.failure_threshold) && previous.success
        then record {
          result = record { success = true; reason = "failure threshold not reached" };
          successes = pos 0;
          failures = count;
        }
        else record { result = result; successes = pos 0; failures = count })

-- applyProbeThresholds.
unfoldable pub apply_probe_thresholds :
    FailoverProbeSpec → FailoverProbeStatus → String → ProbeResult → Judged
apply_probe_thresholds spec status name result =
    judge spec (previous_observation (find_observation status.observations name)) result

-- The loop of persistProbeObservation: the first observation of the name is replaced.
unfoldable pub put_observation : ProbeObservation → List ProbeObservation → List ProbeObservation
put_observation new [] = new ∷ []
put_observation new (o ∷ os) =
    if str_eq o.name new.name then new ∷ os else o ∷ put_observation new os

-- setProbeCondition.
unfoldable pub set_probe_condition : List Condition → Condition → List Condition
set_probe_condition [] new = new ∷ []
set_probe_condition (c ∷ cs) new =
    if str_eq c.kind "Ready" then new ∷ cs else c ∷ set_probe_condition cs new

-- The condition that persistProbeObservation sets.
abbrev pub probe_condition : Bool → ℕ → Condition
probe_condition success now = record {
  kind = "Ready";
  status = if success then condition_true else condition_false;
  reason = if success then "ProbeSucceeded" else "ProbeFailed";
  message = if success then "Probe execution succeeded" else "Probe execution failed";
  last_transition_time = now;
  observed_generation = 0;
}

-- The object that persistProbeObservation patches.
unfoldable pub persist_probe_observation : FailoverProbe → Judged → ℕ → FailoverProbe
persist_probe_observation resource judged now =
    let observation : ProbeObservation = record {
      name = resource.name;
      success = judged.result.success;
      reason = judged.result.reason;
      observed_at = now;
      consecutive_successes = judged.successes;
      consecutive_failures = judged.failures;
    } in
    record resource {
      status = record {
        conditions =
            set_probe_condition resource.status.conditions
              (probe_condition judged.result.success now);
        observations = put_observation observation resource.status.observations;
      };
    }

-- One probe in the loop of evaluateProbePhase, once it was executed: thresholds, then the patch.
unfoldable pub observe : FailoverProbe → ProbeResult → ℕ → Judged × FailoverProbe
observe resource result now =
    let judged = apply_probe_thresholds resource.spec resource.status resource.name result in
    (judged, persist_probe_observation resource judged now)
