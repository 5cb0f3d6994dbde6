-- ===== src/Tests/Probes.antt =====
-- The probe gate, its thresholds and the event deduper.
use foip_operator.Prelude.{pos, ◌≤◌, true, [], ◌∷◌, length, ◌≡◌, refl, ◌↔◌, arith}
use foip_operator.Api.Types.{FailoverProbe}
use foip_operator.Probe.{
  ProbeResult, passed, refused, observe, find_observation, previous_observation,
}
use foip_operator.Probe.Laws.{observe_all, success_threshold, observe-passes}
use foip_operator.Observability.{EventDeduper}
use foip_operator.Tests.Data.{probe_spec}

abbrev down : ProbeResult
down = refused "connection failed"

-- A probe with both thresholds at two, and nothing observed yet.
abbrev fresh : FailoverProbe
fresh = record {
  name = "web";
  namespace = "default";
  spec = record probe_spec { success_threshold = pos 2; failure_threshold = pos 2 };
  status = record { conditions = []; observations = [] };
}

observe-passes_example :
    ((observe (observe_all fresh (passed ∷ []) 5) passed 5).0.result.success ≡ true)
    ↔ (success_threshold fresh ≤ length (passed ∷ passed ∷ []))
unfolding find_observation previous_observation
observe-passes_example =
    observe-passes fresh (passed ∷ []) passed 5 refl (refl, (refl, tt)) (omega arith)

abbrev healthy : FailoverProbe
healthy = record fresh {
  status = record {
    conditions = [];
    observations =
        record {
          name = "web";
          success = true;
          reason = "";
          observed_at = 1;
          consecutive_successes = pos 4;
          consecutive_failures = pos 0;
        }
        ∷ [];
  };
}

abbrev deduper : EventDeduper
deduper = record { seen = []; interval = 60 }
