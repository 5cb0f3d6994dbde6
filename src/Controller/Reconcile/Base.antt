-- ===== src/Controller/Reconcile/Base.antt =====
-- Constants and helpers of internal/controller/failoverip_controller.go.
use Prim.Native.String.{◌++◌}
use foip_operator.Prelude.{
  ℕ, pos, ◌*◌, String, Bool, true, false, ◌||◌, none, List, [], ◌∷◌, str_eq,
}
use foip_operator.Api.Types.{
  FailoverPhase, phase_text, selecting, stabilizing, preparing_target, target_prepared,
  routing_provider, verifying_provider, verifying_traffic, committing, cleaning_stale_owners,
  succeeded, degraded, blocked, ConditionStatus, FailoverIp,
}
use foip_operator.Api.Status.{
  AdvanceError, not_initialized, illegal_transition, advanced, refused, advance_transition,
}
use foip_operator.Api.Condition.{set_condition}
use foip_operator.Controller.Backoff.{nanoseconds}
use foip_operator.Controller.Env.{M, Error, Outcome, requeue, failed, pure}

abbrev pub default_requeue_time : Outcome
default_requeue_time = requeue (pos (86400 * nanoseconds))

abbrev pub preparation_poll_interval : Outcome
preparation_poll_interval = requeue (pos (2 * nanoseconds))

abbrev pub provider_verify_interval : Outcome
provider_verify_interval = requeue (pos (2 * nanoseconds))

abbrev pub provider_verify_attempts : ℕ
provider_verify_attempts = 15

-- fmt.Sprintf("unexpected persisted phase %q", phase), for a phase with nothing to escape.
unfoldable pub unexpected_text : FailoverPhase → String
unexpected_text phase = "unexpected persisted phase \"" ++ phase_text phase ++ "\""

-- An error with a text of its own.
abbrev pub plain : String → Error
plain text = record { text = text; retry_after = none }

-- fmt.Errorf("…: %w", err).
abbrev pub wrap : String → Error → Error
wrap prefix e = record e { text = prefix ++ e.text }

pub advance_text : AdvanceError → String
advance_text not_initialized = "cannot advance an uninitialized status"
advance_text (illegal_transition from to) =
    "illegal failover phase transition " ++ phase_text from ++ " -> " ++ phase_text to

-- r.advanceTransition, with the return of its error.
unfoldable pub advance : FailoverIp → FailoverPhase → ℕ → (FailoverIp → M Outcome) → M Outcome
advance foip to at k = elim (advance_transition foip.status to at) [
  | refused e ↦ pure (failed (plain (advance_text e)))
  | advanced status ↦ k (record foip { status = status })
]

-- SetCondition on the status of an object.
unfoldable pub mark : FailoverIp → String → ConditionStatus → String → String → ℕ → FailoverIp
mark foip kind status reason message at = record foip {
  status = set_condition foip.status kind status reason message at;
}

-- containsNode.
unfoldable pub contains_node : List String → String → Bool
contains_node [] name = false
contains_node (n ∷ ns) name = str_eq n name || contains_node ns name

abbrev pub is_stabilizing : FailoverPhase → Bool
is_stabilizing stabilizing = true
is_stabilizing _ = false

abbrev pub is_selecting : FailoverPhase → Bool
is_selecting selecting = true
is_selecting _ = false

abbrev pub is_succeeded : FailoverPhase → Bool
is_succeeded succeeded = true
is_succeeded _ = false

abbrev pub is_degraded : FailoverPhase → Bool
is_degraded degraded = true
is_degraded _ = false

abbrev pub is_blocked : FailoverPhase → Bool
is_blocked blocked = true
is_blocked _ = false

abbrev pub is_preparing : FailoverPhase → Bool
is_preparing preparing_target = true
is_preparing _ = false

abbrev pub is_prepared : FailoverPhase → Bool
is_prepared target_prepared = true
is_prepared _ = false

abbrev pub is_routing : FailoverPhase → Bool
is_routing routing_provider = true
is_routing _ = false

abbrev pub is_verifying_provider : FailoverPhase → Bool
is_verifying_provider verifying_provider = true
is_verifying_provider _ = false

abbrev pub is_verifying_traffic : FailoverPhase → Bool
is_verifying_traffic verifying_traffic = true
is_verifying_traffic _ = false

abbrev pub is_committing : FailoverPhase → Bool
is_committing committing = true
is_committing _ = false

abbrev pub is_cleaning : FailoverPhase → Bool
is_cleaning cleaning_stale_owners = true
is_cleaning _ = false
