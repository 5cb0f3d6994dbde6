-- ===== src/Controller/Selection.antt =====
-- internal/controller/selection_policy.go: windows, thresholds and the handoff gate.
pub mod Laws
use foip_operator.Prelude.{
  ℕ, ℤ, pos, ◌+◌, ◌-◌, ◌*◌, ◌≤◌, ◌<◌, Bool, true, false, not, ◌&&◌, ◌||◌, Option, none, some,
  is_pos, to_nat, leb, ltb, if◌then◌else◌,
}
use foip_operator.Api.Types.{FailoverIpSpec, FailoverIpStatus, condition_true}
use foip_operator.Controller.Backoff.{backoff, nanoseconds, minute}
use foip_operator.Controller.Node.{
  Node, condition_is, network_unavailable, ready, pid_pressure, memory_pressure, disk_pressure,
}

unfoldable pub stabilization_window : FailoverIpSpec → ℕ
stabilization_window s =
    if not (is_pos s.stabilization_seconds)
    then 30 * nanoseconds
    else to_nat s.stabilization_seconds * nanoseconds

unfoldable pub min_healthy_window : FailoverIpSpec → ℕ
min_healthy_window s =
    if not (is_pos s.min_healthy_seconds) then 0 else to_nat s.min_healthy_seconds * nanoseconds

unfoldable pub failure_threshold : FailoverIpSpec → ℤ
failure_threshold s = if not (is_pos s.failure_threshold) then pos 3 else s.failure_threshold

unfoldable pub recovery_threshold : FailoverIpSpec → ℤ
recovery_threshold s = if not (is_pos s.recovery_threshold) then pos 2 else s.recovery_threshold

unfoldable pub cleanup_max_attempts : FailoverIpSpec → ℤ
cleanup_max_attempts s =
    if not (is_pos s.cleanup_max_attempts) then pos 15 else s.cleanup_max_attempts

-- The loop counts from 1, so it has one round less than there are attempts.
unfoldable pub cleanup_retry_delay : FailoverIpSpec → ℤ → ℕ
cleanup_retry_delay s attempts =
    let delay =
      if is_pos s.cleanup_retry_seconds
      then to_nat s.cleanup_retry_seconds * nanoseconds
      else 2 * nanoseconds in
    backoff (to_nat attempts - 1) delay minute

unfoldable pub node_acceptable : Node → Bool
node_acceptable n =
    if n.unschedulable
      || condition_is n network_unavailable condition_true
      || condition_is n pid_pressure condition_true
      || condition_is n memory_pressure condition_true
      || condition_is n disk_pressure condition_true
    then false
    else condition_is n ready condition_true

-- The windows have passed since the candidate was first seen.
abbrev pub windows_elapsed : FailoverIpSpec → Option ℕ → ℕ → Bool
windows_elapsed s none now = false
windows_elapsed s (some since) now =
    leb (since + (stabilization_window s + min_healthy_window s)) now

unfoldable pub candidate_ready_for_handoff : FailoverIpSpec → FailoverIpStatus → Node → ℕ → Bool
candidate_ready_for_handoff s status candidate now =
    node_acceptable candidate && windows_elapsed s status.candidate_since now
