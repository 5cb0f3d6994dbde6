-- ===== src/Controller/Selection/Laws.antt =====
-- The handoff gate, and the delay between two cleanup attempts.
use foip_operator.Prelude.{
  ℕ, ℤ, ◌+◌, ◌-◌, ◌*◌, ◌^◌, ◌≤◌, min, ◌≡◌, ◌↔◌, true, false, some, is_pos, to_nat, arith, leb,
  if◌then◌else◌, Option-cases, inl, inr,
}
use foip_operator.Api.Types.{FailoverIpSpec, FailoverIpStatus, condition_true}
use foip_operator.Controller.Backoff.{backoff_closed, backoff_done, nanoseconds, minute}
use foip_operator.Controller.Node.{
  Node, condition_is, network_unavailable, ready, pid_pressure, memory_pressure, disk_pressure,
}
use foip_operator.Controller.Selection.{
  stabilization_window, min_healthy_window, cleanup_retry_delay, node_acceptable,
  candidate_ready_for_handoff,
}

-- A node that can take the address.
pub record IsAcceptable (n : Node) : Type 0 where
  pub schedulable : n.unschedulable ≡ false
  pub is_ready : condition_is n ready condition_true ≡ true
  pub networked : condition_is n network_unavailable condition_true ≡ false
  pub pids : condition_is n pid_pressure condition_true ≡ false
  pub memory : condition_is n memory_pressure condition_true ≡ false
  pub disk : condition_is n disk_pressure condition_true ≡ false

node_acceptable_iff : (n : Node) → (node_acceptable n ≡ true) ↔ IsAcceptable n
unfolding node_acceptable
node_acceptable_iff n = (λ h. ground arith, λ h. ground arith)

-- A candidate may take over exactly if it is schedulable, ready and under no pressure, and both the
-- stabilization window and the healthy window have passed since the recorded time at which it was
-- first seen.
pub candidate_ready_iff :
    (s : FailoverIpSpec) (status : FailoverIpStatus) (candidate : Node) (now : ℕ)
    → (candidate_ready_for_handoff s status candidate now ≡ true) ↔ (
        IsAcceptable candidate
        × ((since : ℕ) × (status.candidate_since ≡ some since)
            × (since + stabilization_window s + min_healthy_window s ≤ now)))
unfolding candidate_ready_for_handoff
candidate_ready_iff s status candidate now = elim (Option-cases status.candidate_since) [
  | inl e ↦ (λ h. absurd (ground arith), λ h. absurd (ground arith))
  | inr (since, e) ↦ (
    λ h. ((node_acceptable_iff candidate).0 (ground arith), (since, e, ground arith)),
    λ h. ground (arith, (node_acceptable_iff candidate).1 h.0),
  )
]

pub cleanup_base : FailoverIpSpec → ℕ
cleanup_base s =
    if is_pos s.cleanup_retry_seconds
    then to_nat s.cleanup_retry_seconds * nanoseconds
    else 2 * nanoseconds

-- The delay before the next cleanup attempt is the setting, or two seconds, doubled for each
-- attempt after the first and capped at a minute; a setting above a minute is kept as it is.
cleanup_retry_delay_closed :
    (s : FailoverIpSpec) (attempts : ℤ)
    → cleanup_retry_delay s attempts ≡ (
        if leb (cleanup_base s) minute
        then min (cleanup_base s * 2 ^ (to_nat attempts - 1)) minute
        else cleanup_base s)
unfolding cleanup_retry_delay cleanup_base
cleanup_retry_delay_closed s attempts = ground (
  arith,
  backoff_closed (to_nat attempts - 1) (cleanup_base s) minute,
  backoff_done (to_nat attempts - 1) (cleanup_base s) minute,
)
