-- ===== src/Controller/Reconcile/Select.antt =====
-- The choice of a target in Reconcile of internal/controller/failoverip_controller.go: recovery of
-- the current owner, thresholds, stabilization and the handoff to a better node.
use foip_operator.Prelude.{
  ℕ, ℤ, pos, ◌+◌, String, Bool, true, false, not, ◌&&◌, ◌||◌, Option, none, some, List, [], ltb_ℤ,
  inc32, sub_ℕ, if◌then◌else◌, str_eq,
}
use foip_operator.Api.Types.{
  selecting, stabilizing, preparing_target, condition_true, condition_false, FailoverIpStatus,
  FailoverIp,
}
use foip_operator.Api.Condition.{condition_stabilizing}
use foip_operator.Controller.Backoff.{nanoseconds}
use foip_operator.Controller.Node.{Node}
use foip_operator.Controller.Scoring.{candidate_nodes, better_node}
use foip_operator.Controller.Selection.{
  stabilization_window, min_healthy_window, failure_threshold, recovery_threshold,
  candidate_ready_for_handoff,
}
use foip_operator.Controller.Env.{M, Outcome, requeue, ◌>>=◌, pure, now, patch}
use foip_operator.Controller.Reconcile.Base.{
  preparation_poll_interval, advance, mark, is_stabilizing, is_selecting, is_succeeded, is_degraded,
}
use foip_operator.Controller.Reconcile.Prepare.{drive_target}

-- The current owner has recovered for long enough: the candidate is dropped.
unfoldable pub cancel_candidate : FailoverIp → M Outcome
cancel_candidate foip = do
  at ← now
  advance foip selecting at λ advanced.
      let status : FailoverIpStatus = record (advanced.status) {
        candidate_since = none;
        candidate_failure_count = pos 0;
        candidate_recovery_count = pos 0;
        candidate_reason = "current owner recovered during stabilization";
      } in
      patch foip
        (mark (record advanced { status = status }) condition_stabilizing condition_false
          "CandidateRecovered" "Canceled candidate after current owner recovery" at)
        (λ _. pure preparation_poll_interval)

-- The current owner is as healthy as any candidate while a candidate is stabilizing.
unfoldable pub owner_recovered : FailoverIp → M Outcome
owner_recovered foip =
    let count = inc32 foip.status.candidate_recovery_count in
    let status : FailoverIpStatus = record (foip.status) { candidate_recovery_count = count } in
    let counted : FailoverIp = record foip { status = status } in
    if ltb_ℤ count (recovery_threshold foip.spec)
    then patch foip counted (λ _. pure preparation_poll_interval)
    else cancel_candidate counted

-- A better node after the end of a transition starts the next one.
unfoldable pub reselect : FailoverIp → M Outcome
reselect foip = do
  at ← now
  advance foip selecting at λ advanced.
      let status : FailoverIpStatus = record (advanced.status) { candidate_since = none } in
      patch foip (record advanced { status = status }) (λ _. pure preparation_poll_interval)

-- The candidate is seen for the first time.
unfoldable pub begin_stabilization : FailoverIp → M Outcome
begin_stabilization foip = do
  at ← now
  let status : FailoverIpStatus = record (foip.status) {
    candidate_since = some at;
    candidate_reason = "healthiest candidate selected";
  }
  let seen : FailoverIp = record foip { status = status }
  let rest : FailoverIp → M Outcome = λ changed.
      patch foip changed (λ stored. pure (requeue (pos (stabilization_window stored.spec))))
  if is_selecting foip.status.phase
      then (advance seen stabilizing at λ advanced. rest (
          mark advanced condition_stabilizing condition_true "CandidateSelected"
            "Candidate is within the stabilization window" at))
      else rest seen

-- The target becomes the source, and the candidate the target.
abbrev pub hand_over : FailoverIpStatus → String → FailoverIpStatus
hand_over s target = record s {
  source_node = s.target_node;
  cleanup_attempts = pos 0;
  next_cleanup_at = none;
  target_node = target;
  local_owners = [];
  candidate_since = none;
  candidate_reason = "";
  candidate_failure_count = pos 0;
  candidate_recovery_count = pos 0;
}

unfoldable pub begin_handoff : FailoverIp → Node → M Outcome
begin_handoff foip better =
    let moved : FailoverIp = record foip { status = hand_over foip.status better.name } in
    if is_stabilizing foip.status.phase
    then (do
      at ← now
      advance moved preparing_target at λ advanced.
          patch foip
            (mark advanced condition_stabilizing condition_false "WindowElapsed"
              "Candidate remained healthy through stabilization" at)
            (λ _. pure preparation_poll_interval))
    else patch foip moved (λ _. pure preparation_poll_interval)

-- max(d, time.Second).
abbrev pub at_least_second : ℤ → ℤ
at_least_second d = if ltb_ℤ d (pos nanoseconds) then pos nanoseconds else d

-- The candidate was seen at `since`: it takes over once it is ready.
unfoldable pub stabilize : FailoverIp → Node → ℕ → M Outcome
stabilize foip better since = do
  time ← now
  if not (candidate_ready_for_handoff foip.spec foip.status better time)
      then (do
        later ← now
        pure (
            requeue (
              at_least_second (
                sub_ℕ (since + (stabilization_window foip.spec + min_healthy_window foip.spec))
                  later))))
      else begin_handoff foip better

abbrev pub count_failure : FailoverIp → FailoverIp
count_failure foip =
    let status : FailoverIpStatus = record (foip.status) {
      candidate_failure_count = inc32 foip.status.candidate_failure_count;
    } in
    record foip { status = status }

-- A better node than the target: its failures are counted, then it is stabilized.
unfoldable pub consider : FailoverIp → Node → M Outcome
consider foip better =
    if is_succeeded foip.status.phase || is_degraded foip.status.phase
    then reselect foip
    else let counted : FailoverIp = count_failure foip in
      if ltb_ℤ counted.status.candidate_failure_count (failure_threshold foip.spec)
      then patch foip counted (λ _. pure preparation_poll_interval)
      else elim foip.status.candidate_since [
        | none ↦ begin_stabilization counted
        | some since ↦ stabilize counted better since
      ]

abbrev pub is_some_time : Option ℕ → Bool
is_some_time none = false
is_some_time (some t) = true

-- What betterNode returns decides.
unfoldable pub select_from : Option Node → FailoverIp → ℤ → ℤ → M Outcome
select_from none foip foip_id current =
    if is_stabilizing foip.status.phase && is_some_time foip.status.candidate_since
    then owner_recovered foip
    else drive_target foip foip_id current
select_from (some better) foip foip_id current =
    if not (str_eq better.name foip.status.target_node)
    then consider foip better
    else drive_target foip foip_id current

unfoldable pub select_target : FailoverIp → ℤ → ℤ → List Node → M Outcome
select_target foip foip_id current nodes =
    select_from (better_node (candidate_nodes nodes) foip.status.target_node) foip foip_id current
