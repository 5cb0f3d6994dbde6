-- ===== src/Api/Status.antt =====
-- api/v1/failoverip_state.go: the transition table and the operations on a persisted status.
pub mod Laws
pub mod Gates
use Prim.Native.String.{◌++◌}
use foip_operator.Prelude.Text.{itoa}
use foip_operator.Prelude.{
  pos, ℕ, String, Bool, true, false, not, ◌&&◌, ◌||◌, Option, none, some, List, [], ◌∷◌, length,
  ◌==◌, if◌then◌else◌, str_eq,
}
use foip_operator.Api.Types.{
  phase_text, FailoverPhase, uninitialized, idle, selecting, stabilizing, preparing_target,
  target_prepared, routing_provider, verifying_provider, verifying_traffic, committing,
  cleaning_stale_owners, succeeded, degraded, blocked, other_phase, is_uninitialized,
  FailoverIpStatus,
}

-- The destinations that legalPhaseTransitions lists for a phase; none for an unknown phase.
unfoldable pub legal_phase_transitions : FailoverPhase → Option (List FailoverPhase)
legal_phase_transitions idle = some (selecting ∷ [])
legal_phase_transitions selecting = some (stabilizing ∷ blocked ∷ [])
legal_phase_transitions stabilizing = some (preparing_target ∷ selecting ∷ blocked ∷ [])
legal_phase_transitions preparing_target = some (target_prepared ∷ blocked ∷ [])
legal_phase_transitions target_prepared = some (routing_provider ∷ blocked ∷ [])
legal_phase_transitions routing_provider = some (verifying_provider ∷ degraded ∷ blocked ∷ [])
legal_phase_transitions verifying_provider = some (verifying_traffic ∷ degraded ∷ blocked ∷ [])
legal_phase_transitions verifying_traffic = some (committing ∷ degraded ∷ blocked ∷ [])
legal_phase_transitions committing = some (cleaning_stale_owners ∷ degraded ∷ blocked ∷ [])
legal_phase_transitions cleaning_stale_owners = some (succeeded ∷ degraded ∷ blocked ∷ [])
legal_phase_transitions succeeded = some (selecting ∷ [])
legal_phase_transitions degraded = some (selecting ∷ blocked ∷ [])
legal_phase_transitions blocked = some (selecting ∷ [])
legal_phase_transitions _ = none

-- The number of a known phase, in the order of the constants; 13 for the empty string.
abbrev phase_number : FailoverPhase → ℕ
phase_number idle = 0
phase_number selecting = 1
phase_number stabilizing = 2
phase_number preparing_target = 3
phase_number target_prepared = 4
phase_number routing_provider = 5
phase_number verifying_provider = 6
phase_number verifying_traffic = 7
phase_number committing = 8
phase_number cleaning_stale_owners = 9
phase_number succeeded = 10
phase_number degraded = 11
phase_number blocked = 12
phase_number _ = 13

-- Equality of two phases as strings.
abbrev pub phase_eq : FailoverPhase → FailoverPhase → Bool
phase_eq (other_phase s) (other_phase t) = str_eq s t
phase_eq (other_phase s) uninitialized = false
phase_eq uninitialized (other_phase t) = false
phase_eq p q = phase_number p == phase_number q

abbrev phase_mem : FailoverPhase → List FailoverPhase → Bool
phase_mem p [] = false
phase_mem p (q ∷ qs) = phase_eq q p || phase_mem p qs

unfoldable pub can_transition : FailoverPhase → FailoverPhase → Bool
unfolding legal_phase_transitions
can_transition from to = elim (legal_phase_transitions from) [
  | none ↦ false
  | some targets ↦ phase_mem to targets
]

-- The phases at which a source equal to the target is accepted.
unfoldable pub settles_owner : FailoverPhase → Bool
settles_owner committing = true
settles_owner cleaning_stale_owners = true
settles_owner succeeded = true
settles_owner idle = true
settles_owner _ = false

-- The errors of ValidateStatus.
pub data StatusError : Type 0 where
  no_transition_id unknown_phase identical_owners : StatusError
  owner_count : ℕ → StatusError
  foreign_owner : String → StatusError

abbrev pub is_known : FailoverPhase → Bool
is_known uninitialized = false
is_known (other_phase s) = false
is_known _ = true

-- The two checks of a succeeded transition. The second indexes the list that the first has
-- found to have one entry.
check_owners : String → List String → Option StatusError
check_owners target (owner ∷ []) = if str_eq target owner then none else some (foreign_owner owner)
check_owners target owners = some (owner_count (length owners))

unfoldable pub is_succeeded : FailoverPhase → Bool
is_succeeded succeeded = true
is_succeeded _ = false

-- `none` is the nil error.
unfoldable pub validate_status : FailoverIpStatus → Option StatusError
unfolding check_owners settles_owner is_succeeded
validate_status s =
    if is_uninitialized s.phase
    then none
    else if str_eq s.transition_id ""
    then some no_transition_id
    else if not (is_known s.phase)
    then some unknown_phase
    else if not (str_eq s.target_node "")
        && not (str_eq s.source_node "")
        && str_eq s.target_node s.source_node
        && not (settles_owner s.phase)
    then some identical_owners
    else if is_succeeded s.phase
    then check_owners s.target_node s.local_owners
    else none

-- `uuid` is what uuid.NewUUID returns.
unfoldable pub start_transition : FailoverIpStatus → String → ℕ → FailoverIpStatus
start_transition s uuid now = if not (str_eq s.transition_id "") then s else record s {
  transition_id = uuid;
  phase = selecting;
  phase_started_at = some now;
  last_transition_at = some now;
}

-- The text of an error of ValidateStatus.
unfoldable pub status_error_text : FailoverIpStatus → StatusError → String
unfolding phase_text
status_error_text s no_transition_id = "phase " ++ phase_text s.phase ++ " has no transition ID"
status_error_text s unknown_phase = "unknown failover phase \"" ++ phase_text s.phase ++ "\""
status_error_text s identical_owners = "source and target node are identical: " ++ s.target_node
status_error_text s (owner_count n) =
    "succeeded transition has " ++ itoa (pos n) ++ " local owners, want exactly one"
status_error_text s (foreign_owner owner) =
    "succeeded transition target \"" ++ s.target_node ++ "\" is not local owner \"" ++ owner ++ "\""

-- The errors of AdvanceTransition.
pub data AdvanceError : Type 0 where
  not_initialized : AdvanceError
  illegal_transition : FailoverPhase → FailoverPhase → AdvanceError

pub data Advance : Type 0 where
  advanced : FailoverIpStatus → Advance
  refused : AdvanceError → Advance

unfoldable pub advance_transition : FailoverIpStatus → FailoverPhase → ℕ → Advance
advance_transition s to now =
    if is_uninitialized s.phase
    then refused not_initialized
    else if not (can_transition s.phase to)
    then refused (illegal_transition s.phase to)
    else advanced (record s {
      last_successful_phase = s.phase;
      phase = to;
      phase_started_at = some now;
      last_transition_at = some now;
      last_error = "";
    })
