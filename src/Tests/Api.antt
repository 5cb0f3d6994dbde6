-- ===== src/Tests/Api.antt =====
-- The statuses, the specifications and the conditions.
use foip_operator.Prelude.{
  ◌⊎◌, ◌≢◌, arith, str_eq, str_ne, ◌≡◌, refl, ◌↔◌, none, some, List, [], ◌∷◌,
}
use foip_operator.Prelude.Lists.{Occurs}
use foip_operator.Api.Types.{
  selecting, stabilizing, preparing_target, target_prepared, routing_provider, verifying_provider,
  verifying_traffic, committing, cleaning_stale_owners, succeeded, FailoverPhase, FailoverIpStatus,
  condition_true,
}
use foip_operator.Api.Status.{validate_status, advance_transition, identical_owners, can_transition}
use foip_operator.Api.Status.Laws.{
  IsSettled, IsValid, validate_status-none_iff, advance_transition-IsValid, reselect_invalid,
}
use foip_operator.Api.Status.Gates.{Run, stay, step, Run-passes_gates}
use foip_operator.Api.Validate.{validate_probe_spec}
use foip_operator.Api.Validate.Laws.{IsProbe, validate_probe_spec-none_iff}
use foip_operator.Api.Condition.{set_condition}
use foip_operator.Tests.Data.{probe_spec, settled, status_in}

validate_status-none_iff_example : (validate_status settled ≡ none) ↔ IsValid settled
validate_status-none_iff_example = validate_status-none_iff settled

abbrev prepared : FailoverIpStatus
prepared = record (status_in target_prepared) {
  last_successful_phase = preparing_target;
  phase_started_at = some 5;
  last_transition_at = some 5;
}

advance_transition-IsValid_example :
    (validate_status prepared ≡ none)
    ⊎ ((target_prepared ≡ succeeded) × (prepared.local_owners ≢ prepared.target_node ∷ []))
    ⊎ (IsSettled preparing_target
        × (prepared.source_node ≡ prepared.target_node)
        × (validate_status prepared ≡ some identical_owners))
unfolding advance_transition can_transition validate_status str_eq
advance_transition-IsValid_example =
    advance_transition-IsValid (status_in preparing_target) prepared target_prepared 5 refl refl

abbrev reselected : FailoverIpStatus
reselected = record settled {
  phase = selecting;
  last_successful_phase = succeeded;
  phase_started_at = some 9;
  last_transition_at = some 9;
}

reselect_invalid_example : validate_status reselected ≡ some identical_owners
unfolding validate_status str_eq advance_transition can_transition
reselect_invalid_example =
    reselect_invalid settled reselected 9 refl refl (str_ne "node-b" "" refl) refl refl

abbrev fresh : FailoverIpStatus
fresh = record (status_in selecting) { transition_id = "" }

abbrev way : List FailoverPhase
way =
    selecting ∷ stabilizing ∷ preparing_target ∷ target_prepared ∷ routing_provider
    ∷ verifying_provider ∷ verifying_traffic ∷ committing ∷ cleaning_stale_owners ∷ []

straight : Run selecting way succeeded
unfolding can_transition
straight = step refl (
    step refl
      (step refl (step refl (step refl (step refl (step refl (step refl (step refl stay))))))))

Run-passes_gates_example : Occurs verifying_traffic way
Run-passes_gates_example = Run-passes_gates verifying_traffic straight (omega arith) (omega arith)

validate_probe_spec-none_iff_example : (validate_probe_spec probe_spec ≡ none) ↔ IsProbe probe_spec
validate_probe_spec-none_iff_example = validate_probe_spec-none_iff probe_spec

abbrev ready_status : FailoverIpStatus
ready_status = set_condition settled "Ready" condition_true "Succeeded" "done" 5
