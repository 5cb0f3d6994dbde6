-- ===== src/Observability/Gauge.antt =====
-- The gauge of the phase, which internal/observability/metrics.go sets in ObservePhaseState.
use mathlib.Core.List.{append_assoc}
use foip_operator.Prelude.{
  ℤ, pos, String, str_eq, true, Option, none, some, Bool-cases, List, [], ◌∷◌, ◌++◌, exists, ◌≡◌,
  refl, ap, ◌∙◌, inl, inr, if◌then◌else◌, arith,
}
use foip_operator.Api.Types.{
  FailoverPhase, phase_text, uninitialized, idle, selecting, stabilizing, preparing_target,
  target_prepared, routing_provider, verifying_provider, verifying_traffic, committing,
  cleaning_stale_owners, succeeded, degraded, blocked, other_phase,
}
use foip_operator.Api.Status.{is_known}
use foip_operator.Observability.{bounded_label}
use foip_operator.Observability.Metrics.{
  Metric, Change, set, Sample, bounded_phase, set_phase, candidates, reset_phases,
  observe_phase_state,
}

-- What a sample sets the gauge of a phase to.
abbrev read_set : List String → Change → String → Option ℤ
read_set (label ∷ []) (set value) phase = if str_eq label phase then some value else none
read_set _ _ phase = none

abbrev reading : Sample → String → Option ℤ
reading s phase = elim s.metric [ Metric.phase_state ↦ read_set s.labels s.change phase | _ ↦ none ]

abbrev or_else : Option ℤ → Option ℤ → Option ℤ
or_else none earlier = earlier
or_else (some value) earlier = some value

-- The value of the gauge of a phase: the one set last.
pub phase_gauge : List Sample → String → Option ℤ
phase_gauge [] phase = none
phase_gauge (s ∷ earlier) phase = or_else (reading s phase) (phase_gauge earlier phase)

reset_phases-gauge :
    (phases : List String) (before : List Sample) (phase : String)
    → phase_gauge (reset_phases phases ++ before) phase
      ≡ (if exists (λ p. str_eq p phase) phases then some (pos 0) else phase_gauge before phase)
unfolding phase_gauge reset_phases exists
reset_phases-gauge [] before phase = refl
reset_phases-gauge (p ∷ phases) before phase =
    ap (λ l. phase_gauge l phase)
      (append_assoc (reset_phases phases) (set_phase p (pos 0) ∷ []) before)
    ∙ reset_phases-gauge phases (set_phase p (pos 0) ∷ before) phase
    ∙ ground arith

-- The gauge of a candidate that the loop resets.
observe_phase_state-candidate :
    (phase candidate : String) (before : List Sample)
    → exists (λ p. str_eq p candidate) candidates ≡ true
    → phase_gauge (observe_phase_state phase ++ before) candidate
      ≡ some (if str_eq (bounded_phase phase) candidate then pos 1 else pos 0)
unfolding observe_phase_state phase_gauge
observe_phase_state-candidate phase candidate before known =
    elim (Bool-cases (str_eq (bounded_phase phase) candidate)) [
      | inl same ↦ rw (same, phase_gauge) refl
      | inr different ↦
          rw (different, reset_phases-gauge candidates before candidate) (rw known refl)
    ]

-- The text of a phase of the API is among the candidates.
candidate_phase :
    (p : FailoverPhase)
    → is_known p ≡ true
    → exists (λ q. str_eq q (phase_text p)) candidates ≡ true
unfolding phase_text exists str_eq
candidate_phase idle h = refl
candidate_phase selecting h = refl
candidate_phase stabilizing h = refl
candidate_phase preparing_target h = refl
candidate_phase target_prepared h = refl
candidate_phase routing_provider h = refl
candidate_phase verifying_provider h = refl
candidate_phase verifying_traffic h = refl
candidate_phase committing h = refl
candidate_phase cleaning_stale_owners h = refl
candidate_phase succeeded h = refl
candidate_phase degraded h = refl
candidate_phase blocked h = refl
candidate_phase uninitialized h = absurd (cc h)
candidate_phase (other_phase t) h = absurd (cc h)

known_label : (p : FailoverPhase) → is_known p ≡ true → bounded_phase (phase_text p) ≡ phase_text p
unfolding phase_text bounded_phase bounded_label exists str_eq
known_label idle h = refl
known_label selecting h = refl
known_label stabilizing h = refl
known_label preparing_target h = refl
known_label target_prepared h = refl
known_label routing_provider h = refl
known_label verifying_provider h = refl
known_label verifying_traffic h = refl
known_label committing h = refl
known_label cleaning_stale_owners h = refl
known_label succeeded h = refl
known_label degraded h = refl
known_label blocked h = refl
known_label uninitialized h = absurd (cc h)
known_label (other_phase t) h = absurd (cc h)

-- After ObservePhaseState with the text of a phase of the API, whatever was recorded before, the gauge
-- of that phase is 1 and the gauge of every other phase of the API is 0.
pub observe_phase_state-gauge :
    (entered shown : FailoverPhase) (before : List Sample)
    → is_known entered ≡ true
    → is_known shown ≡ true
    → phase_gauge (observe_phase_state (phase_text entered) ++ before) (phase_text shown)
      ≡ some (if str_eq (phase_text entered) (phase_text shown) then pos 1 else pos 0)
observe_phase_state-gauge entered shown before known_entered known_shown =
    observe_phase_state-candidate (phase_text entered) (phase_text shown) before
      (candidate_phase shown known_shown)
    ∙ ap (λ l. some (if str_eq l (phase_text shown) then pos 1 else pos 0))
        (known_label entered known_entered)
