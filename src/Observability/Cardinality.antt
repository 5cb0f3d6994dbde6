-- ===== src/Observability/Cardinality.antt =====
-- The labels of the metrics are bounded.
use foip_operator.Prelude.Lists.{All-append}
use foip_operator.Prelude.{
  ℤ, pos, String, str_eq, Bool, true, false, not, ◌&&◌, Bool-cases, List, [], ◌∷◌, length, All,
  exists, ◌≡◌, refl, ◌⊎◌, inl, inr,
}
use foip_operator.Observability.{bounded_label}
use foip_operator.Observability.Metrics.{
  Metric, Sample, phase_names, bounded_phase, controllers, reconcile_results, providers,
  provider_operations, interface_controllers, interface_operations, policies, Observation, samples,
  label_names, set_phase, outcome, observe_reconcile, observe_provider_call,
  observe_interface_operation, observe_handoff_duration, observe_phase, observe_phase_transition,
  observe_cooldown_block, observe_recovery_action, observe_owner_count, candidates, reset_phases,
  observe_phase_state,
}

-- One of the values, or "other".
abbrev pub IsOneOf : List String → String → Type 0
IsOneOf values label = (exists (λ v. str_eq v label) values ≡ true) ⊎ (label ≡ "other")

bounded_label-IsOneOf :
    (value : String) (allowed : List String) → IsOneOf allowed (bounded_label value allowed)
unfolding bounded_label
bounded_label-IsOneOf value allowed = elim (Bool-cases (exists (λ a. str_eq a value) allowed)) [
  | inl known ↦ inl (rw known known)
  | inr unknown ↦ inr (rw unknown refl)
]

-- The values that the labels of a metric may have, "other" apart.
abbrev pub domains : Metric → List (List String)
domains Metric.reconcile_total = controllers ∷ reconcile_results ∷ []
domains Metric.reconcile_duration = controllers ∷ reconcile_results ∷ []
domains Metric.provider_total = providers ∷ provider_operations ∷ reconcile_results ∷ []
domains Metric.provider_duration = providers ∷ provider_operations ∷ []
domains Metric.interface_total =
    interface_controllers ∷ interface_operations ∷ reconcile_results ∷ []
domains Metric.interface_duration = interface_controllers ∷ interface_operations ∷ []
domains Metric.handoff_duration = []
domains Metric.phase_duration = phase_names ∷ []
domains Metric.phase_transitions = phase_names ∷ phase_names ∷ []
domains Metric.cooldown_blocks = []
domains Metric.recovery_actions = policies ∷ []
domains Metric.owner_count = phase_names ∷ []
domains Metric.phase_state = phase_names ∷ []

-- As many labels as domains, each in its own.
abbrev pub Fits : List String → List (List String) → Type 0
Fits [] [] = Unit {0}
Fits (label ∷ labels) (values ∷ rest) = IsOneOf values label × Fits labels rest
Fits _ _ = ⊥

-- A sample has the declared number of labels, and each has one of finitely many values.
pub record IsBounded (s : Sample) : Type 0 where
  pub arity : length s.labels ≡ length (label_names s.metric)
  pub fits : Fits s.labels (domains s.metric)

outcome-IsOneOf : (failed : Bool) → IsOneOf reconcile_results (outcome failed)
unfolding exists str_eq
outcome-IsOneOf true = inl refl
outcome-IsOneOf false = inl refl

set_phase-IsBounded :
    (phase : String) (value : ℤ) → IsOneOf phase_names phase → IsBounded (set_phase phase value)
set_phase-IsBounded phase value h = record { arity = refl; fits = (h, tt) }

reset_phases-IsBounded :
    (phases : List String) → All (IsOneOf phase_names) phases → All IsBounded (reset_phases phases)
unfolding reset_phases
reset_phases-IsBounded [] h = tt
reset_phases-IsBounded (phase ∷ phases) h =
    All-append IsBounded (reset_phases phases) (set_phase phase (pos 0) ∷ [])
      (reset_phases-IsBounded phases h.1) (set_phase-IsBounded phase (pos 0) h.0, tt)

candidates-IsOneOf : All (IsOneOf phase_names) candidates
unfolding exists str_eq
candidates-IsOneOf = (
  inl refl,
  (
    inl refl,
    (
      inl refl,
      (
        inl refl,
        (
          inl refl,
          (
            inl refl,
            (
              inl refl,
              (
                inl refl,
                (inl refl, (inl refl, (inl refl, (inl refl, (inl refl, (inr refl, tt)))))),
              ),
            ),
          ),
        ),
      ),
    ),
  ),
)

phase-IsOneOf : (phase : String) → IsOneOf phase_names (bounded_phase phase)
unfolding bounded_phase
phase-IsOneOf phase = bounded_label-IsOneOf phase phase_names

observe_phase_transition-IsBounded :
    (from to : String) → All IsBounded (observe_phase_transition from to)
unfolding observe_phase_transition
observe_phase_transition-IsBounded from to =
    elim (Bool-cases (not (str_eq from "") && not (str_eq to ""))) [
      | inr empty ↦ rw (empty, observe_phase_transition) tt
      | inl given ↦
          rw (given, observe_phase_transition)
            (record { arity = refl; fits = (phase-IsOneOf from, (phase-IsOneOf to, tt)) }, tt)
    ]

-- Whatever texts the callers pass, every sample of every call has as many labels as its metric is
-- declared with, so that no call panics, and each label is one of finitely many values: a value that
-- the metric knows for this label, or "other".
pub samples-IsBounded : (o : Observation) → All IsBounded (samples o)
unfolding samples observe_reconcile observe_provider_call observe_interface_operation
    observe_handoff_duration observe_phase observe_cooldown_block observe_recovery_action
    observe_owner_count observe_phase_state
samples-IsBounded (Observation.reconciled controller result duration) =
    let one = bounded_label-IsOneOf controller controllers in
    let two = bounded_label-IsOneOf result reconcile_results in
    (
      record { arity = refl; fits = (one, (two, tt)) },
      (record { arity = refl; fits = (one, (two, tt)) }, tt),
    )
samples-IsBounded (Observation.provider_called provider operation duration failed) =
    let one = bounded_label-IsOneOf provider providers in
    let two = bounded_label-IsOneOf operation provider_operations in
    (
      record { arity = refl; fits = (one, (two, (outcome-IsOneOf failed, tt))) },
      (record { arity = refl; fits = (one, (two, tt)) }, tt),
    )
samples-IsBounded (Observation.interface_changed controller operation duration failed) =
    let one = bounded_label-IsOneOf controller interface_controllers in
    let two = bounded_label-IsOneOf operation interface_operations in
    (
      record { arity = refl; fits = (one, (two, (outcome-IsOneOf failed, tt))) },
      (record { arity = refl; fits = (one, (two, tt)) }, tt),
    )
samples-IsBounded (Observation.handed_off duration) = (record { arity = refl; fits = tt }, tt)
samples-IsBounded (Observation.phase_took phase duration) = elim (Bool-cases (str_eq phase "")) [
  | inl empty ↦ rw (empty, observe_phase) tt
  | inr given ↦
      rw (given, observe_phase) (record { arity = refl; fits = (phase-IsOneOf phase, tt) }, tt)
]
samples-IsBounded (Observation.phase_changed from to) = observe_phase_transition-IsBounded from to
samples-IsBounded Observation.cooldown_blocked = (record { arity = refl; fits = tt }, tt)
samples-IsBounded (Observation.recovered policy) = elim (Bool-cases (str_eq policy "")) [
  | inl empty ↦ rw (empty, observe_recovery_action) tt
  | inr given ↦
      rw (given, observe_recovery_action)
        (record { arity = refl; fits = (bounded_label-IsOneOf policy policies, tt) }, tt)
]
samples-IsBounded (Observation.owners_counted phase count) = elim (Bool-cases (str_eq phase "")) [
  | inl empty ↦ rw (empty, observe_owner_count) tt
  | inr given ↦
      rw (given, observe_owner_count)
        (record { arity = refl; fits = (phase-IsOneOf phase, tt) }, tt)
]
samples-IsBounded (Observation.phase_entered phase) = (
  set_phase-IsBounded (bounded_phase phase) (pos 1) (phase-IsOneOf phase),
  reset_phases-IsBounded candidates candidates-IsOneOf,
)
