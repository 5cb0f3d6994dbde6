-- ===== src/Api/Status/Laws.antt =====
-- What ValidateStatus, StartTransition and AdvanceTransition guarantee.
use foip_operator.Prelude.{
  false, sym, ◌⊎◌, inl, inr, Bool-cases, Option-cases, str_eq, ℕ, String, true, none, some, List,
  [], ◌∷◌, ◌≡◌, ◌≢◌, ◌↔◌, arith, str_eq_iff,
}
use foip_operator.Api.Types.{
  FailoverPhase, committing, cleaning_stale_owners, idle, uninitialized, selecting, succeeded,
  FailoverIpStatus,
}
use foip_operator.Api.Status.{
  can_transition, validate_status, start_transition, advance_transition, advanced, settles_owner,
  is_succeeded, is_known, check_owners, identical_owners,
}

-- A phase from Committing on, or Idle: there the source may be the target.
abbrev pub IsSettled : FailoverPhase → Type 0
IsSettled p = (p ≡ committing) ⊎ (p ≡ cleaning_stale_owners) ⊎ (p ≡ succeeded) ⊎ (p ≡ idle)

settles_owner-IsSettled : (p : FailoverPhase) → settles_owner p ≡ true → IsSettled p
unfolding settles_owner
settles_owner-IsSettled p h = ground arith

IsSettled-settles_owner : (p : FailoverPhase) → IsSettled p → settles_owner p ≡ true
unfolding settles_owner
IsSettled-settles_owner p h = ground arith

-- What a status must satisfy to be stored, phase by phase.
pub record IsValid (s : FailoverIpStatus) : Type 0 where
  pub identified : s.phase ≢ uninitialized → s.transition_id ≢ ""
  pub known : s.phase ≢ uninitialized → is_known s.phase ≡ true
  pub distinct :
      s.phase ≢ uninitialized
      → s.target_node ≢ ""
      → s.target_node ≡ s.source_node
      → IsSettled s.phase
  pub owned : s.phase ≡ succeeded → s.local_owners ≡ s.target_node ∷ []

check_owners-none :
    (target : String) (owners : List String)
    → (check_owners target owners ≡ none) ↔ (owners ≡ target ∷ [])
unfolding check_owners
check_owners-none target [] = (λ h. cc, λ h. cc)
check_owners-none target (o ∷ []) =
    (λ h. ground (arith, str_eq_iff target o), λ h. ground (arith, str_eq_iff target o))
check_owners-none target (o ∷ p ∷ ps) = (λ h. cc, λ h. cc)

validate_status-IsValid : (s : FailoverIpStatus) → validate_status s ≡ none → IsValid s
unfolding validate_status
validate_status-IsValid s h = record {
  identified = ground (arith, str_eq_iff s.transition_id "");
  known = ground arith;
  distinct = λ named given same. settles_owner-IsSettled s.phase (
      ground (
        arith,
        named,
        given,
        same,
        h,
        str_eq_iff s.target_node "",
        str_eq_iff s.target_node s.source_node,
        str_eq_iff s.source_node "",
      ));
  owned = λ e. ground (arith, (check_owners-none s.target_node s.local_owners).0);
}

IsValid-validate_status : (s : FailoverIpStatus) → IsValid s → validate_status s ≡ none
unfolding validate_status
IsValid-validate_status s v = ground (
  arith,
  str_eq_iff s.transition_id "",
  str_eq_iff s.target_node "",
  str_eq_iff s.target_node s.source_node,
  (check_owners-none s.target_node s.local_owners).1,
  v.distinct,
  IsSettled-settles_owner s.phase,
  v.owned,
)

-- ValidateStatus returns no error exactly when the status satisfies the storage invariant: a
-- status with a phase has a transition ID, its phase is a known one, its target differs from its
-- source (if not empty) except in the phases that settle the owner, and a succeeded status lists
-- its target as its one local owner.
pub validate_status-none_iff : (s : FailoverIpStatus) → (validate_status s ≡ none) ↔ IsValid s
validate_status-none_iff s = (validate_status-IsValid s, IsValid-validate_status s)

-- AdvanceTransition succeeds exactly from an initialized phase along an edge of the table, and
-- then it writes the phase bookkeeping and nothing else.
pub advance_transition_iff :
    (s t : FailoverIpStatus) (to : FailoverPhase) (now : ℕ)
    → (advance_transition s to now ≡ advanced t) ↔ (
        (can_transition s.phase to ≡ true)
        × (t ≡ record s {
          last_successful_phase = s.phase;
          phase = to;
          phase_started_at = some now;
          last_transition_at = some now;
          last_error = "";
        }))
unfolding advance_transition can_transition
advance_transition_iff s t to now = (λ h. ground arith, λ h. ground arith)

-- A succeeded transition whose target is also its source (as Committing leaves it) is a valid
-- status, and the legal step to Selecting makes it one that ValidateStatus rejects.
pub reselect_invalid :
    (s t : FailoverIpStatus) (now : ℕ)
    → validate_status s ≡ none
    → s.phase ≡ succeeded
    → s.target_node ≢ ""
    → s.source_node ≡ s.target_node
    → advance_transition s selecting now ≡ advanced t
    → validate_status t ≡ some identical_owners
unfolding validate_status advance_transition
reselect_invalid s t now v p n e h = ground (
  arith,
  str_eq_iff s.transition_id "",
  str_eq_iff s.target_node "",
  str_eq_iff s.target_node s.source_node,
  str_eq_iff s.source_node "",
)

can_transition-known : (p q : FailoverPhase) → can_transition p q ≡ true → is_known q ≡ true
unfolding can_transition
can_transition-known p q h = ground arith

-- A legal step keeps the storage invariant, given the two clauses that it may break.
advanced-IsValid :
    (s t : FailoverIpStatus) (to : FailoverPhase) (now : ℕ)
    → IsValid s
    → (s.target_node ≢ "" → s.target_node ≡ s.source_node → IsSettled to)
    → (to ≡ succeeded → s.local_owners ≡ s.target_node ∷ [])
    → advance_transition s to now ≡ advanced t
    → IsValid t
unfolding advance_transition can_transition
advanced-IsValid s t to now v d o h = record {
  identified = ground (arith, v.identified);
  known = ground (arith, can_transition-known s.phase to);
  distinct = ground (arith, d);
  owned = ground (arith, o);
}

identical-IsSettled :
    (s t : FailoverIpStatus) (to : FailoverPhase) (now : ℕ)
    → IsValid s
    → advance_transition s to now ≡ advanced t
    → s.target_node ≢ ""
    → s.target_node ≡ s.source_node
    → settles_owner to ≡ false
    → IsSettled s.phase × (validate_status t ≡ some identical_owners)
unfolding advance_transition can_transition validate_status
identical-IsSettled s t to now v h given same open_end = (
  v.distinct (ground (arith, h)) given same,
  ground (
    arith,
    v.identified,
    can_transition-known s.phase to,
    str_eq_iff s.transition_id "",
    str_eq_iff s.target_node "",
    str_eq_iff s.target_node s.source_node,
    str_eq_iff s.source_node "",
  ),
)

-- What a legal step makes of a valid status: a valid one, but for two cases. The step to Succeeded
-- may find other local owners than the one target, and a step out of Committing,
-- CleaningStaleOwners, Succeeded or Idle may find the source to be the target, as Committing leaves
-- it; ValidateStatus then rejects the status as having identical owners.
pub advance_transition-IsValid :
    (s t : FailoverIpStatus) (to : FailoverPhase) (now : ℕ)
    → validate_status s ≡ none
    → advance_transition s to now ≡ advanced t
    → (validate_status t ≡ none)
      ⊎ ((to ≡ succeeded) × (s.local_owners ≢ s.target_node ∷ []))
      ⊎ (IsSettled s.phase
          × (s.source_node ≡ s.target_node)
          × (validate_status t ≡ some identical_owners))
unfolding is_succeeded settles_owner
advance_transition-IsValid s t to now v h =
    let valid = validate_status-IsValid s v in
    let keeps : (s.target_node ≢ "" → s.target_node ≡ s.source_node → IsSettled to)
        → (to ≡ succeeded → s.local_owners ≡ s.target_node ∷ [])
        → validate_status t ≡ none =
      λ d o. IsValid-validate_status t (advanced-IsValid s t to now valid d o h) in
    elim (Bool-cases (is_succeeded to)) [
      | inl last ↦ elim (Option-cases (check_owners s.target_node s.local_owners)) [
        | inl sole ↦ inl (
            keeps (λ _ _. inr (inr (inl (ground (arith, last)))))
              (λ _. (check_owners-none s.target_node s.local_owners).0 sole))
        | inr (e, wrong) ↦ inr (
            inl (
              ground (arith, last),
              λ sole. cc (wrong, (check_owners-none s.target_node s.local_owners).1 sole),
            ))
      ]
      | inr before ↦ elim (Bool-cases (settles_owner to)) [
        | inl settled ↦
            inl (keeps (λ _ _. settles_owner-IsSettled to settled) (λ e. absurd (cc (before, e))))
        | inr unsettled ↦ elim (Bool-cases (str_eq s.target_node "")) [
          | inl empty ↦ inl (
              keeps (λ given _. absurd (given ((str_eq_iff s.target_node "").0 empty)))
                (λ e. absurd (cc (before, e))))
          | inr given ↦ elim (Bool-cases (str_eq s.target_node s.source_node)) [
            | inr apart ↦ inl (
                keeps (λ _ e. absurd (cc (apart, (str_eq_iff s.target_node s.source_node).1 e)))
                  (λ e. absurd (cc (before, e))))
            | inl together ↦
                let same = (str_eq_iff s.target_node s.source_node).0 together in
                let named : s.target_node ≢ "" =
                  λ e. cc (given, (str_eq_iff s.target_node "").1 e) in
                let (from, refused) = identical-IsSettled s t to now valid h named same unsettled in
                inr (inr (from, sym same, refused))
          ]
        ]
      ]
    ]

-- StartTransition gives a status without a transition ID the one supplied and the phase
-- Selecting, and leaves any other status as it is.
start_transition_once :
    (s : FailoverIpStatus) (first second : String) (now later : ℕ)
    → first ≢ ""
    → start_transition (start_transition s first now) second later ≡ start_transition s first now
unfolding start_transition
start_transition_once s first second now later h =
    ground (arith, str_eq_iff s.transition_id "", str_eq_iff first "")
