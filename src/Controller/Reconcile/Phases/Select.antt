-- ===== src/Controller/Reconcile/Phases/Select.antt =====
-- The status writes of the choice of a target.
use foip_operator.Prelude.{
  ℕ, ℤ, refl, sym, ◌∙◌, ◌≢◌, ◌≡◌, String, All-Occurs, All-keep, not, Option, none, some, List, ◌∷◌,
  arith, ltb_ℤ, inc32, Option-cases, inl, inr,
}
use foip_operator.Api.Types.{FailoverIp, selecting, stabilizing, preparing_target}
use foip_operator.Api.Condition.{set_condition}
use foip_operator.Controller.Node.{Node}
use foip_operator.Controller.Scoring.{is_annotated, candidate_nodes, better_node}
use foip_operator.Controller.Scoring.Best.{better_node-NoWorse}
use foip_operator.Controller.Selection.{recovery_threshold, candidate_ready_for_handoff}
use foip_operator.Controller.Env.{read_clock, patch_status}
use foip_operator.Controller.Reconcile.Base.{mark, is_stabilizing, is_selecting}
use foip_operator.Controller.Reconcile.Select.{
  cancel_candidate, owner_recovered, reselect, begin_stabilization, begin_handoff, hand_over,
  stabilize, consider, count_failure, select_from, select_target,
}
use foip_operator.Controller.Reconcile.Phases.{
  AllNamed, Based-Steered, Lawful, Keeps, keep, keeps, hands_over, edge, patch-Lawful,
  advance-Lawful, if-Lawful,
}
use foip_operator.Controller.Reconcile.Phases.Route.{drive_target-Keeps}

cancel_candidate-Keeps : (foip : FailoverIp) → Keeps foip (cancel_candidate foip)
unfolding cancel_candidate mark set_condition
cancel_candidate-Keeps foip env t =
    advance-Lawful foip foip selecting (env.clock t) _
      (λ s legal reached kept.
        patch-Lawful foip foip _ _ (edge foip _ selecting legal reached refl) (keeps kept)
          (λ _ env t b g. g))
      env (read_clock ∷ t)

owner_recovered-Keeps : (foip : FailoverIp) → Keeps foip (owner_recovered foip)
unfolding owner_recovered
owner_recovered-Keeps foip =
    if-Lawful foip
      (ltb_ℤ (inc32 foip.status.candidate_recovery_count) (recovery_threshold foip.spec)) _ _
      (λ _. patch-Lawful foip foip _ _ (keep refl) (keeps (refl, refl, refl)) (λ _ env t b g. g))
      (λ _. cancel_candidate-Keeps _)

reselect-Keeps : (foip : FailoverIp) → Keeps foip (reselect foip)
unfolding reselect
reselect-Keeps foip env t =
    advance-Lawful foip foip selecting (env.clock t) _
      (λ s legal reached kept.
        patch-Lawful foip foip _ _ (edge foip _ selecting legal reached refl) (keeps kept)
          (λ _ env t b g. g))
      env (read_clock ∷ t)

begin_stabilization-Keeps : (foip : FailoverIp) → Keeps foip (begin_stabilization foip)
unfolding begin_stabilization mark set_condition
begin_stabilization-Keeps foip env t =
    if-Lawful foip (is_selecting foip.status.phase) _ _
      (λ _. advance-Lawful foip _ stabilizing (env.clock t) _ (λ s legal reached kept.
        patch-Lawful foip foip _ _ (edge foip _ stabilizing legal reached refl) (keeps kept)
          (λ _ env t b g. g)))
      (λ _. patch-Lawful foip foip _ _ (keep refl) (keeps (refl, refl, refl)) (λ _ env t b g. g))
      env (read_clock ∷ t)

begin_handoff-Keeps :
    (foip : FailoverIp) (better : Node) → better.name ≢ "" → Keeps foip (begin_handoff foip better)
unfolding begin_handoff mark set_condition
begin_handoff-Keeps foip better named =
    let moved : FailoverIp = record foip { status = hand_over foip.status better.name } in
    if-Lawful foip (is_stabilizing foip.status.phase) _ _
      (λ _ env t.
        advance-Lawful foip moved preparing_target (env.clock t) _
          (λ s legal reached (targets, sources, owners).
            patch-Lawful foip foip _ _ (edge foip _ preparing_target legal reached refl)
              (hands_over (λ e. named (sym targets ∙ e)) sources owners) (λ _ env t b g. g))
          env (read_clock ∷ t))
      (λ _. patch-Lawful foip foip _ _ (keep refl) (hands_over named refl refl) (λ _ env t b g. g))

stabilize-Keeps :
    (foip : FailoverIp) (better : Node) (since : ℕ)
    → better.name ≢ ""
    → Keeps foip (stabilize foip better since)
unfolding stabilize
stabilize-Keeps foip better since named env t =
    if-Lawful foip (not (candidate_ready_for_handoff foip.spec foip.status better (env.clock t))) _
      _ (λ _ env t b g. g) (λ _. begin_handoff-Keeps foip better named) env (read_clock ∷ t)

consider-Keeps :
    (foip : FailoverIp) (better : Node) → better.name ≢ "" → Keeps foip (consider foip better)
unfolding consider
consider-Keeps foip better named env t b g =
    let counted : Lawful env (patch_status foip (count_failure foip) ∷ t) = (
      keep refl,
      (Based-Steered env t foip (count_failure foip) b (keeps (refl, refl, refl)), g),
    ) in
    elim (Option-cases foip.status.candidate_since) [
      | inl e ↦ ground (
        arith,
        reselect-Keeps foip env t b g,
        counted,
        begin_stabilization-Keeps (count_failure foip) env t b g,
      )
      | inr (since, e) ↦ ground (
        arith,
        reselect-Keeps foip env t b g,
        counted,
        stabilize-Keeps (count_failure foip) better since named env t b g,
      )
    ]

select_from-Keeps :
    (better : Option Node) (foip : FailoverIp) (foip_id current : ℤ)
    → ((b : Node) → better ≡ some b → b.name ≢ "")
    → Keeps foip (select_from better foip foip_id current)
unfolding select_from
select_from-Keeps none foip foip_id current named env t b g =
    ground (
      arith,
      owner_recovered-Keeps foip env t b g,
      drive_target-Keeps foip foip_id current env t b g,
    )
select_from-Keeps (some better) foip foip_id current named env t b g = ground (
  arith,
  consider-Keeps foip better (named better refl) env t b g,
  drive_target-Keeps foip foip_id current env t b g,
)

better_node-named :
    (nodes : List Node) (current : String)
    → AllNamed nodes
    → (b : Node) → better_node (candidate_nodes nodes) current ≡ some b
    → b.name ≢ ""
unfolding candidate_nodes
better_node-named nodes current named b chosen =
    All-Occurs (λ node. node.name ≢ "") (candidate_nodes nodes)
      (All-keep (λ node. node.name ≢ "") is_annotated nodes named)
      (better_node-NoWorse (candidate_nodes nodes) current b chosen).0

pub select_target-Keeps :
    (foip : FailoverIp) (foip_id current : ℤ) (nodes : List Node)
    → AllNamed nodes
    → Keeps foip (select_target foip foip_id current nodes)
unfolding select_target
select_target-Keeps foip foip_id current nodes named =
    select_from-Keeps (better_node (candidate_nodes nodes) foip.status.target_node) foip foip_id
      current (better_node-named nodes foip.status.target_node named)
