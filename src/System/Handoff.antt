-- ===== src/System/Handoff.antt =====
-- The soundness of every reachable state, and the handoff: the address is on the target's interface
-- before the provider is asked to route to it.
use mathlib.Core.Path.{subst}
use foip_operator.Prelude.{String, ℤ, arith, str_eq_iff, ◌≡◌, sym, ap, ◌∙◌, [], ◌∷◌}
use foip_operator.Api.Types.{FailoverIp}
use foip_operator.Controller.Node.{Node}
use foip_operator.Controller.Env.{
  Env, Trace, route_failover_ip, get_foip, patch_status, update_status,
}
use foip_operator.Controller.Reconcile.Phases.{Named, Lawful}
use foip_operator.Controller.Reconcile.Guard.{
  Forward, Backward, Permitted, forward, backward, Guarded,
}
use foip_operator.Controller.Reconcile.{reconcile}
use foip_operator.Controller.Reconcile.Base.{contains_node}
use foip_operator.Controller.Reconcile.Guard.Top.{reconcile-Guarded}
use foip_operator.Controller.Reconcile.Phases.Top.{reconcile-Lawful}
use foip_operator.Agent.{Network}
use foip_operator.Agent.Interface.{Holds}
use foip_operator.Agent.Laws.{Adds}
use foip_operator.System.{
  Serves, Answers, State, Step, agent, controller, edit, Reaches, at_start, then_step,
}
use foip_operator.System.Reporting.{Sound-reports}
use foip_operator.System.Sound.{Sound}
use foip_operator.System.Serving.{Serves-Sound, Serves-spec}

module _ {S Ip : Type 0} (net : Network S Ip) (node : String → Node) (env : Env)
    (start : FailoverIp) (host : String → S) where
  -- The target node of a forward move has the address on its interface.
  abbrev pub TargetHolds : {server : ℤ} {t : Trace} → Forward env server t → Type 0
  TargetHolds move =
      Holds net (node move.foip.status.target_node).primary_mac start.spec.ip
        (host move.foip.status.target_node)

  Forward-holds :
      (server : ℤ) (t : Trace) (stored : FailoverIp) (move : Forward env server t)
      → Lawful env t
      → Serves env start t stored
      → Sound net node start host
      → TargetHolds move
  Forward-holds server t stored move lawful serves sound =
      let (old, (answers, earlier)) = subst (λ u. Serves env start u stored) move.history serves in
      let (_, ((targets, sources, owners), spec)) =
        subst (λ a. Answers a old move.recorded stored) move.accepted.1 answers in
      let target = targets ∙ move.same_target in
      let (_, held) = (Serves-Sound net node env start host t stored lawful serves sound).0 in
      rw (ap (λ s. s.ip) (Serves-spec net node env start host t stored serves), target) at
        (held stored.status.target_node
          (ground (arith, str_eq_iff stored.status.target_node stored.status.target_node))
          (ap (λ os. contains_node os stored.status.target_node) (owners ∙ move.same_owners)
            ∙ (ap (λ n. contains_node move.foip.status.local_owners n) target ∙ move.prepared)))

  -- A permitted call, and the target of a forward move has the address.
  pub data Prepared (server : ℤ) (t : Trace) : Type 0 where
    forwards : (move : Forward env server t) → TargetHolds move → Prepared server t
    backwards : Backward env server t → Prepared server t

  abbrev pub AllPrepared : Trace → Type 0
  AllPrepared [] = Unit {0}
  AllPrepared (route_failover_ip id server ∷ t) = Prepared server t × AllPrepared t
  AllPrepared (_ ∷ t) = AllPrepared t

  Permitted-Prepared :
      (server : ℤ) (t : Trace) (stored : FailoverIp)
      → Permitted env server t
      → Lawful env t
      → Serves env start t stored
      → Sound net node start host
      → Prepared server t
  Permitted-Prepared server t stored (forward move) lawful serves sound =
      forwards move (Forward-holds server t stored move lawful serves sound)
  Permitted-Prepared server t stored (backward move) lawful serves sound = backwards move

  Guarded-AllPrepared :
      (t : Trace) (stored : FailoverIp)
      → Guarded env t
      → Lawful env t
      → Serves env start t stored
      → Sound net node start host
      → AllPrepared t
  Guarded-AllPrepared [] stored guarded lawful serves sound = tt
  Guarded-AllPrepared (route_failover_ip id server ∷ t) stored (permitted, guarded) lawful serves
        sound =
      (
        Permitted-Prepared server t stored permitted lawful serves sound,
        Guarded-AllPrepared t stored guarded lawful serves sound,
      )
  Guarded-AllPrepared (get_foip ∷ t) stored guarded lawful (answers, serves) sound =
      Guarded-AllPrepared t stored guarded lawful serves sound
  Guarded-AllPrepared (patch_status base new ∷ t) stored guarded (move, (steered, lawful))
        (old, (answers, serves)) sound =
      Guarded-AllPrepared t old guarded lawful serves sound
  Guarded-AllPrepared (update_status new ∷ t) stored guarded (move, (steered, lawful))
        (old, (answers, serves)) sound =
      Guarded-AllPrepared t old guarded lawful serves sound
  Guarded-AllPrepared (_ ∷ t) stored guarded lawful serves sound =
      Guarded-AllPrepared t stored guarded lawful serves sound

module _ {S Ip : Type 0} (net : Network S Ip) (node : String → Node) where
  -- One step of the system keeps every reporting owner true, given that AddrAdd adds the address:
  -- without a target there is neither source nor owner, and every listed owner that is the target or
  -- the source has the address on its interface. The step is a run of an agent, a run of the
  -- controller, each alone, or a change of the specification other than of the address.
  pub Step-Sound :
      (s t : State S)
      → Adds net
      → Step net node s t
      → Sound net node s.foip s.host
      → Sound net node t.foip t.host
  Step-Sound s t adds (agent server name named read known hosts stores) sound =
      subst (λ h. Sound net node t.foip h) (sym hosts)
        (Sound-reports net node server name s.foip s.host t.foip adds named read known stores sound)
  Step-Sound s t adds (controller env named hosts serves) sound =
      subst (λ h. Sound net node t.foip h) (sym hosts)
        (Serves-Sound net node env s.foip s.host (reconcile env []).1 t.foip
          (reconcile-Lawful env named) serves sound).0
  Step-Sound s t adds (edit hosts status ip) sound = rw (hosts, status, ip) sound

  Reaches-Sound :
      (s t : State S)
      → Adds net
      → Sound net node s.foip s.host
      → Reaches net node s t
      → Sound net node t.foip t.host
  Reaches-Sound s t adds sound at_start = sound
  Reaches-Sound s t adds sound (then_step {t = u} reaches step) =
      Step-Sound u t adds step (Reaches-Sound s u adds sound reaches)

  -- Make before break: from an object that has no target, no source and no owner, through any runs of
  -- the controller and of the agents, one after the other, the controller asks the provider to move
  -- the address forward only to a target node that has the address on its interface; its other
  -- route calls are rollbacks.
  pub reconcile-AllPrepared :
      (s t : State S) (env : Env) (stored : FailoverIp)
      → Adds net
      → s.foip.status.target_node ≡ ""
      → s.foip.status.source_node ≡ ""
      → s.foip.status.local_owners ≡ []
      → Reaches net node s t
      → Named env
      → Serves env t.foip (reconcile env []).1 stored
      → AllPrepared net node env t.foip t.host (reconcile env []).1
  unfolding contains_node
  reconcile-AllPrepared s t env stored adds no_target no_source no_owners reaches named serves =
      Guarded-AllPrepared net node env t.foip t.host (reconcile env []).1 stored
        (reconcile-Guarded env) (reconcile-Lawful env named) serves
        (Reaches-Sound s t adds
          (λ _. (no_source, no_owners), λ name own listed. absurd (cc (rw no_owners at listed)))
          reaches)
