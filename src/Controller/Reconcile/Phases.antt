-- ===== src/Controller/Reconcile/Phases.antt =====
-- Which phase the controller may write: what the trace says of each status write.
pub mod Recovery
pub mod Finish
pub mod Route
pub mod Select
pub mod Top
use foip_operator.Prelude.{
  ℕ, if◌then◌else◌, ◌≡◌, refl, sym, ap, ◌∙◌, Option, none, some, ◌⊎◌, inl, inr, Bool, true, false,
  List, [], ◌∷◌, arith, String, All, ◌≢◌,
}
use foip_operator.Api.Types.{
  FailoverPhase, selecting, verifying_provider, succeeded, degraded, blocked, FailoverIpStatus,
  FailoverIp,
}
use foip_operator.Api.Status.{
  can_transition, advance_transition, Advance, AdvanceError, advanced, refused,
}
use foip_operator.Api.Status.Laws.{advance_transition_iff}
use foip_operator.Controller.Node.{Node}
use foip_operator.Controller.Env.{
  Env, Trace, M, Outcome, Result, ok, err, patch, pure, or_return, Result-cases, get_foip,
  patch_status, update_status, update,
}
use foip_operator.Controller.Reconcile.Base.{advance, is_succeeded}
use foip_operator.Controller.Reconcile.Finish.{owners_converged}

-- A patch of a status: it starts the first transition, keeps the phase, falls back to Blocked or
-- Degraded, or follows an edge of the transition table; the edge to Succeeded asks for the target as
-- the one local owner.
pub data Move (base new : FailoverIp) : Type 0 where
  start : base.status.transition_id ≡ "" → new.status.phase ≡ selecting → Move base new
  keep : new.status.phase ≡ base.status.phase → Move base new
  fall_back : (new.status.phase ≡ blocked) ⊎ (new.status.phase ≡ degraded) → Move base new
  step :
      can_transition base.status.phase new.status.phase ≡ true
      → is_succeeded new.status.phase ≡ false
      → Move base new
  converge :
      can_transition base.status.phase new.status.phase ≡ true
      → new.status.phase ≡ succeeded
      → owners_converged base.status ≡ true
      → Move base new

-- Target, source and local owners are the same.
abbrev pub Kept : FailoverIpStatus → FailoverIpStatus → Type 0
Kept s t =
    (t.target_node ≡ s.target_node)
    × (t.source_node ≡ s.source_node)
    × (t.local_owners ≡ s.local_owners)

-- What a write does to target, source and local owners: nothing; an empty target is adopted; the
-- target becomes the source of a handoff to a node with a name, and no owner is listed; or the handoff is
-- committed.
pub data Steers (s t : FailoverIpStatus) : Type 0 where
  keeps : Kept s t → Steers s t
  adopts :
      s.target_node ≡ ""
      → t.source_node ≡ s.source_node
      → t.local_owners ≡ s.local_owners
      → Steers s t
  hands_over : t.target_node ≢ "" → t.source_node ≡ s.target_node → t.local_owners ≡ [] → Steers s t
  commits :
      t.target_node ≡ s.target_node
      → t.source_node ≡ s.target_node
      → t.local_owners ≡ s.local_owners
      → Steers s t

-- The object in an answer of the API server.
abbrev pub answered : Result FailoverIp → Option FailoverIp
answered (ok f) = some f
answered (err e) = none

abbrev pub found_in : Result (Option FailoverIp) → Option FailoverIp
found_in (ok f) = f
found_in (err e) = none

-- The object that the API server returned last.
abbrev pub last_read : Env → Trace → Option FailoverIp
last_read env [] = none
last_read env (get_foip ∷ t) = found_in (env.foip t)
last_read env (patch_status base new ∷ t) = answered (env.patch t base new)
last_read env (update_status new ∷ t) = answered (env.update t new)
last_read env (_ ∷ t) = last_read env t

-- The nodes that the API server lists have names.
abbrev pub AllNamed : List Node → Type 0
AllNamed = All (λ node. node.name ≢ "")

abbrev pub Named : Env → Type 0
Named env = (t : Trace) (nodes : List Node) → env.nodes t ≡ ok nodes → AllNamed nodes

-- The object in memory has target, source and local owners as they were read last, and listed nodes
-- have names.
abbrev pub Based : Env → Trace → FailoverIp → Type 0
Based env t foip =
    Named env × ((f : FailoverIp) × ((last_read env t ≡ some f) × Kept f.status foip.status))

-- A write steers from what was read last.
abbrev pub Steered : Env → Trace → FailoverIp → Type 0
Steered env t new = (f : FailoverIp) × ((last_read env t ≡ some f) × Steers f.status new.status)

-- Every status write of the trace is a patch of that kind, or the update that confirms the
-- provider, and steers from what was read last.
abbrev pub Lawful : Env → Trace → Type 0
Lawful env [] = Unit {0}
Lawful env (patch_status base new ∷ t) = Move base new × (Steered env t new × Lawful env t)
Lawful env (update_status new ∷ t) =
    (new.status.phase ≡ verifying_provider) × (Steered env t new × Lawful env t)
Lawful env (_ ∷ t) = Lawful env t

-- An action on an object in memory that keeps the trace lawful.
abbrev pub Keeps : FailoverIp → M Outcome → Type 0
Keeps foip m = (env : Env) (t : Trace) → Based env t foip → Lawful env t → Lawful env (m env t).1

pub Kept-Kept : (r s t : FailoverIpStatus) → Kept r s → Kept s t → Kept r t
Kept-Kept r s t (a, b, c) (x, y, z) = (x ∙ a, y ∙ b, z ∙ c)

pub Kept-Steers : (r s t : FailoverIpStatus) → Kept r s → Steers s t → Steers r t
Kept-Steers r s t (a, b, c) (keeps (x, y, z)) = keeps (x ∙ a, y ∙ b, z ∙ c)
Kept-Steers r s t (a, b, c) (adopts e y z) = adopts (sym a ∙ e) (y ∙ b) (z ∙ c)
Kept-Steers r s t (a, b, c) (hands_over n y z) = hands_over n (y ∙ a) z
Kept-Steers r s t (a, b, c) (commits x y z) = commits (x ∙ a) (y ∙ a) (z ∙ c)

pub Based-Steered :
    (env : Env) (t : Trace) (foip new : FailoverIp)
    → Based env t foip
    → Steers foip.status new.status
    → Steered env t new
Based-Steered env t foip new (named, (f, (read, kept))) steers =
    (f, (read, Kept-Steers f.status foip.status new.status kept steers))

-- An edge to another phase than Succeeded.
pub edge :
    (base new : FailoverIp) (to : FailoverPhase)
    → can_transition base.status.phase to ≡ true
    → new.status.phase ≡ to
    → is_succeeded to ≡ false
    → Move base new
edge base new to legal reached other = step (rw reached legal) (rw reached other)

pub patch-Lawful :
    (foip base new : FailoverIp) (k : FailoverIp → M Outcome)
    → Move base new
    → Steers foip.status new.status
    → ((f : FailoverIp) → Keeps f (k f))
    → Keeps foip (patch base new k)
patch-Lawful foip base new k move steers rest env t b g =
    let law : Lawful env (patch_status base new ∷ t) =
      (move, (Based-Steered env t foip new b steers, g)) in
    elim (Result-cases (env.patch t base new)) [
      | inl (e, failure) ↦ rw failure law
      | inr (f, success) ↦ rw success (
          rest f env (patch_status base new ∷ t) (b.0, (f, (rw success refl, (refl, refl, refl))))
            law)
    ]

pub update-Lawful :
    (foip new : FailoverIp) (k : FailoverIp → M Outcome)
    → new.status.phase ≡ verifying_provider
    → Steers foip.status new.status
    → ((f : FailoverIp) → Keeps f (k f))
    → Keeps foip (update new k)
update-Lawful foip new k reached steers rest env t b g =
    let law : Lawful env (update_status new ∷ t) =
      (reached, (Based-Steered env t foip new b steers, g)) in
    elim (Result-cases (env.update t new)) [
      | inl (e, failure) ↦ rw failure law
      | inr (f, success) ↦
          rw success (
            rest f env (update_status new ∷ t) (b.0, (f, (rw success refl, (refl, refl, refl))))
              law)
    ]

Advance-cases :
    (a : Advance)
    → ((e : AdvanceError) × (a ≡ refused e)) ⊎ ((s : FailoverIpStatus) × (a ≡ advanced s))
Advance-cases (refused e) = inl (e, refl)
Advance-cases (advanced s) = inr (s, refl)

pub advance-Lawful :
    (old foip : FailoverIp) (to : FailoverPhase) (at : ℕ) (k : FailoverIp → M Outcome)
    → ((s : FailoverIpStatus)
        → can_transition foip.status.phase to ≡ true
        → s.phase ≡ to
        → Kept foip.status s
        → Keeps old (k (record foip { status = s })))
    → Keeps old (advance foip to at k)
unfolding advance
advance-Lawful old foip to at k rest env t b g =
    elim (Advance-cases (advance_transition foip.status to at)) [
      | inl (e, refusal) ↦ rw (refusal, advance) g
      | inr (s, success) ↦
          let (legal, written) = (advance_transition_iff foip.status s to at).0 success in
          let kept : Kept foip.status s = (
            ap (λ x. x.target_node) written,
            ap (λ x. x.source_node) written,
            ap (λ x. x.local_owners) written,
          ) in
          rw (success, advance) (rest s legal (ap (λ x. x.phase) written) kept env t b g)
    ]

pub if-Lawful :
    (foip : FailoverIp) (b : Bool) (m n : M Outcome)
    → (b ≡ true → Keeps foip m)
    → (b ≡ false → Keeps foip n)
    → Keeps foip (if b then m else n)
if-Lawful foip true m n first second = first refl
if-Lawful foip false m n first second = second refl

-- A read that fails ends the run.
pub or_return-Lawful :
    {A : Type 0} (foip : FailoverIp) (r : Result A) (k : A → M Outcome)
    → ((a : A) → Keeps foip (k a))
    → Keeps foip (or_return r k)
or_return-Lawful foip (err e) k rest env t b g = g
or_return-Lawful foip (ok a) k rest env t b g = rest a env t b g
