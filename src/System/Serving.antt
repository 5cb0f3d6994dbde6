-- ===== src/System/Serving.antt =====
-- A run of the failover controller against the store: what the store holds stays sound.
use mathlib.Core.Path.{subst}
use foip_operator.Prelude.{String, ◌≡◌, sym, ap, ◌∙◌, some, inl, inr, [], ◌∷◌}
use foip_operator.Api.Types.{FailoverIp}
use foip_operator.Controller.Node.{Node}
use foip_operator.Controller.Env.{
  Env, Trace, Result, ok, err, Result-cases, get_foip, patch_status, update_status,
}
use foip_operator.Controller.Reconcile.Phases.{
  Kept, Lawful, Steered, Steers, Kept-Steers, last_read, answered,
}
use foip_operator.Agent.{Network}
use foip_operator.System.{Serves, Answers}
use foip_operator.System.Sound.{Sound, Sound-Steers}

Kept-same : {s t : FailoverIp} → s ≡ t → Kept s.status t.status
Kept-same e = (
  ap (λ f. f.status.target_node) (sym e),
  ap (λ f. f.status.source_node) (sym e),
  ap (λ f. f.status.local_owners) (sym e),
)

Answers-spec :
    (old new stored : FailoverIp) (answer : Result FailoverIp)
    → Answers answer old new stored
    → stored.spec ≡ old.spec
Answers-spec old new stored (ok f) (_, (_, spec)) = spec
Answers-spec old new stored (err e) (inl same) = ap (λ f. f.spec) same
Answers-spec old new stored (err e) (inr (_, spec)) = spec

module _ {S Ip : Type 0} (net : Network S Ip) (node : String → Node) (env : Env)
    (start : FailoverIp) (host : String → S) where
  -- The object that was returned last has target, source and owners as they are stored.
  abbrev Current : Trace → FailoverIp → Type 0
  Current t stored = (f : FailoverIp) → last_read env t ≡ some f → Kept stored.status f.status

  Answers-Sound :
      (t : Trace) (old new stored : FailoverIp) (answer : Result FailoverIp)
      → Steered env t new
      → Answers answer old new stored
      → Sound net node old host
      → Current t old
      → Sound net node stored host
        × ((f : FailoverIp) → answered answer ≡ some f → Kept stored.status f.status)
  Answers-Sound t old new stored answer (f, (read, steers)) stores sound current =
      let steered : Steers old.status new.status =
        Kept-Steers old.status f.status new.status (current f read) steers in
      elim (Result-cases answer) [
        | inl (e, failure) ↦ elim (subst (λ a. Answers a old new stored) failure stores) [
          | inl same ↦ (rw same sound, λ g returned. absurd (cc (returned, failure)))
          | inr written ↦ (
            Sound-Steers net node old new stored host steered written sound,
            λ g returned. absurd (cc (returned, failure)),
          )
        ]
        | inr (g, success) ↦
            let (returned, written) = subst (λ a. Answers a old new stored) success stores in
            (
              Sound-Steers net node old new stored host steered written sound,
              λ k answer_is. Kept-same {s = stored} {t = k} (cc (returned, success, answer_is)),
            )
      ]

  pub Serves-Sound :
      (t : Trace) (stored : FailoverIp)
      → Lawful env t
      → Serves env start t stored
      → Sound net node start host
      → Sound net node stored host × Current t stored
  Serves-Sound [] stored lawful serves sound =
      (rw serves sound, λ f none_read. absurd (cc none_read))
  Serves-Sound (get_foip ∷ t) stored lawful (answers, serves) sound =
      let (safe, current) = Serves-Sound t stored lawful serves sound in
      (safe, λ f read. Kept-same (sym (answers f read)))
  Serves-Sound (patch_status base new ∷ t) stored (move, (steered, lawful)) (old, (answers, serves))
        sound =
      let (safe, current) = Serves-Sound t old lawful serves sound in
      Answers-Sound t old new stored (env.patch t base new) steered answers safe current
  Serves-Sound (update_status new ∷ t) stored (move, (steered, lawful)) (old, (answers, serves))
        sound =
      let (safe, current) = Serves-Sound t old lawful serves sound in
      Answers-Sound t old new stored (env.update t new) steered answers safe current
  Serves-Sound (_ ∷ t) stored lawful serves sound = Serves-Sound t stored lawful serves sound

  pub Serves-spec :
      (t : Trace) (stored : FailoverIp) → Serves env start t stored → stored.spec ≡ start.spec
  Serves-spec [] stored serves = ap (λ f. f.spec) serves
  Serves-spec (get_foip ∷ t) stored (answers, serves) = Serves-spec t stored serves
  Serves-spec (patch_status base new ∷ t) stored (old, (answers, serves)) =
      Answers-spec old new stored (env.patch t base new) answers ∙ Serves-spec t old serves
  Serves-spec (update_status new ∷ t) stored (old, (answers, serves)) =
      Answers-spec old new stored (env.update t new) answers ∙ Serves-spec t old serves
  Serves-spec (_ ∷ t) stored serves = Serves-spec t stored serves
