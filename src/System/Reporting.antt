-- ===== src/System/Reporting.antt =====
-- What a run of a node agent does to the stored object and to its host.
use mathlib.Core.Path.{subst}
use foip_operator.Prelude.{
  String, true, false, ◌||◌, ◌≡◌, ◌≢◌, refl, sym, ap, ◌∙◌, some, ◌⊎◌, inl, inr, List, [], ◌∷◌,
  arith, str_eq, str_eq_iff, Bool-cases, keep,
}
use foip_operator.Api.Types.{FailoverIp}
use foip_operator.Controller.Node.{Node}
use foip_operator.Controller.Env.{ok}
use foip_operator.Controller.Reconcile.Base.{contains_node}
use foip_operator.Agent.{
  Network, Server, remove_node, should_own, assigned, converge, reconcile_node,
}
use foip_operator.Agent.Interface.{Holds}
use foip_operator.Agent.Laws.{
  Adds, Holds-ensure_ip_assigned, contains_node-append_node, contains_node-remove_node,
}
use foip_operator.Agent.Reports.{
  Truthful, gained, lost, AllTruthful, reconcile_node-AllTruthful, reconcile_node-converge,
}
use foip_operator.System.{Written, Stores, with_host}
use foip_operator.System.Sound.{Sound}

module _ {S Ip : Type 0} (net : Network S Ip) (node : String → Node) (server : Server)
    (name : String) (foip : FailoverIp) (after : S) where
  -- The object has the target, source and address of the one that was read; an owner is new only as
  -- the reporting node with the address on its interface; and a node that is neither target nor
  -- source adds no owner.
  pub record Extends (x : FailoverIp) : Type 0 where
    pub target : x.status.target_node ≡ foip.status.target_node
    pub source : x.status.source_node ≡ foip.status.source_node
    pub ip : x.spec.ip ≡ foip.spec.ip
    pub listed :
        (n : String)
        → contains_node x.status.local_owners n ≡ true
        → (contains_node foip.status.local_owners n ≡ true)
          ⊎ ((n ≡ name) × Holds net (node name).primary_mac foip.spec.ip after)
    pub empty :
        should_own net name foip ≡ false
        → foip.status.local_owners ≡ []
        → x.status.local_owners ≡ []

  Truthful-Extends :
      (y new next : FailoverIp)
      → Truthful net server name (node name) after foip new
      → Extends y
      → Written y new next
      → Extends next
  unfolding remove_node keep
  Truthful-Extends y new next (gained read own holds appended) h
        ((targets, sources, owners), spec) =
      record {
        target = targets ∙ ap (λ f. f.status.target_node) appended;
        source = sources ∙ ap (λ f. f.status.source_node) appended;
        ip = ap (λ s. s.ip) spec ∙ h.ip;
        listed = λ n there.
            let in_appended : (str_eq n name || contains_node foip.status.local_owners n) ≡ true =
              sym (contains_node-append_node foip.status.local_owners name n)
              ∙ (ap (λ os. contains_node os n)
                    (sym (owners ∙ ap (λ f. f.status.local_owners) appended))
                  ∙ there) in
            elim (Bool-cases (str_eq n name)) [
              | inl same ↦ inr ((str_eq_iff n name).0 same, holds)
              | inr other ↦ inl (ground (arith, in_appended, other))
            ];
        empty = λ other. absurd (cc (own, other));
      }
  Truthful-Extends y new next (lost read own removed) h ((targets, sources, owners), spec) =
      let owners_are = owners ∙ ap (λ f. f.status.local_owners) removed in
      record {
        target = targets ∙ ap (λ f. f.status.target_node) removed;
        source = sources ∙ ap (λ f. f.status.source_node) removed;
        ip = ap (λ s. s.ip) spec ∙ h.ip;
        listed = λ n there. inl (
            ground (
              arith,
              contains_node-remove_node foip.status.local_owners name n,
              (ap (λ os. contains_node os n) (sym owners_are) ∙ there),
            ));
        empty = λ _ none. owners_are ∙ ap (λ os. remove_node os name) none;
      }

  Truthful-read :
      (base new : FailoverIp)
      → Truthful net server name (node name) after base new
      → server.foip ≡ ok (some base)
  Truthful-read base new (gained read own holds appended) = read
  Truthful-read base new (lost read other removed) = read

  Stores-Extends :
      (patches : List (FailoverIp × FailoverIp)) (y x : FailoverIp)
      → server.foip ≡ ok (some foip)
      → AllTruthful net server name (node name) after patches
      → Stores y patches x
      → Extends y
      → Extends x
  Stores-Extends [] y x read truthful stores h = rw stores h
  Stores-Extends ((base, new) ∷ patches) y x read (truthful, others) (next, (first, rest)) h =
      let same : base ≡ foip = cc (read, Truthful-read base new truthful) in
      let report = subst (λ b. Truthful net server name (node name) after b new) same truthful in
      Stores-Extends patches next x read others rest (elim first [
        | inl kept ↦ rw kept h
        | inr written ↦ Truthful-Extends y new next report h written
      ])

  converge_host :
      (n : Node) (s : S)
      → should_own net name foip ≡ true
      → Holds net n.primary_mac foip.spec.ip s
      → (converge net server name foip n s).host ≡ s
  unfolding converge assigned
  converge_host n s own holds = elim (Bool-cases (str_eq n.primary_mac "")) [
    | inl unnamed ↦ rw (unnamed, converge) refl
    | inr named ↦
        rw (named, converge, own, Holds-ensure_ip_assigned net n.primary_mac foip.spec.ip s holds)
          (ground arith)
  ]

module _ {S Ip : Type 0} (net : Network S Ip) (node : String → Node) (server : Server)
    (name : String) (foip : FailoverIp) (host : String → S) where
  abbrev ran : S
  ran = (reconcile_node net server name (host name)).host

  Extends-Sound :
      (x : FailoverIp)
      → name ≢ ""
      → (should_own net name foip ≡ true
          → Holds net (node name).primary_mac foip.spec.ip (host name)
          → ran ≡ host name)
      → Extends net node server name foip ran x
      → Sound net node foip host
      → Sound net node x (with_host host name ran)
  Extends-Sound x named stays h (fresh, held) = (
    λ none.
        let (no_source, no_owners) = fresh (sym h.target ∙ none) in
        let other : should_own net name foip ≡ false = ground (
          arith,
          named,
          no_source,
          (sym h.target ∙ none),
          str_eq_iff name foip.status.target_node,
          str_eq_iff name foip.status.source_node,
        ) in
        (h.source ∙ no_source, h.empty other no_owners),
    λ n own listed.
        let owns : should_own net n foip ≡ true = rw (h.target, h.source) at own in
        elim (Bool-cases (str_eq n name)) [
          | inl itself ↦
              let same : n ≡ name = (str_eq_iff n name).0 itself in
              rw (h.ip, itself, same)
                (elim (h.listed n listed) [
                  | inl was ↦
                      let holds : Holds net (node name).primary_mac foip.spec.ip (host name) =
                        rw same at (held n owns was) in
                      rw (stays (rw same at owns) holds) holds
                  | inr (_, holds) ↦ holds
                ])
          | inr another ↦
              rw (h.ip, another)
                (elim (h.listed n listed) [
                  | inl was ↦ held n owns was
                  | inr (same, _) ↦ absurd (cc (another, (str_eq_iff n name).1 same))
                ])
        ],
  )

  -- A run of an agent keeps soundness.
  pub Sound-reports :
      (x : FailoverIp)
      → Adds net
      → name ≢ ""
      → server.foip ≡ ok (some foip)
      → server.node name ≡ ok (node name)
      → Stores foip (reconcile_node net server name (host name)).patches x
      → Sound net node foip host
      → Sound net node x (with_host host name ran)
  Sound-reports x adds named read known stores sound =
      let runs = reconcile_node-converge net server name (node name) foip (host name) read known in
      Extends-Sound x named
        (λ own holds.
          ap (λ r. r.host) runs
          ∙ converge_host net node server name foip ran (node name) (host name) own holds)
        (Stores-Extends net node server name foip ran _ foip x read
          (reconcile_node-AllTruthful net server name (node name) (host name) adds known) stores
          (record {
            target = refl;
            source = refl;
            ip = refl;
            listed = λ n listed. inl listed;
            empty = λ other none. none;
          }))
        sound
