-- ===== src/Controller/Watches/Changes.antt =====
-- An update that the predicate ignores changes nothing that the selection reads.
use foip_operator.Prelude.{
  String, Bool, true, false, ◌||◌, List, [], ◌∷◌, ◌≡◌, refl, Occurs, exists, keep, map, arith,
  str_eq, str_eq_iff, str_eq_refl, Bool-cases, inl, inr,
}
use foip_operator.Prelude.Lists.{here, there}
use foip_operator.Api.Types.{condition_false, FailoverIp, FailoverProbe}
use foip_operator.Controller.Node.{Node, condition_is, condition_is_false, has_condition, ready}
use foip_operator.Controller.Scoring.{score_node}
use foip_operator.Controller.Env.{ok}
use foip_operator.Controller.Watches.{
  any_condition_changed, node_changed, Request, request_of, refers_to, probe_to_foips, names_secret,
  probe_names, uses_secret, comes_before, insert_request, sort_requests, secret_to_foips,
}

-- An update of a node that the predicate ignores leaves the score and the annotations of the node as
-- they were, given that the update neither adds nor removes the condition Ready.
pub node_changed-score_node :
    (old new : Node)
    → old.name ≡ new.name
    → has_condition old ready ≡ has_condition new ready
    → node_changed old new ≡ false
    → (score_node old ≡ score_node new)
      × (old.primary_mac ≡ new.primary_mac)
      × (old.server_id ≡ new.server_id)
unfolding node_changed any_condition_changed score_node
node_changed-score_node old new name same ignored = ground (
  arith,
  str_eq_iff old.primary_mac new.primary_mac,
  str_eq_iff old.server_id new.server_id,
  condition_is_false old ready,
  condition_is_false new ready,
)

-- The node with the condition Ready reported as False.
abbrev pub unready : Node → Node
unready n = record n {
  conditions = record { type = ready; status = condition_false } ∷ n.conditions;
}

-- A node that has reported no condition Ready and then reports it as False is ignored, though its
-- score changes: it counts as not ready from then on.
pub node_changed-unready :
    (n : Node)
    → has_condition n ready ≡ false
    → (node_changed n (unready n) ≡ false)
      × ((score_node n).ready_false ≡ false)
      × ((score_node (unready n)).ready_false ≡ true)
unfolding node_changed any_condition_changed score_node condition_is
node_changed-unready n absent =
    ground (arith, absent, str_eq_refl n.primary_mac, str_eq_refl n.server_id)

Occurs-map_keep :
    (foips : List FailoverIp) (foip : FailoverIp) (p : FailoverIp → Bool)
    → Occurs foip foips
    → p foip ≡ true
    → Occurs (request_of foip) (map request_of (keep p foips))
unfolding keep
Occurs-map_keep [] foip p o h = elim o [ ]
Occurs-map_keep (f ∷ fs) foip p (here e) h = rw (e, h, keep) (here refl)
Occurs-map_keep (f ∷ fs) foip p (there o) h = elim (Bool-cases (p f)) [
  | inl kept ↦ rw (kept, keep) (there (Occurs-map_keep fs foip p o h))
  | inr dropped ↦ rw (dropped, keep) (Occurs-map_keep fs foip p o h)
]

exists-Occurs_true :
    (names : List String) (name : String) (p : String → Bool)
    → Occurs name names
    → p name ≡ true
    → exists p names ≡ true
unfolding exists
exists-Occurs_true [] name p o h = elim o [ ]
exists-Occurs_true (n ∷ ns) name p (here e) h = rw (e, h, exists) refl
exists-Occurs_true (n ∷ ns) name p (there o) h = ground (arith, exists-Occurs_true ns name p o h)

-- A change of a probe wakes every listed resource of its namespace that refers to it.
probe_to_foips-Occurs :
    (foips : List FailoverIp) (foip : FailoverIp) (name : String)
    → Occurs foip foips
    → Occurs name foip.spec.probes
    → Occurs (request_of foip) (probe_to_foips (ok foips) name foip.namespace)
unfolding probe_to_foips
probe_to_foips-Occurs foips foip name listed referred =
    Occurs-map_keep foips foip (refers_to name foip.namespace) listed (
      exists-Occurs_true foip.spec.probes name _ referred
        (ground (arith, str_eq_refl name, str_eq_refl foip.namespace)))

insert_request-Occurs : (r : Request) (rs : List Request) → Occurs r (insert_request r rs)
unfolding insert_request
insert_request-Occurs r [] = here refl
insert_request-Occurs r (q ∷ qs) = elim (Bool-cases (comes_before q r)) [
  | inl before ↦ rw (before, insert_request) (there (insert_request-Occurs r qs))
  | inr after ↦ rw (after, insert_request) (here refl)
]

-- A member of a list, in a list with the same head.
later :
    {q p : Request} {ps qs : List Request}
    → Occurs q (p ∷ ps)
    → (Occurs q ps → Occurs q qs)
    → Occurs q (p ∷ qs)
later (here e) f = here e
later (there o) f = there (f o)

insert_request-keeps :
    (r q : Request) (rs : List Request) → Occurs q rs → Occurs q (insert_request r rs)
unfolding insert_request
insert_request-keeps r q [] o = elim o [ ]
insert_request-keeps r q (p ∷ ps) o = elim (Bool-cases (comes_before p r)) [
  | inl before ↦ rw (before, insert_request) (later o (insert_request-keeps r q ps))
  | inr after ↦ rw (after, insert_request) (there o)
]

sort_requests-Occurs : (r : Request) (rs : List Request) → Occurs r rs → Occurs r (sort_requests rs)
unfolding sort_requests
sort_requests-Occurs r [] o = elim o [ ]
sort_requests-Occurs r (q ∷ qs) (here e) = rw (← e) (insert_request-Occurs q (sort_requests qs))
sort_requests-Occurs r (q ∷ qs) (there o) =
    insert_request-keeps q r (sort_requests qs) (sort_requests-Occurs r qs o)

probe_names-Occurs :
    (probes : List FailoverProbe) (probe : FailoverProbe) (secret : String)
    → Occurs probe probes
    → (names_secret secret probe.spec.credential_secret_ref
        || names_secret secret probe.spec.ca_bundle_secret_ref)
      ≡ true
    → Occurs probe.name (probe_names probes secret)
unfolding probe_names
probe_names-Occurs [] probe secret o h = elim o [ ]
probe_names-Occurs (p ∷ ps) probe secret (here e) h = rw (e, h, probe_names) (here refl)
probe_names-Occurs (p ∷ ps) probe secret (there o) h =
    elim (Bool-cases (
      names_secret secret p.spec.credential_secret_ref
      || names_secret secret p.spec.ca_bundle_secret_ref)) [
        | inl used ↦ rw (used, probe_names) (there (probe_names-Occurs ps probe secret o h))
        | inr unused ↦ rw (unused, probe_names) (probe_names-Occurs ps probe secret o h)
      ]

-- A change of a Secret wakes every listed resource that refers to a listed probe whose credentials
-- or trust settings are in the Secret.
pub secret_to_foips-Occurs :
    (foips : List FailoverIp) (probes : List FailoverProbe) (foip : FailoverIp)
    (probe : FailoverProbe) (secret : String)
    → Occurs foip foips
    → Occurs probe probes
    → Occurs probe.name foip.spec.probes
    → (names_secret secret probe.spec.credential_secret_ref
        || names_secret secret probe.spec.ca_bundle_secret_ref)
      ≡ true
    → Occurs (request_of foip) (secret_to_foips (ok foips) (ok probes) secret)
unfolding secret_to_foips uses_secret
secret_to_foips-Occurs foips probes foip probe secret listed known referred used =
    let named =
      exists-Occurs_true (probe_names probes secret) probe.name (λ name. str_eq name probe.name)
        (probe_names-Occurs probes probe secret known used) (str_eq_refl probe.name) in
    let refers =
      exists-Occurs_true foip.spec.probes probe.name
        (λ ref. exists (λ name. str_eq name ref) (probe_names probes secret)) referred named in
    sort_requests-Occurs (request_of foip) _ (
      Occurs-map_keep foips foip (uses_secret secret (probe_names probes secret)) listed
        (ground (arith, refers)))
