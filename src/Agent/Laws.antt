-- ===== src/Agent/Laws.antt =====
-- The address is on the interface when the agent says so, and the owners that it writes.
use foip_operator.Prelude.{
  sym, inl, inr, Bool, exists, String, true, not, ◌&&◌, ◌||◌, List, [], ◌∷◌, ◌≡◌, refl, ap, ◌∙◌,
  arith, str_eq, str_eq_iff, keep,
}
use foip_operator.Controller.Env.{Result, ok, err, Result-cases}
use foip_operator.Controller.Reconcile.Base.{contains_node}
use foip_operator.Agent.{
  Link, Network, append_node, remove_node, ensure_ip_removed, remove, deleted, link_and_address,
  find_link_by_mac, assign, ensure_ip_assigned,
}
use foip_operator.Agent.Interface.{
  Shows, Holds, find_ip-exists, Shows-link_and_address, link_and_address-Shows,
}

-- After removeNode a node is listed exactly if it was and is not the one removed.
pub contains_node-remove_node :
    (nodes : List String) (name other : String)
    → contains_node (remove_node nodes name) other
      ≡ (not (str_eq other name) && contains_node nodes other)
unfolding contains_node remove_node keep
contains_node-remove_node [] name other = ground arith
contains_node-remove_node (n ∷ ns) name other = ground (
  arith,
  contains_node-remove_node ns name other,
  str_eq_iff n other,
  str_eq_iff n name,
  str_eq_iff other name,
)

pub contains_node-append_node :
    (nodes : List String) (name other : String)
    → contains_node (append_node nodes name) other
      ≡ (str_eq other name || contains_node nodes other)
unfolding contains_node append_node
contains_node-append_node [] name other =
    ground (arith, str_eq_iff name other, str_eq_iff other name)
contains_node-append_node (n ∷ ns) name other =
    ground (arith, contains_node-append_node ns name other)

pub contains_node-appended :
    (nodes : List String) (name : String) → contains_node (append_node nodes name) name ≡ true
contains_node-appended nodes name =
    ground (arith, contains_node-append_node nodes name name, str_eq_iff name name)

module _ {S Ip : Type 0} (net : Network S Ip) where
  -- What the agent relies on of AddrAdd: it leaves the links as they are, and the address is among
  -- those listed on the link afterwards.
  pub record Adds : Type 0 where
    pub links :
        (s s' : S) (link : Link) (ip : Ip)
        → net.addr_add s link ip ≡ (ok tt, s')
        → net.link_list s' ≡ net.link_list s
    pub lists :
        (s s' : S) (link : Link) (ip : Ip)
        → net.addr_add s link ip ≡ (ok tt, s')
        → (addresses : List Ip) × ((net.addr_list s' link ≡ ok addresses)
            × (exists (λ a. net.same_ip a ip) addresses ≡ true))

  assign-listed :
      (link : Link) (ip : Ip) (s s' : S)
      → Adds
      → assign net link ip s ≡ (ok tt, s')
      → (net.link_list s' ≡ net.link_list s)
        × ((addresses : List Ip) × ((net.addr_list s' link ≡ ok addresses)
              × (exists (λ a. net.same_ip a ip) addresses ≡ true)))
  unfolding assign
  assign-listed link ip s s' adds h = elim (Result-cases (net.addr_list s link)) [
    | inl (e, failure) ↦ absurd (cc (h, failure))
    | inr (existing, listed) ↦ elim (find_ip-exists net existing ip) [
      | inl (absent, none_same) ↦
          let added : net.addr_add s link ip ≡ (ok tt, s') = rw (listed, absent, assign) at h in
          (adds.links s s' link ip added, adds.lists s s' link ip added)
      | inr (held, (present, some_same)) ↦
          let same : s ≡ s' = ap (λ x. x.1) (rw (listed, present, assign) at h) in
          (rw same refl, (existing, (rw (← same) listed, some_same)))
    ]
  ]

  resolved_later :
      (mac ip : String) (s s' : S)
      → net.link_list s' ≡ net.link_list s
      → link_and_address net mac ip s' ≡ link_and_address net mac ip s
  unfolding link_and_address find_link_by_mac
  resolved_later mac ip s s' same = rw (same, link_and_address, find_link_by_mac) refl

  -- ensureIPAssigned succeeds only with the address on the interface, given that AddrAdd adds it.
  pub ensure_ip_assigned-Holds :
      (mac ip : String) (s s' : S)
      → Adds
      → ensure_ip_assigned net mac ip s ≡ (ok tt, s')
      → Holds net mac ip s'
  unfolding ensure_ip_assigned
  ensure_ip_assigned-Holds mac ip s s' adds h =
      elim (Result-cases (link_and_address net mac ip s)) [
        | inl (e, failure) ↦ absurd (cc (h, failure))
        | inr ((link, address), resolved) ↦
            let (same, (addresses, (listed, found))) =
              assign-listed link address s s' adds (rw (resolved, ensure_ip_assigned) at h) in
            link_and_address-Shows net mac ip s' link address addresses true
              (resolved_later mac ip s s' same ∙ resolved) listed found
      ]

  -- An address that is on the interface stays there, and the host is left as it is.
  pub Holds-ensure_ip_assigned :
      (mac ip : String) (s : S) → Holds net mac ip s → ensure_ip_assigned net mac ip s ≡ (ok tt, s)
  unfolding ensure_ip_assigned assign
  Holds-ensure_ip_assigned mac ip s h = elim (find_ip-exists net h.addresses h.address) [
    | inl (absent, none_same) ↦ absurd (cc (h.held, none_same))
    | inr (held, (found, some_same)) ↦
        rw (Shows-link_and_address net mac ip s true h, ensure_ip_assigned, h.listed, assign, found)
          refl
  ]

  deleted-success :
      (answer : Result (Unit {0}) × S) → answer.0 ≡ ok tt → deleted net answer ≡ (ok true, answer.1)
  unfolding deleted
  deleted-success (err e, s) h = absurd (cc h)
  deleted-success (ok _, s) h = refl

  -- Whether ensureIPRemoved removed an address, where AddrDel succeeds.
  pub Shows-ensure_ip_removed :
      (mac ip : String) (s : S) (present : Bool)
      → Shows net mac ip s present
      → ((s' : S) (link : Link) (address : Ip) → (net.addr_del s' link address).0 ≡ ok tt)
      → (after : S) × (ensure_ip_removed net mac ip s ≡ (ok present, after))
  unfolding ensure_ip_removed remove
  Shows-ensure_ip_removed mac ip s present h deletes =
      elim (find_ip-exists net h.addresses h.address) [
        | inl (absent, none_same) ↦ (
          s,
          rw
              (
                Shows-link_and_address net mac ip s present h,
                ensure_ip_removed,
                h.listed,
                remove,
                absent,
              )
              (ap (λ b. (ok b, s)) (sym none_same ∙ h.held)),
        )
        | inr (held, (found, some_same)) ↦ (
          (net.addr_del s h.link held).1,
          rw
              (
                Shows-link_and_address net mac ip s present h,
                ensure_ip_removed,
                h.listed,
                remove,
                found,
              )
              (deleted-success (net.addr_del s h.link held) (deletes s h.link held)
                ∙ ap (λ b. (ok b, (net.addr_del s h.link held).1)) (sym some_same ∙ h.held)),
        )
      ]
