-- ===== src/Agent/Interface.antt =====
-- The interface with a MAC and the addresses on it, apart from how the agent looks them up.
use foip_operator.Prelude.{
  sym, inl, inr, ◌⊎◌, Bool, Bool-cases, false, none, All, exists, ◌++◌, String, true, some, List,
  [], ◌∷◌, ◌≡◌, refl, ap, ◌∙◌, Option-cases,
}
use foip_operator.Controller.Env.{ok, Result-cases}
use foip_operator.Agent.{Link, Network, find_ip, link_with, link_and_address, find_link_by_mac}

module _ {S Ip : Type 0} (net : Network S Ip) where
  -- The first link with the MAC, and whether one of the addresses listed on it is the IP.
  pub record Shows (mac ip : String) (s : S) (present : Bool) : Type 0 where
    pub earlier : List Link
    pub link : Link
    pub later : List Link
    pub address : Ip
    pub addresses : List Ip
    pub links : net.link_list s ≡ ok (earlier ++ link ∷ later)
    pub others : All (λ l. net.equal_fold l.hardware_address mac ≡ false) earlier
    pub names : net.equal_fold link.hardware_address mac ≡ true
    pub parsed : net.parse_ip ip ≡ some address
    pub listed : net.addr_list s link ≡ ok addresses
    pub held : exists (λ a. net.same_ip a address) addresses ≡ present

  -- The interface with the MAC holds the IP.
  abbrev pub Holds : String → String → S → Type 0
  Holds mac ip s = Shows mac ip s true

  pub find_ip-exists :
      (addresses : List Ip) (ip : Ip)
      → ((find_ip net addresses ip ≡ none) × (exists (λ a. net.same_ip a ip) addresses ≡ false))
        ⊎ ((held : Ip) × ((find_ip net addresses ip ≡ some held)
              × (exists (λ a. net.same_ip a ip) addresses ≡ true)))
  unfolding find_ip exists
  find_ip-exists [] ip = inl (refl, refl)
  find_ip-exists (a ∷ rest) ip = elim (Bool-cases (net.same_ip a ip)) [
    | inl same ↦ inr (a, (rw (same, find_ip) refl, rw (same, exists) refl))
    | inr other ↦ elim (find_ip-exists rest ip) [
      | inl (absent, none_same) ↦ inl (rw (other, find_ip) absent, rw (other, exists) none_same)
      | inr (held, (found, some_same)) ↦
          inr (held, (rw (other, find_ip) found, rw (other, exists) some_same))
    ]
  ]

  -- The link that the loop returns is the first one with the MAC.
  record First (links : List Link) (mac : String) (link : Link) : Type 0 where
    earlier : List Link
    later : List Link
    order : links ≡ earlier ++ link ∷ later
    others : All (λ l. net.equal_fold l.hardware_address mac ≡ false) earlier
    names : net.equal_fold link.hardware_address mac ≡ true

  link_with-First :
      (links : List Link) (mac : String) (link : Link)
      → link_with net links mac ≡ ok link
      → First links mac link
  unfolding link_with
  link_with-First [] mac link h = absurd (cc h)
  link_with-First (l ∷ ls) mac link h = elim (Bool-cases (net.equal_fold l.hardware_address mac)) [
    | inl same ↦
        let found : l ≡ link = cc (rw (same, link_with) at h) in
        record {
          earlier = [];
          later = ls;
          order = ap (λ x. x ∷ ls) found;
          others = tt;
          names = ap (λ x. net.equal_fold x.hardware_address mac) (sym found) ∙ same;
        }
    | inr other ↦
        let rest = link_with-First ls mac link (rw (other, link_with) at h) in
        record {
          earlier = l ∷ rest.earlier;
          later = rest.later;
          order = ap (λ x. l ∷ x) rest.order;
          others = (other, rest.others);
          names = rest.names;
        }
  ]

  First-link_with :
      (earlier later : List Link) (mac : String) (link : Link)
      → All (λ l. net.equal_fold l.hardware_address mac ≡ false) earlier
      → net.equal_fold link.hardware_address mac ≡ true
      → link_with net (earlier ++ link ∷ later) mac ≡ ok link
  unfolding link_with
  First-link_with [] later mac link others names = rw (names, link_with) refl
  First-link_with (l ∷ ls) later mac link (other, others) names =
      rw (other, link_with) (First-link_with ls later mac link others names)

  -- What linkAndAddress returns.
  pub Shows-link_and_address :
      (mac ip : String) (s : S) (present : Bool) (h : Shows mac ip s present)
      → link_and_address net mac ip s ≡ ok (h.link, h.address)
  unfolding link_and_address find_link_by_mac
  Shows-link_and_address mac ip s present h =
      rw
        (
          h.links,
          find_link_by_mac,
          link_and_address,
          First-link_with h.earlier h.later mac h.link h.others h.names,
          h.parsed,
        )
        refl

  pub link_and_address-Shows :
      (mac ip : String) (s : S) (link : Link) (address : Ip) (addresses : List Ip) (present : Bool)
      → link_and_address net mac ip s ≡ ok (link, address)
      → net.addr_list s link ≡ ok addresses
      → exists (λ a. net.same_ip a address) addresses ≡ present
      → Shows mac ip s present
  unfolding link_and_address find_link_by_mac
  link_and_address-Shows mac ip s link address addresses present resolved listed held =
      elim (Result-cases (net.link_list s)) [
        | inl (e, failed) ↦
            absurd (cc (rw (failed, find_link_by_mac, link_and_address) at resolved))
        | inr (links, known) ↦ elim (Result-cases (link_with net links mac)) [
          | inl (e, failed) ↦
              absurd (cc (rw (known, failed, find_link_by_mac, link_and_address) at resolved))
          | inr (first, chosen) ↦ elim (Option-cases (net.parse_ip ip)) [
            | inl unparsed ↦
                absurd (
                  cc (rw (known, chosen, unparsed, find_link_by_mac, link_and_address) at resolved))
            | inr (parsed_ip, parsed) ↦
                let both : ok (first, parsed_ip) ≡ ok (link, address) =
                  rw (known, chosen, parsed, find_link_by_mac, link_and_address) at resolved in
                let same : first ≡ link = cc both in
                let f = link_with-First links mac link (chosen ∙ ap ok same) in
                record {
                  earlier = f.earlier;
                  link = link;
                  later = f.later;
                  address = address;
                  addresses = addresses;
                  links = known ∙ ap ok f.order;
                  others = f.others;
                  names = f.names;
                  parsed = parsed ∙ cc both;
                  listed = listed;
                  held = held;
                }
          ]
        ]
      ]
