-- ===== src/Probe/Policy/Allowed.antt =====
-- A probe reaches only the addresses that its policy allows.
use foip_operator.Prelude.{
  ℕ, ◌||◌, leb, ltb, ◌&&◌, String, Bool, true, false, Option, none, some, Option-cases, List, [],
  ◌∷◌, All, ◌≡◌, refl, sym, ap, ◌∙◌, ◌⊎◌, inl, inr, ◌↔◌, arith, exists,
}
use foip_operator.Api.Types.{ProbeNetworkPolicy}
use foip_operator.Controller.Env.{Error, ok, Result-cases}
use foip_operator.Probe.Policy.{
  Address, v4, Network, Net, contains_ip, is_blocked, refusal, first_refusal, parse_cidrs, resolve,
  allowed_target_ips, dial_each, dial_allowed_context,
}

-- The address is in no denied network, and it is in no sensitive network, or private networks are
-- allowed, or it is in an allowed network.
abbrev pub Permits : Bool → List Network → List Network → Address → Type 0
Permits private allowed denied ip =
    (contains_ip denied ip ≡ false)
    × ((private ≡ true) ⊎ (is_blocked ip ≡ false) ⊎ (contains_ip allowed ip ≡ true))

refusal-none_iff :
    (private : Bool) (allowed denied : List Network) (ip : Address)
    → (refusal private allowed denied ip ≡ none) ↔ Permits private allowed denied ip
unfolding refusal
refusal-none_iff private allowed denied ip = ground arith

first_refusal-none_iff :
    (private : Bool) (allowed denied : List Network) (ips : List Address)
    → (first_refusal private allowed denied ips ≡ none) ↔ All (Permits private allowed denied) ips
unfolding first_refusal
first_refusal-none_iff private allowed denied [] = (λ _. tt, λ _. refl)
first_refusal-none_iff private allowed denied (ip ∷ ips) =
    let (permits, passes) = refusal-none_iff private allowed denied ip in
    let (all, none_refused) = first_refusal-none_iff private allowed denied ips in
    (
      λ h. elim (Option-cases (refusal private allowed denied ip)) [
        | inl passed ↦ (permits passed, all (rw (passed, first_refusal) at h))
        | inr (reason, refused) ↦ absurd (cc (rw (refused, first_refusal) at h))
      ],
      λ (first, others). rw (passes first, first_refusal) (none_refused others),
    )

-- isBlocked on an IPv4 address: 127/8, 10/8, 172.16/12, 192.168/16, 169.254/16, 100.64/10 and 224/4, as
-- ranges of numbers.
is_blocked-v4 :
    (n : ℕ)
    → is_blocked (v4 n) ≡ (
        (leb 2130706432 n && ltb n 2147483648)
        || (leb 167772160 n && ltb n 184549376)
        || (leb 2886729728 n && ltb n 2887778304)
        || (leb 3232235520 n && ltb n 3232301056)
        || (leb 2851995648 n && ltb n 2852061184)
        || (leb 1681915904 n && ltb n 1686110208)
        || (leb 3758096384 n && ltb n 4026531840))
unfolding is_blocked contains_ip exists
is_blocked-v4 n = ground arith

module _ {Conn : Type 0} (net : Net Conn) where
  -- The networks of the policy are read, and permit the address.
  pub record Permitted (policy : ProbeNetworkPolicy) (ip : Address) : Type 0 where
    pub allowed : List Network
    pub denied : List Network
    pub allowed_read : parse_cidrs net policy.allowed_cidrs ≡ ok allowed
    pub denied_read : parse_cidrs net policy.denied_cidrs ≡ ok denied
    pub permits : Permits policy.allow_private_networks allowed denied ip

  -- The host resolves to the addresses, the networks of the policy are read, and each address is
  -- permitted.
  pub record Passes (now : ℕ) (address : String) (policy : ProbeNetworkPolicy) (ips : List Address)
      : Type 0 where
    pub allowed : List Network
    pub denied : List Network
    pub resolved : resolve net now address ≡ ok ips
    pub allowed_read : parse_cidrs net policy.allowed_cidrs ≡ ok allowed
    pub denied_read : parse_cidrs net policy.denied_cidrs ≡ ok denied
    pub permits : All (Permits policy.allow_private_networks allowed denied) ips

  -- The loop over the addresses lets all of them through.
  allowed_target_ips-loop :
      (now : ℕ) (address : String) (policy : ProbeNetworkPolicy) (found ips : List Address)
      (allowed denied : List Network)
      → resolve net now address ≡ ok found
      → parse_cidrs net policy.allowed_cidrs ≡ ok allowed
      → parse_cidrs net policy.denied_cidrs ≡ ok denied
      → allowed_target_ips net now address policy ≡ ok ips
      → (first_refusal policy.allow_private_networks allowed denied ips ≡ none) × (found ≡ ips)
  unfolding allowed_target_ips
  allowed_target_ips-loop now address policy found ips allowed denied resolved first second h =
      elim (Option-cases (first_refusal policy.allow_private_networks allowed denied found)) [
        | inr (reason, refused) ↦
            absurd (cc (rw (resolved, first, second, refused, allowed_target_ips) at h))
        | inl passed ↦
            let same : found ≡ ips =
              cc (rw (resolved, first, second, passed, allowed_target_ips) at h) in
            (
              ap (λ x. first_refusal policy.allow_private_networks allowed denied x) (sym same)
                  ∙ passed,
              same,
            )
      ]

  pub allowed_target_ips-Passes :
      (now : ℕ) (address : String) (policy : ProbeNetworkPolicy) (ips : List Address)
      → allowed_target_ips net now address policy ≡ ok ips
      → Passes now address policy ips
  unfolding allowed_target_ips
  allowed_target_ips-Passes now address policy ips h =
      elim (Result-cases (resolve net now address)) [
        | inl (e, failed) ↦ absurd (cc (rw (failed, allowed_target_ips) at h))
        | inr (found, resolved) ↦ elim (Result-cases (parse_cidrs net policy.allowed_cidrs)) [
          | inl (e, failed) ↦ absurd (cc (rw (resolved, failed, allowed_target_ips) at h))
          | inr (allowed, first) ↦ elim (Result-cases (parse_cidrs net policy.denied_cidrs)) [
            | inl (e, failed) ↦ absurd (cc (rw (resolved, first, failed, allowed_target_ips) at h))
            | inr (denied, second) ↦
                let (passed, same) =
                  allowed_target_ips-loop now address policy found ips allowed denied resolved first
                    second h in
                record {
                  allowed = allowed;
                  denied = denied;
                  resolved = resolved ∙ ap ok same;
                  allowed_read = first;
                  denied_read = second;
                  permits =
                      (first_refusal-none_iff policy.allow_private_networks allowed denied ips).0
                        passed;
                }
          ]
        ]
      ]

  -- allowedTargetIPs returns addresses exactly if the host resolves to them, both lists of networks
  -- are well-formed, and each of the addresses is permitted: in no denied network, and in no
  -- sensitive network unless private networks are allowed or an allowed network has it.
  pub allowed_target_ips_iff :
      (now : ℕ) (address : String) (policy : ProbeNetworkPolicy) (ips : List Address)
      → (allowed_target_ips net now address policy ≡ ok ips) ↔ Passes now address policy ips
  unfolding allowed_target_ips
  allowed_target_ips_iff now address policy ips = (
    allowed_target_ips-Passes now address policy ips,
    λ h.
        let passed =
          (first_refusal-none_iff policy.allow_private_networks h.allowed h.denied ips).1
            h.permits in
        rw (h.resolved, h.allowed_read, h.denied_read, passed, allowed_target_ips) refl,
  )

  All-Permitted :
      (policy : ProbeNetworkPolicy) (allowed denied : List Network) (ips : List Address)
      → parse_cidrs net policy.allowed_cidrs ≡ ok allowed
      → parse_cidrs net policy.denied_cidrs ≡ ok denied
      → All (Permits policy.allow_private_networks allowed denied) ips
      → All (Permitted policy) ips
  All-Permitted policy allowed denied [] first second all = tt
  All-Permitted policy allowed denied (ip ∷ ips) first second (permits, all) = (
    record {
      allowed = allowed;
      denied = denied;
      allowed_read = first;
      denied_read = second;
      permits = permits;
    },
    All-Permitted policy allowed denied ips first second all,
  )

  dial_each-tried :
      (P : Address → Type 0) (now : ℕ) (ips : List Address) (port : String) (last : Option Error)
      → All P ips
      → All P (dial_each net now ips port last).tried
  unfolding dial_each
  dial_each-tried P now [] port last all = tt
  dial_each-tried P now (ip ∷ ips) port last (first, all) =
      elim (Result-cases (net.dial now ip port)) [
        | inl (e, failed) ↦
            rw (failed, dial_each) (first, dial_each-tried P now ips port (some e) all)
        | inr (conn, connected) ↦ rw (connected, dial_each) (first, tt)
      ]

  -- dialAllowedContext dials only addresses that the policy permits, whatever the host resolves to at
  -- the time of the dial.
  pub dial_allowed_context-Permitted :
      (now : ℕ) (address : String) (policy : ProbeNetworkPolicy)
      → All (Permitted policy) (dial_allowed_context net now address policy).tried
  unfolding dial_allowed_context
  dial_allowed_context-Permitted now address policy =
      elim (Option-cases (net.split_host_port address)) [
        | inl unsplit ↦ rw (unsplit, dial_allowed_context) tt
        | inr ((host, port), split) ↦ elim (Result-cases (allowed_target_ips net now host policy)) [
          | inl (e, failed) ↦ rw (split, failed, dial_allowed_context) tt
          | inr (ips, success) ↦
              let h = allowed_target_ips-Passes now host policy ips success in
              rw (split, success, dial_allowed_context)
                (dial_each-tried (Permitted policy) now ips port none (
                  All-Permitted policy h.allowed h.denied ips h.allowed_read h.denied_read
                    h.permits))
        ]
      ]

  -- The unspecified address 0.0.0.0 passes without private networks and without an allowed network: a
  -- host that resolves to it is accepted, unless the policy denies it by name.
  pub allowed_target_ips-unspecified :
      (now : ℕ) (address : String) (policy : ProbeNetworkPolicy) (allowed denied : List Network)
      → resolve net now address ≡ ok (v4 0 ∷ [])
      → parse_cidrs net policy.allowed_cidrs ≡ ok allowed
      → parse_cidrs net policy.denied_cidrs ≡ ok denied
      → contains_ip denied (v4 0) ≡ false
      → allowed_target_ips net now address policy ≡ ok (v4 0 ∷ [])
  allowed_target_ips-unspecified now address policy allowed denied resolved first second undenied =
      (allowed_target_ips_iff now address policy (v4 0 ∷ [])).1 (record {
        allowed = allowed;
        denied = denied;
        resolved = resolved;
        allowed_read = first;
        denied_read = second;
        permits = ((undenied, inr (inl (is_blocked-v4 0))), tt);
      })
