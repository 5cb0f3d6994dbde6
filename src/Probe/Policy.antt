-- ===== src/Probe/Policy.antt =====
-- internal/probe/policy.go: the addresses that a probe may reach. The resolver, the parsers of
-- packages net and net/url, and the dialer are parameters.
pub mod Allowed
use Prim.Native.String.{◌++◌}
use foip_operator.Prelude.{
  ℕ, zero, suc, ◌*◌, ◌-◌, ◌/◌, ◌==◌, String, str_eq, Bool, true, false, not, ◌&&◌, Option, none,
  some, List, [], ◌∷◌, exists, if◌then◌else◌,
}
use foip_operator.Api.Types.{ProbeTarget, ProbeNetworkPolicy}
use foip_operator.Controller.Env.{Error, Result, ok, err}
use foip_operator.Controller.Reconcile.Base.{plain, wrap}

-- A net.IP as its number: with 32 bits where To4 is not nil, else with 128.
pub data Address : Type 0 where
  v4 : ℕ → Address
  v6 : ℕ → Address

-- A net.IPNet: an address and the length of the prefix.
pub record Network : Type 0 where
  pub base : Address
  pub ones : ℕ

-- url.URL as far as it is read.
pub record Url : Type 0 where
  pub scheme : String
  pub has_user : Bool
  pub hostname : String
  pub port : String
  pub escaped_path : String

pub record Net (Conn : Type 0) : Type 0 where
  -- Resolver.LookupIP at a moment; a name may resolve to other addresses at another one
  pub lookup : ℕ → String → Result (List Address)
  pub parse_ip : String → Option Address
  pub parse_cidr : String → Option Network
  pub parse_url : String → Option Url
  pub split_host_port : String → Option (String × String)
  -- the dialer, at a moment
  pub dial : ℕ → Address → String → Result Conn
  -- the verb %q
  pub quote : String → String

-- 2 ^ n.
abbrev pub power_of_two : ℕ → ℕ
power_of_two zero = 1
power_of_two (suc n) = 2 * power_of_two n

-- IPNet.Contains.
abbrev pub contains : Network → Address → Bool
contains network ip = elim network.base [
  | v4 b ↦ elim ip [
    | v4 a ↦ b / power_of_two (32 - network.ones) == a / power_of_two (32 - network.ones)
    | v6 a ↦ false
  ]
  | v6 b ↦ elim ip [
    | v4 a ↦ false
    | v6 a ↦ b / power_of_two (128 - network.ones) == a / power_of_two (128 - network.ones)
  ]
]

-- blockedNetworks.
abbrev pub blocked_networks : List Network
blocked_networks =
    -- 127.0.0.0/8, 10.0.0.0/8, 172.16.0.0/12, 192.168.0.0/16, 169.254.0.0/16
    record { base = v4 0x7f000000; ones = 8 }
    ∷ record { base = v4 0x0a000000; ones = 8 }
    ∷ record { base = v4 0xac100000; ones = 12 }
    ∷ record { base = v4 0xc0a80000; ones = 16 }
    ∷ record { base = v4 0xa9fe0000; ones = 16 }
    -- 100.64.0.0/10, 224.0.0.0/4
    ∷ record { base = v4 0x64400000; ones = 10 }
    ∷ record { base = v4 0xe0000000; ones = 4 }
    -- ::1/128, fc00::/7, fe80::/10
    ∷ record { base = v6 1; ones = 128 }
    ∷ record { base = v6 0xfc000000000000000000000000000000; ones = 7 }
    ∷ record { base = v6 0xfe800000000000000000000000000000; ones = 10 }
    ∷ []

-- containsIP.
unfoldable pub contains_ip : List Network → Address → Bool
contains_ip networks ip = exists (λ network. contains network ip) networks

-- isBlocked.
unfoldable pub is_blocked : Address → Bool
unfolding contains_ip
is_blocked ip = contains_ip blocked_networks ip

-- One round of the loop over the addresses: the error, if the address is refused.
unfoldable pub refusal : Bool → List Network → List Network → Address → Option String
refusal private allowed denied ip =
    if contains_ip denied ip
    then some "probe target resolves to denied network"
    else if not private && (is_blocked ip && not (contains_ip allowed ip))
    then some "probe target resolves to a sensitive network"
    else none

unfoldable pub first_refusal : Bool → List Network → List Network → List Address → Option String
first_refusal private allowed denied [] = none
first_refusal private allowed denied (ip ∷ ips) = elim (refusal private allowed denied ip) [
  | some reason ↦ some reason
  | none ↦ first_refusal private allowed denied ips
]

module _ {Conn : Type 0} (net : Net Conn) where
  -- parseCIDRs.
  unfoldable pub parse_cidrs : List String → Result (List Network)
  parse_cidrs [] = ok []
  parse_cidrs (value ∷ values) = elim (net.parse_cidr value) [
    | none ↦ err (plain ("invalid probe CIDR " ++ net.quote value))
    | some network ↦ elim (parse_cidrs values) [ err e ↦ err e | ok rest ↦ ok (network ∷ rest) ]
  ]

  -- The addresses of a host, which may be an address itself.
  unfoldable pub resolve : ℕ → String → Result (List Address)
  resolve now address = elim (net.lookup now address) [
    | ok ips ↦ ok ips
    | err e ↦ elim (net.parse_ip address) [
      | some ip ↦ ok (ip ∷ [])
      | none ↦ err (wrap "resolving probe target: " e)
    ]
  ]

  -- allowedTargetIPs.
  unfoldable pub allowed_target_ips : ℕ → String → ProbeNetworkPolicy → Result (List Address)
  allowed_target_ips now address policy = elim (resolve now address) [
    | err e ↦ err e
    | ok ips ↦ elim (parse_cidrs policy.allowed_cidrs) [
      | err e ↦ err e
      | ok allowed ↦ elim (parse_cidrs policy.denied_cidrs) [
        | err e ↦ err e
        | ok denied ↦ elim (first_refusal policy.allow_private_networks allowed denied ips) [
          | some reason ↦ err (plain reason)
          | none ↦ ok ips
        ]
      ]
    ]
  ]

  -- The host of a target that is a URL.
  unfoldable pub url_host : Url → Result String
  url_host url =
      if url.has_user
      then err (plain "probe target userinfo is not allowed")
      else if str_eq url.hostname ""
      then err (plain "probe target URL has no host")
      else ok url.hostname

  -- targetHostname.
  unfoldable pub target_hostname : String → Result String
  target_hostname address = elim (net.parse_url address) [
    | none ↦ ok address
    | some url ↦ if not (str_eq url.scheme "") then url_host url else ok address
  ]

  abbrev some_address : List Address → Result (Unit {0})
  some_address [] = err (plain "probe target has no resolved addresses")
  some_address (ip ∷ ips) = ok tt

  -- validateTarget; `ok` is its nil.
  unfoldable pub validate_target : ℕ → ProbeTarget → ProbeNetworkPolicy → Result (Unit {0})
  validate_target now target policy =
      if str_eq target.address ""
      then err (plain "probe target address is empty")
      else elim (target_hostname target.address) [
        | err e ↦ err e
        | ok host ↦ elim (allowed_target_ips now host policy) [
          | err e ↦ err e
          | ok ips ↦ some_address ips
        ]
      ]

  -- A dial: the connection, or the error, or neither; and the addresses dialed, in order.
  pub record Dialed : Type 0 where
    pub result : Result (Option Conn)
    pub tried : List Address

  abbrev pub refuse : Error → Dialed
  refuse e = record { result = err e; tried = [] }

  abbrev pub last_error : Option Error → Result (Option Conn)
  last_error none = ok none
  last_error (some e) = err e

  -- The loop of dialAllowedContext, with the last error.
  unfoldable pub dial_each : ℕ → List Address → String → Option Error → Dialed
  dial_each now [] port last = record { result = last_error last; tried = [] }
  dial_each now (ip ∷ ips) port last = elim (net.dial now ip port) [
    | ok conn ↦ record { result = ok (some conn); tried = ip ∷ [] }
    | err e ↦
        let rest = dial_each now ips port (some e) in
        record { result = rest.result; tried = ip ∷ rest.tried }
  ]

  -- dialAllowedContext.
  unfoldable pub dial_allowed_context : ℕ → String → ProbeNetworkPolicy → Dialed
  dial_allowed_context now address policy = elim (net.split_host_port address) [
    | none ↦ refuse (plain "invalid probe endpoint")
    | some (host, port) ↦ elim (allowed_target_ips now host policy) [
      | err e ↦ refuse e
      | ok ips ↦ dial_each now ips port none
    ]
  ]
