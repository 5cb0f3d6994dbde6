-- ===== src/Tests/Policies.antt =====
-- Targets of probes over a resolver that knows one host.
use foip_operator.Prelude.{
  All, String, str_eq, false, none, some, [], ◌∷◌, ◌≡◌, refl, ◌↔◌, exists, if◌then◌else◌,
}
use foip_operator.Api.Types.{ProbeNetworkPolicy}
use foip_operator.Controller.Env.{ok, err}
use foip_operator.Controller.Reconcile.Base.{plain}
use foip_operator.Probe.Policy.{
  v4, v6, Net, contains_ip, parse_cidrs, resolve, allowed_target_ips, dial_allowed_context,
  dial_each, first_refusal, refusal, is_blocked,
}
use foip_operator.Probe.Policy.Allowed.{
  Permitted, dial_allowed_context-Permitted, Passes, allowed_target_ips_iff,
  allowed_target_ips-unspecified,
}

-- The host "probe" resolves to 203.0.113.9 and 10.0.0.9, "local" to 0.0.0.0; the first dial fails.
abbrev pub net : Net String
net = record {
  lookup = λ now host.
      if str_eq host "probe"
      then ok (v4 3405803785 ∷ v4 167772169 ∷ [])
      else if str_eq host "local"
      then ok (v4 0 ∷ [])
      else err (plain "no such host");
  parse_ip = λ text. none;
  parse_cidr = λ text. some (record { base = v4 167772160; ones = 8 });
  parse_url = λ text. none;
  split_host_port = λ text. some ("probe", "443");
  dial = λ now ip port. elim ip [ v4 n ↦ err (plain "refused") | v6 n ↦ ok "connected" ];
  quote = λ text. text;
}

abbrev public_only : ProbeNetworkPolicy
public_only = record { allow_private_networks = false; allowed_cidrs = []; denied_cidrs = [] }

abbrev pub with_ten : ProbeNetworkPolicy
with_ten = record {
  allow_private_networks = false;
  allowed_cidrs = "10.0.0.0/8" ∷ [];
  denied_cidrs = [];
}

allowed_target_ips_iff_example :
    (allowed_target_ips net 0 "probe" with_ten ≡ ok (v4 3405803785 ∷ v4 167772169 ∷ []))
    ↔ Passes net 0 "probe" with_ten (v4 3405803785 ∷ v4 167772169 ∷ [])
allowed_target_ips_iff_example =
    allowed_target_ips_iff net 0 "probe" with_ten (v4 3405803785 ∷ v4 167772169 ∷ [])

-- The private address is refused without the allowed network, and dialed with it.
sensitive :
    (allowed_target_ips net 0 "probe" public_only
      ≡ err (plain "probe target resolves to a sensitive network"))
    × ((dial_allowed_context net 0 "probe:443" with_ten).tried ≡ v4 3405803785 ∷ v4 167772169 ∷ [])
unfolding allowed_target_ips resolve parse_cidrs first_refusal refusal is_blocked contains_ip exists
    dial_allowed_context dial_each str_eq
sensitive = (refl, refl)

dial_allowed_context-Permitted_example :
    All (Permitted net with_ten) (dial_allowed_context net 0 "probe:443" with_ten).tried
dial_allowed_context-Permitted_example = dial_allowed_context-Permitted net 0 "probe:443" with_ten

allowed_target_ips-unspecified_example :
    allowed_target_ips net 0 "local" public_only ≡ ok (v4 0 ∷ [])
unfolding resolve parse_cidrs contains_ip exists str_eq
allowed_target_ips-unspecified_example =
    allowed_target_ips-unspecified net 0 "local" public_only [] [] refl refl refl refl
