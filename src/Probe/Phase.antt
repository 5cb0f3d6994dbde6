-- ===== src/Probe/Phase.antt =====
-- evaluateProbePhase and resolveProbeSpec of internal/controller/probe_checks.go: the gate of a phase,
-- over the answers of the API server and of the executors.
pub mod Gate
use Prim.Native.Char.{code}
use Prim.Native.String.{◌++◌}
use foip_operator.Prelude.{
  ℕ, zero, suc, ◌-◌, ◌==◌, ℤ, pos, eqb_ℤ, String, str_eq, Bool, true, false, not, ◌&&◌, ◌||◌,
  Option, none, some, List, [], ◌∷◌, if◌then◌else◌,
}
use foip_operator.Prelude.Text.{str_lt}
use foip_operator.Api.Types.{
  FailoverIp, FailoverProbe, FailoverProbeSpec, ProbeTarget, ProbePhase, no_probe_phase, pre_route,
  post_route, continuous, other_probe_phase, ProbeComposition, no_composition, all_probes,
  any_probe, quorum_probes, other_composition, kubernetes_probe, ProbeType,
  KubernetesReadinessTarget, SecretKeySelector,
}
use foip_operator.Controller.Node.{Node, NodeAddress, internal_ip, external_ip}
use foip_operator.Controller.Env.{Error, Result, ok, err}
use foip_operator.Controller.Reconcile.Base.{plain, wrap}
use foip_operator.Prelude.Text.Prefix.{has_prefix}
use foip_operator.Probe.{ProbeResult, aggregate, Judged, observe}

-- strings.Contains.
unfoldable pub contains_text : String → String → Bool
contains_text text String.[] = has_prefix text ""
contains_text text (String.◌∷◌ c s) = has_prefix text (String.◌∷◌ c s) || contains_text text s

text_length : String → ℕ
text_length String.[] = 0
text_length (String.◌∷◌ c s) = suc (text_length s)

-- strings.ReplaceAll for a text that is not empty; `skip` characters belong to the last occurrence.
replace_from : ℕ → String → String → String → String
unfolding has_prefix text_length
replace_from skip old new String.[] = ""
replace_from (suc skip) old new (String.◌∷◌ c s) = replace_from skip old new s
replace_from zero old new (String.◌∷◌ c s) =
    let kept = replace_from zero old new s in
    let replaced = replace_from (text_length old - 1) old new s in
    if has_prefix old (String.◌∷◌ c s) then new ++ replaced else String.◌∷◌ c kept

unfoldable pub replace_all : String → String → String → String
unfolding replace_from
replace_all text old new = replace_from zero old new text

abbrev pub is_phase : ProbePhase → ProbePhase → Bool
is_phase no_probe_phase no_probe_phase = true
is_phase pre_route pre_route = true
is_phase post_route post_route = true
is_phase continuous continuous = true
is_phase (other_probe_phase s) (other_probe_phase t) = str_eq s t
is_phase _ _ = false

abbrev pub is_composition : ProbeComposition → ProbeComposition → Bool
is_composition no_composition no_composition = true
is_composition all_probes all_probes = true
is_composition any_probe any_probe = true
is_composition quorum_probes quorum_probes = true
is_composition (other_composition s) (other_composition t) = str_eq s t
is_composition _ _ = false

abbrev pub is_kubernetes : ProbeType → Bool
is_kubernetes kubernetes_probe = true
is_kubernetes _ = false

-- The API server, as it answers during one evaluation, and the executors of internal/probe.
pub record Prober : Type 0 where
  pub load : String → Result FailoverProbe
  pub node : String → Result Node
  -- the data of a Secret by key, empty where it is absent
  pub secret : String → Result (String → String)
  -- ExecuteKubernetes
  pub kubernetes : Option KubernetesReadinessTarget → ProbeResult
  -- execute, with the credential and the CA bundle
  pub execute : FailoverProbeSpec → String → String → ProbeResult
  pub clock : ℕ
  -- the patch of the status, where the reader is a client that writes
  pub patch : Option (FailoverProbe → Result (Unit {0}))

-- The loop over the addresses of the target node: the first internal address, or the last external
-- one.
unfoldable pub node_ip : String → List NodeAddress → String
node_ip found [] = found
node_ip found (a ∷ rest) = elim a.type [
  | internal_ip ↦ a.address
  | external_ip ↦ node_ip a.address rest
  | _ ↦ node_ip found rest
]

abbrev pub replace_in : String → String → ProbeTarget → ProbeTarget
replace_in old new target = record target {
  address = replace_all target.address old new;
  host = replace_all target.host old new;
  sni = replace_all target.sni old new;
}

abbrev pub mentions : String → ProbeTarget → Bool
mentions text target =
    contains_text text target.address
    || contains_text text target.host
    || contains_text text target.sni

-- The end of resolveProbeSpec: no placeholder is left.
unfoldable pub closed_spec : FailoverProbeSpec → ProbeTarget → Result FailoverProbeSpec
closed_spec spec target =
    if mentions "${" target
    then err (plain "unsupported target placeholder")
    else ok (record spec { target = target })

unfoldable pub with_node_ip :
    FailoverProbeSpec → ProbeTarget → String → String → Result FailoverProbeSpec
with_node_ip spec target name ip =
    if str_eq ip ""
    then err (plain ("target node " ++ name ++ " has no usable address"))
    else closed_spec spec (replace_in "${targetNodeIP}" ip target)

-- The refs by name; slices.SortFunc as an insertion sort.
unfoldable pub insert_name : String → List String → List String
insert_name r [] = r ∷ []
insert_name r (q ∷ qs) = let rest = insert_name r qs in if str_lt q r then q ∷ rest else r ∷ q ∷ qs

unfoldable pub sort_names : List String → List String
sort_names [] = []
sort_names (r ∷ rs) = insert_name r (sort_names rs)

-- The composition of the gate so far, the one that the probes brought, and the results.
pub record Progress : Type 0 where
  pub composition : ProbeComposition
  pub quorum : ℤ
  pub referenced_composition : ProbeComposition
  pub referenced_quorum : ℤ
  pub results : List ProbeResult

abbrev pub is_absent : ProbeComposition → Bool
is_absent composition = is_composition composition no_composition

-- A probe with another composition or quorum than the one before.
abbrev pub conflicts : FailoverProbeSpec → Progress → Bool
conflicts spec p =
    not (is_absent p.referenced_composition)
    && (not (is_composition p.referenced_composition spec.composition)
        || not (eqb_ℤ p.referenced_quorum spec.quorum))

-- The probe's own composition, where the resource has none.
unfoldable pub take_composition : FailoverIp → FailoverProbeSpec → Progress → Result Progress
take_composition foip spec p =
    if is_absent foip.spec.probe_composition && not (is_absent spec.composition)
    then (if conflicts spec p
        then err (plain "referenced probes have conflicting compositions")
        else ok (record p {
          composition = spec.composition;
          quorum = spec.quorum;
          referenced_composition = spec.composition;
          referenced_quorum = spec.quorum;
        }))
    else ok p

-- The value of a key of a Secret; the texts are those of the two errors.
unfoldable pub secret_value : Result (String → String) → String → String → String → Result String
secret_value (err e) key unloaded empty = err (wrap unloaded e)
secret_value (ok values) key unloaded empty =
    if str_eq (values key) "" then err (plain empty) else ok (values key)

module _ (prober : Prober) where
  -- resolveProbeSpec.
  unfoldable pub resolve_probe_spec : FailoverIp → FailoverProbeSpec → Result FailoverProbeSpec
  resolve_probe_spec foip spec =
      let target = replace_in "${failoverIP}" foip.spec.ip spec.target in
      let name = foip.status.target_node in
      if mentions "${targetNodeIP}" target
      then (if str_eq name ""
          then err (plain "target node is not selected")
          else elim (prober.node name) [
            | err e ↦ err (wrap ("loading target node " ++ name ++ ": ") e)
            | ok node ↦ with_node_ip spec target name (node_ip "" node.addresses)
          ])
      else closed_spec spec target

  -- The CA bundle, empty where the probe has none.
  unfoldable pub ca_bundle : Option SecretKeySelector → Result String
  ca_bundle none = ok ""
  ca_bundle (some ref) =
      secret_value (prober.secret ref.name) ref.key "loading probe CA bundle Secret: "
        "probe CA bundle Secret key is empty"

  -- The execution of a resolved probe that is not a Kubernetes probe.
  unfoldable pub run_network :
      FailoverProbeSpec → String → Option SecretKeySelector → Result ProbeResult
  run_network spec bundle none = ok (prober.execute spec "" bundle)
  run_network spec bundle (some ref) =
      elim (secret_value (prober.secret ref.name) ref.key "loading probe credential Secret: "
        "probe credential Secret key is empty") [
          | err e ↦ err e
          | ok credential ↦ ok (prober.execute spec credential bundle)
        ]

  unfoldable pub run_probe : FailoverProbeSpec → Result ProbeResult
  run_probe spec = elim (ca_bundle spec.ca_bundle_secret_ref) [
    | err e ↦ err e
    | ok bundle ↦
        if is_kubernetes spec.type
        then ok (prober.kubernetes spec.kubernetes)
        else run_network spec bundle spec.credential_secret_ref
  ]

  -- The patch of the observation, where the reader writes.
  unfoldable pub persist : FailoverProbe → Result (Unit {0})
  persist resource = elim prober.patch [ none ↦ ok tt | some patch ↦ patch resource ]

  -- A probe of the phase, from its result on.
  unfoldable pub record_result : FailoverProbe → Progress → ProbeResult → Result Progress
  record_result resource p result =
      let (judged, observed) = observe resource result prober.clock in
      elim (persist observed) [
        | err e ↦ err e
        | ok _ ↦ ok (record p { results = judged.result ∷ p.results })
      ]

  -- A probe of the phase.
  unfoldable pub evaluate_probe : FailoverIp → FailoverProbe → String → Progress → Result Progress
  evaluate_probe foip resource name p = elim (resolve_probe_spec foip resource.spec) [
    | err e ↦ err (wrap ("resolving probe " ++ name ++ " target: ") e)
    | ok spec ↦ elim (take_composition foip resource.spec p) [
      | err e ↦ err e
      | ok taken ↦ elim (run_probe spec) [
        | err e ↦ err e
        | ok result ↦ record_result resource taken result
      ]
    ]
  ]

  abbrev pub applies : ProbePhase → FailoverProbeSpec → Bool
  applies phase spec = is_phase spec.phase phase || is_phase spec.phase continuous

  -- One round of the loop.
  unfoldable pub evaluate_ref : FailoverIp → ProbePhase → String → Progress → Result Progress
  evaluate_ref foip phase name p = elim (prober.load name) [
    | err e ↦ err (wrap ("loading probe " ++ name ++ ": ") e)
    | ok resource ↦
        if applies phase resource.spec then evaluate_probe foip resource name p else ok p
  ]

  unfoldable pub evaluate_refs : FailoverIp → ProbePhase → List String → Progress → Result Progress
  evaluate_refs foip phase [] p = ok p
  evaluate_refs foip phase (name ∷ names) p = elim (evaluate_ref foip phase name p) [
    | err e ↦ err e
    | ok later ↦ evaluate_refs foip phase names later
  ]

  abbrev pub begin_gate : FailoverIp → Progress
  begin_gate foip = record {
    composition =
        if is_absent foip.spec.probe_composition then all_probes else foip.spec.probe_composition;
    quorum = foip.spec.probe_quorum;
    referenced_composition = no_composition;
    referenced_quorum = pos 0;
    results = [];
  }

  abbrev pub gate_text : ProbePhase → String
  gate_text pre_route = "PreRoute"
  gate_text post_route = "PostRoute"
  gate_text continuous = "Continuous"
  gate_text no_probe_phase = ""
  gate_text (other_probe_phase s) = s

  -- The aggregate over the results; without results the gate is open.
  unfoldable pub judge_gate :
      ProbePhase → ProbeComposition → ℤ → List ProbeResult → Result (Unit {0})
  judge_gate phase c quorum [] = ok tt
  judge_gate phase c quorum (r ∷ rs) =
      let result = aggregate c quorum (r ∷ rs) in
      if not result.success
      then err (plain (gate_text phase ++ " probe gate failed: " ++ result.reason))
      else ok tt

  -- evaluateProbePhase over the refs. The results are collected the newest first, which Aggregate does
  -- not see.
  unfoldable pub evaluate_gate : FailoverIp → ProbePhase → List String → Result (Unit {0})
  evaluate_gate foip phase [] = ok tt
  evaluate_gate foip phase (ref ∷ refs) =
      elim (evaluate_refs foip phase (sort_names (ref ∷ refs)) (begin_gate foip)) [
        | err e ↦ err e
        | ok p ↦ judge_gate phase p.composition p.quorum p.results
      ]

  -- evaluateProbePhase.
  abbrev pub evaluate_probe_phase : FailoverIp → ProbePhase → Result (Unit {0})
  evaluate_probe_phase foip phase = evaluate_gate foip phase foip.spec.probes
