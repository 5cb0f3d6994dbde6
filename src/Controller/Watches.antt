-- ===== src/Controller/Watches.antt =====
-- The watches of internal/controller/failoverip_controller.go: which changes of a node wake the
-- controller, and which resources an object wakes.
pub mod Changes
use foip_operator.Prelude.{
  String, Bool, true, false, not, ◌&&◌, ◌||◌, List, [], ◌∷◌, differ, exists, keep, map,
  if◌then◌else◌, str_eq, Option, none, some,
}
use foip_operator.Prelude.Text.{str_lt}
use foip_operator.Api.Types.{
  condition_true, condition_unknown, FailoverIp, FailoverProbe, SecretKeySelector,
}
use foip_operator.Controller.Node.{
  Node, NodeConditionType, condition_is, network_unavailable, ready, pid_pressure, memory_pressure,
  disk_pressure,
}
use foip_operator.Controller.Env.{Result, ok, err}

-- The loop of nodeChangePredicate.Update.
unfoldable pub any_condition_changed : List NodeConditionType → Node → Node → Bool
any_condition_changed [] old new = false
any_condition_changed (type ∷ types) old new =
    if differ (condition_is old type condition_true) (condition_is new type condition_true)
      || differ (condition_is old type condition_unknown) (condition_is new type condition_unknown)
    then true
    else any_condition_changed types old new

-- The types that the predicate compares.
abbrev pub watched_conditions : List NodeConditionType
watched_conditions =
    network_unavailable ∷ ready ∷ pid_pressure ∷ memory_pressure ∷ disk_pressure ∷ []

-- nodeChangePredicate.Update, on two nodes.
unfoldable pub node_changed : Node → Node → Bool
node_changed old new =
    if differ old.unschedulable new.unschedulable
    then true
    else if not (str_eq old.primary_mac new.primary_mac) || not (str_eq old.server_id new.server_id)
    then true
    else any_condition_changed watched_conditions old new

-- reconcile.Request.
pub record Request : Type 0 where
  pub name : String
  pub namespace : String

abbrev pub request_of : FailoverIp → Request
request_of foip = record { name = foip.name; namespace = foip.namespace }

-- nodeToFoips, and nodeToAllFoips of the node agent; the error of the list is logged only.
unfoldable pub node_to_foips : Result (List FailoverIp) → List Request
node_to_foips (err e) = []
node_to_foips (ok foips) = map request_of foips

-- Whether a resource refers to the probe.
abbrev pub refers_to : String → String → FailoverIp → Bool
refers_to name namespace foip =
    exists (λ ref. str_eq ref name && str_eq foip.namespace namespace) foip.spec.probes

-- probeToFoips, for the probe of the name and namespace.
unfoldable pub probe_to_foips : Result (List FailoverIp) → String → String → List Request
probe_to_foips (err e) name namespace = []
probe_to_foips (ok foips) name namespace = map request_of (keep (refers_to name namespace) foips)

-- A reference of a probe to the Secret.
abbrev pub names_secret : String → Option SecretKeySelector → Bool
names_secret name none = false
names_secret name (some selector) = str_eq selector.name name

-- probeNames of secretToFoips, as a list.
unfoldable pub probe_names : List FailoverProbe → String → List String
probe_names [] secret = []
probe_names (p ∷ ps) secret =
    let rest = probe_names ps secret in
    if names_secret secret p.spec.credential_secret_ref
      || names_secret secret p.spec.ca_bundle_secret_ref
    then p.name ∷ rest
    else rest

-- Whether a resource uses the Secret, itself or by one of the probes.
unfoldable pub uses_secret : String → List String → FailoverIp → Bool
uses_secret secret names foip =
    str_eq foip.spec.secret_name secret
    || exists (λ ref. exists (λ name. str_eq name ref) names) foip.spec.probes

-- The comparison of slices.SortFunc.
abbrev pub comes_before : Request → Request → Bool
comes_before a b =
    if not (str_eq a.namespace b.namespace)
    then str_lt a.namespace b.namespace
    else str_lt a.name b.name

unfoldable pub insert_request : Request → List Request → List Request
insert_request r [] = r ∷ []
insert_request r (q ∷ qs) =
    let rest = insert_request r qs in if comes_before q r then q ∷ rest else r ∷ q ∷ qs

unfoldable pub sort_requests : List Request → List Request
sort_requests [] = []
sort_requests (r ∷ rs) = insert_request r (sort_requests rs)

-- secretToFoips, over the resources and the probes of the Secret's namespace.
unfoldable pub secret_to_foips :
    Result (List FailoverIp) → Result (List FailoverProbe) → String → List Request
secret_to_foips (err e) probes secret = []
secret_to_foips (ok foips) (err e) secret = []
secret_to_foips (ok foips) (ok probes) secret =
    sort_requests (map request_of (keep (uses_secret secret (probe_names probes secret)) foips))
