-- ===== src/Probe/Kubernetes.antt =====
-- internal/probe/kubernetes.go: the executor of Kubernetes readiness probes, over a reader of
-- unstructured objects.
pub mod Ready
use Prim.Native.Char.{Char, code}
use foip_operator.Prelude.{
  ◌==◌, String, str_eq, str_eq_iff, Bool, true, false, not, ◌&&◌, ◌||◌, Option, none, some,
  Option-cases, Bool-cases, List, [], ◌∷◌, ◌≡◌, ◌≢◌, refl, sym, ap, ◌∙◌, ◌⊎◌, ◌↔◌, inl, inr,
  if◌then◌else◌, arith,
}
use foip_operator.Prelude.Text.Prefix.{trim_prefix}
use foip_operator.Api.Types.{KubernetesReadinessTarget}
use foip_operator.Netcup.Errors.{trim_space}
use foip_operator.Controller.Env.{Result, ok, err, Result-cases}
use foip_operator.Probe.{ProbeResult, passed, refused}

pub record Reader (Object : Type 0) : Type 0 where
  -- schema.ParseGroupVersion
  pub parse_group_version : String → Option String
  -- reader.Get, by group and version, kind, namespace and name
  pub read : String → String → String → String → Option Object
  -- unstructured.NestedFieldNoCopy, with the value as fmt.Sprint writes it
  pub field : Object → List String → Result (Option String)

abbrev push : Char → List String → List String
push c [] = []
push c (word ∷ words) = String.◌∷◌ c word ∷ words

-- strings.Split(s, ".").
unfoldable pub split_dots : String → List String
split_dots String.[] = "" ∷ []
split_dots (String.◌∷◌ c s) =
    let words = split_dots s in if code c == b'.' then "" ∷ words else push c words

-- The checks of ExecuteKubernetes on the field that the path leads to.
unfoldable pub judge_field : String → Result (Option String) → ProbeResult
judge_field expected (err e) = refused "readiness field is absent"
judge_field expected (ok none) = refused "readiness field is absent"
judge_field expected (ok (some value)) =
    if not (str_eq expected "") && not (str_eq value expected)
    then refused "readiness field has unexpected value"
    else passed

abbrev pub path_words : String → List String
path_words path = split_dots (trim_prefix "." path)

module _ {Object : Type 0} (reader : Reader Object) where
  unfoldable pub judge_object : KubernetesReadinessTarget → Object → ProbeResult
  judge_object target object =
      if str_eq target.json_path ""
      then passed
      else judge_field target.expected (reader.field object (path_words target.json_path))

  unfoldable pub check_target : KubernetesReadinessTarget → ProbeResult
  check_target target =
      if str_eq (trim_space target.kind) "" || str_eq target.name ""
      then refused "unsupported Kubernetes readiness target"
      else elim (reader.parse_group_version target.api_version) [
        | none ↦ refused "invalid Kubernetes apiVersion"
        | some version ↦ elim (reader.read version target.kind target.namespace target.name) [
          | none ↦ refused "Kubernetes object is not readable"
          | some object ↦ judge_object target object
        ]
      ]

  -- ExecuteKubernetes.
  unfoldable pub execute_kubernetes : Option KubernetesReadinessTarget → ProbeResult
  execute_kubernetes none = refused "unsupported Kubernetes readiness target"
  execute_kubernetes (some target) = check_target target
