-- ===== src/Probe/Kubernetes/Ready.antt =====
-- When a Kubernetes readiness probe passes.
use foip_operator.Prelude.{
  true, not, ◌&&◌, String, str_eq, str_eq_iff, false, ◌||◌, Option, none, some, Option-cases,
  Bool-cases, ◌≡◌, ◌≢◌, refl, ap, ◌⊎◌, ◌↔◌, inl, inr, arith,
}
use foip_operator.Api.Types.{KubernetesReadinessTarget}
use foip_operator.Netcup.Errors.{trim_space}
use foip_operator.Controller.Env.{Result, ok, err}
use foip_operator.Probe.{passed, refused}
use foip_operator.Probe.Kubernetes.{
  Reader, judge_field, judge_object, check_target, execute_kubernetes, path_words,
}

refused_ne : {reason : String} → refused reason ≢ passed
refused_ne h = cc h

judge_field-found :
    (expected : String) (found : Result (Option String))
    → judge_field expected found ≡ passed
    → (value : String) × (found ≡ ok (some value)) × ((expected ≡ "") ⊎ (value ≡ expected))
unfolding judge_field
judge_field-found expected (err e) h = absurd (refused_ne h)
judge_field-found expected (ok none) h = absurd (refused_ne h)
judge_field-found expected (ok (some value)) h = (
  value,
  refl,
  ground (arith, ap (λ r. r.success) h, str_eq_iff expected "", str_eq_iff value expected),
)

judge_field-passed :
    (expected value : String)
    → (expected ≡ "") ⊎ (value ≡ expected)
    → judge_field expected (ok (some value)) ≡ passed
unfolding judge_field
judge_field-passed expected value h =
    ground (arith, str_eq_iff expected "", str_eq_iff value expected)

module _ {Object : Type 0} (reader : Reader Object) where
  -- The field at the end of the path is there, with the expected value if there is one.
  pub record IsExpected (target : KubernetesReadinessTarget) (object : Object) : Type 0 where
    pub value : String
    pub found : reader.field object (path_words target.json_path) ≡ ok (some value)
    pub expected : (target.expected ≡ "") ⊎ (value ≡ target.expected)

  -- The object is there, and its readiness field is as expected.
  pub record IsReady (target : KubernetesReadinessTarget) : Type 0 where
    pub version : String
    pub object : Object
    pub kind : trim_space target.kind ≢ ""
    pub name : target.name ≢ ""
    pub parsed : reader.parse_group_version target.api_version ≡ some version
    pub readable : reader.read version target.kind target.namespace target.name ≡ some object
    pub field : (target.json_path ≡ "") ⊎ IsExpected target object

  judge_object-field :
      (target : KubernetesReadinessTarget) (object : Object)
      → judge_object reader target object ≡ passed
      → (target.json_path ≡ "") ⊎ IsExpected target object
  unfolding judge_object
  judge_object-field target object h = elim (Bool-cases (str_eq target.json_path "")) [
    | inl empty ↦ inl ((str_eq_iff target.json_path "").0 empty)
    | inr given ↦
        let (value, found, expected) =
          judge_field-found target.expected (reader.field object (path_words target.json_path))
            (rw (given, judge_object) at h) in
        inr (record { value = value; found = found; expected = expected })
  ]

  judge_object-passed :
      (target : KubernetesReadinessTarget) (object : Object)
      → (target.json_path ≡ "") ⊎ IsExpected target object
      → judge_object reader target object ≡ passed
  unfolding judge_object
  judge_object-passed target object (inl empty) =
      rw ((str_eq_iff target.json_path "").1 empty, judge_object) refl
  judge_object-passed target object (inr field) = elim (Bool-cases (str_eq target.json_path "")) [
    | inl empty ↦ rw (empty, judge_object) refl
    | inr given ↦
        rw (given, field.found, judge_object)
          (judge_field-passed target.expected field.value field.expected)
  ]

  check_target-IsReady :
      (target : KubernetesReadinessTarget) → check_target reader target ≡ passed → IsReady target
  unfolding check_target
  check_target-IsReady target h =
      elim (Bool-cases (str_eq (trim_space target.kind) "" || str_eq target.name "")) [
        | inl unnamed ↦ absurd (refused_ne (rw (unnamed, check_target) at h))
        | inr named ↦ elim (Option-cases (reader.parse_group_version target.api_version)) [
          | inl failed ↦ absurd (refused_ne (rw (named, failed, check_target) at h))
          | inr (version, parsed) ↦
              elim (Option-cases (reader.read version target.kind target.namespace target.name)) [
                | inl failed ↦ absurd (refused_ne (rw (named, parsed, failed, check_target) at h))
                | inr (object, readable) ↦ record {
                  version = version;
                  object = object;
                  kind = ground (arith, named, str_eq_iff (trim_space target.kind) "");
                  name = ground (arith, named, str_eq_iff target.name "");
                  parsed = parsed;
                  readable = readable;
                  field =
                      judge_object-field target object
                        (rw (named, parsed, readable, check_target) at h);
                }
              ]
        ]
      ]

  check_target-passed :
      (target : KubernetesReadinessTarget) → IsReady target → check_target reader target ≡ passed
  unfolding check_target
  check_target-passed target ready =
      let named : (str_eq (trim_space target.kind) "" || str_eq target.name "") ≡ false = ground (
        arith,
        ready.kind,
        ready.name,
        str_eq_iff (trim_space target.kind) "",
        str_eq_iff target.name "",
      ) in
      rw (named, ready.parsed, ready.readable, check_target)
        (judge_object-passed target ready.object ready.field)

  -- A Kubernetes probe passes exactly if it has a target with a kind that is not blank and a name, if
  -- its group and version are well-formed and the object can be read, and, where there is a path, if
  -- the field at its end is there and has the expected value or none is expected.
  pub execute_kubernetes-passed_iff :
      (target : Option KubernetesReadinessTarget)
      → (execute_kubernetes reader target ≡ passed)
        ↔ ((given : KubernetesReadinessTarget) × (target ≡ some given) × IsReady given)
  unfolding execute_kubernetes
  execute_kubernetes-passed_iff none =
      (λ h. absurd (refused_ne h), λ (given, same, ready). absurd (cc same))
  execute_kubernetes-passed_iff (some target) = (
    λ h. (target, refl, check_target-IsReady target h),
    λ (given, same, ready).
        (let e : target ≡ given = cc same in rw e (check_target-passed given ready)),
  )

  judge_field-success :
      (expected : String) (found : Result (Option String))
      → (judge_field expected found).success ≡ true
      → judge_field expected found ≡ passed
  unfolding judge_field
  judge_field-success expected (err e) h = absurd (cc h)
  judge_field-success expected (ok none) h = absurd (cc h)
  judge_field-success expected (ok (some value)) h =
      elim (Bool-cases (not (str_eq expected "") && not (str_eq value expected))) [
        | inl differs ↦ absurd (cc (rw (differs, judge_field) at h))
        | inr fits ↦ rw (fits, judge_field) refl
      ]

  judge_object-success :
      (target : KubernetesReadinessTarget) (object : Object)
      → (judge_object reader target object).success ≡ true
      → judge_object reader target object ≡ passed
  unfolding judge_object
  judge_object-success target object h = elim (Bool-cases (str_eq target.json_path "")) [
    | inl bare ↦ rw (bare, judge_object) refl
    | inr path ↦
        rw (path, judge_object)
          (judge_field-success target.expected _ (rw (path, judge_object) at h))
  ]

  -- A success is the result of a probe that passes.
  pub execute_kubernetes-success :
      (target : Option KubernetesReadinessTarget)
      → (execute_kubernetes reader target).success ≡ true
      → execute_kubernetes reader target ≡ passed
  unfolding execute_kubernetes check_target
  execute_kubernetes-success none h = absurd (cc h)
  execute_kubernetes-success (some target) h =
      elim (Bool-cases (str_eq (trim_space target.kind) "" || str_eq target.name "")) [
        | inl unnamed ↦ absurd (cc (rw (unnamed, check_target) at h))
        | inr named ↦ elim (Option-cases (reader.parse_group_version target.api_version)) [
          | inl wrong ↦ absurd (cc (rw (named, wrong, check_target) at h))
          | inr (version, parsed) ↦
              elim (Option-cases (reader.read version target.kind target.namespace target.name)) [
                | inl unread ↦ absurd (cc (rw (named, parsed, unread, check_target) at h))
                | inr (object, read) ↦
                    rw (named, parsed, read, check_target)
                      (judge_object-success target object
                        (rw (named, parsed, read, check_target) at h))
              ]
        ]
      ]
