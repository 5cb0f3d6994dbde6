-- ===== src/Observability/Tracing.antt =====
-- internal/observability/observability.go: the identity and the exporter of traces that Setup chooses
-- from the environment. OpenTelemetry, net/url and os are parameters.
use Prim.Native.String.{◌++◌}
use foip_operator.Prelude.{
  String, str_eq, str_eq_iff, Bool, true, false, not, Option, none, some, Bool-cases, Option-cases,
  List, [], ◌∷◌, ◌≡◌, ◌≢◌, ap, ◌∙◌, ◌⊎◌, inl, inr, if◌then◌else◌,
}
use foip_operator.Netcup.Errors.{trim_space}

-- What the process reads of its surroundings.
pub record Surroundings : Type 0 where
  pub getenv : String → String
  -- os.Hostname, empty where it fails
  pub hostname : String
  -- the scheme and the host of a parsed URL
  pub parse_url : String → Option (String × String)
  -- strings.EqualFold
  pub equal_fold : String → String → Bool
  -- the verb %q
  pub quote : String → String

-- Config.
pub record Config : Type 0 where
  pub service_name : String
  pub component : String

abbrev pub default_text : String → String → String
default_text value fallback = if str_eq value "" then fallback else value

-- `if value != "" { attrs = append(attrs, attribute.String(key, value)) }`, before the attributes that
-- follow.
abbrev pub attribute : String → String → List (String × String) → List (String × String)
attribute key value rest = if str_eq value "" then rest else (key, value) ∷ rest

-- The exporter of newTraceExporter: none, an error, or one with an endpoint.
pub data Exporter : Type 0 where
  disabled : Exporter
  rejected : String → Exporter
  grpc : String → Bool → Exporter

-- The endpoint, and whether it is insecure, or an error.
pub data Target : Type 0 where
  unsupported : String → Target
  at : String → Bool → Target

module _ (os : Surroundings) where
  abbrev pub env : String → String
  env name = trim_space (os.getenv name)

  -- The service name of Setup.
  unfoldable pub service_name_of : Config → String
  service_name_of config =
      default_text (default_text (env "OTEL_SERVICE_NAME") (trim_space config.service_name))
        "foip-operator"

  -- The attributes of Setup.
  unfoldable pub attributes : Config → List (String × String)
  attributes config =
      ("service.name", service_name_of config)
      ∷ (attribute "foip.component" config.component (
          attribute "service.instance.id" os.hostname (
            attribute "k8s.pod.name" (env "POD_NAME") (
              attribute "k8s.namespace.name" (env "POD_NAMESPACE")
                (attribute "k8s.node.name" (env "NODE_NAME") [])))))

  -- The variables of the endpoint.
  unfoldable pub endpoint_of : String
  endpoint_of =
      default_text (env "OTEL_EXPORTER_OTLP_TRACES_ENDPOINT") (env "OTEL_EXPORTER_OTLP_ENDPOINT")

  unfoldable pub target_of_scheme : String → String → Target
  target_of_scheme scheme host =
      if str_eq scheme "http"
      then at host true
      else if str_eq scheme "https"
      then at host false
      else unsupported ("unsupported OTLP endpoint scheme " ++ os.quote scheme)

  -- The endpoint without its scheme.
  unfoldable pub target_of : String → Target
  target_of endpoint = elim (os.parse_url endpoint) [
    | none ↦ at endpoint false
    | some (scheme, host) ↦
        if not (str_eq scheme "") then target_of_scheme scheme host else at endpoint false
  ]

  -- OTEL_EXPORTER_OTLP_INSECURE overrides the scheme.
  unfoldable pub is_insecure : Bool → Bool
  is_insecure by_scheme =
      if not (str_eq (env "OTEL_EXPORTER_OTLP_INSECURE") "")
      then os.equal_fold (env "OTEL_EXPORTER_OTLP_INSECURE") "true"
      else by_scheme

  unfoldable pub exporter_to : Target → Exporter
  exporter_to (unsupported e) = rejected e
  exporter_to (at host by_scheme) =
      if str_eq host ""
      then rejected "OTEL_EXPORTER_OTLP endpoint is empty"
      else grpc host (is_insecure by_scheme)

  -- newTraceExporter.
  unfoldable pub new_trace_exporter : Exporter
  new_trace_exporter =
      if str_eq endpoint_of "" then disabled else exporter_to (target_of endpoint_of)

  -- The scheme of the endpoint is http.
  pub record IsPlain : Type 0 where
    pub host : String
    pub parsed : os.parse_url endpoint_of ≡ some ("http", host)

  target_of_scheme-plain :
      (scheme found host : String) → target_of_scheme scheme found ≡ at host true → scheme ≡ "http"
  unfolding target_of_scheme
  target_of_scheme-plain scheme found host h = elim (Bool-cases (str_eq scheme "http")) [
    | inl plain ↦ (str_eq_iff scheme "http").0 plain
    | inr other ↦ elim (Bool-cases (str_eq scheme "https")) [
      | inl safe ↦ absurd (cc (rw (other, safe, target_of_scheme) at h))
      | inr unknown ↦ absurd (cc (rw (other, unknown, target_of_scheme) at h))
    ]
  ]

  target_of-plain : (host : String) → target_of endpoint_of ≡ at host true → IsPlain
  unfolding target_of
  target_of-plain host h = elim (Option-cases (os.parse_url endpoint_of)) [
    | inl unparsed ↦ absurd (cc (rw (unparsed, target_of) at h))
    | inr ((scheme, found), parsed) ↦ elim (Bool-cases (str_eq scheme "")) [
      | inl bare ↦ absurd (cc (rw (parsed, bare, target_of) at h))
      | inr given ↦
          let plain =
            target_of_scheme-plain scheme found host (rw (parsed, given, target_of) at h) in
          record { host = found; parsed = parsed ∙ ap (λ s. some (s, found)) plain }
    ]
  ]

  -- The variable asks for an insecure exporter.
  abbrev pub Asked : Type 0
  Asked =
      (env "OTEL_EXPORTER_OTLP_INSECURE" ≢ "")
      × (os.equal_fold (env "OTEL_EXPORTER_OTLP_INSECURE") "true" ≡ true)

  is_insecure-cases :
      (by_scheme : Bool)
      → is_insecure by_scheme ≡ true
      → Asked ⊎ ((env "OTEL_EXPORTER_OTLP_INSECURE" ≡ "") × (by_scheme ≡ true))
  unfolding is_insecure
  is_insecure-cases by_scheme h =
      elim (Bool-cases (str_eq (env "OTEL_EXPORTER_OTLP_INSECURE") "")) [
        | inl unset ↦ inr (
          (str_eq_iff (env "OTEL_EXPORTER_OTLP_INSECURE") "").0 unset,
          rw (unset, is_insecure) at h,
        )
        | inr given ↦ inl (
          λ e. cc (given, (str_eq_iff (env "OTEL_EXPORTER_OTLP_INSECURE") "").1 e),
          rw (given, is_insecure) at h,
        )
      ]

  exporter_to-insecure :
      (target : Target) (host : String)
      → exporter_to target ≡ grpc host true
      → (host ≢ "") × (Asked ⊎ ((env "OTEL_EXPORTER_OTLP_INSECURE" ≡ "") × (target ≡ at host true)))
  unfolding exporter_to
  exporter_to-insecure (unsupported e) host h = absurd (cc h)
  exporter_to-insecure (at found by_scheme) host h = elim (Bool-cases (str_eq found "")) [
    | inl empty ↦ absurd (cc (rw (empty, exporter_to) at h))
    | inr given ↦
        let made : grpc found (is_insecure by_scheme) ≡ grpc host true =
          rw (given, exporter_to) at h in
        let same : found ≡ host = cc made in
        (
          λ e. cc (given, (str_eq_iff found "").1 (same ∙ e)),
          elim (is_insecure-cases by_scheme (cc made)) [
            | inl asked ↦ inl asked
            | inr (unset, plain) ↦ inr (unset, cc (same, plain))
          ],
        )
  ]

  -- Traces are sent without TLS only to an endpoint that is given, and only if
  -- OTEL_EXPORTER_OTLP_INSECURE is set to true, in any case, or is not set and the endpoint is a URL
  -- with the scheme http.
  pub new_trace_exporter-insecure :
      (host : String)
      → new_trace_exporter ≡ grpc host true
      → (endpoint_of ≢ "")
        × (host ≢ "")
        × (Asked ⊎ ((env "OTEL_EXPORTER_OTLP_INSECURE" ≡ "") × IsPlain))
  unfolding new_trace_exporter
  new_trace_exporter-insecure host h = elim (Bool-cases (str_eq endpoint_of "")) [
    | inl unset ↦ absurd (cc (rw (unset, new_trace_exporter) at h))
    | inr given ↦
        let (nonempty, why) =
          exporter_to-insecure (target_of endpoint_of) host (rw (given, new_trace_exporter) at h) in
        (
          λ e. cc (given, (str_eq_iff endpoint_of "").1 e),
          nonempty,
          elim why [
            | inl asked ↦ inl asked
            | inr (unset, plain) ↦ inr (unset, target_of-plain host plain)
          ],
        )
  ]
