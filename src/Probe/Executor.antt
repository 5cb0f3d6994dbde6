-- ===== src/Probe/Executor.antt =====
-- internal/probe/executor.go: the executors of TCP, TLS, HTTP and HTTPS probes. Packages net, net/http,
-- crypto/tls and crypto/x509 are parameters.
use Prim.Native.Char.{code}
pub mod Asked
pub mod Cases
pub mod Reach
pub mod Reached
pub mod Passed
pub mod Total
use Prim.Native.String.{◌++◌}
use foip_operator.Prelude.{
  ℕ, ◌+◌, ◌==◌, ltb, ℤ, pos, is_pos, eqb_ℤ, ltb_ℤ, String, str_eq, Bool, true, false, not, ◌&&◌,
  ◌||◌, Option, none, some, List, [], ◌∷◌, if◌then◌else◌,
}
use foip_operator.Prelude.Int.{wrap32}
use foip_operator.Prelude.Text.{itoa, atoi}
use foip_operator.Api.Types.{
  ProbeTarget, ProbeNetworkPolicy, ProbeHeader, FailoverProbeSpec, ProbeType, tcp_probe, tls_probe,
  https_probe,
}
use foip_operator.Api.Validate.{
  SpecError, quorum_too_small, quorum_without_quorum, spec_error_text, validate_probe_spec,
  type_string, is_kubernetes,
}
use foip_operator.Controller.Env.{Result, ok, err}
use foip_operator.Controller.Reconcile.Base.{plain}
use foip_operator.Netcup.Errors.{seconds}
use foip_operator.Probe.{ProbeResult, passed, refused}
use foip_operator.Probe.Phase.{contains_text}
use foip_operator.Probe.Policy.{Address, Net, Url, Dialed, dial_allowed_context, validate_target}
use foip_operator.Probe.Session.{HttpResponse, Session, Trip, run_session}
use foip_operator.Probe.Http.{
  TlsConfig, HttpRequest, judge_response, Endpoint, or_text, set_header, endpoint, scheme_of,
}

pub record Stack (Conn : Type 0) : Type 0 where
  -- the network under a timeout
  pub net : ℤ → Net Conn
  pub join_host_port : String → String → String
  -- CertPool.AppendCertsFromPEM
  pub has_certificates : String → Bool
  -- whether HandshakeContext succeeds
  pub handshake : ℤ → Conn → TlsConfig → Bool
  -- the error of http.NewRequestWithContext
  pub refuses_request : String → String → Bool
  -- textproto.CanonicalMIMEHeaderKey
  pub canonical : String → String
  pub session : ℤ → HttpRequest → Session

-- A run of an executor: its result, or a panic, with the addresses dialed and the hosts that
-- redirects led to.
pub data Outcome : Type 0 where
  returned : ProbeResult → Outcome
  panicked : Outcome

pub record Executed : Type 0 where
  pub outcome : Outcome
  pub tried : List Address
  pub followed : List String

abbrev pub at_once : ProbeResult → Executed
at_once result = record { outcome = returned result; tried = []; followed = [] }

-- The text of ValidateProbeSpec's error.
unfoldable pub probe_error_text : SpecError → String
probe_error_text quorum_too_small = "quorum must be at least one"
probe_error_text quorum_without_quorum = "quorum is only valid for quorum composition"
probe_error_text e = spec_error_text e

-- The timeout of execute.
unfoldable pub timeout_of : FailoverProbeSpec → ℤ
timeout_of spec =
    let timeout = seconds spec.timeout_seconds in
    if is_pos timeout then timeout else seconds (pos 5)

-- The moments of a run: execute validates the target at the first, and the executor that it dispatches to
-- resolves names from the next one on.
abbrev pub validated_at : ℕ
validated_at = 0

abbrev pub dispatched_at : ℕ
dispatched_at = 1

module _ {Conn : Type 0} (stack : Stack Conn) where
  -- tlsConfig.
  unfoldable pub tls_config : String → Bool → String → Result TlsConfig
  tls_config server_name insecure ca_bundle =
      if str_eq ca_bundle ""
      then ok (record { server_name = server_name; insecure = insecure; roots = none })
      else if not (stack.has_certificates ca_bundle)
      then err (plain "invalid CA bundle")
      else ok (record { server_name = server_name; insecure = insecure; roots = some ca_bundle })

  -- The end of tcp: with neither a connection nor an error, a method call on nil panics.
  unfoldable pub close : (Conn → Bool) → Result (Option Conn) → Outcome
  close sound (err e) = returned (refused "connection failed")
  close sound (ok none) = panicked
  close sound (ok (some conn)) =
      returned (if sound conn then passed else refused "connection failed")

  -- tcp behind the configuration of TLS, whose handshake is the test of a connection.
  unfoldable pub connect : ℤ → ProbeTarget → ProbeNetworkPolicy → (Conn → Bool) → Executed
  connect timeout target policy sound =
      let address = stack.join_host_port target.address (itoa target.port) in
      let conn = dial_allowed_context (stack.net timeout) dispatched_at address policy in
      record { outcome = close sound conn.result; tried = conn.tried; followed = [] }

  -- tcp.
  unfoldable pub tcp : ℤ → ProbeTarget → ProbeNetworkPolicy → Bool → Bool → String → Executed
  tcp timeout target policy tls_mode insecure ca_bundle =
      if tls_mode
      then elim (tls_config target.sni insecure ca_bundle) [
        | err e ↦ at_once (refused e.text)
        | ok config ↦ connect timeout target policy (λ conn. stack.handshake timeout conn config)
      ]
      else connect timeout target policy (λ conn. true)

  unfoldable pub set_headers : List ProbeHeader → List (String × String) → List (String × String)
  set_headers [] headers = headers
  set_headers (h ∷ rest) headers =
      set_headers rest (set_header (stack.canonical h.name) h.value headers)

  -- The headers of a request: the credential, then those of the specification.
  unfoldable pub request_headers : FailoverProbeSpec → String → List (String × String)
  request_headers spec credential =
      let name = or_text spec.credential_header "Authorization" in
      set_headers spec.headers
        (if str_eq credential "" then [] else set_header (stack.canonical name) credential [])

  -- The URL that httpProbe requests.
  unfoldable pub request_url : String → Endpoint → String
  request_url scheme at =
      scheme ++ "://" ++ stack.join_host_port at.host (itoa at.port) ++ or_text at.path "/"

  abbrev pub text_if_given : String → Option String
  text_if_given text = if str_eq text "" then none else some text

  unfoldable pub probe_request : FailoverProbeSpec → String → Endpoint → TlsConfig → HttpRequest
  probe_request spec credential at config = record {
    method = or_text spec.method "GET";
    url = request_url (scheme_of spec.type) at;
    host = text_if_given spec.target.host;
    headers = request_headers spec credential;
    tls = config;
    keep_alives = spec.follow_redirects;
  }

  -- The answer of httpProbe to what client.Do returns.
  unfoldable pub judge_trip : FailoverProbeSpec → Option HttpResponse → ProbeResult
  judge_trip spec none = refused "request failed"
  judge_trip spec (some response) = judge_response spec response

  unfoldable pub send_request : ℤ → FailoverProbeSpec → HttpRequest → Executed
  send_request timeout spec request =
      let trip =
        run_session (stack.net timeout) spec.network_policy spec.follow_redirects dispatched_at
          (stack.session timeout request) in
      record {
        outcome = returned (judge_trip spec trip.response);
        tried = trip.tried;
        followed = trip.followed;
      }

  -- httpProbe.
  unfoldable pub http_probe : ℤ → FailoverProbeSpec → String → String → Executed
  http_probe timeout spec credential ca_bundle =
      let scheme = scheme_of spec.type in
      elim (endpoint scheme spec.target ((stack.net timeout).parse_url spec.target.address)) [
        | none ↦ at_once (refused "invalid request")
        | some at ↦
            if stack.refuses_request (or_text spec.method "GET") (request_url scheme at)
            then at_once (refused "invalid request")
            else elim (tls_config spec.target.sni spec.insecure_skip_verify ca_bundle) [
              | err e ↦ at_once (refused e.text)
              | ok config ↦ send_request timeout spec (probe_request spec credential at config)
            ]
      ]

  -- The switch of execute.
  unfoldable pub dispatch : ℤ → FailoverProbeSpec → ProbeType → String → String → Executed
  dispatch timeout spec tcp_probe credential ca_bundle =
      tcp timeout spec.target spec.network_policy false spec.insecure_skip_verify ca_bundle
  dispatch timeout spec tls_probe credential ca_bundle =
      tcp timeout spec.target spec.network_policy true spec.insecure_skip_verify ca_bundle
  dispatch timeout spec ProbeType.http_probe credential ca_bundle =
      http_probe timeout spec credential ca_bundle
  dispatch timeout spec https_probe credential ca_bundle =
      http_probe timeout spec credential ca_bundle
  dispatch timeout spec other credential ca_bundle =
      at_once (refused ("probe type \"" ++ type_string other ++ "\" has no network executor"))

  -- execute.
  unfoldable pub execute : FailoverProbeSpec → String → String → Executed
  execute spec credential ca_bundle = elim (validate_probe_spec spec) [
    | some e ↦ at_once (refused (probe_error_text e))
    | none ↦
        let timeout = timeout_of spec in
        if is_kubernetes spec.type
        then dispatch timeout spec spec.type credential ca_bundle
        else elim (validate_target (stack.net timeout) validated_at spec.target
            spec.network_policy) [
              | err e ↦ at_once (refused "target blocked by network policy")
              | ok reached ↦ dispatch timeout spec spec.type credential ca_bundle
            ]
  ]
