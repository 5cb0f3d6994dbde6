-- ===== src/Probe/Executor/Asked.antt =====
-- The request that httpProbe of internal/probe/executor.go makes of a specification, a credential and a
-- bundle of certificates.
use Prim.Native.String.{◌++◌}
use foip_operator.Prelude.{
  ℤ, pos, eqb_ℤ, eqb_ℤ_iff, String, str_eq, str_eq_iff, false, not, ◌||◌, Bool-cases, Option, none,
  some, Option-cases, List, [], ◌∷◌, All, ◌≡◌, ◌≢◌, refl, sym, ap, ◌∙◌, ◌⊎◌, inl, inr, arith,
  if◌then◌else◌,
}
use foip_operator.Prelude.Text.{itoa}
use foip_operator.Api.Types.{FailoverProbeSpec, ProbeHeader, ProbeTarget}
use foip_operator.Controller.Env.{ok}
use foip_operator.Probe.Policy.{Url}
use foip_operator.Probe.Http.{
  HttpRequest, TlsConfig, Endpoint, endpoint, url_endpoint, url_port, set_header, or_text,
  scheme_of,
}
use foip_operator.Probe.Executor.{
  Stack, tls_config, set_headers, request_headers, request_url, probe_request,
}

-- The value of a header.
pub get_header : String → List (String × String) → Option String
get_header key [] = none
get_header key ((k, v) ∷ headers) = if str_eq k key then some v else get_header key headers

get_header-set_header :
    (key value : String) (headers : List (String × String))
    → get_header key (set_header key value headers) ≡ some value
unfolding get_header set_header
get_header-set_header key value [] = ground (arith, str_eq_iff key key)
get_header-set_header key value ((k, v) ∷ headers) =
    ground (arith, str_eq_iff key key, get_header-set_header key value headers)

get_header-set_other :
    (key other value : String) (headers : List (String × String))
    → other ≢ key
    → get_header key (set_header other value headers) ≡ get_header key headers
unfolding get_header set_header
get_header-set_other key other value [] h = ground (arith, h, str_eq_iff other key)
get_header-set_other key other value ((k, v) ∷ headers) h = ground (
  arith,
  h,
  str_eq_iff other key,
  str_eq_iff k other,
  str_eq_iff k key,
  get_header-set_other key other value headers h,
)

-- Where a target leads: its address and path, or the host and the path of the URL that its address
-- is, which has the scheme of the probe and names no user. A port of the target comes first.
pub record Leads (scheme : String) (target : ProbeTarget) (parsed : Option Url) (at : Endpoint)
    : Type 0 where
  pub place :
      ((at.host ≡ target.address) × (at.path ≡ target.path))
      ⊎ ((url : Url) × (parsed ≡ some url)
          × (url.scheme ≡ scheme)
          × (url.has_user ≡ false)
          × (at.host ≡ url.hostname)
          × (at.path ≡ or_text target.path url.escaped_path))
  pub port : target.port ≢ pos 0 → at.port ≡ target.port

url_port-given :
    (port read : ℤ) (text : String) → url_port port text ≡ some read → port ≢ pos 0 → read ≡ port
unfolding url_port
url_port-given port read text h given =
    let nonzero : eqb_ℤ port (pos 0) ≡ false = ground (arith, given, eqb_ℤ_iff port (pos 0)) in
    let kept : some port ≡ some read = rw (nonzero, url_port) at h in cc kept

url_endpoint-Leads :
    (scheme : String) (target : ProbeTarget) (url : Url) (at : Endpoint)
    → url_endpoint scheme target url ≡ some at
    → Leads scheme target (some url) at
unfolding url_endpoint
url_endpoint-Leads scheme target url at h =
    elim (Bool-cases (not (str_eq url.scheme scheme) || str_eq url.hostname "" || url.has_user)) [
      | inl wrong ↦ absurd (cc (rw (wrong, url_endpoint) at h))
      | inr fits ↦ elim (Option-cases (url_port target.port url.port)) [
        | inl failed ↦ absurd (cc (rw (fits, failed, url_endpoint) at h))
        | inr (port, read) ↦
            let made : record {
              host = url.hostname;
              port = port;
              path = or_text target.path url.escaped_path;
            }
                ≡ at =
              cc (rw (fits, read, url_endpoint) at h) in
            record {
              place = inr (
                url,
                refl,
                ground (arith, fits, str_eq_iff url.scheme scheme),
                ground (arith, fits),
                ap (λ x. x.host) (sym made),
                ap (λ x. x.path) (sym made),
              );
              port = λ given.
                  ap (λ x. x.port) (sym made) ∙ url_port-given target.port port url.port read given;
            }
      ]
    ]

plain-Leads :
    (scheme : String) (target : ProbeTarget) (parsed : Option Url) (at : Endpoint)
    → some (record { host = target.address; port = target.port; path = target.path }) ≡ some at
    → Leads scheme target parsed at
plain-Leads scheme target parsed at h =
    let made : record { host = target.address; port = target.port; path = target.path } ≡ at =
      cc h in
    record {
      place = inl (ap (λ x. x.host) (sym made), ap (λ x. x.path) (sym made));
      port = λ given. ap (λ x. x.port) (sym made);
    }

endpoint-Leads :
    (scheme : String) (target : ProbeTarget) (parsed : Option Url) (at : Endpoint)
    → endpoint scheme target parsed ≡ some at
    → Leads scheme target parsed at
unfolding endpoint
endpoint-Leads scheme target none at h = plain-Leads scheme target none at h
endpoint-Leads scheme target (some url) at h = elim (Bool-cases (not (str_eq url.scheme ""))) [
  | inl given ↦ url_endpoint-Leads scheme target url at (rw (given, endpoint) at h)
  | inr bare ↦ plain-Leads scheme target (some url) at (rw (bare, endpoint) at h)
]

module _ {Conn : Type 0} (stack : Stack Conn) where
  set_headers-others :
      (key : String) (given : List ProbeHeader) (headers : List (String × String))
      → All (λ h. stack.canonical h.name ≢ key) given
      → get_header key (set_headers stack given headers) ≡ get_header key headers
  unfolding set_headers
  set_headers-others key [] headers others = refl
  set_headers-others key (h ∷ given) headers (other, others) =
      set_headers-others key given (set_header (stack.canonical h.name) h.value headers) others
      ∙ get_header-set_other key (stack.canonical h.name) h.value headers other

  module _ (spec : FailoverProbeSpec) (credential bundle : String) where
    -- The key of the credential's header.
    abbrev pub credential_key : String
    credential_key = stack.canonical (or_text spec.credential_header "Authorization")

    -- The request of the probe: its method, its URL, which leads to the target, the Host that is to
    -- replace that of the URL, the credential, unless a header of the specification has its key, and
    -- the configuration of TLS.
    pub record Asks (timeout : ℤ) (request : HttpRequest) : Type 0 where
      pub at : Endpoint
      pub leads :
          Leads
            (scheme_of spec.type)
            spec.target
            ((stack.net timeout).parse_url spec.target.address)
            at
      pub method : request.method ≡ or_text spec.method "GET"
      pub url :
          request.url
          ≡ scheme_of spec.type
            ++ "://"
            ++ stack.join_host_port at.host (itoa at.port)
            ++ or_text at.path "/"
      pub host : request.host ≡ (if str_eq spec.target.host "" then none else some spec.target.host)
      pub authorized :
          credential ≢ ""
          → All (λ h. stack.canonical h.name ≢ credential_key) spec.headers
          → get_header credential_key request.headers ≡ some credential
      pub server_name : request.tls.server_name ≡ spec.target.sni
      pub insecure : request.tls.insecure ≡ spec.insecure_skip_verify
      pub roots : request.tls.roots ≡ (if str_eq bundle "" then none else some bundle)

    request_headers-authorized :
        credential ≢ ""
        → All (λ h. stack.canonical h.name ≢ credential_key) spec.headers
        → get_header credential_key (request_headers stack spec credential) ≡ some credential
    unfolding request_headers
    request_headers-authorized given others =
        let nonempty : str_eq credential "" ≡ false =
          ground (arith, given, str_eq_iff credential "") in
        set_headers-others credential_key spec.headers _ others
        ∙ rw nonempty (get_header-set_header credential_key credential [])

    -- What tlsConfig returns.
    tls_config-fields :
        (config : TlsConfig)
        → tls_config stack spec.target.sni spec.insecure_skip_verify bundle ≡ ok config
        → (config.server_name ≡ spec.target.sni)
          × (config.insecure ≡ spec.insecure_skip_verify)
          × (config.roots ≡ (if str_eq bundle "" then none else some bundle))
    unfolding tls_config
    tls_config-fields config h = elim (Bool-cases (str_eq bundle "")) [
      | inl empty ↦
          let made : record {
            server_name = spec.target.sni;
            insecure = spec.insecure_skip_verify;
            roots = none;
          }
              ≡ config =
            cc (rw (empty, tls_config) at h) in
          (
            ap (λ x. x.server_name) (sym made),
            ap (λ x. x.insecure) (sym made),
            rw empty (ap (λ x. x.roots) (sym made)),
          )
      | inr given ↦ elim (Bool-cases (not (stack.has_certificates bundle))) [
        | inl bad ↦ absurd (cc (rw (given, bad, tls_config) at h))
        | inr good ↦
            let made : record {
              server_name = spec.target.sni;
              insecure = spec.insecure_skip_verify;
              roots = some bundle;
            }
                ≡ config =
              cc (rw (given, good, tls_config) at h) in
            (
              ap (λ x. x.server_name) (sym made),
              ap (λ x. x.insecure) (sym made),
              rw given (ap (λ x. x.roots) (sym made)),
            )
      ]
    ]

    pub probe_request-Asks :
        (timeout : ℤ) (at : Endpoint) (config : TlsConfig)
        → endpoint
            (scheme_of spec.type)
            spec.target
            ((stack.net timeout).parse_url spec.target.address)
          ≡ some at
        → tls_config stack spec.target.sni spec.insecure_skip_verify bundle ≡ ok config
        → Asks timeout (probe_request stack spec credential at config)
    unfolding probe_request request_url
    probe_request-Asks timeout at config parsed configured =
        let (server_name, insecure, roots) = tls_config-fields config configured in
        record {
          at = at;
          leads = endpoint-Leads (scheme_of spec.type) spec.target _ at parsed;
          method = refl;
          url = refl;
          host = refl;
          authorized = request_headers-authorized;
          server_name = server_name;
          insecure = insecure;
          roots = roots;
        }
