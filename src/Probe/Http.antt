-- ===== src/Probe/Http.antt =====
-- The parts of httpProbe of internal/probe/executor.go that need no network: the endpoint, the headers
-- and the judgement of a response. A body is a text whose length is that of its UTF-8 encoding.
use Prim.Native.Char.{code}
use foip_operator.Prelude.{
  ℕ, ◌+◌, ltb, ℤ, pos, eqb_ℤ, ltb_ℤ, String, str_eq, Bool, not, ◌&&◌, ◌||◌, Option, none, some,
  List, [], ◌∷◌, if◌then◌else◌,
}
use foip_operator.Prelude.Int.{wrap32}
use foip_operator.Prelude.Text.{atoi}
use foip_operator.Api.Types.{ProbeTarget, FailoverProbeSpec, ProbeType, https_probe}
use foip_operator.Probe.{ProbeResult, passed, refused}
use foip_operator.Probe.Phase.{contains_text}
use foip_operator.Probe.Policy.{Url}
use foip_operator.Probe.Session.{HttpResponse}

-- A tls.Config; its least version is TLS 1.2.
pub record TlsConfig : Type 0 where
  pub server_name : String
  pub insecure : Bool
  -- the certificates added to the pool
  pub roots : Option String

pub record HttpRequest : Type 0 where
  pub method : String
  pub url : String
  -- the Host that replaces the one of the URL
  pub host : Option String
  pub headers : List (String × String)
  pub tls : TlsConfig
  pub keep_alives : Bool

-- The bytes of a code point in UTF-8.
abbrev pub utf8_size : ℕ → ℕ
utf8_size c = if ltb c 0x80 then 1 else if ltb c 0x800 then 2 else if ltb c 0x10000 then 3 else 4

-- len of a body.
unfoldable pub byte_length : String → ℕ
byte_length String.[] = 0
byte_length (String.◌∷◌ c s) = utf8_size (code c) + byte_length s

-- maxResponseBody.
abbrev pub max_response_body : ℕ
max_response_body = 1048576

abbrev pub or_default : ℤ → ℤ → ℤ
or_default value fallback = if eqb_ℤ value (pos 0) then fallback else value

-- The checks of httpProbe on a response.
unfoldable pub judge_response : FailoverProbeSpec → HttpResponse → ProbeResult
judge_response spec response =
    if ltb max_response_body (byte_length response.body)
    then refused "response body exceeded limit"
    else if ltb_ℤ (wrap32 response.status) (or_default spec.expected_status_min (pos 200))
        || ltb_ℤ (or_default spec.expected_status_max (pos 299)) (wrap32 response.status)
    then refused "unexpected HTTP status"
    else if not (str_eq spec.body_match "") && not (contains_text spec.body_match response.body)
    then refused "response body did not match"
    else passed

-- What a URL in the target's address sets: the port, the host and the path.
pub record Endpoint : Type 0 where
  pub host : String
  pub port : ℤ
  pub path : String

abbrev pub or_text : String → String → String
or_text value fallback = if str_eq value "" then fallback else value

-- http.Header.Set, over keys in canonical form.
unfoldable pub set_header : String → String → List (String × String) → List (String × String)
set_header key value [] = (key, value) ∷ []
set_header key value ((k, v) ∷ headers) =
    if str_eq k key then (key, value) ∷ headers else (k, v) ∷ set_header key value headers

unfoldable pub url_port : ℤ → String → Option ℤ
url_port port text =
    if eqb_ℤ port (pos 0) && not (str_eq text "")
    then elim (atoi text) [ none ↦ none | some parsed ↦ some (wrap32 parsed) ]
    else some port

unfoldable pub url_endpoint : String → ProbeTarget → Url → Option Endpoint
url_endpoint scheme target url =
    if not (str_eq url.scheme scheme) || str_eq url.hostname "" || url.has_user
    then none
    else elim (url_port target.port url.port) [
      | none ↦ none
      | some port ↦
          some (record {
            host = url.hostname;
            port = port;
            path = or_text target.path url.escaped_path;
          })
    ]

abbrev pub plain_endpoint : ProbeTarget → Endpoint
plain_endpoint target = record { host = target.address; port = target.port; path = target.path }

unfoldable pub endpoint : String → ProbeTarget → Option Url → Option Endpoint
endpoint scheme target none = some (plain_endpoint target)
endpoint scheme target (some url) =
    if not (str_eq url.scheme "")
    then url_endpoint scheme target url
    else some (plain_endpoint target)

abbrev pub scheme_of : ProbeType → String
scheme_of https_probe = "https"
scheme_of _ = "http"
