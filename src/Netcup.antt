-- ===== src/Netcup.antt =====
-- internal/netcup/client.go: the client of the provider's REST interface. HTTP, JSON, the encoding of
-- forms and queries, and the clock are parameters; a web answers each call from all calls made
-- before it.
pub mod Errors
pub mod Tasks
pub mod Polling
pub mod Sending
pub mod Growing
pub mod Confirmed
pub mod Retry
pub mod Finding
use Prim.Native.String.{◌++◌}
use foip_operator.Prelude.{
  ℕ, zero, suc, ◌+◌, ◌*◌, ◌/◌, ◌==◌, ℤ, pos, negsuc, sub_ℕ, ltb_ℤ, String, str_eq, Bool, not, ◌||◌,
  Option, none, some, List, [], ◌∷◌, ◌≡◌, refl, ◌⊎◌, inl, inr, if◌then◌else◌,
}
use foip_operator.Prelude.Text.{itoa}
use foip_operator.Netcup.Errors.{
  Failure, provider, other, ProviderError, classify_http_error, parse_retry_after, trim_right,
  sub_int, seconds,
}

pub data Method : Type 0 where
  get post patch : Method

pub record Request : Type 0 where
  pub method : Method
  pub url : String
  pub headers : List (String × String)
  pub body : Option String

-- The status, the header Retry-After and the body.
pub record Response : Type 0 where
  pub status : ℕ
  pub retry_after : String
  pub body : String

-- What http.Client.Do and io.ReadAll give: an error of the one or of the other, or a response.
pub data Answer : Type 0 where
  unanswered : String → Answer
  unread : String → Answer
  answered : Response → Answer

pub data Call : Type 0 where
  read_clock pause : Call
  send : Request → Call

-- The calls made so far, the newest first.
abbrev pub Trace : Type 0
Trace = List Call

-- What json.Unmarshal gives.
pub data Parsed (A : Type 0) : Type 0 where
  malformed : String → Parsed A
  parsed : A → Parsed A

pub Parsed-cases :
    {A : Type 0} (p : Parsed A) → ((e : String) × (p ≡ malformed e)) ⊎ ((a : A) × (p ≡ parsed a))
Parsed-cases (malformed e) = inl (e, refl)
Parsed-cases (parsed a) = inr (a, refl)

pub record Web : Type 0 where
  pub clock : Trace → ℕ
  -- the error of the context, if it is done before the pause is over
  pub pause : Trace → Option String
  -- the error of http.NewRequestWithContext
  pub refuse : Request → Option String
  pub answer : Trace → Request → Answer
  -- url.Values.Encode and url.QueryEscape
  pub encode : List (String × String) → String
  pub query_escape : String → String
  -- http.ParseTime
  pub parse_time : String → Option ℕ
  -- access_token and expires_in
  pub token_of : String → Parsed (String × ℤ)
  -- the id of each address, and the id of its server, if any
  pub addresses_of : String → Parsed (List (ℤ × Option ℤ))
  pub task_of : String → Parsed String
  -- state and message
  pub state_of : String → Parsed (String × String)

pub record Client : Type 0 where
  pub user_id : ℤ
  pub refresh_token : String
  pub scp_base : String
  pub token_url : String

-- New, with the production endpoints.
abbrev pub new_client : ℤ → String → Client
new_client user_id refresh_token = record {
  user_id = user_id;
  refresh_token = refresh_token;
  scp_base = "https://www.servercontrolpanel.de/scp-core";
  token_url = "https://www.servercontrolpanel.de/realms/scp/protocol/openid-connect/token";
}

-- strings.TrimRight(s, "/").
abbrev trim_slashes : String → String
trim_slashes s = trim_right (λ c. c == b'/') s

-- NewFromEnvironment, with the values of NETCUP_API_BASE_URL and NETCUP_TOKEN_URL.
unfoldable pub new_from_environment : String → String → ℤ → String → Client
new_from_environment api_base token_endpoint user_id refresh_token =
    let production = new_client user_id refresh_token in
    let base = trim_slashes api_base in
    let endpoint = trim_slashes token_endpoint in
    if str_eq base "" then production else record production {
      scp_base = base;
      token_url = if str_eq endpoint "" then base ++ "/token" else endpoint;
    }

-- The fields that the client changes, and the calls made; the mutex makes a refresh one step.
pub record Memory : Type 0 where
  pub access_token : String
  pub token_expiry : ℤ
  pub trace : Trace

pub data Reply {ℓ} (A : Type ℓ) : Type ℓ where
  value : A → Reply A
  error : Failure → Reply A

pub Reply-cases {ℓ} :
    {A : Type ℓ} (r : Reply A) → ((e : Failure) × (r ≡ error e)) ⊎ ((a : A) × (r ≡ value a))
Reply-cases (error e) = inl (e, refl)
Reply-cases (value a) = inr (a, refl)

abbrev pub Act : Type 0 → Type 0
Act A = Memory → A × Memory

infixl 5 ◌>>=◌
abbrev pub ◌>>=◌ : {A B : Type 0} → Act A → (A → Act B) → Act B
◌>>=◌ m f s = let (a, later) = m s in f a later

abbrev pub pure : {A : Type 0} → A → Act A
pure a s = (a, s)

-- `if err != nil { return err }`.
abbrev pub or_fail : {A B : Type 0} → Reply A → (A → Act (Reply B)) → Act (Reply B)
or_fail (error e) f = pure (error e)
or_fail (value a) f = f a

abbrev pub method_text : Method → String
method_text get = "GET"
method_text post = "POST"
method_text patch = "PATCH"

-- now.Add(d), for a duration of any sign.
abbrev pub add_duration : ℕ → ℤ → ℤ
add_duration now (pos d) = pos (now + d)
add_duration now (negsuc d) = sub_ℕ now (d + 1)

abbrev pub called : Call → Memory → Memory
called call m = record m { trace = call ∷ m.trace }

module _ (web : Web) (client : Client) where
  abbrev pub now : Act ℕ
  now m = (web.clock m.trace, record m { trace = read_clock ∷ m.trace })

  -- A request with the texts before the errors of Do and ReadAll.
  unfoldable pub exchange : String → String → Request → Act (Reply Response)
  exchange undone unfinished request m = elim (web.refuse request) [
    | some e ↦ (error (other e), m)
    | none ↦ elim (web.answer m.trace request) [
      | unanswered e ↦ (error (other (undone ++ e)), called (send request) m)
      | unread e ↦ (error (other (unfinished ++ e)), called (send request) m)
      | answered response ↦ (value response, called (send request) m)
    ]
  ]

  -- The error of a response with another status, with its Retry-After.
  unfoldable pub rejected : {A : Type 0} → Response → ProviderError → Act (Reply A)
  rejected response e = do
    at ← now
    pure (
        error (
          provider
            (record e { retry_after = parse_retry_after web.parse_time response.retry_after at })))

  abbrev pub token_request : Request
  token_request = record {
    method = post;
    url = client.token_url;
    headers = ("Content-Type", "application/x-www-form-urlencoded") ∷ [];
    body = some (
        web.encode (
          ("grant_type", "refresh_token")
          ∷ ("refresh_token", client.refresh_token)
          ∷ ("client_id", "scp")
          ∷ []));
  }

  -- The token of a response, which expires half a minute early.
  unfoldable pub keep_token : Parsed (String × ℤ) → Act (Reply String)
  keep_token (malformed e) m = (error (other ("parsing token response: " ++ e)), m)
  keep_token (parsed found) m =
      let expiry = add_duration (web.clock m.trace) (seconds (sub_int found.1 30)) in
      (
        value found.0,
        record { access_token = found.0; token_expiry = expiry; trace = read_clock ∷ m.trace },
      )

  unfoldable pub read_token : Response → Act (Reply String)
  read_token response =
      if not (response.status / 100 == 2)
      then rejected response (record (classify_http_error response.status) {
        message = "SCP token refresh failed with HTTP " ++ itoa (pos response.status);
      })
      else keep_token (web.token_of response.body)

  unfoldable pub refresh : Act (Reply String)
  refresh = do
    reply ← exchange "refreshing SCP token: " "reading token response: " token_request
    or_fail reply read_token

  -- token.
  unfoldable pub token : Act (Reply String)
  token m =
      if ltb_ℤ (pos (web.clock m.trace)) m.token_expiry
      then (value m.access_token, called read_clock m)
      else refresh (called read_clock m)

  abbrev pub content_type : Option String → List (String × String)
  content_type none = []
  content_type (some body) = ("Content-Type", "application/json") ∷ []

  abbrev pub request_for : Method → String → Option String → String → Request
  request_for method path body access = record {
    method = method;
    url = client.scp_base ++ path;
    headers =
        ("Authorization", "Bearer " ++ access) ∷ ("Accept", "application/json") ∷ content_type body;
    body = body;
  }

  -- do.
  unfoldable pub perform : Method → String → Option String → Act (Reply Response)
  perform method path body = do
    reply ← token
    or_fail reply λ access.
        exchange ("SCP " ++ method_text method ++ " " ++ path ++ ": ") "reading SCP response: "
          (request_for method path body access)
