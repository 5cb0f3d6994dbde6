-- ===== src/NetcupAuth.antt =====
-- cmd/netcup-auth/main.go: the OAuth2 device flow that gets a refresh token for the operator. HTTP, JSON
-- and the clock are parameters: a world answers each call from all calls made before it.
pub mod Polling
pub mod Deadline
use Prim.Native.String.{◌++◌}
use foip_operator.Prelude.{
  ℕ, zero, suc, ◌/◌, ◌==◌, ℤ, pos, ltb_ℤ, String, str_eq, Bool, true, false, not, Option, none,
  some, List, [], ◌∷◌, if◌then◌else◌,
}
use foip_operator.Prelude.Text.{itoa}
use foip_operator.Netcup.Errors.{seconds}
use foip_operator.Netcup.{Parsed, malformed, parsed, add_duration}

abbrev pub Fields : Type 0
Fields = List (String × String)

-- The calls of the program: time.Now, time.Sleep, http.PostForm and the GET of the user info.
pub data Call : Type 0 where
  look : Call
  sleep : ℤ → Call
  post : String → Fields → Call
  fetch : String → String → Call

-- The newest call first.
abbrev pub Trace : Type 0
Trace = List Call

-- An error of the client, or a status with what was read of the body.
pub data Answer : Type 0 where
  failed : String → Answer
  answered : ℕ → String → Answer

pub record DeviceResponse : Type 0 where
  pub device_code : String
  pub user_code : String
  pub verification_uri_complete : String
  pub expires_in : ℤ
  pub interval : ℤ

pub record TokenResponse : Type 0 where
  pub access_token : String
  pub refresh_token : String

pub record World : Type 0 where
  pub clock : Trace → ℕ
  pub post_form : Trace → String → Fields → Answer
  -- the answer to a GET with an Authorization header
  pub get : Trace → String → String → Answer
  pub device_of : String → Parsed DeviceResponse
  pub token_of : String → Parsed TokenResponse
  -- the member error, empty where there is none
  pub error_of : String → String
  -- the members of an object as raw JSON
  pub members_of : String → Parsed Fields
  pub text_of : String → Parsed String
  -- the verb %q
  pub quote : String → String

pub data Result {ℓ} (A : Type ℓ) : Type ℓ where
  value : A → Result A
  error : String → Result A

abbrev pub Act : Type 0 → Type 0
Act A = Trace → A × Trace

infixl 5 ◌>>=◌
abbrev pub ◌>>=◌ : {A B : Type 0} → Act A → (A → Act B) → Act B
◌>>=◌ m f t = let (a, later) = m t in f a later

abbrev pub pure : {A : Type 0} → A → Act A
pure a t = (a, t)

-- `if err != nil { fatal(format, err) }`, with the text before the error.
abbrev pub or_fatal : {A B : Type 0} → String → Result A → (A → Act (Result B)) → Act (Result B)
or_fatal text (error e) f = pure (error (text ++ e))
or_fatal text (value a) f = f a

abbrev pub device_auth_url : String
device_auth_url = "https://www.servercontrolpanel.de/realms/scp/protocol/openid-connect/auth/device"

abbrev pub token_url : String
token_url = "https://www.servercontrolpanel.de/realms/scp/protocol/openid-connect/token"

abbrev pub user_info_url : String
user_info_url = "https://www.servercontrolpanel.de/realms/scp/protocol/openid-connect/userinfo"

-- What pollOnce returns: a token, errAuthPending, or another error.
pub data Poll : Type 0 where
  granted : TokenResponse → Poll
  pending : Poll
  refused : String → Poll

-- The first member of a name in a decoded object.
unfoldable pub member : String → Fields → Option String
member name [] = none
member name ((key, raw) ∷ rest) = if str_eq key name then some raw else member name rest

-- What json.Unmarshal gives, with the text before its error.
abbrev pub read : {A : Type 0} → String → Parsed A → Result A
read text (malformed e) = error (text ++ e)
read text (parsed a) = value a

abbrev pub poll_fields : String → Fields
poll_fields device_code =
    ("grant_type", "urn:ietf:params:oauth:grant-type:device_code")
    ∷ ("device_code", device_code)
    ∷ ("client_id", "scp")
    ∷ []

abbrev pub unless_settled :
    Poll → Act (Option (Result TokenResponse)) → Act (Option (Result TokenResponse))
unless_settled (granted token) rest = pure (some (value token))
unless_settled (refused e) rest = pure (some (error e))
unless_settled pending rest = rest

module _ (world : World) where
  abbrev pub now : Act ℕ
  now t = (world.clock t, look ∷ t)

  abbrev pub pause : ℤ → Act (Unit {0})
  pause interval t = (tt, sleep interval ∷ t)

  abbrev pub post_form : String → Fields → Act Answer
  post_form url fields t = (world.post_form t url fields, post url fields ∷ t)

  abbrev pub get : String → String → Act Answer
  get url authorization t = (world.get t url authorization, fetch url authorization ∷ t)

  unfoldable pub read_device : Answer → Result DeviceResponse
  read_device (failed e) = error e
  read_device (answered status body) =
      if not (status / 100 == 2)
      then error ("HTTP " ++ itoa (pos status) ++ ": " ++ body)
      else read "parsing device response: " (world.device_of body)

  -- startDeviceFlow.
  unfoldable pub start_device_flow : Act (Result DeviceResponse)
  start_device_flow = do
    answer ←
        post_form device_auth_url (("client_id", "scp") ∷ ("scope", "offline_access openid") ∷ [])
    pure (read_device answer)

  -- The switch of pollOnce over the error of a response.
  unfoldable pub poll_error : String → String → Poll
  poll_error code body =
      if str_eq code "authorization_pending"
      then pending
      else if str_eq code "slow_down"
      then pending
      else if str_eq code "access_denied"
      then refused "access denied by user"
      else if str_eq code "expired_token"
      then refused "device code expired — please run again"
      else refused ("token error " ++ world.quote code ++ ": " ++ body)

  unfoldable pub read_grant : Parsed TokenResponse → Poll
  read_grant (malformed e) = refused ("parsing token: " ++ e)
  read_grant (parsed token) = granted token

  unfoldable pub read_poll : Answer → Poll
  read_poll (failed e) = refused e
  read_poll (answered status body) =
      if status / 100 == 2
      then read_grant (world.token_of body)
      else poll_error (world.error_of body) body

  -- pollOnce.
  unfoldable pub poll_once : String → Act Poll
  poll_once device_code = do
    answer ← post_form token_url (poll_fields device_code)
    pure (read_poll answer)

  -- A round of the loop behind the test of the deadline.
  unfoldable pub poll_round : String → ℤ → Act Poll
  poll_round device_code interval = do slept ← pause interval; poll_once device_code

  -- The loop of pollForToken; `none` when the rounds are used up.
  unfoldable pub poll_until : ℕ → String → ℤ → ℤ → Act (Option (Result TokenResponse))
  poll_until zero device_code interval deadline = pure none
  poll_until (suc rounds) device_code interval deadline =
      let rest = poll_until rounds device_code interval deadline in
      do
        at ← now
        if ltb_ℤ (pos at) deadline
            then (do poll ← poll_round device_code interval; unless_settled poll rest)
            else pure (some (error "timed out waiting for authorization"))

  -- pollForToken, with at most `rounds` tests of the deadline.
  unfoldable pub poll_for_token : ℕ → String → ℤ → ℤ → Act (Option (Result TokenResponse))
  poll_for_token rounds device_code interval_sec expires_sec = do
    start ← now
    poll_until rounds device_code (seconds interval_sec) (add_duration start (seconds expires_sec))

  -- The raw user ID: the member id, or sub where there is none.
  unfoldable pub user_member : Fields → Result String
  user_member info = elim (member "id" info) [
    | some raw ↦ value raw
    | none ↦ elim (member "sub" info) [
      | some raw ↦ value raw
      | none ↦ error "userinfo response has no \"id\" or \"sub\" field"
    ]
  ]

  unfoldable pub user_id_of : Parsed Fields → Result String
  user_id_of (malformed e) = error ("parsing userinfo: " ++ e)
  user_id_of (parsed info) = elim (user_member info) [
    | error e ↦ error e
    | value raw ↦ read "parsing user ID: " (world.text_of raw)
  ]

  unfoldable pub read_user : Answer → Result String
  read_user (failed e) = error e
  read_user (answered status body) =
      if not (status / 100 == 2)
      then error ("userinfo HTTP " ++ itoa (pos status) ++ ": " ++ body)
      else user_id_of (world.members_of body)

  -- fetchUserID.
  unfoldable pub fetch_user_id : String → Act (Result String)
  fetch_user_id access_token = do
    answer ← get user_info_url ("Bearer " ++ access_token)
    pure (read_user answer)

  abbrev pub fetch_for : Option (Result TokenResponse) → Act (Option (Result (String × String)))
  fetch_for none = pure none
  fetch_for (some (error e)) = pure (some (error ("polling for token: " ++ e)))
  fetch_for (some (value token)) = do
    user ← fetch_user_id token.access_token
    result ← or_fatal "fetching user ID: " user (λ id. pure (value (id, token.refresh_token)))
    pure (some result)

  abbrev pub authorize : ℕ → Result DeviceResponse → Act (Option (Result (String × String)))
  authorize rounds (error e) = pure (some (error ("starting device flow: " ++ e)))
  authorize rounds (value device) = do
    token ← poll_for_token rounds device.device_code device.interval device.expires_in
    fetch_for token

  -- main, up to what it prints: the user ID and the refresh token, or the error that it exits with.
  unfoldable pub run : ℕ → Act (Option (Result (String × String)))
  run rounds = do device ← start_device_flow; authorize rounds device

-- The command that main prints, line by line.
unfoldable pub kubectl_command : String → String → String × String → List String
kubectl_command namespace secret_name (user_id, refresh_token) =
    let literals =
      ("    --from-literal=userId=" ++ user_id ++ " \\")
      ∷ ("    --from-literal=refreshToken='" ++ refresh_token ++ "'")
      ∷ [] in
    ("  kubectl create secret generic " ++ secret_name ++ " \\")
    ∷ (if not (str_eq namespace "")
        then ("    --namespace=" ++ namespace ++ " \\") ∷ literals
        else literals)
