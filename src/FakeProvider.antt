-- ===== src/FakeProvider.antt =====
-- cmd/fake-provider/main.go: the provider that the end-to-end tests run the operator against. Each
-- handler is a function of the time, the provider's state and the request; the mutex makes its
-- change of the state one step. What encoding/json writes is a document that a network encodes.
pub mod Hosting
pub mod Effects
pub mod Listing
pub mod Routing
pub mod Register
pub mod Serving
pub mod Answers
pub mod Retries
use Prim.Native.Char.{code}
use Prim.Native.String.{◌++◌}
use foip_operator.Prelude.{
  ℕ, ◌+◌, ◌==◌, ltb_ℤ, eqb_ℤ, ℤ, pos, negsuc, sub_ℕ, String, str_eq, Bool, true, false, not, ◌&&◌,
  Option, none, some, List, [], ◌∷◌, if◌then◌else◌,
}
use foip_operator.Prelude.Text.{itoa, atoi}
use foip_operator.Prelude.Text.Prefix.{has_prefix, trim_prefix}
use foip_operator.Netcup.Errors.{wrap64, seconds, sub_int}
use foip_operator.Netcup.{Method, get, post, patch, add_duration}

-- n++ on an int.
unfoldable pub inc_int : ℤ → ℤ
inc_int (pos n) = wrap64 (pos (n + 1))
inc_int (negsuc n) = sub_ℕ 0 n

-- The tasks hold the time at which each is done, the newest entry of a name first.
pub record Provider : Type 0 where
  pub owner : ℤ
  pub next_task : ℤ
  pub route_count : ℤ
  pub tasks : List (String × ℤ)
  pub route_delay : ℤ
  pub route_errors : ℤ

-- The values that the handlers encode as JSON.
pub data Document : Type 0 where
  -- access_token and expires_in
  grant : String → ℤ → Document
  -- owner and routeCount
  counters : ℤ → ℤ → Document
  -- the id of each address, and the id of its server, if any
  addresses : List (ℤ × Option ℤ) → Document
  -- uuid
  task_started : String → Document
  -- state
  task_state : String → Document

-- A response: its status, its header Retry-After, and what is encoded in its body.
pub record Served : Type 0 where
  pub status : ℕ
  pub retry_after : String
  pub document : Option Document

-- w.WriteHeader.
abbrev pub write_header : ℕ → Served
write_header status = record { status = status; retry_after = ""; document = none }

unfoldable pub write_json : ℕ → Document → Served
write_json status value = record { status = status; retry_after = ""; document = some value }

-- envInt, with the value of the variable.
unfoldable pub env_int : String → ℤ → ℤ
env_int text fallback = elim (atoi text) [ none ↦ fallback | some value ↦ value ]

-- envString.
unfoldable pub env_string : String → String → String
env_string value fallback = if not (str_eq value "") then value else fallback

-- The provider that main starts, and the address that it listens on, in an environment.
unfoldable pub start : (String → String) → Provider × String
start getenv = (
  record {
    owner = env_int (getenv "FAKE_PROVIDER_INITIAL_OWNER") (pos 0);
    next_task = pos 0;
    route_count = pos 0;
    tasks = [];
    route_delay = seconds (env_int (getenv "FAKE_PROVIDER_ROUTE_DELAY_SECONDS") (pos 0));
    route_errors = env_int (getenv "FAKE_PROVIDER_ROUTE_ERRORS") (pos 0);
  },
  ":" ++ env_string (getenv "PORT") "8080",
)

-- The handler token.
unfoldable pub token_reply : Served
token_reply = write_json 200 (grant "fake-token" (pos 3600))

-- The handler state.
unfoldable pub state_reply : Provider → Served
state_reply p = write_json 200 (counters p.owner p.route_count)

unfoldable pub server_of_owner : ℤ → Option ℤ
server_of_owner owner = if eqb_ℤ owner (pos 0) then none else some owner

-- The part of api that answers GET.
unfoldable pub list_addresses : Provider → Served
list_addresses p = write_json 200 (addresses ((pos 17, server_of_owner p.owner) ∷ []))

abbrev pub task_name : ℤ → String
task_name n = "task-" ++ itoa n

-- A route that the provider accepts.
unfoldable pub accept_route : ℕ → ℤ → Provider → Provider × Served
accept_route now server p =
    let next = inc_int p.next_task in
    (
      record p {
        owner = server;
        next_task = next;
        route_count = inc_int p.route_count;
        tasks = (task_name next, add_duration now p.route_delay) ∷ p.tasks;
      },
      write_json 202 (task_started (task_name next)),
    )

-- The part of api behind the decoding of the body.
unfoldable pub route : ℕ → Option ℤ → Provider → Provider × Served
route now none p = (p, write_header 400)
route now (some server) p =
    if eqb_ℤ server (pos 0)
    then (p, write_header 400)
    else if ltb_ℤ (pos 0) p.route_errors
    then (
      record p { route_errors = sub_int p.route_errors 1 },
      record { status = 503; retry_after = "1"; document = none },
    )
    else accept_route now server p

-- The handler api, with the server of the decoded body.
unfoldable pub api : ℕ → Method → Option ℤ → Provider → Provider × Served
api now get server p = (p, list_addresses p)
api now patch server p = route now server p
api now post server p = (p, write_header 405)

unfoldable pub done_at : String → List (String × ℤ) → Option ℤ
done_at id [] = none
done_at id ((name, time) ∷ tasks) = if str_eq name id then some time else done_at id tasks

unfoldable pub task_answer : ℕ → Option ℤ → Served
task_answer now none = write_header 404
task_answer now (some time) =
    write_json 200 (task_state (if ltb_ℤ (pos now) time then "RUNNING" else "FINISHED"))

-- The handler task, with the path of the request.
unfoldable pub task : ℕ → String → Provider → Served
task now path p = task_answer now (done_at (trim_prefix "/api/v1/tasks/" path) p.tasks)

-- The mux: a pattern that ends in a slash takes the paths below it, any other its own path. No two
-- of the patterns fit one path.
unfoldable pub handle : ℕ → Method → String → Option ℤ → Provider → Provider × Served
handle now method path server p =
    if has_prefix "/api/v1/users/" path
    then api now method server p
    else if has_prefix "/api/v1/tasks/" path
    then (p, task now path p)
    else if str_eq path "/token"
    then (p, token_reply)
    else if str_eq path "/state"
    then (p, state_reply p)
    else (p, write_header 404)
