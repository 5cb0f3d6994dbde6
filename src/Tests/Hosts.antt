-- ===== src/Tests/Hosts.antt =====
-- The client over the fake provider, with codecs that read what they write.
use Prim.Native.String.{◌++◌}
use text.Mathlib.TextLemmas.{append_assoc, cons-append}
use foip_operator.Prelude.{
  ℤ, pos, String, str_eq, false, some, none, Option, List, [], ◌∷◌, ◌≡◌, ◌≢◌, refl, sym, ap, ◌∙◌,
  if◌then◌else◌,
}
use foip_operator.Prelude.Int.{sub_ℕ}
use foip_operator.Prelude.Text.{atoi, itoa}
use foip_operator.Prelude.Text.Decimal.{IsInt64, atoi-itoa}
use foip_operator.Prelude.Text.Prefix.{
  has_prefix, cut_prefix, trim_prefix, has_prefix-append, has_prefix-append_ne, trim_prefix-append,
}
use foip_operator.Netcup.{
  Web, Client, Memory, Reply, Act, parsed, exchange, token, refresh, read_token, keep_token,
  perform, unanswered, value,
}
use foip_operator.Netcup.Tasks.{
  find_path, route_path, route_body, route_failover_ip, start_route, find_failover_ip,
  first_address, wait_for_task, round, poll_reply, task_state as poll_state,
}
use foip_operator.Netcup.Errors.{seconds, sub_int, wrap64}
use foip_operator.FakeProvider
use foip_operator.FakeProvider.{
  handle, api, accept_route, task, task_answer, done_at, inc_int, list_addresses, server_of_owner,
  token_reply, write_json, Provider, Document, grant, counters, addresses, task_started, task_state,
  task_name, start, env_int,
}
use foip_operator.FakeProvider.Hosting.{Network, delivered, Speaks, provider_after}
use foip_operator.FakeProvider.Effects.{web, behind}
use foip_operator.FakeProvider.Serving.{Reliable}
use foip_operator.FakeProvider.Retries.{attempt, Failing, attempt-Failing}
use foip_operator.FakeProvider.Register.{
  Operation, find, route, found, routed, Registers, run, run_operation, run-Registers,
}

-- A text without its last character.
drop_last : String → String
drop_last String.[] = ""
drop_last (String.◌∷◌ c String.[]) = ""
drop_last (String.◌∷◌ c (String.◌∷◌ d s)) = String.◌∷◌ c (drop_last (String.◌∷◌ d s))

drop_last-append : (s : String) → drop_last (s ++ "}") ≡ s
unfolding drop_last
drop_last-append String.[] = refl
drop_last-append (String.◌∷◌ c String.[]) = rw cons-append refl
drop_last-append (String.◌∷◌ c (String.◌∷◌ d s)) =
    rw (cons-append, cons-append)
      (ap (String.◌∷◌ c)
        (ap drop_last (sym (cons-append d s "}")) ∙ drop_last-append (String.◌∷◌ d s)))

abbrev client : Client
client = record {
  user_id = pos 42;
  refresh_token = "token";
  scp_base = "http://fake";
  token_url = "http://fake/token";
}

abbrev path_of : String → String
path_of url =
    let path = trim_prefix "http://fake" url in
    if has_prefix "/api/v1/users/42/failoverips/v4?" path
    then "/api/v1/users/42/failoverips/v4"
    else path

abbrev write : Document → String
write (grant access expires) = "granted"
write (counters owner routes) = "counted"
write (addresses ((id, some server) ∷ rest)) = "a" ++ itoa server
write (addresses _) = "none"
write (task_started id) = "t" ++ id
write (task_state state) = "s" ++ state

abbrev network : Network
network = record {
  delivery = λ t r. delivered;
  server_clock = λ t. 5;
  path_of = path_of;
  server_of = λ body. elim body [
    | none ↦ none
    | some text ↦ atoi (drop_last (trim_prefix "{\"serverId\":" text))
  ];
  write = write;
}

server_in : Option ℤ → List (ℤ × Option ℤ)
server_in server = (pos 17, server) ∷ []

abbrev base : Web
base = record {
  clock = λ t. 1000;
  pause = λ t. none;
  refuse = λ request. none;
  answer = λ t request. unanswered "no route to host";
  encode = λ fields. "grant_type=refresh_token";
  query_escape = λ text. text;
  parse_time = λ text. none;
  token_of = λ body. parsed ("fake-token", pos 3600);
  addresses_of = λ body.
      parsed (server_in (if has_prefix "a" body then atoi (trim_prefix "a" body) else none));
  task_of = λ body. parsed (trim_prefix "t" body);
  state_of = λ body. parsed (trim_prefix "s" body, "");
}

path_of-plain :
    (q s : String)
    → has_prefix "/api/v1/users/42/failoverips/v4?" q ≡ false
    → has_prefix q "/api/v1/users/42/failoverips/v4?" ≡ false
    → path_of ("http://fake" ++ (q ++ s)) ≡ q ++ s
path_of-plain q s h k =
    rw (trim_prefix-append "http://fake" (q ++ s))
      (rw (has_prefix-append_ne "/api/v1/users/42/failoverips/v4?" q s h k) refl)

path_of-query :
    (s : String)
    → path_of ("http://fake" ++ ("/api/v1/users/42/failoverips/v4?" ++ s))
      ≡ "/api/v1/users/42/failoverips/v4"
path_of-query s =
    rw (trim_prefix-append "http://fake" ("/api/v1/users/42/failoverips/v4?" ++ s))
      (rw (has_prefix-append "/api/v1/users/42/failoverips/v4?" s) refl)

find_path-query :
    (ip : String) → find_path base client ip ≡ "/api/v1/users/42/failoverips/v4?" ++ ("ip=" ++ ip)
unfolding itoa
find_path-query ip =
    sym (append_assoc "/api/v1/users/42/failoverips/v4" "?ip=" ip)
    ∙ append_assoc "/api/v1/users/42/failoverips/v4?" "ip=" ip

route_path-plain :
    (id : ℤ) → route_path base client id ≡ "/api/v1/users/42/failoverips/v4/" ++ itoa id
unfolding itoa
route_path-plain id = sym (append_assoc "/api/v1/users/42/failoverips/v4" "/" (itoa id))

token_at : path_of "http://fake/token" ≡ "/token"
unfolding trim_prefix cut_prefix has_prefix
token_at = refl

abbrev Apart : String → Type 0
Apart q =
    (has_prefix "/api/v1/users/42/failoverips/v4?" q ≡ false)
    × (has_prefix q "/api/v1/users/42/failoverips/v4?" ≡ false)

routes-Apart : Apart "/api/v1/users/42/failoverips/v4/"
unfolding has_prefix
routes-Apart = (refl, refl)

tasks-Apart : Apart "/api/v1/tasks/"
unfolding has_prefix
tasks-Apart = (refl, refl)

server_read :
    (server : ℤ)
    → IsInt64 server
    → atoi (drop_last (trim_prefix "{\"serverId\":" (route_body base client server))) ≡ some server
server_read server small =
    rw (trim_prefix-append "{\"serverId\":" (itoa server ++ "}"), drop_last-append (itoa server))
      (atoi-itoa server small)

addresses_read :
    (server : ℤ)
    → IsInt64 server
    → base.addresses_of ("a" ++ itoa server) ≡ parsed ((pos 17, some server) ∷ [])
unfolding server_in
addresses_read server small =
    rw
      (
        has_prefix-append "a" (itoa server),
        trim_prefix-append "a" (itoa server),
        atoi-itoa server small,
      )
      refl

unrouted_read : base.addresses_of "none" ≡ parsed ((pos 17, none) ∷ [])
unfolding server_in has_prefix
unrouted_read = refl

speaks : Speaks network base client
unfolding itoa
speaks = record {
  token_path = token_at;
  find_at = λ ip. rw (find_path-query ip) (path_of-query ("ip=" ++ ip));
  route_at = λ id.
      rw (route_path-plain id)
        (path_of-plain "/api/v1/users/42/failoverips/v4/" (itoa id) routes-Apart.0 routes-Apart.1);
  task_at = λ n. path_of-plain "/api/v1/tasks/" (task_name n) tasks-Apart.0 tasks-Apart.1;
  server_read = server_read;
  grant_read = refl;
  addresses_read = addresses_read;
  unrouted_read = unrouted_read;
  task_read = λ n. ap parsed (trim_prefix-append "t" (task_name n));
  state_read = λ state. ap (λ s. parsed (s, "")) (trim_prefix-append "s" state);
}

abbrev provider : Provider
provider = (start (λ name. "")).0

abbrev fresh : Memory
fresh = record { access_token = ""; token_expiry = pos 0; trace = [] }

abbrev operations : List Operation
operations = route 2 (pos 17) (pos 5) ∷ find "203.0.113.7" ∷ []

-- Over the default provider a route to server 5 succeeds, and a find then returns server 5.
routes_and_finds :
    (run (web network base provider client) client operations fresh).0
    ≡ routed (some (value tt)) ∷ found (value (pos 17, pos 5)) ∷ []
unfolding run run_operation route_failover_ip start_route find_failover_ip first_address perform
    token refresh exchange read_token keep_token wait_for_task round poll_reply poll_state
    provider_after handle api FakeProvider.route accept_route task task_answer done_at inc_int
    list_addresses server_of_owner token_reply write_json start env_int seconds sub_int wrap64 sub_ℕ
    atoi itoa has_prefix cut_prefix trim_prefix str_eq drop_last server_in
routes_and_finds = refl

run-Registers_example :
    Registers
      (pos 0)
      operations
      (run (web network base provider client) client operations fresh).0
      (behind network base provider client
        (run (web network base provider client) client operations fresh).1).owner
unfolding provider_after start env_int atoi
run-Registers_example =
    run-Registers network base provider client speaks operations fresh (refl, (tt, tt)) refl

reliable : Reliable network base
reliable = record { delivers = λ t r. refl; accepts = λ r. refl; passes = λ t. refl }

-- A provider that fails two routes.
abbrev failing_provider : Provider
failing_provider = (start (λ name. if str_eq name "FAKE_PROVIDER_ROUTE_ERRORS" then "2" else "")).0

server_5 : pos 5 ≢ pos 0
server_5 h = cc h

abbrev try_route : Act (Option (Reply (Unit {0})))
try_route =
    attempt network base failing_provider client speaks reliable 2 (pos 17) (pos 5) refl server_5

attempt-Failing_example :
    (last : Memory) × Failing network base failing_provider client speaks reliable 2
      (pos 17)
      (pos 5)
      refl
      server_5
      2
      fresh
      last
    × ((try_route last).0 ≡ some (value tt))
    × ((behind network base failing_provider client (try_route last).1).owner ≡ pos 5)
unfolding start env_int atoi provider_after seconds wrap64 str_eq
attempt-Failing_example =
    attempt-Failing network base failing_provider client speaks reliable 2 (pos 17) (pos 5) refl
      server_5 2 fresh refl refl (λ t u r later. refl)
