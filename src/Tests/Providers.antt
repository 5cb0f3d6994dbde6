-- ===== src/Tests/Providers.antt =====
-- Calls of the provider over a web that answers every request.
use foip_operator.Prelude.{
  ℕ, suc, ◌+◌, leb, ltb, ℤ, pos, negsuc, String, str_eq, true, some, none, [], ◌∷◌, ◌≡◌, refl,
  if◌then◌else◌, ◌*◌,
}
use foip_operator.Prelude.Int.{sub_ℕ}
use foip_operator.Prelude.Text.{atoi, itoa, sscanf_int}
use foip_operator.Controller.Scoring.{node_for_server_id}
use foip_operator.Controller.Scoring.Servers.{node_for_server_id-reads}
use foip_operator.Netcup.{
  new_client, new_from_environment, Web, Client, Memory, Method, patch, Response, answered, parsed,
  Reply, exchange, token, refresh, read_token, keep_token, perform,
}
use foip_operator.Netcup.Errors.{
  trim_left, trim_right, is_space, parse_retry_after, seconds, sub_int, wrap64,
}
use foip_operator.Netcup.Tasks.{
  route_failover_ip, wait_for_task, start_route, find_failover_ip, round, poll_reply, task_state,
}
use foip_operator.Netcup.Polling.{pauses, wait_for_task-ends}
use foip_operator.Netcup.Growing.{After}
use foip_operator.Netcup.Confirmed.{Accepted, Finished, route_failover_ip-Finished}
use foip_operator.Netcup.Retry.{parse_retry_after_seconds}
use foip_operator.Tests.Data.{node_a, node_b}

abbrev answer_to : Method → Response
answer_to patch = record { status = 202; retry_after = ""; body = "{}" }
answer_to _ = record { status = 200; retry_after = ""; body = "{}" }

-- The context is done after two pauses; every task is finished.
abbrev web : Web
web = record {
  clock = λ t. 1000;
  pause = λ t. if leb 2 (pauses t) then some "context deadline exceeded" else none;
  refuse = λ request. none;
  answer = λ t request. answered (answer_to request.method);
  encode = λ fields. "grant_type=refresh_token";
  query_escape = λ text. text;
  parse_time = λ text. none;
  token_of = λ body. parsed ("access", pos 300);
  addresses_of = λ body. parsed ((pos 7, some (pos 1)) ∷ []);
  task_of = λ body. parsed "t-1";
  state_of = λ body. parsed ("FINISHED", "");
}

abbrev client : Client
client = new_client (pos 42) "token"

-- Without overrides the endpoints are the production ones, and a base without a token endpoint
-- brings its own.
endpoints :
    (new_from_environment "" "" (pos 42) "token" ≡ client)
    × ((new_from_environment "http://fake:8080//" "" (pos 42) "token").token_url
        ≡ "http://fake:8080/token")
unfolding new_from_environment trim_right str_eq
endpoints = (refl, refl)

abbrev fresh : Memory
fresh = record { access_token = ""; token_expiry = pos 0; trace = [] }

abbrev routed : Memory
routed = (route_failover_ip web client 1 (pos 7) (pos 2) fresh).1

abbrev found : Memory
found = (find_failover_ip web client "203.0.113.7" fresh).1

abbrev answer : ℤ × ℤ
answer = (pos 7, pos 1)

route_failover_ip-Finished_example :
    (uuid : String) × (started : Memory) × Accepted web client (pos 7) (pos 2) uuid started
    × After started.trace routed.trace
    × Finished web client uuid routed
unfolding route_failover_ip start_route perform token refresh exchange read_token keep_token sub_int
    seconds wrap64 wait_for_task round poll_reply task_state str_eq sub_ℕ
route_failover_ip-Finished_example =
    route_failover_ip-Finished web client 1 (pos 7) (pos 2) fresh routed refl

wait_for_task-ends_example :
    (reply : Reply (Unit {0})) × (later : Memory) × ((more : ℕ)
      → wait_for_task web client (suc 2 + more) "t-1" fresh ≡ (some reply, later))
wait_for_task-ends_example =
    wait_for_task-ends web client 2 "t-1" fresh (λ t over. rw over (λ e. absurd (cc e)))

parse_retry_after_seconds_example :
    (leb 120 9223372036 ≡ true
      → parse_retry_after (λ text. none) " 120 " 1000 ≡ pos (120 * 1000000000))
    × (ltb 9223372036 120 ≡ true
        → leb 120 18446744073 ≡ true
        → (d : ℕ) × (parse_retry_after (λ text. none) " 120 " 1000 ≡ negsuc d))
unfolding atoi trim_left trim_right is_space str_eq
parse_retry_after_seconds_example = parse_retry_after_seconds (λ text. none) " 120 " 1000 120 refl

node_for_server_id-reads_example :
    (sscanf_int node_b.server_id ≡ some (pos 2)) × (atoi node_b.server_id ≡ some (pos 2))
unfolding node_for_server_id itoa str_eq
node_for_server_id-reads_example =
    node_for_server_id-reads (node_a ∷ node_b ∷ []) (pos 2) node_b refl refl
