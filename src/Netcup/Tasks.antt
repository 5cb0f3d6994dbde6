-- ===== src/Netcup/Tasks.antt =====
-- FindFailoverIP, RouteFailoverIP and waitForTask of internal/netcup/client.go.
use Prim.Native.String.{◌++◌}
use foip_operator.Prelude.{
  ℕ, zero, suc, ◌==◌, ℤ, pos, String, str_eq, not, ◌||◌, Option, none, some, List, [], ◌∷◌,
  if◌then◌else◌, Bool,
}
use foip_operator.Prelude.Text.{itoa}
use foip_operator.Netcup.Errors.{other, classify_http_error}
use foip_operator.Netcup.{
  Act, Client, Web, Reply, value, error, Parsed, malformed, parsed, Response, get, patch, pause,
  ◌>>=◌, pure, or_fail, called, rejected, perform,
}

module _ (web : Web) (client : Client) where
  abbrev pub addresses_path : String
  addresses_path = "/api/v1/users/" ++ itoa client.user_id ++ "/failoverips/v4"

  abbrev pub find_path : String → String
  find_path ip = addresses_path ++ "?ip=" ++ web.query_escape ip

  abbrev pub server_or_zero : Option ℤ → ℤ
  server_or_zero none = pos 0
  server_or_zero (some server) = server

  -- The first address with its server.
  unfoldable pub first_address : String → Parsed (List (ℤ × Option ℤ)) → Reply (ℤ × ℤ)
  first_address ip (malformed e) = error (other ("parsing failover IPs: " ++ e))
  first_address ip (parsed []) =
      error (other ("failover IP " ++ ip ++ " not found in netcup account"))
  first_address ip (parsed (found ∷ rest)) = value (found.0, server_or_zero found.1)

  -- FindFailoverIP.
  unfoldable pub find_failover_ip : String → Act (Reply (ℤ × ℤ))
  find_failover_ip ip = do
    reply ← perform web client get (find_path ip) none
    or_fail reply λ response.
        if not (response.status == 200)
        then rejected web client response (classify_http_error response.status)
        else pure (first_address ip (web.addresses_of response.body))

  -- The end of a round of waitForTask: the result, or another round.
  pub data Round : Type 0 where
    ended : Reply (Unit {0}) → Round
    again : Round

  abbrev pub is_failed : String → Bool
  is_failed state =
      str_eq state "ERROR"
      || str_eq state "CANCELED"
      || str_eq state "ROLLBACK"
      || str_eq state "WAITING_FOR_CANCEL"

  unfoldable pub task_state : Parsed (String × String) → Round
  task_state (malformed e) = ended (error (other ("parsing task: " ++ e)))
  task_state (parsed task) =
      if str_eq task.0 "FINISHED"
      then ended (value tt)
      else if is_failed task.0
      then ended (
          error (
            other (
              if not (str_eq task.1 "")
              then "routing task " ++ task.0 ++ ": " ++ task.1
              else "routing task ended with state " ++ task.0)))
      else again

  unfoldable pub poll_reply : Reply Response → Round
  poll_reply (error e) = ended (error e)
  poll_reply (value response) =
      if not (response.status == 200)
      then ended
          (error (other ("get task HTTP " ++ itoa (pos response.status) ++ ": " ++ response.body)))
      else task_state (web.state_of response.body)

  abbrev pub task_path : String → String
  task_path uuid = "/api/v1/tasks/" ++ uuid

  -- One round of the loop of waitForTask.
  unfoldable pub round : String → Act Round
  round uuid m = elim (web.pause m.trace) [
    | some e ↦ (ended (error (other e)), called pause m)
    | none ↦
        let (reply, later) = perform web client get (task_path uuid) none (called pause m) in
        (poll_reply reply, later)
  ]

  abbrev pub unless_ended :
      Round → Act (Option (Reply (Unit {0}))) → Act (Option (Reply (Unit {0})))
  unless_ended (ended reply) rest = pure (some reply)
  unless_ended again rest = rest

  -- The loop of waitForTask; `none` when the rounds are used up.
  unfoldable pub wait_for_task : ℕ → String → Act (Option (Reply (Unit {0})))
  wait_for_task zero uuid = pure none
  wait_for_task (suc rounds) uuid =
      let rest = wait_for_task rounds uuid in do result ← round uuid; unless_ended result rest

  abbrev pub route_path : ℤ → String
  route_path foip_id = addresses_path ++ "/" ++ itoa foip_id

  abbrev pub route_body : ℤ → String
  route_body server = "{\"serverId\":" ++ itoa server ++ "}"

  -- The task that the provider started for the route.
  unfoldable pub start_route : ℤ → ℤ → Act (Reply String)
  start_route foip_id server = do
    reply ← perform web client patch (route_path foip_id) (some (route_body server))
    or_fail reply λ response.
        if not (response.status == 202)
        then rejected web client response (classify_http_error response.status)
        else elim (web.task_of response.body) [
          | malformed e ↦ pure (error (other ("parsing routing task response: " ++ e)))
          | parsed uuid ↦ pure (value uuid)
        ]

  abbrev pub wait_for_route : ℕ → Reply String → Act (Option (Reply (Unit {0})))
  wait_for_route rounds (error e) = pure (some (error e))
  wait_for_route rounds (value uuid) = wait_for_task rounds uuid

  -- RouteFailoverIP, with at most `rounds` polls of the task.
  unfoldable pub route_failover_ip : ℕ → ℤ → ℤ → Act (Option (Reply (Unit {0})))
  route_failover_ip rounds foip_id server = do
    reply ← start_route foip_id server
    wait_for_route rounds reply
