-- ===== src/FakeProvider/Answers.antt =====
-- The provider's answers to a route and to the polls of its task over a network that loses nothing.
use Prim.Native.String.{◌++◌}
use foip_operator.Prelude.{
  ℕ, suc, ℤ, pos, eqb_ℤ, eqb_ℤ_iff, ltb_ℤ, String, str_eq, str_eq_iff, true, false, Option, none,
  some, ◌∷◌, ◌≡◌, ◌≢◌, refl, ap, ◌∙◌, arith,
}
use foip_operator.Prelude.Text.{atoi, itoa}
use foip_operator.Prelude.Text.Prefix.{
  has_prefix, has_prefix-append, has_prefix-append_ne, trim_prefix-append,
}
use foip_operator.Prelude.Text.Decimal.{IsInt64}
use foip_operator.Netcup.{
  Web, Client, Memory, Trace, Method, get, patch, pause, send, Request, value, error, rejected,
  add_duration, called,
}
use foip_operator.Netcup.Errors.{
  classify_http_error, class_of, provider, transient, sub_int, parse_retry_after, trim_left,
  trim_right, is_space,
}
use foip_operator.Netcup.Retry.{parse_retry_after_seconds}
use foip_operator.Netcup.Growing.{After}
use foip_operator.Netcup.Tasks.{
  task_path, round, wait_for_task, poll_reply, ended, task_state as poll_state, route_path,
  route_body, start_route,
}
use foip_operator.FakeProvider.{
  Provider, Served, task_state, inc_int, write_json, accept_route, route, task, task_answer,
  done_at, handle, task_name,
}
use foip_operator.FakeProvider.Hosting.{Network, wire, provider_after, Speaks}
use foip_operator.FakeProvider.Routing.{respond-route}
use foip_operator.FakeProvider.Serving.{
  Reliable, hosted_web, provider_of, handling, Handled, perform-Handled,
}

users_tasks :
    (has_prefix "/api/v1/users/" "/api/v1/tasks/" ≡ false)
    × (has_prefix "/api/v1/tasks/" "/api/v1/users/" ≡ false)
unfolding has_prefix
users_tasks = (refl, refl)

module _ (at : ℕ) (server : ℤ) (p : Provider) (nonzero : server ≢ pos 0) where
  pub some_server : eqb_ℤ server (pos 0) ≡ false
  some_server = ground (arith, eqb_ℤ_iff server (pos 0))

  route-failing :
      ltb_ℤ (pos 0) p.route_errors ≡ true
      → route at (some server) p ≡ (
        record p { route_errors = sub_int p.route_errors 1 },
        record { status = 503; retry_after = "1"; document = none },
      )
  unfolding route
  route-failing failing = rw (some_server, failing) refl

  route-accepting :
      ltb_ℤ (pos 0) p.route_errors ≡ false → route at (some server) p ≡ accept_route at server p
  unfolding route
  route-accepting fine = rw (some_server, fine) refl

-- A Retry-After of one second.
retry_after_one :
    (parse_time : String → Option ℕ) (now : ℕ)
    → parse_retry_after parse_time "1" now ≡ pos 1000000000
unfolding atoi trim_left trim_right is_space str_eq
retry_after_one parse_time now = (parse_retry_after_seconds parse_time "1" now 1 refl).0 refl

module _ (net : Network) (base : Web) (initial : Provider) (client : Client)
    (speaks : Speaks net base client) (reliable : Reliable net base) where
  abbrev web_of : Web
  web_of = hosted_web net base initial client speaks reliable

  abbrev behind_it : Memory → Provider
  behind_it = provider_of net base initial client speaks reliable

  abbrev answering : Trace → Method → String → Option String → Provider → Provider × Served
  answering = handling net base initial client speaks reliable

  abbrev handled_by :
      (method : Method) (path : String) (body : Option String) (m : Memory)
      → Handled net base initial client speaks reliable method path body m
  handled_by = perform-Handled net base initial client speaks reliable

  module _ (foip_id server : ℤ) (small : IsInt64 server) (m : Memory) where
    abbrev p : Provider
    p = behind_it m

    begun :
        Handled net base initial client speaks reliable patch
          (route_path base client foip_id)
          (some (route_body base client server))
          m
    begun =
        handled_by patch (route_path base client foip_id) (some (route_body base client server)) m

    -- The answer of the provider to the request for the route.
    abbrev answered_route : Provider × Served
    answered_route = route (net.server_clock begun.at) (some server) p

    begun-answer :
        answering begun.at patch
          (client.scp_base ++ route_path base client foip_id)
          (some (route_body base client server))
          p
        ≡ answered_route
    begun-answer =
        respond-route net base initial client speaks (net.server_clock begun.at) foip_id server p
          small

    -- A provider that has routes left to fail answers with 503.
    pub start_route-failing :
        server ≢ pos 0
        → ltb_ℤ (pos 0) p.route_errors ≡ true
        → (message : String) × ((start_route web_of client foip_id server m).0
            ≡ error (
                provider (record {
                  class = transient;
                  status_code = 503;
                  retry_after = pos 1000000000;
                  message = message;
                })))
          × (behind_it (start_route web_of client foip_id server m).1
              ≡ record p { route_errors = sub_int p.route_errors 1 })
    unfolding start_route rejected classify_http_error class_of provider_after
    start_route-failing nonzero failing =
        let answer =
          begun-answer ∙ route-failing (net.server_clock begun.at) server p nonzero failing in
        (
          "provider request failed with HTTP " ++ itoa (pos 503),
          rw (begun.reply, answer) (rw retry_after_one refl),
          rw (begun.reply, answer) (begun.left ∙ ap (λ r. r.0) answer),
        )

    pub start_route-accepted :
        server ≢ pos 0
        → ltb_ℤ (pos 0) p.route_errors ≡ false
        → (t : Trace) × (r : Request) × ((start_route web_of client foip_id server m).0
            ≡ value (task_name (inc_int p.next_task)))
          × ((start_route web_of client foip_id server m).1.trace ≡ send r ∷ t)
          × (behind_it (start_route web_of client foip_id server m).1
              ≡ (accept_route (net.server_clock t) server p).0)
    unfolding start_route accept_route write_json
    start_route-accepted nonzero fine =
        let answer =
          begun-answer ∙ route-accepting (net.server_clock begun.at) server p nonzero fine in
        let read = speaks.task_read (inc_int p.next_task) in
        (
          begun.at,
          begun.last,
          rw (begun.reply, answer) (rw read refl),
          rw (begun.reply, answer) (rw read begun.moved),
          rw (begun.reply, answer) (rw read (begun.left ∙ ap (λ r. r.0) answer)),
        )

  -- A task that the provider started is finished once its time has come.
  handling-task :
      (t : Trace) (at : ℕ) (server : ℤ) (q : Provider)
      → ltb_ℤ (pos (net.server_clock t)) (add_duration at q.route_delay) ≡ false
      → answering t get
          (client.scp_base ++ task_path base client (task_name (inc_int q.next_task)))
          none
          (accept_route at server q).0
        ≡ ((accept_route at server q).0, write_json 200 (task_state "FINISHED"))
  unfolding accept_route handle task done_at task_answer
  handling-task t at server q over =
      let name = task_name (inc_int q.next_task) in
      rw
        (
          speaks.task_at (inc_int q.next_task),
          has_prefix-append_ne "/api/v1/users/" "/api/v1/tasks/" name users_tasks.0 users_tasks.1,
          has_prefix-append "/api/v1/tasks/" name,
          trim_prefix-append "/api/v1/tasks/" name,
          (str_eq_iff name name).1 refl,
          over,
        )
        refl

  poll-finished :
      poll_reply web_of client (value (wire net (write_json 200 (task_state "FINISHED"))))
      ≡ ended (value tt)
  unfolding poll_reply write_json poll_state str_eq
  poll-finished = rw (speaks.state_read "FINISHED") refl

  module _ (m : Memory) (at : ℕ) (server : ℤ) (q : Provider)
      (started : behind_it m ≡ (accept_route at server q).0)
      (over : (t : Trace)
        → After (pause ∷ m.trace) t
        → ltb_ℤ (pos (net.server_clock t)) (add_duration at q.route_delay) ≡ false) where
    abbrev name : String
    name = task_name (inc_int q.next_task)

    round-finished :
        ((round web_of client name m).0 ≡ ended (value tt))
        × (behind_it (round web_of client name m).1 ≡ (accept_route at server q).0)
    unfolding round provider_after
    round-finished =
        let poll = handled_by get (task_path base client name) none (called pause m) in
        let answer : answering poll.at get (client.scp_base ++ task_path base client name) none
              (behind_it (called pause m))
            ≡ ((accept_route at server q).0, write_json 200 (task_state "FINISHED")) =
          rw started (handling-task poll.at at server q (over poll.at poll.later)) in
        rw (reliable.passes m.trace, round)
          (rw (poll.reply, answer) poll-finished, poll.left ∙ ap (λ r. r.0) answer)

    -- Then the first poll of the task ends the wait.
    pub wait_for_task-finished :
        (rounds : ℕ)
        → ((wait_for_task web_of client (suc rounds) name m).0 ≡ some (value tt))
          × (behind_it (wait_for_task web_of client (suc rounds) name m).1
              ≡ (accept_route at server q).0)
    unfolding wait_for_task
    wait_for_task-finished rounds = rw (round-finished.0, wait_for_task) (refl, round-finished.1)
