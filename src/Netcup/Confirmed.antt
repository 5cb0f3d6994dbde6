-- ===== src/Netcup/Confirmed.antt =====
-- RouteFailoverIP succeeds only with a route that the provider reports as finished.
use mathlib.Core.Path.{subst}
use foip_operator.Prelude.{
  ℕ, zero, suc, ◌==◌, ℤ, String, str_eq, str_eq_iff, true, none, some, Option-cases, Bool-cases,
  inl, inr, ◌≡◌, refl, ap, ◌∙◌, ◌⊎◌, arith,
}
use foip_operator.Netcup.{
  Web, Client, Reply, Reply-cases, value, error, Memory, pause, called, get, patch, Response,
  rejected, perform, Parsed-cases, parsed,
}
use foip_operator.Netcup.Tasks.{
  Round, ended, again, round, task_path, task_state, poll_reply, wait_for_task, route_path,
  route_body, start_route, route_failover_ip,
}
use foip_operator.Netcup.Growing.{After, wait_for_task-Grows}
use foip_operator.Netcup.Sending.{Sent, perform-Sent, or_fail-value}

module _ (web : Web) (client : Client) where
  -- The provider accepted the route and started the task.
  pub record Accepted (foip_id server : ℤ) (uuid : String) (m : Memory) : Type 0 where
    pub response : Response
    pub sent :
        Sent web client patch
          (route_path web client foip_id)
          (some (route_body web client server))
          response
          m
    pub status : (response.status == 202) ≡ true
    pub task : web.task_of response.body ≡ parsed uuid

  -- The last call was a poll of the task, answered as finished.
  pub record Finished (uuid : String) (m : Memory) : Type 0 where
    pub response : Response
    pub message : String
    pub sent : Sent web client get (task_path web client uuid) none response m
    pub status : (response.status == 200) ≡ true
    pub state : web.state_of response.body ≡ parsed ("FINISHED", message)

  start_route-Accepted :
      (foip_id server : ℤ) (m later : Memory) (uuid : String)
      → start_route web client foip_id server m ≡ (value uuid, later)
      → Accepted foip_id server uuid later
  unfolding start_route rejected
  start_route-Accepted foip_id server m later uuid h =
      let act =
        perform web client patch (route_path web client foip_id)
          (some (route_body web client server)) in
      let (response, got, rest) = or_fail-value act _ m later uuid h in
      elim (Bool-cases (response.status == 202)) [
        | inr bad ↦ absurd (cc (rw bad at rest))
        | inl good ↦ elim (Parsed-cases (web.task_of response.body)) [
          | inl (e, failed) ↦ absurd (cc (rw (good, failed) at rest))
          | inr (found, read) ↦
              let kept : (value found, (act m).1) ≡ (value uuid, later) = rw (good, read) at rest in
              record {
                response = response;
                sent =
                    perform-Sent web client patch _ _ m later response
                      (ap (λ r. (r, (act m).1)) got ∙ ap (λ r. (value response, r.1)) kept);
                status = good;
                task = read ∙ ap parsed (cc kept);
              }
        ]
      ]

  poll_reply-finished :
      (reply : Reply Response)
      → poll_reply web client reply ≡ ended (value tt)
      → (response : Response) × (message : String) × (reply ≡ value response)
        × ((response.status == 200) ≡ true)
        × (web.state_of response.body ≡ parsed ("FINISHED", message))
  unfolding poll_reply task_state
  poll_reply-finished (error e) h = absurd (cc h)
  poll_reply-finished (value response) h = elim (Bool-cases (response.status == 200)) [
    | inr bad ↦ absurd (cc (rw bad at h))
    | inl good ↦ elim (Parsed-cases (web.state_of response.body)) [
      | inl (e, failed) ↦ absurd (cc (rw (good, failed) at h))
      | inr ((state, message), read) ↦
          let read_as : task_state web client (parsed (state, message)) ≡ ended (value tt) =
            rw (good, read) at h in
          let finished : str_eq state "FINISHED" ≡ true = ground (arith, read_as) in
          (
            response,
            message,
            refl,
            good,
            read ∙ ap (λ s. parsed (s, message)) ((str_eq_iff state "FINISHED").0 finished),
          )
    ]
  ]

  round-Finished :
      (uuid : String) (m : Memory)
      → (round web client uuid m).0 ≡ ended (value tt)
      → Finished uuid (round web client uuid m).1
  unfolding round
  round-Finished uuid m h = elim (Option-cases (web.pause m.trace)) [
    | inr (e, done) ↦ absurd (cc (rw (done, round) at h))
    | inl passed ↦
        let act = perform web client get (task_path web client uuid) none in
        let (response, message, got, status, state) =
          poll_reply-finished (act (called pause m)).0 (rw (passed, round) at h) in
        rw (passed, round)
          (record {
            response = response;
            message = message;
            sent =
                perform-Sent web client get _ _ (called pause m) _ response
                  (ap (λ r. (r, (act (called pause m)).1)) got);
            status = status;
            state = state;
          })
  ]

  Round-cases :
      (r : Round web client) → ((reply : Reply (Unit {0})) × (r ≡ ended reply)) ⊎ (r ≡ again)
  Round-cases (ended reply) = inl (reply, refl)
  Round-cases again = inr refl

  wait_for_task-Finished :
      (rounds : ℕ) (uuid : String) (m later : Memory)
      → wait_for_task web client rounds uuid m ≡ (some (value tt), later)
      → Finished uuid later
  unfolding wait_for_task
  wait_for_task-Finished zero uuid m later h = absurd (cc h)
  wait_for_task-Finished (suc rounds) uuid m later h =
      elim (Round-cases (round web client uuid m).0) [
        | inl (reply, end) ↦
            let kept : (some reply, (round web client uuid m).1) ≡ (some (value tt), later) =
              rw (end, wait_for_task) at h in
            subst (λ k. Finished uuid k) (ap (λ r. r.1) kept)
              (round-Finished uuid m (end ∙ ap ended (cc kept)))
        | inr on ↦
            wait_for_task-Finished rounds uuid (round web client uuid m).1 later
              (rw (on, wait_for_task) at h)
      ]

  -- RouteFailoverIP returns nil only behind a route that the provider has finished: it accepted the
  -- request for the address and the server with a task, and later the last call was a poll of this
  -- task that was answered as FINISHED. Each of the two requests carries the token that the client
  -- held.
  pub route_failover_ip-Finished :
      (rounds : ℕ) (foip_id server : ℤ) (m later : Memory)
      → route_failover_ip web client rounds foip_id server m ≡ (some (value tt), later)
      → (uuid : String) × (started : Memory) × Accepted foip_id server uuid started
        × After started.trace later.trace
        × Finished uuid later
  unfolding route_failover_ip
  route_failover_ip-Finished rounds foip_id server m later h =
      elim (Reply-cases (start_route web client foip_id server m).0) [
        | inl (e, failed) ↦ absurd (cc (rw (failed, route_failover_ip) at h))
        | inr (uuid, begun) ↦
            let started = (start_route web client foip_id server m).1 in
            let waited : wait_for_task web client rounds uuid started ≡ (some (value tt), later) =
              rw (begun, route_failover_ip) at h in
            (
              uuid,
              started,
              start_route-Accepted foip_id server m started uuid (ap (λ r. (r, started)) begun),
              subst (λ k. After started.trace k.trace) (ap (λ r. r.1) waited)
                  (wait_for_task-Grows web client rounds uuid started),
              wait_for_task-Finished rounds uuid started later waited,
            )
      ]
