-- ===== src/FakeProvider/Retries.antt =====
-- Routes that are tried again until the fake provider fails no more.
use mathlib.Core.Path.{subst}
use foip_operator.Prelude.{
  ℕ, zero, suc, ltb, ℤ, pos, sub_ℕ, ltb_ℤ, true, false, some, Option, ◌∷◌, ◌≡◌, ◌≢◌, refl, sym, ap,
  ◌∙◌, arith,
}
use foip_operator.Prelude.Int.{sub_ℕ}
use foip_operator.Prelude.Text.Decimal.{IsInt64}
use foip_operator.Netcup.{
  Web, Client, Memory, Trace, Reply, value, error, Act, pause, send, Request, add_duration,
}
use foip_operator.Netcup.Errors.{ProviderError, provider, transient, sub_int, wrap64}
use foip_operator.Netcup.Growing.{After}
use foip_operator.Netcup.Tasks.{route_failover_ip, start_route}
use foip_operator.FakeProvider.{Provider, accept_route}
use foip_operator.FakeProvider.Hosting.{Network, Speaks}
use foip_operator.FakeProvider.Serving.{Reliable, hosted_web, provider_of}
use foip_operator.FakeProvider.Answers.{
  start_route-failing, start_route-accepted, wait_for_task-finished,
}

sub_int-suc : (n : ℕ) → ltb n 9223372036854775807 ≡ true → sub_int (pos (suc n)) 1 ≡ pos n
unfolding sub_int wrap64 sub_ℕ
sub_int-suc n small = ground arith

module _ (net : Network) (base : Web) (initial : Provider) (client : Client)
    (speaks : Speaks net base client) (reliable : Reliable net base) (rounds : ℕ)
    (foip_id server : ℤ) (small : IsInt64 server) (nonzero : server ≢ pos 0) where
  abbrev web_of : Web
  web_of = hosted_web net base initial client speaks reliable

  abbrev behind_it : Memory → Provider
  behind_it = provider_of net base initial client speaks reliable

  abbrev pub attempt : Act (Option (Reply (Unit {0})))
  attempt = route_failover_ip web_of client (suc rounds) foip_id server

  -- Attempts that each fail with a transient error and a Retry-After of one second.
  pub data Failing : ℕ → Memory → Memory → Type 0 where
    settled : {m : Memory} → Failing 0 m m
    failed :
        {n : ℕ} {m last : Memory} (e : ProviderError)
        → (attempt m).0 ≡ some (error (provider e))
        → e.class ≡ transient
        → e.retry_after ≡ pos 1000000000
        → (behind_it (attempt m).1).owner ≡ (behind_it m).owner
        → Failing n (attempt m).1 last
        → Failing (suc n) m last

  -- A pause behind a request lasts at least the delay of a route.
  abbrev pub Outlasts : ℤ → Type 0
  Outlasts delay =
      (t u : Trace) (r : Request)
      → After (pause ∷ send r ∷ t) u
      → ltb_ℤ (pos (net.server_clock u)) (add_duration (net.server_clock t) delay) ≡ false

  attempt-failing :
      (m : Memory)
      → ltb_ℤ (pos 0) (behind_it m).route_errors ≡ true
      → (e : ProviderError) × ((attempt m).0 ≡ some (error (provider e)))
        × (e.class ≡ transient)
        × (e.retry_after ≡ pos 1000000000)
        × (behind_it (attempt m).1
            ≡ record (behind_it m) { route_errors = sub_int (behind_it m).route_errors 1 })
  unfolding route_failover_ip
  attempt-failing m failing =
      let (message, reply, left) =
        start_route-failing net base initial client speaks reliable foip_id server small m nonzero
          failing in
      (
        record {
          class = transient;
          status_code = 503;
          retry_after = pos 1000000000;
          message = message;
        },
        rw (reply, route_failover_ip) refl,
        refl,
        refl,
        rw (reply, route_failover_ip) left,
      )

  attempt-routes :
      (m : Memory)
      → ltb_ℤ (pos 0) (behind_it m).route_errors ≡ false
      → Outlasts (behind_it m).route_delay
      → ((attempt m).0 ≡ some (value tt)) × ((behind_it (attempt m).1).owner ≡ server)
  unfolding route_failover_ip accept_route
  attempt-routes m fine over =
      let (t, r, reply, moved, left) =
        start_route-accepted net base initial client speaks reliable foip_id server small m nonzero
          fine in
      let begun = start_route web_of client foip_id server m in
      let (finished, kept) =
        wait_for_task-finished net base initial client speaks reliable begun.1 (net.server_clock t)
          server (behind_it m) left
          (λ u later. over t u r (subst (λ past. After (pause ∷ past) u) moved later)) rounds in
      (
        rw (reply, route_failover_ip) finished,
        rw (reply, route_failover_ip) (ap (λ q. q.owner) kept),
      )

  -- A provider that is to fail n routes fails exactly n attempts to route to a server, each with a
  -- transient error and a Retry-After of one second and without a change of the owner, and the next
  -- attempt, with at least one poll, succeeds and makes the server the owner. The network loses
  -- nothing and refuses nothing, the context stays open, and a pause behind a request lasts at least
  -- the provider's delay of a route. The server is an int other than 0, n is an int, and the URLs
  -- and JSON codecs agree as Speaks says.
  pub attempt-Failing :
      (n : ℕ) (m : Memory)
      → (behind_it m).route_errors ≡ pos n
      → ltb n 9223372036854775808 ≡ true
      → Outlasts (behind_it m).route_delay
      → (last : Memory) × Failing n m last
        × ((attempt last).0 ≡ some (value tt))
        × ((behind_it (attempt last).1).owner ≡ server)
  attempt-Failing zero m left bound over =
      let (success, owner) = attempt-routes m (rw left refl) over in (m, settled, success, owner)
  attempt-Failing (suc n) m left bound over =
      let (e, failure, class, retry, kept) = attempt-failing m (rw left (ground arith)) in
      let fewer : (behind_it (attempt m).1).route_errors ≡ pos n =
        ap (λ q. q.route_errors) kept
        ∙ ap (λ z. sub_int z 1) left
        ∙ sub_int-suc n (ground (arith, bound)) in
      let (last, failing, success, owner) =
        attempt-Failing n (attempt m).1 fewer (ground (arith, bound))
          (subst Outlasts (ap (λ q. q.route_delay) (sym kept)) over) in
      (last, failed e failure class retry (ap (λ q. q.owner) kept) failing, success, owner)
