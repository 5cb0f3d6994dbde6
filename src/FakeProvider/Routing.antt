-- ===== src/FakeProvider/Routing.antt =====
-- What RouteFailoverIP does to the fake provider behind the client's web.
use Prim.Native.String.{◌++◌}
use text.Mathlib.TextLemmas.{append_assoc}
use foip_operator.Prelude.{
  ℕ, zero, suc, ◌==◌, ℤ, pos, eqb_ℤ, eqb_ℤ_iff, ltb_ℤ, String, true, not, Bool-cases, Option,
  Option-cases, none, some, inl, inr, ◌≡◌, ◌≢◌, refl, ◌∙◌, ◌⊎◌, arith, if◌then◌else◌,
}
use foip_operator.Prelude.Text.Decimal.{IsInt64}
use foip_operator.Netcup.Errors.{classify_http_error, other}
use foip_operator.Netcup.{
  Web, Client, Memory, get, patch, Response, Reply, Reply-cases, value, error, Act, Parsed-cases,
  malformed, parsed, rejected, perform, called, pause, pure, or_fail,
}
use foip_operator.Netcup.Tasks.{
  Round, ended, again, task_path, round, wait_for_task, unless_ended, route_path, route_body,
  start_route, route_failover_ip,
}
use foip_operator.FakeProvider.{Provider, Served, accept_route, route, api}
use foip_operator.FakeProvider.Hosting.{Network, respond, provider_after, Speaks}
use foip_operator.FakeProvider.Listing.{handle-users}
use foip_operator.FakeProvider.Effects.{
  Effect, handled, skipped, lost, web, behind, Keeps, or_fail-same, perform-Effect, get-Keeps,
}

module _ (at : ℕ) (server : ℤ) (p : Provider) where
  abbrev routing : Provider × Served
  routing = route at (some server) p

  -- A route leaves the owner, or makes its server the owner.
  route-owner : (routing.0.owner ≡ p.owner) ⊎ (routing.0.owner ≡ server)
  unfolding route accept_route
  route-owner = elim (Bool-cases (eqb_ℤ server (pos 0))) [
    | inl z ↦ inl (rw z refl)
    | inr nz ↦ elim (Bool-cases (ltb_ℤ (pos 0) p.route_errors)) [
      | inl failing ↦ inl (rw (nz, failing) refl)
      | inr fine ↦ inr (rw (nz, fine) refl)
    ]
  ]

  -- An accepted route has a server, and makes it the owner.
  route-accepted :
      (routing.1.status == 202) ≡ true → (routing ≡ accept_route at server p) × (server ≢ pos 0)
  unfolding route
  route-accepted h = elim (Bool-cases (eqb_ℤ server (pos 0))) [
    | inl z ↦ absurd (cc (rw z at h))
    | inr nz ↦ elim (Bool-cases (ltb_ℤ (pos 0) p.route_errors)) [
      | inl failing ↦ absurd (cc (rw (nz, failing) at h))
      | inr fine ↦ (rw (nz, fine) refl, ground (arith, eqb_ℤ_iff server (pos 0)))
    ]
  ]

module _ (net : Network) (base : Web) (initial : Provider) (client : Client)
    (speaks : Speaks net base client) where
  pub respond-route :
      (at : ℕ) (foip_id server : ℤ) (p : Provider)
      → IsInt64 server
      → respond net at patch
          (client.scp_base ++ route_path base client foip_id)
          (some (route_body base client server))
          p
        ≡ route at (some server) p
  unfolding api
  respond-route at foip_id server p small =
      rw (speaks.route_at foip_id)
        (rw (speaks.server_read server small) (rw append_assoc (handle-users at patch _ _ p)))

  abbrev hosted_web : Web
  hosted_web = web net base initial client

  abbrev provider : Memory → Provider
  provider = behind net base initial client

  read_started : Response → Act (Reply String)
  read_started response =
      if not (response.status == 202)
      then rejected hosted_web client response (classify_http_error response.status)
      else elim (base.task_of response.body) [
        | malformed e ↦ pure (error (other ("parsing routing task response: " ++ e)))
        | parsed uuid ↦ pure (value uuid)
      ]

  read_started-Keeps : (response : Response) → Keeps net base initial client (read_started response)
  unfolding read_started rejected provider_after
  read_started-Keeps response m = elim (Bool-cases (response.status == 202)) [
    | inr bad ↦ rw bad refl
    | inl good ↦ elim (Parsed-cases (base.task_of response.body)) [
      | inl (e, failed) ↦ rw (good, failed) refl
      | inr (uuid, read) ↦ rw (good, read) refl
    ]
  ]

  read_started-value :
      (response : Response) (m : Memory) (uuid : String)
      → (read_started response m).0 ≡ value uuid
      → (response.status == 202) ≡ true
  unfolding read_started rejected
  read_started-value response m uuid h = elim (Bool-cases (response.status == 202)) [
    | inl good ↦ good
    | inr bad ↦ absurd (cc (rw bad at h))
  ]

  module _ (foip_id server : ℤ) (small : IsInt64 server) where
    -- The owner behind a request for a route: as it was, or the server.
    started_owner :
        (p later : Provider) (reply : Reply Response)
        → Effect net base initial client p patch
            (client.scp_base ++ route_path base client foip_id)
            (some (route_body base client server))
            reply
            later
        → (later.owner ≡ p.owner) ⊎ (later.owner ≡ server)
    started_owner p later _ (handled at) =
        rw (respond-route at foip_id server p small) (route-owner at server p)
    started_owner p later _ skipped = inl refl
    started_owner p later _ (lost at) =
        rw (respond-route at foip_id server p small) (route-owner at server p)

    started_value :
        (p later : Provider) (reply : Reply Response) (m : Memory) (uuid : String)
        → Effect net base initial client p patch
            (client.scp_base ++ route_path base client foip_id)
            (some (route_body base client server))
            reply
            later
        → (or_fail reply read_started m).0 ≡ value uuid
        → (later.owner ≡ server) × (server ≢ pos 0)
    unfolding accept_route
    started_value p later _ m uuid (handled at) h =
        let (accepted, nonzero) =
          route-accepted at server p
            (rw (respond-route at foip_id server p small) at (read_started-value _ m uuid h)) in
        (rw (respond-route at foip_id server p small, accepted) refl, nonzero)
    started_value p later _ m uuid skipped h = absurd (cc h)
    started_value p later _ m uuid (lost at) h = absurd (cc h)

    start_route-owner :
        (m : Memory)
        → (((provider (start_route hosted_web client foip_id server m).1).owner
              ≡ (provider m).owner)
            ⊎ ((provider (start_route hosted_web client foip_id server m).1).owner ≡ server))
          × ((uuid : String)
              → (start_route hosted_web client foip_id server m).0 ≡ value uuid
              → ((provider (start_route hosted_web client foip_id server m).1).owner ≡ server)
                × (server ≢ pos 0))
    unfolding start_route read_started
    start_route-owner m =
        let asked =
          perform hosted_web client patch (route_path base client foip_id)
            (some (route_body base client server)) in
        let effect =
          perform-Effect net base initial client speaks.token_path patch
            (route_path base client foip_id) (some (route_body base client server)) m in
        let same =
          or_fail-same net base initial client (asked m).0 read_started read_started-Keeps
            (asked m).1 in
        (
          rw same (started_owner (provider m) _ (asked m).0 effect),
          λ uuid h. rw same (started_value (provider m) _ (asked m).0 (asked m).1 uuid effect h),
        )

  unless_ended-Keeps :
      (r : Round hosted_web client) (rest : Act (Option (Reply (Unit {0}))))
      → Keeps net base initial client rest
      → Keeps net base initial client (unless_ended hosted_web client r rest)
  unless_ended-Keeps (ended reply) rest keeps m = refl
  unless_ended-Keeps again rest keeps m = keeps m

  round-Keeps : (uuid : String) → Keeps net base initial client (round hosted_web client uuid)
  unfolding round provider_after
  round-Keeps uuid m = elim (Option-cases (base.pause m.trace)) [
    | inr (e, done) ↦ rw (done, round) refl
    | inl passed ↦
        rw (passed, round)
          (get-Keeps net base initial client speaks.token_path _ none _ _ _ (
            perform-Effect net base initial client speaks.token_path get
              (task_path base client uuid) none (called pause m)))
  ]

  wait_for_task-Keeps :
      (rounds : ℕ) (uuid : String)
      → Keeps net base initial client (wait_for_task hosted_web client rounds uuid)
  unfolding wait_for_task
  wait_for_task-Keeps zero uuid m = refl
  wait_for_task-Keeps (suc rounds) uuid m =
      unless_ended-Keeps (round hosted_web client uuid m).0
        (wait_for_task hosted_web client rounds uuid) (wait_for_task-Keeps rounds uuid)
        (round hosted_web client uuid m).1
      ∙ round-Keeps uuid m

  -- RouteFailoverIP leaves the owner or makes the server the owner, and where it reports success the
  -- server is the owner and not 0.
  pub route-owns :
      (rounds : ℕ) (foip_id server : ℤ) (m : Memory)
      → IsInt64 server
      → (((provider (route_failover_ip hosted_web client rounds foip_id server m).1).owner
            ≡ (provider m).owner)
          ⊎ ((provider (route_failover_ip hosted_web client rounds foip_id server m).1).owner
              ≡ server))
        × ((route_failover_ip hosted_web client rounds foip_id server m).0 ≡ some (value tt)
            → ((provider (route_failover_ip hosted_web client rounds foip_id server m).1).owner
                ≡ server)
              × (server ≢ pos 0))
  unfolding route_failover_ip
  route-owns rounds foip_id server m small =
      let begun = start_route hosted_web client foip_id server m in
      let (moved, won) = start_route-owner foip_id server small m in
      elim (Reply-cases begun.0) [
        | inl (e, failed) ↦ rw (failed, route_failover_ip) (moved, λ h. absurd (cc h))
        | inr (uuid, started) ↦
            rw (started, route_failover_ip)
              (
                rw (wait_for_task-Keeps rounds uuid begun.1) moved,
                λ h. rw (wait_for_task-Keeps rounds uuid begun.1) (won uuid started),
              )
      ]
