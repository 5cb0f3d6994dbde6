-- ===== src/FakeProvider/Register.antt =====
-- The client over the fake provider implements a register that holds the owner of the address.
use foip_operator.Prelude.{
  ℕ, ℤ, pos, String, Option, none, some, List, [], ◌∷◌, inl, inr, ◌≡◌, ◌≢◌, refl, ap, ◌⊎◌, All,
}
use foip_operator.Prelude.Text.Decimal.{IsInt64}
use foip_operator.Netcup.{Web, Client, Memory, Reply, value, error, Act, ◌>>=◌, pure}
use foip_operator.Netcup.Errors.{Failure}
use foip_operator.Netcup.Tasks.{find_failover_ip, route_failover_ip}
use foip_operator.FakeProvider.{Provider}
use foip_operator.FakeProvider.Hosting.{Network, Speaks}
use foip_operator.FakeProvider.Effects.{web, behind}
use foip_operator.FakeProvider.Listing.{find-owner}
use foip_operator.FakeProvider.Routing.{route-owns}

-- A call of the client: FindFailoverIP, or RouteFailoverIP with the polls that it may make.
pub data Operation : Type 0 where
  find : String → Operation
  route : ℕ → ℤ → ℤ → Operation

-- What a call returns; a route returns nothing where its polls are used up.
pub data Outcome : Type 0 where
  found : Reply (ℤ × ℤ) → Outcome
  routed : Option (Reply (Unit {0})) → Outcome

module _ (web : Web) (client : Client) where
  unfoldable pub run_operation : Operation → Act Outcome
  run_operation (find ip) = do reply ← find_failover_ip web client ip; pure (found reply)
  run_operation (route rounds foip_id server) = do
    result ← route_failover_ip web client rounds foip_id server
    pure (routed result)

  unfoldable pub run : List Operation → Act (List Outcome)
  run [] = pure []
  run (operation ∷ operations) = do
    outcome ← run_operation operation
    outcomes ← run operations
    pure (outcome ∷ outcomes)

-- The register: what a call may return and leave, from one owner to the next. A find that succeeds
-- returns the owner. A route that succeeds has a server other than 0 and makes it the owner; one
-- that fails, or is not seen to finish, may or may not have.
pub data Register : ℤ → Operation → Outcome → ℤ → Type 0 where
  finds : {owner : ℤ} {ip : String} → Register owner (find ip) (found (value (pos 17, owner))) owner
  find_fails :
      {owner : ℤ} {ip : String} {e : Failure} → Register owner (find ip) (found (error e)) owner
  routes :
      {owner : ℤ} {rounds : ℕ} {foip_id server : ℤ}
      → server ≢ pos 0
      → Register owner (route rounds foip_id server) (routed (some (value tt))) server
  route_stays :
      {owner : ℤ} {rounds : ℕ} {foip_id server : ℤ} {result : Option (Reply (Unit {0}))}
      → result ≢ some (value tt)
      → Register owner (route rounds foip_id server) (routed result) owner
  route_moves :
      {owner : ℤ} {rounds : ℕ} {foip_id server : ℤ} {result : Option (Reply (Unit {0}))}
      → result ≢ some (value tt)
      → Register owner (route rounds foip_id server) (routed result) server

-- A run of the register.
pub data Registers : ℤ → List Operation → List Outcome → ℤ → Type 0 where
  done : {owner : ℤ} → Registers owner [] [] owner
  then_does :
      {owner next last : ℤ} {operation : Operation} {operations : List Operation}
      {outcome : Outcome} {outcomes : List Outcome}
      → Register owner operation outcome next
      → Registers next operations outcomes last
      → Registers owner (operation ∷ operations) (outcome ∷ outcomes) last

-- The server of a route is an int.
abbrev pub IsCall : Operation → Type 0
IsCall (find ip) = Unit {0}
IsCall (route rounds foip_id server) = IsInt64 server

find-Register :
    (reply : Reply (ℤ × ℤ)) (ip : String) (owner next : ℤ)
    → next ≡ owner
    → ((a : ℤ × ℤ) → reply ≡ value a → a ≡ (pos 17, owner))
    → Register owner (find ip) (found reply) next
find-Register (error e) ip owner next same h = rw same find_fails
find-Register (value a) ip owner next same h = rw (same, h a refl) finds

route-Register :
    (result : Option (Reply (Unit {0}))) (rounds : ℕ) (foip_id server owner next : ℤ)
    → (next ≡ owner) ⊎ (next ≡ server)
    → (result ≡ some (value tt) → (next ≡ server) × (server ≢ pos 0))
    → Register owner (route rounds foip_id server) (routed result) next
route-Register (some (value tt)) rounds foip_id server owner next moved won =
    let (same, nonzero) = won refl in rw same (routes nonzero)
route-Register none rounds foip_id server owner next (inl e) won = rw e (route_stays (λ h. cc h))
route-Register none rounds foip_id server owner next (inr e) won = rw e (route_moves (λ h. cc h))
route-Register (some (error f)) rounds foip_id server owner next (inl e) won =
    rw e (route_stays (λ h. cc h))
route-Register (some (error f)) rounds foip_id server owner next (inr e) won =
    rw e (route_moves (λ h. cc h))

Register-IsInt64 :
    {owner next : ℤ} {operation : Operation} {outcome : Outcome}
    → Register owner operation outcome next
    → IsCall operation
    → IsInt64 owner
    → IsInt64 next
Register-IsInt64 finds call small = small
Register-IsInt64 find_fails call small = small
Register-IsInt64 (routes nonzero) call small = call
Register-IsInt64 (route_stays h) call small = small
Register-IsInt64 (route_moves h) call small = call

module _ (net : Network) (base : Web) (initial : Provider) (client : Client)
    (speaks : Speaks net base client) where
  abbrev owner : Memory → ℤ
  owner m = (behind net base initial client m).owner

  abbrev hosted_web : Web
  hosted_web = web net base initial client

  run_operation-Register :
      (operation : Operation) (m : Memory)
      → IsCall operation
      → IsInt64 (owner m)
      → Register
          (owner m)
          operation
          (run_operation hosted_web client operation m).0
          (owner (run_operation hosted_web client operation m).1)
  unfolding run_operation
  run_operation-Register (find ip) m call small =
      let (same, listed) = find-owner net base initial client speaks ip m small in
      find-Register (find_failover_ip hosted_web client ip m).0 ip (owner m) _
        (ap (λ p. p.owner) same) listed
  run_operation-Register (route rounds foip_id server) m call small =
      let (moved, won) = route-owns net base initial client speaks rounds foip_id server m call in
      route-Register (route_failover_ip hosted_web client rounds foip_id server m).0 rounds foip_id
        server (owner m) _ moved won

  -- The client over the fake provider refines a register of the owner of the address, whatever
  -- requests get lost on the way or lose their answer, and whatever routes the provider fails. From
  -- any memory of the client, the outcomes of any sequence of FindFailoverIP and RouteFailoverIP are
  -- a run of the register from the provider's owner to the owner that the calls leave: a find that
  -- succeeds returns address 17 with the current owner and changes nothing, a route that succeeds
  -- makes its server, which is not 0, the owner, and a route that fails or runs out of polls leaves
  -- the owner or makes its server the owner. The owner and the servers are ints, the client alone
  -- calls the provider, and the URLs and JSON codecs agree as Speaks says.
  pub run-Registers :
      (operations : List Operation) (m : Memory)
      → All IsCall operations
      → IsInt64 (owner m)
      → Registers
          (owner m)
          operations
          (run hosted_web client operations m).0
          (owner (run hosted_web client operations m).1)
  unfolding run
  run-Registers [] m calls small = done
  run-Registers (operation ∷ operations) m calls small =
      let step = run_operation-Register operation m calls.0 small in
      then_does step (
        run-Registers operations (run_operation hosted_web client operation m).1 calls.1
          (Register-IsInt64 step calls.0 small))
