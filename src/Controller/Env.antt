-- ===== src/Controller/Env.antt =====
-- The calls that the failover controller makes of the API server, the provider, the probes and the
-- clock (the client, failoverIPClient and time parameters of
-- internal/controller/failoverip_controller.go). An environment answers each call from all calls
-- made before it, so that it stands for any behaviour of what the controller does not implement.
use foip_operator.Prelude.{ℕ, ℤ, String, Option, List, ◌∷◌, ◌≡◌, refl, ◌⊎◌, inl, inr}
use foip_operator.Api.Types.{FailoverIp, ProbePhase}
use foip_operator.Controller.Node.{Node}

-- An error: its text, and the RetryAfter of the netcup.ProviderError that it wraps, if any.
pub record Error : Type 0 where
  pub text : String
  pub retry_after : Option ℕ

pub data Result {ℓ} (A : Type ℓ) : Type ℓ where
  ok : A → Result A
  err : Error → Result A

pub Result-cases {ℓ} :
    {A : Type ℓ} (r : Result A) → ((e : Error) × (r ≡ err e)) ⊎ ((a : A) × (r ≡ ok a))
Result-cases (ok a) = inr (a, refl)
Result-cases (err e) = inl (e, refl)

pub data EventType : Type 0 where
  normal warning : EventType

-- The data of the credentials Secret; an absent key is the empty string.
pub record Secret : Type 0 where
  pub refresh_token : String
  pub user_id : String

-- What FindFailoverIP returns.
pub record Route : Type 0 where
  pub foip_id : ℤ
  pub server_id : ℤ

pub data Call : Type 0 where
  read_clock new_uuid get_foip list_nodes : Call
  get_secret : String → Call
  get_node : String → Call
  find_failover_ip : String → Call
  -- the resource's id and the server to route to
  route_failover_ip : ℤ → ℤ → Call
  -- the object that the patch is computed against, and the object patched
  patch_status : FailoverIp → FailoverIp → Call
  update_status : FailoverIp → Call
  evaluate_probes : FailoverIp → ProbePhase → Call
  emit_event : EventType → String → String → Call
  wait_interval : Call
  -- newFailoverIPClient with the user and the refresh token
  new_client : ℤ → String → Call

-- The calls made so far, the newest first.
abbrev pub Trace : Type 0
Trace = List Call

pub record Env : Type 0 where
  pub clock : Trace → ℕ
  pub uuid : Trace → String
  -- rand.Int64N
  pub random : Trace → ℕ → ℕ
  -- none: the resource is not found
  pub foip : Trace → Result (Option FailoverIp)
  pub nodes : Trace → Result (List Node)
  pub secret : Trace → String → Result Secret
  pub node : Trace → String → Result Node
  pub find : Trace → String → Result Route
  pub route : Trace → ℤ → ℤ → Result (Unit {0})
  -- the object that the server returns
  pub patch : Trace → FailoverIp → FailoverIp → Result FailoverIp
  pub update : Trace → FailoverIp → Result FailoverIp
  -- the error of evaluateProbePhase
  pub probes : Trace → FailoverIp → ProbePhase → Result (Unit {0})
  -- whether the context is still alive when the interval has passed
  pub wait : Trace → Result (Unit {0})

-- An action reads the environment and the trace, and makes calls.
abbrev pub M {ℓ} : Type ℓ → Type ℓ
M A = Env → Trace → A × Trace

infixl 5 ◌>>=◌ ◌>>◌
abbrev pub ◌>>=◌ {ℓ κ} : {A : Type ℓ} {B : Type κ} → M A → (A → M B) → M B
◌>>=◌ m f env t = let (a, later) = m env t in f a env later

abbrev pub ◌>>◌ {ℓ κ} : {A : Type ℓ} {B : Type κ} → M A → M B → M B
m >> k = m >>= λ _. k

abbrev pub pure {ℓ} : {A : Type ℓ} → A → M A
pure a env t = (a, t)

-- ctrl.Result with its RequeueAfter in nanoseconds, or the error of the reconcile.
pub data Outcome : Type 0 where
  requeue : ℤ → Outcome
  failed : Error → Outcome

abbrev pub now : M ℕ
now env t = (env.clock t, read_clock ∷ t)

abbrev pub fresh_uuid : M String
fresh_uuid env t = (env.uuid t, new_uuid ∷ t)

abbrev pub random : M (ℕ → ℕ)
random env t = (env.random t, t)

abbrev pub connect : ℤ → String → M (Unit {0})
connect user token env t = (tt, new_client user token ∷ t)

abbrev pub emit : EventType → String → String → M (Unit {0})
emit type reason message env t = (tt, emit_event type reason message ∷ t)

-- `if err != nil { return ctrl.Result{}, err }`.
abbrev pub or_return {ℓ} : {A : Type ℓ} → Result A → (A → M Outcome) → M Outcome
or_return (ok a) k = k a
or_return (err e) k = pure (failed e)

abbrev pub fetch_foip : M (Result (Option FailoverIp))
fetch_foip env t = (env.foip t, get_foip ∷ t)

abbrev pub fetch_nodes : M (Result (List Node))
fetch_nodes env t = (env.nodes t, list_nodes ∷ t)

abbrev pub fetch_node : String → M (Result Node)
fetch_node name env t = (env.node t name, get_node name ∷ t)

abbrev pub fetch_secret : String → M (Result Secret)
fetch_secret name env t = (env.secret t name, get_secret name ∷ t)

abbrev pub find : String → M (Result Route)
find ip env t = (env.find t ip, find_failover_ip ip ∷ t)

abbrev pub route : ℤ → ℤ → M (Result (Unit {0}))
route id server env t = (env.route t id server, route_failover_ip id server ∷ t)

abbrev pub probe : FailoverIp → ProbePhase → M (Result (Unit {0}))
probe foip phase env t = (env.probes t foip phase, evaluate_probes foip phase ∷ t)

abbrev pub wait : M (Result (Unit {0}))
wait env t = (env.wait t, wait_interval ∷ t)

-- Status().Patch: the rest goes on with the object that the server returns.
abbrev pub patch : FailoverIp → FailoverIp → (FailoverIp → M Outcome) → M Outcome
patch base foip k env t = or_return (env.patch t base foip) k env (patch_status base foip ∷ t)

abbrev pub update : FailoverIp → (FailoverIp → M Outcome) → M Outcome
update foip k env t = or_return (env.update t foip) k env (update_status foip ∷ t)
