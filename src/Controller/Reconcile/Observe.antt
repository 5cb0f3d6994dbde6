-- ===== src/Controller/Reconcile/Observe.antt =====
-- The reads of Reconcile in internal/controller/failoverip_controller.go: credentials, the provider,
-- the nodes, the fence and the adoption of the observed owner.
use Prim.Native.String.{◌++◌}
use foip_operator.Prelude.{
  ℤ, String, Bool, not, ◌&&◌, ◌||◌, Option, none, some, List, if◌then◌else◌, str_eq,
}
use foip_operator.Prelude.Text.{itoa, sscanf_int}
use foip_operator.Api.Types.{blocked, condition_true, FailoverIpStatus, FailoverIp}
use foip_operator.Api.Condition.{condition_blocked}
use foip_operator.Controller.Node.{Node}
use foip_operator.Controller.Scoring.{node_for_server_id, server_id_for_node}
use foip_operator.Controller.Safety.{validate_provider_fence}
use foip_operator.Controller.Env.{
  M, Result, ok, err, Secret, Route, Outcome, failed, ◌>>=◌, ◌>>◌, pure, now, emit, warning,
  connect, fetch_secret, fetch_nodes, find, patch, or_return,
}
use foip_operator.Controller.Reconcile.Base.{plain, wrap, mark}
use foip_operator.Controller.Reconcile.Select.{select_target}

-- The target that an empty target takes from the provider's owner.
abbrev pub adopt_owner : FailoverIpStatus → Option Node → FailoverIpStatus
adopt_owner s none = s
adopt_owner s (some owner) = record s {
  target_node = owner.name;
  candidate_reason = "current provider owner observed";
}

-- The observed owner, and the adopted target.
unfoldable pub observe_owner : FailoverIpStatus → List Node → ℤ → FailoverIpStatus
observe_owner s nodes current =
    let seen : FailoverIpStatus = record s { provider_observed_owner = itoa current } in
    if str_eq s.target_node "" then adopt_owner seen (node_for_server_id nodes current) else seen

-- What is patched only if it changes the status: an adopted target (with a name) or another owner.
unfoldable pub adoption_needed : FailoverIpStatus → List Node → ℤ → Bool
adoption_needed s nodes current =
    (str_eq s.target_node "" && not (str_eq (observe_owner s nodes current).target_node ""))
    || not (str_eq s.provider_observed_owner (itoa current))

unfoldable pub adopt : FailoverIp → Route → List Node → M Outcome
adopt foip found nodes =
    let seen : FailoverIp = record foip {
      status = observe_owner foip.status nodes found.server_id;
    } in
    if adoption_needed foip.status nodes found.server_id
    then patch foip seen (λ stored. select_target stored found.foip_id found.server_id nodes)
    else select_target seen found.foip_id found.server_id nodes

-- The fence refused the observed owner.
unfoldable pub fence_refused : FailoverIp → String → M Outcome
fence_refused foip reason =
    let status : FailoverIpStatus = record (foip.status) { phase = blocked; last_error = reason } in
    do
      at ← now
      emit warning "ProviderOwnershipChanged" "Blocked transition after provider ownership changed"
      patch foip
          (mark (record foip { status = status }) condition_blocked condition_true
            "ProviderOwnershipChanged" "Provider ownership changed out of band" at)
          (λ _. pure (failed (plain reason)))

-- The provider fence, over the list of nodes.
unfoldable pub with_nodes : FailoverIp → Route → List Node → M Outcome
with_nodes foip found nodes =
    elim (validate_provider_fence foip.status (itoa found.server_id)
      (server_id_for_node nodes foip.status.target_node)) [
        | some reason ↦ fence_refused foip reason
        | none ↦ adopt foip found nodes
      ]

-- The provider's answer.
unfoldable pub with_route : FailoverIp → Result Route → M Outcome
with_route foip (err e) = pure (failed (wrap "findFailoverIP: " e))
with_route foip (ok found) = do nodes ← fetch_nodes; or_return nodes (with_nodes foip found)

-- The credentials.
unfoldable pub with_secret : FailoverIp → Result Secret → M Outcome
with_secret foip (err e) =
    pure (failed (wrap ("fetching secret " ++ foip.spec.secret_name ++ ": ") e))
with_secret foip (ok secret) =
    if str_eq secret.refresh_token "" || str_eq secret.user_id ""
    then pure
        (failed (plain ("secret " ++ foip.spec.secret_name ++ " missing refreshToken or userId")))
    else elim (sscanf_int secret.user_id) [
      | none ↦
          pure (failed (plain ("secret " ++ foip.spec.secret_name ++ ": userId is not an integer")))
      | some user ↦ do
        connect user secret.refresh_token
        found ← find foip.spec.ip
        with_route foip found
    ]

unfoldable pub observe_provider : FailoverIp → M Outcome
observe_provider foip = do secret ← fetch_secret foip.spec.secret_name; with_secret foip secret
