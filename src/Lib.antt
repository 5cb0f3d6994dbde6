-- ===== src/Lib.antt =====
-- foip-operator: moving a failover IP address between the nodes of a Kubernetes cluster, by a
-- persisted, make-before-break state machine.
--
-- The program has a cluster-wide controller (FailoverIpReconciler), an agent on every node
-- (NodeInterfaceReconciler), probes that gate the phases, a client of the hosting provider, and the
-- API types with their validation. The controller and the agents meet only in the status of the
-- FailoverIp resource: the agents read target and source and write the local owners, the controller
-- reads the local owners and writes everything else.
--
-- Where what is modelled:
--   * Api/Types: the records and enums of api/v1/failoverip_types.go. A Go string enum has a
--     constructor for the empty string and one for any string that the package does not name. A
--     time is a number of nanoseconds since the zero time; int and int32 are integers over native
--     numbers, and `++` on an int32 wraps around (inc32).
--   * Api/Status (with Laws and Gates), Api/Validate (with Laws), Api/Condition (with Laws):
--     api/v1/failoverip_state.go, one function for each function of the file, errors as data.
--   * Controller/Node and Controller/Scoring (with Order and Best): node_scoring.go.
--     Controller/Selection (with Laws): selection_policy.go. Controller/Safety (with Laws) and
--     Controller/Backoff: provider_safety.go, with the draw of rand.Int64N as a parameter. All of
--     these are in internal/controller.
--   * Controller/Env: what the controllers call and do not implement. An environment answers each
--     call (the API server, the provider, the probes, the clock, random numbers) from the trace of
--     all calls made before it, so that a statement for every environment holds for every behaviour
--     of the outside. An action returns its value and the longer trace.
--   * Controller/Recovery: internal/controller/recovery.go. Controller/Reconcile: the method
--     Reconcile of internal/controller/failoverip_controller.go, every early return a stage that
--     does not call the next one: Reconcile (start, validation, manual retries), Observe
--     (credentials, provider, fence, adoption), Select (the choice of a target), Prepare (the target
--     and the pre-route probes), Route (cooldown, mutation, verification), Finish (the phases behind
--     the routing). What is proved of it stands in Guard (the calls of the provider), Phases (the
--     writes of the status) and Steady (the phase Selecting, that no step handles). Controller/Watches (with
--     Changes): the predicate on node updates and the mappings to resources of the same file, where
--     slices.SortFunc is an insertion sort.
--   * Agent (with Interface, Laws, Reports and Watch):
--     internal/controller/nodeinterface_controller.go over a network stack and an API server that
--     are parameters.
--   * Netcup (with Errors and Tasks): internal/netcup/client.go over a web that is a parameter: it
--     answers each HTTP request from all calls made before it, and has the JSON decoders, the
--     encoders and the clock. What is proved stands in Confirmed (with Sending and Growing), Polling,
--     Finding and Retry.
--   * FakeProvider: cmd/fake-provider/main.go, the provider of the end-to-end tests, a function for each
--     handler. Hosting puts it behind the client's web: its state is what the requests of the trace
--     have left, over a network that says which requests arrive and which answers come back, and
--     that has the parser of URLs and the JSON codecs. What is proved stands in Register (with
--     Effects, Listing and Routing) and in Retries (with Serving and Answers).
--   * NetcupAuth: cmd/netcup-auth/main.go over a world that answers each call from all calls before it
--     (with Polling and Deadline).
--   * System (with Sound, Serving, Reporting and Handoff): the two controllers together, as steps on
--     the stored object and the hosts of the nodes. A step is one whole run of an agent or of the
--     failover controller, whose calls the API server answers from the store and whose writes it
--     stores (after an error, stores or not), or a change of the specification that leaves the
--     address as it is; runs do not overlap, and a node keeps its MAC.
--   * Probe (with Laws): Aggregate of internal/probe/executor.go, and the thresholds and stored
--     observations of internal/controller/probe_checks.go. Probe/Policy (with Allowed):
--     internal/probe/policy.go over a resolver, parsers and a dialer that are parameters; what the
--     resolver and the dialer answer depends on the moment of the call, and an address is the number of its 32 or 128 bits. Probe/Phase (with Gate): evaluateProbePhase and
--     resolveProbeSpec of internal/controller/probe_checks.go over the answers that the API server
--     and the executors give during one evaluation.
--     Probe/Executor (with Http and Session): the network executors of internal/probe/executor.go,
--     over the packages net, crypto/tls and net/http as parameters; a request of net/http is a tree
--     of the connections and the redirects for which it calls DialContext and CheckRedirect. What is
--     proved stands in Asked (the request of a probe), Reached (with Cases and Reach), Passed and
--     Total. Each lookup of a run has a moment of its own. Probe/Kubernetes (with
--     Ready): internal/probe/kubernetes.go over a reader of objects. Probe/Evidence (with Gate):
--     evaluateProbePhase with these executors in place of parameters; a panic of an executor, after
--     which the program evaluates nothing more, counts there as a failed run.
--   * Observability (with Events): the event deduper of internal/observability/observability.go.
--     Observability/Metrics (with Cardinality and Gauge):
--     internal/observability/metrics.go, each call as the samples that it records. Observability/Tracing: the attributes and the exporter that Setup
--     chooses.
--   * Prelude: library names passed on, tests on native numbers and strings, integers, the decimal
--     texts of strconv and fmt. Tests: witnesses and runs at concrete inputs.
--
-- Loops are structural recursion; the verification loop of the route recurses on its attempts,
-- fifteen in the source, so that no fuel is involved. Two polling loops have no bound of their own and
-- recurse on rounds: that of the provider's client, where the end of the context bounds the rounds,
-- and that of the device flow, where the deadline does; a theorem for each says how many suffice.
--
-- Not modelled: logs, spans and the redaction of texts; the wiring of the managers, cmd/foip and
-- cmd/node-interface; generated code. Of an event that the controller emits the trace has the call of
-- emitEvent, whether or not the deduper lets it through, and the controllers' calls of the metrics
-- are left out. The controller's environment answers FindFailoverIP, RouteFailoverIP and
-- evaluateProbePhase; Netcup and Probe/Phase model them on their own, and Probe/Phase takes the
-- executors as a parameter, for which Probe/Evidence puts those of internal/probe.
pub mod Prelude
pub mod Api
pub mod Controller
pub mod Netcup
pub mod FakeProvider
pub mod NetcupAuth
pub mod System
pub mod Agent
pub mod Probe
pub mod Observability
mod Tests
