-- ===== src/Tests/Programs.antt =====
-- The device flow, the metrics and the exporter of traces at concrete inputs.
use foip_operator.Prelude.{
  ℕ, suc, ◌+◌, ◌*◌, ◌≤◌, leb, ℤ, pos, String, str_eq, some, [], ◌∷◌, ◌++◌, All, ◌≡◌, ◌≢◌, ◌⊎◌, refl,
  if◌then◌else◌, arith,
}
use foip_operator.Netcup.{parsed}
use foip_operator.Netcup.Errors.{trim_left, trim_right, is_space}
use foip_operator.NetcupAuth.{
  World, Trace, Call, look, sleep, post, fetch, answered, TokenResponse, Result, poll_for_token,
}
use foip_operator.NetcupAuth.Polling.{Finished}
use foip_operator.NetcupAuth.Deadline.{Ticks, poll_for_token-ends}
use foip_operator.Observability.Metrics.{Observation, samples, observe_phase_state}
use foip_operator.Api.Types.{phase_text, selecting, stabilizing}
use foip_operator.Observability.Cardinality.{IsBounded, samples-IsBounded}
use foip_operator.Observability.Gauge.{phase_gauge, observe_phase_state-gauge}
use foip_operator.Observability.Tracing.{
  Surroundings, new_trace_exporter, exporter_to, target_of, target_of_scheme, is_insecure,
  endpoint_of, Asked, IsPlain, env, new_trace_exporter-insecure,
}

-- A second passes for every sleep, and the user is not done before the third request.
abbrev posts : Trace → ℕ
posts [] = 0
posts (post url fields ∷ t) = suc (posts t)
posts (_ ∷ t) = posts t

abbrev slept : Trace → ℕ
slept [] = 0
slept (sleep (pos d) ∷ t) = slept t + d
slept (_ ∷ t) = slept t

abbrev world : World
world = record {
  clock = slept;
  post_form =
      λ t url fields. if leb 2 (posts t) then answered 200 "token" else answered 400 "slow_down";
  get = λ t url authorization. answered 200 "user";
  device_of = λ body. parsed (record {
    device_code = "code";
    user_code = "ABCD";
    verification_uri_complete = "https://example.org";
    expires_in = pos 600;
    interval = pos 5;
  });
  token_of = λ body. parsed (record { access_token = "access"; refresh_token = "refresh" });
  error_of = λ body. body;
  members_of = λ body. parsed (("sub", "user-1") ∷ []);
  text_of = λ raw. parsed raw;
  quote = λ text. text;
}

forward : (c : Call) (t : Trace) → slept t ≤ slept (c ∷ t)
forward look t = omega arith
forward (sleep (pos d)) t = omega arith
forward (sleep (ℤ.negsuc d)) t = omega arith
forward (post url fields) t = omega arith
forward (fetch url authorization) t = omega arith

ticks : Ticks world
ticks = record { forward = forward; sleeps = λ d t. omega arith }

poll_for_token-ends_example :
    (result : Result TokenResponse) × (later : Trace) × ((more : ℕ)
      → poll_for_token world (suc (120 + more)) "code" (pos 5) (pos 600) [] ≡ (some result, later))
    × Finished "code" (pos (5 * 1000000000)) (look ∷ []) later
poll_for_token-ends_example =
    poll_for_token-ends world "code" 120 5 600 [] ticks refl refl (omega arith)

samples-IsBounded_example :
    All IsBounded (samples (Observation.reconciled "203.0.113.7" "success" (pos 5)))
samples-IsBounded_example =
    samples-IsBounded (Observation.reconciled "203.0.113.7" "success" (pos 5))

observe_phase_state-gauge_example :
    phase_gauge (observe_phase_state "Stabilizing" ++ observe_phase_state "Selecting") "Selecting"
    ≡ some (pos 0)
unfolding str_eq phase_text
observe_phase_state-gauge_example =
    observe_phase_state-gauge stabilizing selecting (observe_phase_state "Selecting") refl refl

abbrev os : Surroundings
os = record {
  getenv =
      λ name. if str_eq name "OTEL_EXPORTER_OTLP_ENDPOINT" then "http://collector:4317" else "";
  hostname = "node-a";
  parse_url = λ text. some ("http", "collector:4317");
  equal_fold = str_eq;
  quote = λ text. text;
}

new_trace_exporter-insecure_example :
    (endpoint_of os ≢ "")
    × (◌≢◌ {A = String} "collector:4317" "")
    × (Asked os ⊎ ((env os "OTEL_EXPORTER_OTLP_INSECURE" ≡ "") × IsPlain os))
unfolding new_trace_exporter exporter_to target_of target_of_scheme is_insecure endpoint_of
    trim_left trim_right is_space str_eq
new_trace_exporter-insecure_example = new_trace_exporter-insecure os "collector:4317" refl
