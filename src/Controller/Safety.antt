-- ===== src/Controller/Safety.antt =====
-- internal/controller/provider_safety.go: the cooldown gate, the retry delay and the fences.
pub mod Laws
use Prim.Native.String.{◌++◌}
use foip_operator.Prelude.{
  ℕ, ℤ, ◌+◌, ◌*◌, String, Bool, true, false, not, ◌&&◌, Option, none, some, is_pos, to_nat, leb,
  ltb, if◌then◌else◌, str_eq,
}
use foip_operator.Api.Types.{FailoverIpSpec, FailoverIpStatus}
use foip_operator.Controller.Backoff.{backoff, nanoseconds, minute}

-- The earliest time of a mutation, and whether it has come; the zero time is 0.
unfoldable pub provider_mutation_gate : FailoverIpStatus → ℕ → ℕ → ℕ × Bool
provider_mutation_gate s cooldown now = elim s.last_attempted_provider_mutation_at [
  | none ↦ (0, true)
  | some last ↦ (last + cooldown, leb (last + cooldown) now)
]

unfoldable pub provider_cooldown : FailoverIpSpec → ℕ
provider_cooldown s =
    if not (is_pos s.provider_cooldown_seconds)
    then minute
    else to_nat s.provider_cooldown_seconds * nanoseconds

-- A setting in seconds, or its default.
unfoldable pub setting : ℤ → ℕ → ℕ
setting seconds default = if is_pos seconds then to_nat seconds * nanoseconds else default

-- `base` and `max` of retryDelay.
unfoldable pub retry_base : FailoverIpSpec → ℕ
unfolding setting
retry_base s = setting s.retry_base_seconds (2 * nanoseconds)

unfoldable pub retry_limit : FailoverIpSpec → ℕ
unfolding setting
retry_limit s =
    let limit = setting s.retry_max_seconds minute in
    if ltb limit (retry_base s) then retry_base s else limit

-- The delay of retryDelay before its jitter.
unfoldable pub retry_ceiling : FailoverIpSpec → ℤ → ℕ
retry_ceiling s retry_count = backoff (to_nat retry_count) (retry_base s) (retry_limit s)

-- `random` is what rand.Int64N returns for the ceiling plus one.
unfoldable pub retry_delay : FailoverIpSpec → ℤ → (ℕ → ℕ) → ℕ
retry_delay s retry_count random =
    let jitter = random (retry_ceiling s retry_count + 1) in
    if ltb jitter nanoseconds then nanoseconds else jitter

-- The text of the fences' error.
fence_error : String → String → String
fence_error known observed =
    "provider owner changed out of band from " ++ known ++ " to " ++ observed

unfoldable pub validate_provider_fence : FailoverIpStatus → String → String → Option String
unfolding fence_error
validate_provider_fence s observed expected =
    if not (str_eq s.provider_observed_owner "")
      && not (str_eq s.provider_observed_owner observed)
      && not (str_eq observed expected)
    then some (fence_error s.provider_observed_owner observed)
    else none

unfoldable pub validate_provider_recovery_fence : FailoverIpStatus → String → String → Option String
unfolding fence_error
validate_provider_recovery_fence s observed expected =
    if not (str_eq s.provider_observed_owner "")
      && not (str_eq s.provider_observed_owner observed)
      && not (str_eq observed expected)
    then some (fence_error s.provider_observed_owner observed)
    else none
