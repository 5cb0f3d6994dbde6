-- ===== src/Controller/Safety/Laws.antt =====
-- The retry delay and the gates of a provider mutation.
use foip_operator.Prelude.{
  ℕ, ℤ, ◌+◌, ◌*◌, ◌^◌, ◌≤◌, ◌<◌, min, max, ◌≡◌, refl, ◌↔◌, ◌⊎◌, String, true, none, some, to_nat,
  arith, str_eq_iff, Option-cases, inl, inr,
}
use foip_operator.Api.Types.{FailoverIpSpec, FailoverIpStatus}
use foip_operator.Controller.Backoff.{backoff_closed, backoff_bounds, nanoseconds, minute}
use foip_operator.Controller.Safety.{
  provider_mutation_gate, setting, retry_base, retry_limit, retry_ceiling, retry_delay,
  validate_provider_fence, validate_provider_recovery_fence,
}

-- A setting in nanoseconds is that of an int32 number of seconds.
abbrev longest : ℕ
longest = 2147483647 * nanoseconds

setting_bounds :
    (seconds : ℤ) (default : ℕ)
    → to_nat seconds ≤ 2147483647
    → nanoseconds ≤ default
    → default ≤ longest
    → (nanoseconds ≤ setting seconds default) × (setting seconds default ≤ longest)
unfolding setting
setting_bounds s d h lo hi = ground arith

retry_base-le-limit : (s : FailoverIpSpec) → retry_base s ≤ retry_limit s
unfolding retry_limit
retry_base-le-limit s = ground arith

-- The ceiling of the retry delay is the base doubled in each retry, capped at the limit, which is
-- the larger of the base and the maximum.
retry_ceiling_closed :
    (s : FailoverIpSpec) (retries : ℤ)
    → (retry_ceiling s retries ≡ min (retry_base s * 2 ^ to_nat retries) (retry_limit s))
      × (retry_limit s ≡ max (setting s.retry_max_seconds minute) (retry_base s))
unfolding retry_ceiling retry_limit
retry_ceiling_closed s retries =
    (backoff_closed (to_nat retries) _ _ (retry_base-le-limit s), ground arith)

retry_limit_bounds :
    (s : FailoverIpSpec)
    → to_nat s.retry_base_seconds ≤ 2147483647
    → to_nat s.retry_max_seconds ≤ 2147483647
    → (nanoseconds ≤ retry_base s) × (retry_limit s ≤ longest)
unfolding retry_base retry_limit
retry_limit_bounds s b m = ground (
  arith,
  setting_bounds s.retry_base_seconds (2 * nanoseconds) b,
  setting_bounds s.retry_max_seconds minute m,
)

-- With an int32 base and maximum, and a random number below its argument, a retry waits at least a
-- second, at most its ceiling (or a second), and the ceiling is a duration of an int32 number of
-- seconds, so that no doubling of it passes 2 ^ 63.
pub retry_delay_bounds :
    (s : FailoverIpSpec) (retries : ℤ) (random : ℕ → ℕ)
    → to_nat s.retry_base_seconds ≤ 2147483647
    → to_nat s.retry_max_seconds ≤ 2147483647
    → ((n : ℕ) → 0 < n → random n < n)
    → (nanoseconds ≤ retry_delay s retries random)
      × (retry_delay s retries random ≤ max nanoseconds (retry_ceiling s retries))
      × (retry_ceiling s retries * 2 < 2 ^ 63)
unfolding retry_delay
retry_delay_bounds s retries random base limit r =
    let within = backoff_bounds (to_nat retries) _ _ (retry_base-le-limit s) in
    let small = retry_limit_bounds s base limit in
    let drawn = r (retry_ceiling s retries + 1) (omega arith) in
    (ground arith, unfold retry_ceiling in ground arith, unfold retry_ceiling in omega arith)

-- The gate is open exactly if no mutation was attempted, or the cooldown has passed since the last
-- attempt.
pub provider_mutation_gate_iff :
    (s : FailoverIpStatus) (cooldown now : ℕ)
    → ((provider_mutation_gate s cooldown now).1 ≡ true) ↔ (
        (s.last_attempted_provider_mutation_at ≡ none)
        ⊎ ((last : ℕ) × (s.last_attempted_provider_mutation_at ≡ some last)
            × (last + cooldown ≤ now)))
unfolding provider_mutation_gate
provider_mutation_gate_iff s cooldown now =
    elim (Option-cases s.last_attempted_provider_mutation_at) [
      | inl e ↦ (λ h. inl e, λ h. ground arith)
      | inr (last, e) ↦ (λ h. inr (last, e, ground arith), λ h. ground arith)
    ]

-- Both fences let through exactly three observations: the first one, the owner that the status
-- records, and the one owner that is expected.
pub fence_iff :
    (s : FailoverIpStatus) (observed expected : String)
    → ((validate_provider_fence s observed expected ≡ none) ↔ (
        (s.provider_observed_owner ≡ "")
        ⊎ (s.provider_observed_owner ≡ observed)
        ⊎ (observed ≡ expected)))
      × (validate_provider_recovery_fence s observed expected
          ≡ validate_provider_fence s observed expected)
unfolding validate_provider_fence validate_provider_recovery_fence
fence_iff s observed expected =
    let known = str_eq_iff s.provider_observed_owner "" in
    let same = str_eq_iff s.provider_observed_owner observed in
    let meant = str_eq_iff observed expected in
    ((λ h. ground (arith, known, same, meant), λ h. ground (arith, known, same, meant)), refl)
