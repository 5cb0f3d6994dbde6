-- ===== src/Controller/Backoff.antt =====
-- The doubling loop that retryDelay of internal/controller/provider_safety.go and cleanupRetryDelay
-- of internal/controller/selection_policy.go share. A duration is a number of nanoseconds.
use foip_operator.Prelude.{
  ℕ, zero, suc, ◌*◌, ◌^◌, ◌≤◌, ◌<◌, min, ◌≡◌, refl, sym, arith, ltb, if◌then◌else◌,
}
use native.Mathlib.Nat.{pow-suc, mul_assoc, mul_comm}

abbrev pub nanoseconds : ℕ
nanoseconds = 1000000000

abbrev pub minute : ℕ
minute = 60000000000

-- `for …; delay < limit; { delay *= 2; if delay > limit { delay = limit } }` with the rounds that
-- its counter leaves.
unfoldable pub backoff : ℕ → ℕ → ℕ → ℕ
backoff zero delay limit = delay
backoff (suc rounds) delay limit =
    let rest = backoff rounds (if ltb limit (delay * 2) then limit else delay * 2) limit in
    if ltb delay limit then rest else delay

-- With the delay at the limit or above it the loop does nothing.
pub backoff_done : (rounds delay limit : ℕ) → limit ≤ delay → backoff rounds delay limit ≡ delay
unfolding backoff
backoff_done zero delay limit h = refl
backoff_done (suc rounds) delay limit h = ground arith

-- The loop stays between its start and its limit, and never doubles a delay that has reached it.
pub backoff_bounds :
    (rounds delay limit : ℕ)
    → delay ≤ limit
    → (delay ≤ backoff rounds delay limit) × (backoff rounds delay limit ≤ limit)
unfolding backoff
backoff_bounds zero delay limit h = (omega arith, h)
backoff_bounds (suc rounds) delay limit h =
    ground (arith, backoff_bounds rounds (delay * 2) limit, backoff_bounds rounds limit limit)

double-pow : (delay rounds : ℕ) → delay * 2 ^ suc rounds ≡ delay * 2 * 2 ^ rounds
double-pow delay rounds =
    rw (pow-suc, mul_comm (2 ^ rounds) 2) (sym (mul_assoc delay 2 (2 ^ rounds)))

pow_pos : (rounds : ℕ) → 0 < 2 ^ rounds
pow_pos zero = omega arith
pow_pos (suc rounds) = omega (arith, pow-suc 2 rounds, pow_pos rounds)

le-mul : (a b : ℕ) → 0 < b → a ≤ a * b
le-mul a zero h = elim h [ ]
le-mul a (suc b) h = omega arith

-- The loop computes the delay doubled in each round, capped at the limit.
pub backoff_closed :
    (rounds delay limit : ℕ)
    → delay ≤ limit
    → backoff rounds delay limit ≡ min (delay * 2 ^ rounds) limit
unfolding backoff
backoff_closed zero delay limit h = omega arith
backoff_closed (suc rounds) delay limit h = ground (
  arith,
  double-pow delay rounds,
  le-mul (delay * 2) (2 ^ rounds) (pow_pos rounds),
  backoff_done rounds limit limit,
  backoff_done rounds delay limit,
  backoff_closed rounds (delay * 2) limit,
)
