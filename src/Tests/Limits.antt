-- ===== src/Tests/Limits.antt =====
-- The delays, the gates and the fences.
use foip_operator.Prelude.{ℕ, String, pos, ◌*◌, ◌^◌, ◌≤◌, ◌<◌, max, some, arith}
use foip_operator.Api.Types.{FailoverIpStatus, stabilizing}
use foip_operator.Controller.Backoff.{nanoseconds}
use foip_operator.Controller.Safety.{retry_ceiling, retry_delay}
use foip_operator.Controller.Safety.Laws.{retry_delay_bounds}
use foip_operator.Tests.Data.{spec, status_in}

-- rand.Int64N, always drawing zero.
abbrev draw : ℕ → ℕ
draw n = 0

retry_delay_bounds_example :
    (nanoseconds ≤ retry_delay spec (pos 3) draw)
    × (retry_delay spec (pos 3) draw ≤ max nanoseconds (retry_ceiling spec (pos 3)))
    × (retry_ceiling spec (pos 3) * 2 < 2 ^ 63)
retry_delay_bounds_example =
    retry_delay_bounds spec (pos 3) draw (omega arith) (omega arith) (λ n positive. positive)

abbrev attempted : FailoverIpStatus
attempted = record (status_in stabilizing) { last_attempted_provider_mutation_at = some 100 }

abbrev observed : String
observed = "3"

abbrev expected : String
expected = "2"

abbrev waiting : FailoverIpStatus
waiting = record (status_in stabilizing) { candidate_since = some 100 }
