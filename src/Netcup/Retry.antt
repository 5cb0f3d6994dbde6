-- ===== src/Netcup/Retry.antt =====
-- The classes of the provider's errors, and the header Retry-After.
use foip_operator.Prelude.{
  ℕ, ◌-◌, ◌*◌, ◌||◌, ◌==◌, ltb, leb, pos, negsuc, String, true, false, Option, some, ◌≡◌, ◌↔◌, refl,
  arith,
}
use foip_operator.Prelude.Text.{atoi}
use foip_operator.Netcup.Errors.{
  ErrorClass, transient, rate_limited, authentication, validation, terminal, class_of,
  classify_http_error, wrap64, seconds, trim_space, parse_retry_after,
}

-- What the status of a response says of its class.
abbrev pub Means : ErrorClass → ℕ → Type 0
Means authentication status = (status == 401 || status == 403) ≡ true
Means rate_limited status = (status == 429) ≡ true
Means transient status = leb 500 status ≡ true
Means validation status =
    (leb 400 status ≡ true)
    × (leb 500 status ≡ false)
    × ((status == 401 || status == 403) ≡ false)
    × ((status == 429) ≡ false)
Means terminal status = leb 400 status ≡ false

-- classifyHTTPError gives each status the one class that it means, and keeps the status: 401 and 403
-- are Authentication, 429 is RateLimited, the others from 500 on are Transient, from 400 on
-- Validation, and below Terminal.
classify_http_error_iff :
    (status : ℕ) (c : ErrorClass)
    → (((classify_http_error status).class ≡ c) ↔ Means c status)
      × ((classify_http_error status).status_code ≡ status)
unfolding classify_http_error class_of
classify_http_error_iff status authentication = (ground arith, refl)
classify_http_error_iff status rate_limited = (ground arith, refl)
classify_http_error_iff status transient = (ground arith, refl)
classify_http_error_iff status validation = (ground arith, refl)
classify_http_error_iff status terminal = (ground arith, refl)

-- A Retry-After in seconds is read exactly up to 9223372036 seconds; from the next second up to
-- 18446744073 seconds the product overflows, and the duration is negative.
pub parse_retry_after_seconds :
    (parse_time : String → Option ℕ) (header : String) (now n : ℕ)
    → atoi (trim_space header) ≡ some (pos n)
    → (leb n 9223372036 ≡ true → parse_retry_after parse_time header now ≡ pos (n * 1000000000))
      × (ltb 9223372036 n ≡ true
          → leb n 18446744073 ≡ true
          → (d : ℕ) × (parse_retry_after parse_time header now ≡ negsuc d))
unfolding parse_retry_after seconds wrap64
parse_retry_after_seconds parse_time header now n read =
    rw (read, parse_retry_after)
      (
        λ short. ground (arith, short),
        λ long bound. (18446744073709551615 - n * 1000000000, ground (arith, long, bound)),
      )
