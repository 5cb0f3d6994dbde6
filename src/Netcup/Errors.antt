-- ===== src/Netcup/Errors.antt =====
-- The errors of internal/netcup/client.go and the time after which to try again.
use Prim.Native.Char.{code}
use Prim.Native.String.{◌++◌}
use foip_operator.Prelude.{
  ℕ, ◌+◌, ◌-◌, ◌*◌, ◌%◌, ◌==◌, ltb, leb, ℤ, pos, negsuc, sub_ℕ, String, str_eq, Bool, ◌&&◌, ◌||◌,
  Option, none, some, if◌then◌else◌, is_neg,
}
use foip_operator.Prelude.Text.{itoa, atoi}

pub data ErrorClass : Type 0 where
  transient rate_limited authentication validation terminal : ErrorClass

pub record ProviderError : Type 0 where
  pub class : ErrorClass
  pub status_code : ℕ
  pub retry_after : ℤ
  pub message : String

-- An error: a ProviderError, or any other by its text.
pub data Failure : Type 0 where
  provider : ProviderError → Failure
  other : String → Failure

unfoldable pub class_of : ℕ → ErrorClass
class_of status =
    if status == 401 || status == 403
    then authentication
    else if status == 429
    then rate_limited
    else if leb 500 status
    then transient
    else if leb 400 status
    then validation
    else terminal

unfoldable pub classify_http_error : ℕ → ProviderError
classify_http_error status = record {
  class = class_of status;
  status_code = status;
  retry_after = pos 0;
  message = "provider request failed with HTTP " ++ itoa (pos status);
}

-- An integer as an int64, which wraps around.
unfoldable pub wrap64 : ℤ → ℤ
wrap64 (pos n) =
    let m = n % 18446744073709551616 in
    if ltb m 9223372036854775808 then pos m else negsuc (18446744073709551615 - m)
wrap64 (negsuc n) =
    let m = n % 18446744073709551616 in
    if ltb m 9223372036854775808 then negsuc m else pos (18446744073709551615 - m)

-- n - k on an int.
unfoldable pub sub_int : ℤ → ℕ → ℤ
sub_int (pos n) k = wrap64 (sub_ℕ n k)
sub_int (negsuc n) k = wrap64 (negsuc (n + k))

-- time.Duration(n) * time.Second.
unfoldable pub seconds : ℤ → ℤ
seconds (pos n) = wrap64 (pos (n * 1000000000))
seconds (negsuc n) = wrap64 (negsuc ((n + 1) * 1000000000 - 1))

-- unicode.IsSpace.
unfoldable pub is_space : ℕ → Bool
is_space c =
    (leb 9 c && leb c 13)
    || c == 32
    || c == 0x85
    || c == 0xa0
    || c == 0x1680
    || (leb 0x2000 c && leb c 0x200a)
    || c == 0x2028
    || c == 0x2029
    || c == 0x202f
    || c == 0x205f
    || c == 0x3000

-- A text without the characters at its end that pass the test.
unfoldable pub trim_right : (ℕ → Bool) → String → String
trim_right cut String.[] = ""
trim_right cut (String.◌∷◌ c s) =
    let rest = trim_right cut s in if str_eq rest "" && cut (code c) then "" else String.◌∷◌ c rest

unfoldable pub trim_left : (ℕ → Bool) → String → String
trim_left cut String.[] = ""
trim_left cut (String.◌∷◌ c s) =
    let rest = trim_left cut s in if cut (code c) then rest else String.◌∷◌ c s

-- strings.TrimSpace.
abbrev pub trim_space : String → String
trim_space s = trim_right is_space (trim_left is_space s)

-- The longest time.Duration, at which Time.Sub stops.
abbrev pub max_duration : ℕ
max_duration = 9223372036854775807

-- The part behind the number of seconds: a date.
unfoldable pub until_date : Option ℕ → ℕ → ℤ
until_date none now = pos 0
until_date (some date) now =
    if ltb now date
    then pos (if ltb max_duration (date - now) then max_duration else date - now)
    else pos 0

-- parseRetryAfter over http.ParseTime.
unfoldable pub parse_retry_after : (String → Option ℕ) → String → ℕ → ℤ
parse_retry_after parse_time value now = elim (atoi (trim_space value)) [
  | none ↦ until_date (parse_time value) now
  | some n ↦ if is_neg n then until_date (parse_time value) now else seconds n
]
