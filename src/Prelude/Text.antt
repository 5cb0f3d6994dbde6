-- ===== src/Prelude/Text.antt =====
-- Go strings: the order of strings.Compare, and the decimal conversions of strconv and fmt.
pub mod Decimal
pub mod Prefix
use Prim.Native.Char.{code}
use Prim.Native.Nat.{ℕ, zero, suc, ◌+◌, ◌-◌, ◌*◌, ◌/◌, ◌%◌}
use Prim.Native.String.{String, ◌++◌}
use mathlib.Core.Path.{◌≡◌, refl}
use mathlib.Core.Bool.{Bool, true, false, not, ◌&&◌, ◌||◌}
use mathlib.Core.Option.{Option, none, some}
use native.Mathlib.Omega.{arith}
use text.Mathlib.TextEquality.{Char-path}
use foip_operator.Prelude.Tests.{ltb, leb, ◌==◌, if◌then◌else◌, str_eq}
use foip_operator.Prelude.Int.{ℤ, pos, negsuc}

-- s < t by code points, which is the order of the bytes of UTF-8.
unfoldable pub str_lt : String → String → Bool
str_lt s String.[] = false
str_lt String.[] (String.◌∷◌ d t) = true
str_lt (String.◌∷◌ c s) (String.◌∷◌ d t) =
    if ltb (code c) (code d) then true else if ltb (code d) (code c) then false else str_lt s t

pub str_lt_irrefl : (s : String) → str_lt s s ≡ false
unfolding str_lt
str_lt_irrefl String.[] = refl
str_lt_irrefl (String.◌∷◌ c s) = ground (arith, str_lt_irrefl s)

pub str_lt_trans : (s t u : String) → str_lt s t ≡ true → str_lt t u ≡ true → str_lt s u ≡ true
unfolding str_lt
str_lt_trans s t String.[] h k = cc
str_lt_trans String.[] t (String.◌∷◌ e u) h k = refl
str_lt_trans (String.◌∷◌ c s) String.[] (String.◌∷◌ e u) h k = cc
str_lt_trans (String.◌∷◌ c s) (String.◌∷◌ d t) (String.◌∷◌ e u) h k =
    ground (arith, str_lt_trans s t u)

pub str_lt_total : (s t : String) → str_lt s t ≡ false → str_lt t s ≡ false → s ≡ t
unfolding str_lt
str_lt_total String.[] String.[] h k = refl
str_lt_total String.[] (String.◌∷◌ d t) h k = cc
str_lt_total (String.◌∷◌ c s) String.[] h k = cc
str_lt_total (String.◌∷◌ c s) (String.◌∷◌ d t) h k = ground (arith, str_lt_total s t, Char-path c d)

digit : ℕ → String
digit d =
    if d == 0
    then "0"
    else if d == 1
    then "1"
    else if d == 2
    then "2"
    else if d == 3
    then "3"
    else if d == 4
    then "4"
    else if d == 5
    then "5"
    else if d == 6
    then "6"
    else if d == 7
    then "7"
    else if d == 8
    then "8"
    else "9"

-- The decimal digits of a number of at most `fuel` digits.
digits : ℕ → ℕ → String
unfolding digit
digits zero n = ""
digits (suc fuel) n = if ltb n 10 then digit n else digits fuel (n / 10) ++ digit (n % 10)

-- strconv.Itoa; an int has 19 digits at most.
unfoldable pub itoa : ℤ → String
unfolding digits
itoa (pos n) = digits 20 n
itoa (negsuc n) = "-" ++ digits 20 (n + 1)

is_digit : ℕ → Bool
is_digit c = leb b'0' c && leb c b'9'

-- The value of the digits at the front of a text, and whether the text holds anything else.
read_digits : ℕ → String → ℕ × Bool
unfolding is_digit
read_digits n String.[] = (n, false)
read_digits n (String.◌∷◌ c s) =
    if is_digit (code c) then read_digits (n * 10 + (code c - b'0')) s else (n, true)

-- A text that starts with a digit.
starts_number : String → Bool
unfolding is_digit
starts_number String.[] = false
starts_number (String.◌∷◌ c s) = is_digit (code c)

-- The digits at the front, with a sign, where they stand for an int of 64 bits; `trailing` says
-- whether other characters may follow.
number_of : Bool → Bool → String → Option ℤ
unfolding starts_number read_digits
number_of negative trailing s =
    let (n, more) = read_digits 0 s in
    if starts_number s && (trailing || not more)
    then (if negative
        then (if leb n 9223372036854775808
            then some (if n == 0 then pos 0 else negsuc (n - 1))
            else none)
        else if ltb n 9223372036854775808
        then some (pos n)
        else none)
    else none

signed_number : Bool → String → Option ℤ
unfolding number_of
signed_number trailing String.[] = none
signed_number trailing (String.◌∷◌ c s) =
    if code c == b'-'
    then number_of true trailing s
    else if code c == b'+'
    then number_of false trailing s
    else number_of false trailing (String.◌∷◌ c s)

-- strconv.Atoi; `none` is its error.
unfoldable pub atoi : String → Option ℤ
unfolding signed_number
atoi s = signed_number false s

-- The blanks that the %d verb skips; a newline is refused.
is_blank : ℕ → Bool
is_blank c =
    c == 32
    || c == 9
    || c == 11
    || c == 12
    || c == 13
    || c == 0x85
    || c == 0xa0
    || c == 0x1680
    || (leb 0x2000 c && leb c 0x200a)
    || c == 0x2028
    || c == 0x2029
    || c == 0x202f
    || c == 0x205f
    || c == 0x3000

skip_blanks : String → String
unfolding is_blank
skip_blanks String.[] = ""
skip_blanks (String.◌∷◌ c s) = if is_blank (code c) then skip_blanks s else String.◌∷◌ c s

-- fmt.Sscanf(s, "%d", &n): the number at the front, whatever follows it; `none` is its error.
unfoldable pub sscanf_int : String → Option ℤ
unfolding skip_blanks signed_number
sscanf_int s = signed_number true (skip_blanks s)

conversions :
    (itoa (pos 12345) ≡ "12345")
    × (itoa (negsuc 6) ≡ "-7")
    × (atoi "12345" ≡ some (pos 12345))
    × (atoi "12x" ≡ none)
    × (sscanf_int " 12x" ≡ some (pos 12))
    × (sscanf_int "x" ≡ none)
unfolding itoa atoi sscanf_int str_eq
conversions = (refl, refl, refl, refl, refl, refl)
