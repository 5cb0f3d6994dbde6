-- ===== src/Prelude/Text/Decimal.antt =====
-- strconv.Atoi reads what strconv.Itoa writes.
use Prim.Native.Char.{Char, code}
use Prim.Native.Nat.{ℕ, zero, suc, ◌+◌, ◌*◌, ◌/◌, ◌%◌}
use Prim.Native.String.{String, ◌++◌}
use mathlib.Core.Path.{◌≡◌, refl, sym, ap, ◌∙◌}
use mathlib.Core.Logic.{◌⊎◌, inl, inr}
use mathlib.Core.Bool.{Bool, true, false}
use mathlib.Core.Option.{some}
use native.Mathlib.Omega.{arith}
use text.Mathlib.TextLemmas.{append_assoc, cons-append, nil-append, append-nil}
use foip_operator.Prelude.Tests.{Bool-cases, ltb}
use foip_operator.Prelude.Int.{ℤ, pos, negsuc}
use foip_operator.Prelude.Text.{
  digit, digits, read_digits, is_digit, starts_number, signed_number, number_of, atoi, itoa,
  skip_blanks, is_blank, sscanf_int,
}

below_ten :
    (n : ℕ)
    → ltb n 10 ≡ true
    → (n ≡ 0)
      ⊎ (n ≡ 1)
      ⊎ (n ≡ 2)
      ⊎ (n ≡ 3)
      ⊎ (n ≡ 4)
      ⊎ (n ≡ 5)
      ⊎ (n ≡ 6)
      ⊎ (n ≡ 7)
      ⊎ (n ≡ 8)
      ⊎ (n ≡ 9)
below_ten n small = ground arith

digit_cases {ℓ} :
    (P : ℕ → Type ℓ)
    → P 0
    → P 1
    → P 2
    → P 3
    → P 4
    → P 5
    → P 6
    → P 7
    → P 8
    → P 9
    → (n : ℕ) → ltb n 10 ≡ true
    → P n
digit_cases P p0 p1 p2 p3 p4 p5 p6 p7 p8 p9 n small = elim (below_ten n small) [
  | inl e ↦ rw e p0
  | inr (inl e) ↦ rw e p1
  | inr (inr (inl e)) ↦ rw e p2
  | inr (inr (inr (inl e))) ↦ rw e p3
  | inr (inr (inr (inr (inl e)))) ↦ rw e p4
  | inr (inr (inr (inr (inr (inl e))))) ↦ rw e p5
  | inr (inr (inr (inr (inr (inr (inl e)))))) ↦ rw e p6
  | inr (inr (inr (inr (inr (inr (inr (inl e))))))) ↦ rw e p7
  | inr (inr (inr (inr (inr (inr (inr (inr (inl e)))))))) ↦ rw e p8
  | inr (inr (inr (inr (inr (inr (inr (inr (inr e)))))))) ↦ rw e p9
]

-- A character before a text.
singleton-append : (c : Char) (rest : String) → String.◌∷◌ c String.[] ++ rest ≡ String.◌∷◌ c rest
singleton-append c rest = cons-append c String.[] rest ∙ ap (λ s. String.◌∷◌ c s) (nil-append rest)

-- A digit is one character, of the code of its value.
digit_char :
    (n : ℕ)
    → ltb n 10 ≡ true
    → (c : Char) × (digit n ≡ String.◌∷◌ c String.[]) × (code c ≡ b'0' + n)
unfolding digit
digit_char n small =
    digit_cases (λ n. (c : Char) × (digit n ≡ String.◌∷◌ c String.[]) × (code c ≡ b'0' + n))
      ("0", refl, refl) ("1", refl, refl) ("2", refl, refl) ("3", refl, refl) ("4", refl, refl)
      ("5", refl, refl) ("6", refl, refl) ("7", refl, refl) ("8", refl, refl) ("9", refl, refl) n
      small

read_digits-digit :
    (acc n : ℕ) (rest : String)
    → ltb n 10 ≡ true
    → read_digits acc (digit n ++ rest) ≡ read_digits (acc * 10 + n) rest
unfolding read_digits is_digit
read_digits-digit acc n rest small =
    let (c, is_char, value) = digit_char n small in
    rw (is_char, singleton-append c rest) (ground (arith, value, small))

starts_number-digit :
    (n : ℕ) (rest : String) → ltb n 10 ≡ true → starts_number (digit n ++ rest) ≡ true
unfolding starts_number is_digit
starts_number-digit n rest small =
    let (c, is_char, value) = digit_char n small in
    rw (is_char, singleton-append c rest) (ground (arith, value, small))

-- 10 ^ fuel.
abbrev power_of_ten : ℕ → ℕ
power_of_ten zero = 1
power_of_ten (suc fuel) = 10 * power_of_ten fuel

one_digit :
    (n : ℕ) (rest : String) → ltb n 10 ≡ true → read_digits 0 (digit n ++ rest) ≡ read_digits n rest
one_digit n rest small =
    let value : 0 * 10 + n ≡ n = omega arith in
    read_digits-digit 0 n rest small ∙ ap (λ k. read_digits k rest) value

read_digits-digits :
    (fuel n : ℕ) (rest : String)
    → ltb n (10 * power_of_ten fuel) ≡ true
    → read_digits 0 (digits (suc fuel) n ++ rest) ≡ read_digits n rest
unfolding digits
read_digits-digits zero n rest bound =
    let small : ltb n 10 ≡ true = ground (arith, bound) in
    rw (small, digits) (one_digit n rest small)
read_digits-digits (suc less) n rest bound = elim (Bool-cases (ltb n 10)) [
  | inl small ↦ rw (small, digits) (one_digit n rest small)
  | inr large ↦
      let split : n / 10 * 10 + n % 10 ≡ n = omega arith in
      let fewer : ltb (n / 10) (10 * power_of_ten less) ≡ true = ground (arith, bound) in
      let last : ltb (n % 10) 10 ≡ true = ground arith in
      rw (large, digits)
        (ap (λ s. read_digits 0 s) (append_assoc (digits (suc less) (n / 10)) (digit (n % 10)) rest)
          ∙ (read_digits-digits less (n / 10) (digit (n % 10) ++ rest) fewer
              ∙ (read_digits-digit (n / 10) (n % 10) rest last
                  ∙ ap (λ k. read_digits k rest) split)))
]

starts_number-digits :
    (fuel n : ℕ) (rest : String)
    → ltb n (10 * power_of_ten fuel) ≡ true
    → starts_number (digits (suc fuel) n ++ rest) ≡ true
unfolding digits
starts_number-digits zero n rest bound =
    let small : ltb n 10 ≡ true = ground (arith, bound) in
    rw (small, digits) (starts_number-digit n rest small)
starts_number-digits (suc less) n rest bound = elim (Bool-cases (ltb n 10)) [
  | inl small ↦ rw (small, digits) (starts_number-digit n rest small)
  | inr large ↦
      let fewer : ltb (n / 10) (10 * power_of_ten less) ≡ true = ground (arith, bound) in
      rw (large, digits)
        (ap (λ s. starts_number s) (append_assoc (digits (suc less) (n / 10)) (digit (n % 10)) rest)
          ∙ starts_number-digits less (n / 10) (digit (n % 10) ++ rest) fewer)
]

-- The digits of a number of 20 digits at most, as strconv.Atoi reads them.
digits-read :
    (n : ℕ)
    → ltb n 100000000000000000000 ≡ true
    → (read_digits 0 (digits 20 n) ≡ (n, false)) × (starts_number (digits 20 n) ≡ true)
unfolding read_digits
digits-read n bound = (
  ap (λ s. read_digits 0 s) (sym (append-nil (digits 20 n)))
      ∙ read_digits-digits 19 n String.[] bound,
  ap (λ s. starts_number s) (sym (append-nil (digits 20 n)))
      ∙ starts_number-digits 19 n String.[] bound,
)

-- A text that starts with a digit has no sign.
signed_number-unsigned :
    (trailing : Bool) (s : String)
    → starts_number s ≡ true
    → signed_number trailing s ≡ number_of false trailing s
unfolding signed_number starts_number is_digit
signed_number-unsigned trailing String.[] h = absurd (cc h)
signed_number-unsigned trailing (String.◌∷◌ c s) h = ground (arith, h)

-- An int of 64 bits.
abbrev pub IsInt64 : ℤ → Type 0
IsInt64 (pos n) = ltb n 9223372036854775808 ≡ true
IsInt64 (negsuc n) = ltb n 9223372036854775808 ≡ true

atoi-positive :
    (s : String) (n : ℕ)
    → read_digits 0 s ≡ (n, false)
    → starts_number s ≡ true
    → ltb n 9223372036854775808 ≡ true
    → atoi s ≡ some (pos n)
unfolding atoi number_of
atoi-positive s n value starts bound =
    signed_number-unsigned false s starts ∙ rw (value, starts, bound) refl

atoi-negative :
    (s : String) (n : ℕ)
    → read_digits 0 s ≡ (n + 1, false)
    → starts_number s ≡ true
    → ltb n 9223372036854775808 ≡ true
    → atoi ("-" ++ s) ≡ some (negsuc n)
unfolding atoi signed_number number_of
atoi-negative s n value starts bound =
    ap (λ t. signed_number false t) (singleton-append "-" s)
    ∙ rw (value, starts) (ground (arith, bound))

-- strconv.Atoi reads back every int that strconv.Itoa writes.
pub atoi-itoa : (z : ℤ) → IsInt64 z → atoi (itoa z) ≡ some z
unfolding itoa
atoi-itoa (pos n) bound =
    let (value, starts) = digits-read n (ground (arith, bound)) in
    atoi-positive (digits 20 n) n value starts bound
atoi-itoa (negsuc n) bound =
    let (value, starts) = digits-read (n + 1) (ground (arith, bound)) in
    atoi-negative (digits 20 (n + 1)) n value starts bound

-- Two ints are written differently.
itoa_inj : (a b : ℤ) → IsInt64 a → IsInt64 b → itoa a ≡ itoa b → a ≡ b
itoa_inj a b fits_a fits_b same = cc (atoi-itoa a fits_a, atoi-itoa b fits_b, ap atoi same)

skip_blanks-number : (s : String) → starts_number s ≡ true → skip_blanks s ≡ s
unfolding skip_blanks is_blank starts_number is_digit
skip_blanks-number String.[] h = absurd (cc h)
skip_blanks-number (String.◌∷◌ c s) h = ground (arith, h)

sscanf_int-positive :
    (s : String) (n : ℕ)
    → read_digits 0 s ≡ (n, false)
    → starts_number s ≡ true
    → ltb n 9223372036854775808 ≡ true
    → sscanf_int s ≡ some (pos n)
unfolding sscanf_int number_of
sscanf_int-positive s n value starts bound =
    ap (λ t. signed_number true t) (skip_blanks-number s starts)
    ∙ (signed_number-unsigned true s starts ∙ rw (value, starts, bound) refl)

sscanf_int-negative :
    (s : String) (n : ℕ)
    → read_digits 0 s ≡ (n + 1, false)
    → starts_number s ≡ true
    → ltb n 9223372036854775808 ≡ true
    → sscanf_int ("-" ++ s) ≡ some (negsuc n)
unfolding sscanf_int skip_blanks is_blank signed_number number_of
sscanf_int-negative s n value starts bound =
    ap (λ t. signed_number true (skip_blanks t)) (singleton-append "-" s)
    ∙ rw (value, starts) (ground (arith, bound))

-- So does the %d verb of fmt.Sscanf.
pub sscanf_int-itoa : (z : ℤ) → IsInt64 z → sscanf_int (itoa z) ≡ some z
unfolding itoa
sscanf_int-itoa (pos n) bound =
    let (value, starts) = digits-read n (ground (arith, bound)) in
    sscanf_int-positive (digits 20 n) n value starts bound
sscanf_int-itoa (negsuc n) bound =
    let (value, starts) = digits-read (n + 1) (ground (arith, bound)) in
    sscanf_int-negative (digits 20 (n + 1)) n value starts bound
