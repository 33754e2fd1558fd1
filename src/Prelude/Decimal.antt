-- ===== src/Prelude/Decimal.antt =====
-- Decimal text of machine integers: `std::to_string` and the stream output of an integer, and the
-- readers `std::stoi`, `std::stol`, `std::stoll`, `std::stoul` and `std::stoull`, whose exceptions
-- are `none`. A `w`-bit integer is its bit pattern.
use edge_link.Prelude.{
  ℕ, zero, suc, ◌+◌, ◌-◌, ◌*◌, ◌/◌, ◌%◌, ◌^◌, ◌≤◌, ◌<◌, ◌≡◌, refl, ap, ◌∙◌, inl, inr, Bool, true,
  false, ◌&&◌, ◌||◌, Option, none, some, [], ◌∷◌, arith, ltb, leb, eqb, if◌then◌else◌, Bool-cases,
  ◌>>=◌, Text,
}

-- The decimal digits of a number below 10 ^ fuel, in front of a text.
unfoldable pub digits_before : ℕ → ℕ → Text → Text
digits_before zero n out = out
digits_before (suc fuel) n out =
    let rest = digits_before fuel (n / 10) ((48 + n % 10) ∷ out) in
    if ltb n 10 then (48 + n) ∷ out else rest

-- `std::to_string` of an unsigned integer of at most 64 bits, which has at most 20 digits.
unfoldable pub print_unsigned : ℕ → Text
unfolding digits_before
print_unsigned n = digits_before 20 n []

-- `std::to_string` of a signed `w`-bit integer.
pub print_signed : ℕ → ℕ → Text
print_signed w n = if ltb n (2 ^ (w - 1)) then print_unsigned n else 45 ∷ print_unsigned (2 ^ w - n)

is_space : ℕ → Bool
is_space c = eqb c 32 || (leb 9 c && leb c 13)

is_digit : ℕ → Bool
is_digit c = leb 48 c && leb c 57

unfoldable skip_spaces : Text → Text
unfolding is_space
skip_spaces [] = []
skip_spaces (c ∷ cs) = if is_space c then skip_spaces cs else c ∷ cs

-- The value of the digits in front, up to the first other byte.
unfoldable scan_digits : Text → ℕ → ℕ
unfolding is_digit
scan_digits [] n = n
scan_digits (c ∷ cs) n = if is_digit c then scan_digits cs (n * 10 + (c - 48)) else n

unfoldable scan_magnitude : Text → Option ℕ
unfolding is_digit
scan_magnitude [] = none
scan_magnitude (c ∷ cs) = if is_digit c then some (scan_digits (c ∷ cs) 0) else none

unfoldable scan_sign : Text → Bool × Text
scan_sign [] = (false, [])
scan_sign (c ∷ cs) =
    if eqb c 45 then (true, cs) else if eqb c 43 then (false, cs) else (false, c ∷ cs)

-- The optional sign and the magnitude; what follows the digits is ignored.
unfoldable scan_number : Text → Option (Bool × ℕ)
scan_number s =
    let (negative, digits) = scan_sign (skip_spaces s) in
    (scan_magnitude digits >>= λ n. some (negative, n))

-- `std::stoi` for `w = 32`, `std::stol` and `std::stoll` for `w = 64`.
pub parse_signed : ℕ → Text → Option ℕ
unfolding scan_number
parse_signed w s = scan_number s >>= λ (negative, n).
    if negative
    then if leb n (2 ^ (w - 1)) then some ((2 ^ w - n) % 2 ^ w) else none
    else if ltb n (2 ^ (w - 1))
    then some n
    else none

-- `std::stoul` and `std::stoull`, which take a minus sign and wrap around.
pub parse_unsigned : Text → Option ℕ
unfolding scan_number
parse_unsigned s = scan_number s >>= λ (negative, n).
    if ltb n (2 ^ 64) then some (if negative then (2 ^ 64 - n) % 2 ^ 64 else n) else none

scan-digits_before :
    (fuel n : ℕ) (out : Text)
    → n < 10 ^ fuel
    → scan_digits (digits_before fuel n out) 0 ≡ scan_digits out n
unfolding scan_digits digits_before is_digit
scan-digits_before zero n out h = ap (scan_digits out) (omega arith)
scan-digits_before (suc fuel) n out h =
    ground (arith, scan-digits_before fuel (n / 10) ((48 + n % 10) ∷ out))

-- A text as a C string: the bytes before the first zero.
unfoldable pub c_str : Text → Text
c_str [] = []
c_str (c ∷ cs) = if eqb c 0 then [] else c ∷ c_str cs

c_str-digits_before :
    (fuel n : ℕ) (out : Text)
    → c_str out ≡ out
    → c_str (digits_before fuel n out) ≡ digits_before fuel n out
unfolding digits_before c_str
c_str-digits_before zero n out h = h
c_str-digits_before (suc fuel) n out h =
    let rest = c_str-digits_before fuel (n / 10) ((48 + n % 10) ∷ out) (ground arith) in
    ground (arith, rest)

-- A print has no zero byte.
pub c_str-print_unsigned : (n : ℕ) → c_str (print_unsigned n) ≡ print_unsigned n
unfolding print_unsigned c_str
c_str-print_unsigned n = c_str-digits_before 20 n [] refl

pub c_str-print_signed : (w n : ℕ) → c_str (print_signed w n) ≡ print_signed w n
unfolding print_signed c_str
c_str-print_signed w n = ground (arith, c_str-print_unsigned n, c_str-print_unsigned (2 ^ w - n))

-- A text that begins with a digit.
abbrev pub LedByDigit : Text → Type 0
LedByDigit [] = ⊥
LedByDigit (c ∷ cs) = (48 ≤ c) × (c ≤ 57)

pub digits_before-LedByDigit :
    (fuel n : ℕ) (out : Text) → LedByDigit out → LedByDigit (digits_before fuel n out)
unfolding digits_before
digits_before-LedByDigit zero n out h = h
digits_before-LedByDigit (suc fuel) n out h =
    let rest = digits_before-LedByDigit fuel (n / 10) ((48 + n % 10) ∷ out) (omega arith) in
    ground (arith, rest)

print_unsigned-LedByDigit : (n : ℕ) → LedByDigit (print_unsigned n)
unfolding print_unsigned digits_before
print_unsigned-LedByDigit n =
    let rest = digits_before-LedByDigit 19 (n / 10) ((48 + n % 10) ∷ []) (omega arith) in
    ground (arith, rest)

scan_digit_led :
    (s : Text)
    → LedByDigit s
    → (scan_number s ≡ some (false, scan_digits s 0))
      × (scan_number (45 ∷ s) ≡ some (true, scan_digits s 0))
unfolding scan_number skip_spaces scan_sign scan_magnitude is_space is_digit
scan_digit_led [] h = absurd h
scan_digit_led (c ∷ cs) h = ground arith

scan-print_unsigned : (n : ℕ) → n < 10 ^ 20 → scan_digits (print_unsigned n) 0 ≡ n
unfolding print_unsigned scan_digits
scan-print_unsigned n h = scan-digits_before 20 n [] h

scan-print :
    (n : ℕ)
    → n < 10 ^ 20
    → (scan_number (print_unsigned n) ≡ some (false, n))
      × (scan_number (45 ∷ print_unsigned n) ≡ some (true, n))
scan-print n h =
    let value : scan_digits (print_unsigned n) 0 ≡ n = scan-print_unsigned n h in
    let (plain, minus) = scan_digit_led (print_unsigned n) (print_unsigned-LedByDigit n) in
    (plain ∙ ap (λ k. some (false, k)) value, minus ∙ ap (λ k. some (true, k)) value)

-- Every unsigned integer of 64 bits is read back from its print.
pub parse_unsigned-print_unsigned :
    (n : ℕ) → n < 2 ^ 64 → parse_unsigned (print_unsigned n) ≡ some n
unfolding parse_unsigned
parse_unsigned-print_unsigned n h = rw ((scan-print n (omega arith)).0) (ground arith)

scan-print_signed :
    (w n : ℕ)
    → n < 10 ^ 20
    → 2 ^ w < 10 ^ 20
    → scan_number (print_signed w n)
      ≡ some (if ltb n (2 ^ (w - 1)) then (false, n) else (true, 2 ^ w - n))
unfolding print_signed
scan-print_signed w n h fits = elim (Bool-cases (ltb n (2 ^ (w - 1)))) [
  | inl small ↦ rw (small, (scan-print n h).0) refl
  | inr large ↦ rw (large, (scan-print (2 ^ w - n) (omega arith)).1) refl
]

-- Every signed integer of 8, 16, 32 or 64 bits is read back from its print, the narrow ones
-- with their sign extended to the 32 bits of `std::stoi` or the 64 of `std::stol`.
pub parse_signed-print_signed_8 :
    (n : ℕ)
    → n < 2 ^ 8
    → parse_signed 32 (print_signed 8 n) ≡ some (if ltb n (2 ^ 7) then n else 2 ^ 32 - (2 ^ 8 - n))
unfolding parse_signed
parse_signed-print_signed_8 n h =
    rw (scan-print_signed 8 n (omega arith) (omega arith)) (ground arith)

pub parse_signed-print_signed_16 :
    (n : ℕ)
    → n < 2 ^ 16
    → parse_signed 32 (print_signed 16 n)
      ≡ some (if ltb n (2 ^ 15) then n else 2 ^ 32 - (2 ^ 16 - n))
unfolding parse_signed
parse_signed-print_signed_16 n h =
    rw (scan-print_signed 16 n (omega arith) (omega arith)) (ground arith)

pub parse_signed-print_signed_32 :
    (n : ℕ)
    → n < 2 ^ 32
    → parse_signed 64 (print_signed 32 n)
      ≡ some (if ltb n (2 ^ 31) then n else 2 ^ 64 - (2 ^ 32 - n))
unfolding parse_signed
parse_signed-print_signed_32 n h =
    rw (scan-print_signed 32 n (omega arith) (omega arith)) (ground arith)

pub parse_signed-print_signed_64 :
    (n : ℕ) → n < 2 ^ 64 → parse_signed 64 (print_signed 64 n) ≡ some n
unfolding parse_signed
parse_signed-print_signed_64 n h =
    rw (scan-print_signed 64 n (omega arith) (omega arith)) (ground arith)
