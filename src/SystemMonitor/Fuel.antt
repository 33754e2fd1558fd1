-- ===== src/SystemMonitor/Fuel.antt =====
-- src/system_monitor.cpp: the loop over the counters of a line ends.
use edge_link.Prelude.{
  some-injective, ℕ, zero, suc, ◌+◌, ◌-◌, ◌*◌, ◌%◌, ◌^◌, ◌≤◌, ◌≡◌, refl, ap, inl, inr, true, none,
  some, [], ◌∷◌, arith, leb, if◌then◌else◌, Bool-cases, Option-cases, Text, length,
}
use edge_link.Prelude.Keys.{text_eq, nat_eq}
use edge_link.SystemMonitor.Streams.{
  skip_spaces, is_digit, span_digits, read_magnitude, read_sign, read_unsigned, read_counters,
}

skip_spaces_shorter : (s : Text) → length (skip_spaces s) ≤ length s
unfolding skip_spaces
skip_spaces_shorter [] = omega arith
skip_spaces_shorter (c ∷ cs) = ground (arith, skip_spaces_shorter cs)

read_sign_shorter : (s : Text) → length (read_sign s).1 ≤ length s
unfolding read_sign
read_sign_shorter [] = omega arith
read_sign_shorter (c ∷ cs) = ground arith

span_digits_shorter : (s : Text) (n : ℕ) → length (span_digits s n).1 ≤ length s
unfolding span_digits
span_digits_shorter [] n = omega arith
span_digits_shorter (c ∷ cs) n = ground (arith, span_digits_shorter cs (n * 10 + (c - 48)))

span_digits_takes :
    (c : ℕ) (cs : Text)
    → is_digit c ≡ true
    → suc (length (span_digits (c ∷ cs) 0).1) ≤ length (c ∷ cs)
unfolding span_digits
span_digits_takes c cs d =
    let shorter = span_digits_shorter cs (0 * 10 + (c - 48)) in rw d (omega arith)

read_magnitude_shorter :
    (s : Text) (n : ℕ) (rest : Text)
    → read_magnitude s ≡ some (n, rest)
    → suc (length rest) ≤ length s
unfolding read_magnitude
read_magnitude_shorter [] n rest e = cc
read_magnitude_shorter (c ∷ cs) n rest e = elim (Bool-cases (is_digit c)) [
  | inr d ↦ let bad : none ≡ some (n, rest) = rw d at e in cc
  | inl d ↦
      let digits : some (span_digits (c ∷ cs) 0) ≡ some (n, rest) = rw d at e in
      let same = ap (λ p. length p.1) (some-injective _ _ digits) in
      let shorter = span_digits_takes c cs d in omega arith
]

read_unsigned_shorter :
    (s : Text) (n : ℕ) (rest : Text)
    → read_unsigned s ≡ some (n, rest)
    → suc (length rest) ≤ length s
unfolding read_unsigned
read_unsigned_shorter s n rest e =
    let (negative, digits) = read_sign (skip_spaces s) in
    let behind_sign = read_sign_shorter (skip_spaces s) in
    let behind_spaces = skip_spaces_shorter s in
    elim (Option-cases (read_magnitude digits)) [
      | inl m ↦ let bad : none ≡ some (n, rest) = rw (m, read_unsigned) at e in cc
      | inr ((k, after), m) ↦
          let shorter = read_magnitude_shorter digits k after m in
          elim (Bool-cases (leb (2 ^ 64) k)) [
            | inl over ↦ let bad : none ≡ some (n, rest) = rw (m, read_unsigned, over) at e in cc
            | inr fits ↦
                let number : some ((if negative then (2 ^ 64 - k) % 2 ^ 64 else k), after)
                    ≡ some (n, rest) =
                  rw (m, read_unsigned, fits) at e in
                let same : length after ≡ length rest =
                  ap (λ p. length p.1) (some-injective _ _ number) in
                omega arith
          ]
    ]

-- With at least as much fuel as the text has bytes, more fuel reads no more.
read_counters_enough :
    (fuel : ℕ) (s : Text) → length s ≤ fuel → read_counters (suc fuel) s ≡ read_counters fuel s
unfolding read_counters
read_counters_enough zero s enough = elim (Option-cases (read_unsigned s)) [
  | inl e ↦ rw (e, read_counters) refl
  | inr ((n, rest), e) ↦ let shorter = read_unsigned_shorter s n rest e in ground arith
]
read_counters_enough (suc fuel) s enough = elim (Option-cases (read_unsigned s)) [
  | inl e ↦ rw (e, read_counters) refl
  | inr ((n, rest), e) ↦
      let shorter = read_unsigned_shorter s n rest e in
      rw (e, read_counters) (ap (◌∷◌ n) (read_counters_enough fuel rest (omega arith)))
]
