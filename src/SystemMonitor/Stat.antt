-- ===== src/SystemMonitor/Stat.antt =====
-- src/system_monitor.cpp: the processor's line, read from the text that the kernel writes.
use edge_link.Prelude.{
  ℕ, zero, suc, ◌+◌, ◌/◌, ◌%◌, ◌^◌, ◌≤◌, ◌<◌, ◌≡◌, refl, ap, ◌∙◌, false, Option, none, some, List,
  [], ◌∷◌, ◌++◌, arith, ltb, if◌then◌else◌, ◌>>=◌, Text, codes, length, take, All,
}
use edge_link.Prelude.Decimal.{digits_before, LedByDigit, digits_before-LedByDigit}
use edge_link.Prelude.Keys.{text_eq, nat_eq}
use edge_link.SystemMonitor.{CpuTimes, sum_counters, idle_time, cpu_times}
use edge_link.SystemMonitor.Streams.{
  skip_spaces, span_word, read_word, is_digit, span_digits, read_magnitude, read_sign,
  read_unsigned, read_counters,
}

-- The numbers, each behind a space.
abbrev pub spaced : List ℕ → Text
spaced [] = []
spaced (n ∷ ns) = 32 ∷ digits_before 20 n (spaced ns)

-- The first line of /proc/stat, without its end.
abbrev pub stat_line : List ℕ → Text
stat_line ns = codes "cpu " ++ spaced ns

-- A text at whose start a number at_end.
abbrev EndsNumber : Text → Type 0
EndsNumber [] = Unit
EndsNumber (c ∷ cs) = is_digit c ≡ false

span_digits-digits_before :
    (fuel n : ℕ) (rest : Text)
    → n < 10 ^ fuel
    → span_digits (digits_before fuel n rest) 0 ≡ span_digits rest n
unfolding span_digits digits_before
span_digits-digits_before zero n rest h = ap (span_digits rest) (omega arith)
span_digits-digits_before (suc fuel) n rest h =
    ground (arith, span_digits-digits_before fuel (n / 10) ((48 + n % 10) ∷ rest))

span_digits_end : (n : ℕ) (rest : Text) → EndsNumber rest → span_digits rest n ≡ (n, rest)
unfolding span_digits
span_digits_end n [] h = refl
span_digits_end n (c ∷ cs) h = rw h refl

read_digits_led :
    (s : Text)
    → LedByDigit s
    → (read_sign (skip_spaces (32 ∷ s)) ≡ (false, s)) × (read_magnitude s ≡ some (span_digits s 0))
unfolding read_sign skip_spaces read_magnitude
read_digits_led [] h = absurd h
read_digits_led (c ∷ cs) h = ground arith

printed-LedByDigit : (n : ℕ) (rest : Text) → LedByDigit (digits_before 20 n rest)
unfolding digits_before
printed-LedByDigit n rest =
    let shorter = digits_before-LedByDigit 19 (n / 10) ((48 + n % 10) ∷ rest) (omega arith) in
    ground (arith, shorter)

read_unsigned-printed :
    (n : ℕ) (rest : Text)
    → n < 2 ^ 64
    → EndsNumber rest
    → read_unsigned (32 ∷ digits_before 20 n rest) ≡ some (n, rest)
unfolding read_unsigned
read_unsigned-printed n rest small at_end =
    let s = digits_before 20 n rest in
    let (no_sign, magnitude) = read_digits_led s (printed-LedByDigit n rest) in
    let value : span_digits s 0 ≡ (n, rest) =
      span_digits-digits_before 20 n rest (omega arith) ∙ span_digits_end n rest at_end in
    rw (no_sign, read_unsigned, magnitude, value) (ground arith)

spaced-EndsNumber : (ns : List ℕ) → EndsNumber (spaced ns)
spaced-EndsNumber [] = tt
spaced-EndsNumber (n ∷ ns) = refl

read_counters-spaced :
    (fuel : ℕ) (ns : List ℕ)
    → length ns ≤ fuel
    → All (λ n. n < 2 ^ 64) ns
    → read_counters fuel (spaced ns) ≡ ns
unfolding read_counters read_unsigned read_magnitude read_sign skip_spaces
read_counters-spaced zero [] enough small = refl
read_counters-spaced zero (n ∷ ns) enough small = ground arith
read_counters-spaced (suc fuel) [] enough small = refl
read_counters-spaced (suc fuel) (n ∷ ns) enough small =
    let first = read_unsigned-printed n (spaced ns) small.0 (spaced-EndsNumber ns) in
    rw (first, read_counters) (ap (◌∷◌ n) (read_counters-spaced fuel ns (omega arith) small.1))

length-digits_before : (fuel n : ℕ) (rest : Text) → length rest ≤ length (digits_before fuel n rest)
unfolding digits_before
length-digits_before zero n rest = omega arith
length-digits_before (suc fuel) n rest =
    let longer = length-digits_before fuel (n / 10) ((48 + n % 10) ∷ rest) in ground (arith, longer)

-- The text has room for its numbers, so the fuel of `read_counters` is enough.
length-spaced : (ns : List ℕ) → length ns ≤ length (spaced ns)
length-spaced [] = omega arith
length-spaced (n ∷ ns) =
    let later = length-spaced ns in
    let digits = length-digits_before 20 n (spaced ns) in omega arith

read_word-stat_line : (ns : List ℕ) → read_word (stat_line ns) ≡ (codes "cpu", 32 ∷ spaced ns)
unfolding read_word skip_spaces span_word
read_word-stat_line ns = refl

-- What the line says, from its list of counters.
abbrev pub times_of : List ℕ → Option CpuTimes
times_of ns =
    if ltb (length ns) 4
    then none
    else (sum_counters (take 8 ns) 0 >>= λ total.
        idle_time ns >>= λ idle. some (record { total = total; idle = idle }))

read_counters-blank :
    (fuel : ℕ) (s : Text) → read_counters fuel (32 ∷ 32 ∷ s) ≡ read_counters fuel (32 ∷ s)
unfolding read_counters read_unsigned skip_spaces
read_counters-blank zero s = refl
read_counters-blank (suc fuel) s = refl

-- The fields of the line that the kernel writes are read as they were printed.
pub cpu_times-stat_line :
    (n : ℕ) (ns : List ℕ)
    → All (λ k. k < 2 ^ 64) (n ∷ ns)
    → cpu_times (stat_line (n ∷ ns)) ≡ times_of (n ∷ ns)
unfolding cpu_times
cpu_times-stat_line n ns small =
    let room = length-spaced (n ∷ ns) in
    let fuel = length (32 ∷ spaced (n ∷ ns)) in
    let counters : read_counters fuel (32 ∷ spaced (n ∷ ns)) ≡ n ∷ ns =
      read_counters-blank fuel (digits_before 20 n (spaced ns))
      ∙ read_counters-spaced fuel (n ∷ ns) (omega arith) small in
    rw (read_word-stat_line (n ∷ ns), counters) refl
