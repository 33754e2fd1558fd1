-- ===== src/SystemMonitor/Width.antt =====
-- src/system_monitor.cpp: the counters of the processor's line fit 64 bits.
use edge_link.Prelude.{
  subst, some-injective, ℕ, zero, suc, ◌+◌, ◌-◌, ◌%◌, ◌^◌, ◌<◌, ◌≡◌, ap, inl, inr, not, ◌||◌, none,
  some, List, [], ◌∷◌, arith, ltb, leb, if◌then◌else◌, Bool-cases, Option-cases, Text, codes,
  length, take, All,
}
use edge_link.Prelude.Keys.{text_beq, text_eq, nat_eq}
use edge_link.SystemMonitor.{CpuTimes, uint64_max, sum_counters, idle_time, cpu_times}
use edge_link.SystemMonitor.Streams.{
  skip_spaces, read_word, read_magnitude, read_sign, read_unsigned, read_counters,
}

sum_counters_next :
    (c : ℕ) (cs : List ℕ) (total n : ℕ)
    → sum_counters (c ∷ cs) total ≡ some n
    → sum_counters cs (total + c) ≡ some n
unfolding sum_counters
sum_counters_next c cs total n e = elim (Bool-cases (ltb (uint64_max - c) total)) [
  | inl over ↦ let bad : none ≡ some n = rw over at e in cc
  | inr fits ↦ rw fits at e
]

-- Sums of 64-bit counters that are not refused fit 64 bits.
sum_counters_small :
    (cs : List ℕ) (total n : ℕ)
    → All (λ c. c < 2 ^ 64) cs
    → total < 2 ^ 64
    → sum_counters cs total ≡ some n
    → n < 2 ^ 64
unfolding sum_counters
sum_counters_small [] total n small start_small e = ground arith
sum_counters_small (c ∷ cs) total n small start_small e =
    elim (Bool-cases (ltb (uint64_max - c) total)) [
      | inl over ↦ let bad : none ≡ some n = rw over at e in cc
      | inr fits ↦
          let below : c < 2 ^ 64 = small.0 in
          let next_small : total + c < 2 ^ 64 = ground arith in
          sum_counters_small cs (total + c) n small.1 next_small (sum_counters_next c cs total n e)
    ]

take-small : (k : ℕ) (cs : List ℕ) → All (λ c. c < 2 ^ 64) cs → All (λ c. c < 2 ^ 64) (take k cs)
take-small zero cs small = tt
take-small (suc k) [] small = tt
take-small (suc k) (c ∷ cs) small = (small.0, take-small k cs small.1)

idle_time_small :
    (cs : List ℕ) (idle : ℕ) → All (λ c. c < 2 ^ 64) cs → idle_time cs ≡ some idle → idle < 2 ^ 64
unfolding idle_time
idle_time_small [] idle small e = ground arith
idle_time_small (a ∷ []) idle small e = ground arith
idle_time_small (a ∷ b ∷ []) idle small e = ground arith
idle_time_small (a ∷ b ∷ c ∷ []) idle small e = ground arith
idle_time_small (a ∷ b ∷ c ∷ d ∷ []) idle (p, (q, (r, (t, rest)))) e = ground arith
idle_time_small (a ∷ b ∷ c ∷ d ∷ w ∷ cs) idle (p, (q, (r, (t, (u, rest))))) e = ground arith

read_unsigned_small :
    (s : Text) (n : ℕ) (rest : Text) → read_unsigned s ≡ some (n, rest) → n < 2 ^ 64
unfolding read_unsigned
read_unsigned_small s n rest e =
    let (negative, digits) = read_sign (skip_spaces s) in
    elim (Option-cases (read_magnitude digits)) [
      | inl m ↦ let bad : none ≡ some (n, rest) = rw (m, read_unsigned) at e in cc
      | inr ((k, after), m) ↦ elim (Bool-cases (leb (2 ^ 64) k)) [
        | inl over ↦ let bad : none ≡ some (n, rest) = rw (m, read_unsigned, over) at e in cc
        | inr fits ↦
            let number : some ((if negative then (2 ^ 64 - k) % 2 ^ 64 else k), after)
                ≡ some (n, rest) =
              rw (m, read_unsigned, fits) at e in
            let same : (if negative then (2 ^ 64 - k) % 2 ^ 64 else k) ≡ n =
              ap (λ p. p.0) (some-injective _ _ number) in
            ground arith
      ]
    ]

read_counters_small : (fuel : ℕ) (s : Text) → All (λ c. c < 2 ^ 64) (read_counters fuel s)
unfolding read_counters
read_counters_small zero s = tt
read_counters_small (suc fuel) s = elim (Option-cases (read_unsigned s)) [
  | inl e ↦ rw (e, read_counters) tt
  | inr ((n, rest), e) ↦
      rw (e, read_counters) (read_unsigned_small s n rest e, read_counters_small fuel rest)
]

pub cpu_times_small :
    (line : Text) (t : CpuTimes) → cpu_times line ≡ some t → (t.total < 2 ^ 64) × (t.idle < 2 ^ 64)
unfolding cpu_times
cpu_times_small line t e =
    let (label, rest) = read_word line in
    let counters = read_counters (length rest) rest in
    let small = read_counters_small (length rest) rest in
    elim (Bool-cases (not (text_beq label (codes "cpu")) || ltb (length counters) 4)) [
      | inl b ↦ let bad : none ≡ some t = rw b at e in cc
      | inr b ↦ elim (Option-cases (sum_counters (take 8 counters) 0)) [
        | inl f ↦ let bad : none ≡ some t = rw (b, f) at e in cc
        | inr (total, f) ↦ elim (Option-cases (idle_time counters)) [
          | inl g ↦ let bad : none ≡ some t = rw (b, f, g) at e in cc
          | inr (idle, g) ↦
              let total_small =
                sum_counters_small (take 8 counters) 0 total (take-small 8 counters small)
                  (omega arith) f in
              let idle_small = idle_time_small counters idle small g in
              let found : some (record { total = total; idle = idle }) ≡ some t =
                rw (b, f, g) at e in
              let same : record { total = total; idle = idle } ≡ t = some-injective _ _ found in
              (
                subst (λ n. n < 2 ^ 64) (ap (λ (x : CpuTimes). x.total) same) total_small,
                subst (λ n. n < 2 ^ 64) (ap (λ (x : CpuTimes). x.idle) same) idle_small,
              )
        ]
      ]
    ]
