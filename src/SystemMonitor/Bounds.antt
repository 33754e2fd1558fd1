-- ===== src/SystemMonitor/Bounds.antt =====
-- src/system_monitor.cpp: what a sample that succeeds can be relied on for.
use edge_link.Prelude.{
  subst, some-injective, ℕ, ◌+◌, ◌-◌, ◌*◌, ◌^◌, ◌≤◌, ◌<◌, min, ◌≡◌, refl, sym, ap, ◌∙◌, inl, inr,
  Bool, true, false, ◌&&◌, Option, none, some, arith, ltb, leb, eqb, Bool-cases, Option-cases,
  ◌>>=◌, Text,
}
use edge_link.Prelude.Keys.{text_eq, nat_eq}
use edge_link.SystemMonitor.{
  Rates, SystemMetrics, CpuTimes, SystemMonitor, cpu_times, minus64, cpu_usage, sample_cpu,
  no_fields, read_memory_lines, available_memory, kibibytes_to_bytes, with_memory, sample_memory,
}
use edge_link.SystemMonitor.Sample.{Readings, no_metrics, sample}
use edge_link.SystemMonitor.Streams.{lines_of, first_line}
use edge_link.SystemMonitor.Thermal.{sample_temperatures}
use edge_link.SystemMonitor.Width.{cpu_times_small}

-- `busy` of the time `whole` between two samples was not idle.
abbrev pub Between : CpuTimes → CpuTimes → ℕ → ℕ → Type 0
Between previous current busy whole =
    (previous.total + whole ≡ current.total)
    × (previous.idle + (whole - busy) ≡ current.idle)
    × (busy ≤ whole)
    × (0 < whole)

cpu_usage_within :
    (previous current : CpuTimes) (busy whole : ℕ)
    → current.total < 2 ^ 64
    → current.idle < 2 ^ 64
    → cpu_usage (some previous) current ≡ some (busy, whole)
    → Between previous current busy whole
unfolding cpu_usage
cpu_usage_within previous current busy whole small idle_small e =
    let total_delta = minus64 current.total previous.total in
    let idle_delta = minus64 current.idle previous.idle in
    elim (Bool-cases (
      leb previous.total current.total
      && leb previous.idle current.idle
      && ltb 0 total_delta
      && leb idle_delta total_delta)) [
        | inr g ↦ let bad : none ≡ some (busy, whole) = rw g at e in cc
        | inl g ↦
            let pair : some (minus64 total_delta idle_delta, total_delta) ≡ some (busy, whole) =
              rw g at e in
            let same : (minus64 total_delta idle_delta, total_delta) ≡ (busy, whole) =
              some-injective _ _ pair in
            let busy_is : minus64 total_delta idle_delta ≡ busy = ap (λ p. p.0) same in
            let whole_is : total_delta ≡ whole = ap (λ p. p.1) same in
            let forward : previous.total ≤ current.total = ground arith in
            let idle_forward : previous.idle ≤ current.idle = ground arith in
            let grown : 0 < total_delta = ground arith in
            let part : idle_delta ≤ total_delta = ground arith in
            (omega arith, omega arith, omega arith, omega arith)
      ]

kibibytes_to_bytes_lem :
    (kib bytes : ℕ) → kibibytes_to_bytes kib ≡ some bytes → (bytes ≡ kib * 1024) × (bytes < 2 ^ 64)
unfolding kibibytes_to_bytes
kibibytes_to_bytes_lem kib bytes e = ground arith

sample_memory_lem :
    (r : Rates) (input : Option Text) (before x : SystemMetrics)
    → sample_memory r input before ≡ some x
    → (total : ℕ) × (available : ℕ) × (0 < total)
      × (total < 2 ^ 64)
      × (available ≤ total)
      × (x ≡ with_memory r total available before)
unfolding sample_memory
sample_memory_lem r none before x e = cc
sample_memory_lem r (some input) before x e =
    let f = read_memory_lines (lines_of input) no_fields in
    elim (Bool-cases (eqb f.total_kib 0)) [
      | inl z ↦ let bad : none ≡ some x = rw z at e in cc
      | inr z ↦ elim (Option-cases (available_memory f)) [
        | inl a ↦ let bad : none ≡ some x = rw (z, a) at e in cc
        | inr (kib, a) ↦ elim (Option-cases (kibibytes_to_bytes f.total_kib)) [
          | inl t ↦ let bad : none ≡ some x = rw (z, a, t) at e in cc
          | inr (total, t) ↦ elim (Option-cases (kibibytes_to_bytes (min kib f.total_kib))) [
            | inl k ↦ let bad : none ≡ some x = rw (z, a, t, k) at e in cc
            | inr (available, k) ↦
                let same : some (with_memory r total available before) ≡ some x =
                  rw (z, a, t, k) at e in
                let whole = some-injective _ _ same in
                let (total_is, total_fits) = kibibytes_to_bytes_lem f.total_kib total t in
                let (available_is, available_fits) =
                  kibibytes_to_bytes_lem (min kib f.total_kib) available k in
                let less : min kib f.total_kib ≤ f.total_kib = ground arith in
                let nonzero : 0 < f.total_kib = ground arith in
                (total, available, omega arith, total_fits, omega arith, sym whole)
          ]
        ]
      ]
    ]

-- The rate of what was not idle between the last sample and this one, or none.
abbrev pub CpuFine : Rates → Option CpuTimes → Option CpuTimes → Bool → ℕ → Type 0
CpuFine r before after there rate =
    (there ≡ true
      → (previous : CpuTimes) × (current : CpuTimes) × (busy : ℕ) × (whole : ℕ) × (before
          ≡ some previous)
        × (after ≡ some current)
        × Between previous current busy whole
        × (rate ≡ r.percent busy whole))
    × (there ≡ false → rate ≡ 0)

input_small :
    (input : Option Text) (t : CpuTimes)
    → (input >>= first_line >>= cpu_times) ≡ some t
    → (t.total < 2 ^ 64) × (t.idle < 2 ^ 64)
input_small input t e = elim (Option-cases (input >>= first_line)) [
  | inl l ↦ let bad : none ≡ some t = rw l at e in cc
  | inr (line, l) ↦ cpu_times_small line t (rw l at e)
]

sample_cpu_lem :
    (r : Rates) (input : Option Text) (before : SystemMetrics) (m : SystemMonitor)
    → let (ok, metrics, after) = sample_cpu r input before m in
      ok ≡ true
      → CpuFine r m.previous_cpu_times after.previous_cpu_times metrics.cpu_usage_available
          metrics.cpu_usage_percent
unfolding sample_cpu cpu_usage
sample_cpu_lem r input before m = elim (Option-cases (input >>= first_line >>= cpu_times)) [
  | inl e ↦ rw (e, sample_cpu) (λ ok. cc)
  | inr (current, e) ↦ elim (Option-cases m.previous_cpu_times) [
    | inl n ↦
        let u : cpu_usage m.previous_cpu_times current ≡ none = ap (λ p. cpu_usage p current) n in
        rw (e, sample_cpu, u) (λ ok. (λ there. cc, λ there. refl))
    | inr (previous, p) ↦ elim (Option-cases (cpu_usage m.previous_cpu_times current)) [
      | inl u ↦ rw (e, sample_cpu, u) (λ ok. (λ there. cc, λ there. refl))
      | inr ((busy, whole), u) ↦
          let (small, idle_small) = input_small input current e in
          let between =
            cpu_usage_within previous current busy whole small idle_small
              (ap (λ q. cpu_usage q current) (sym p) ∙ u) in
          rw (e, sample_cpu, u)
            (λ ok. (λ there. (previous, current, busy, whole, p, refl, between, refl), λ there. cc))
    ]
  ]
]

abbrev pub Plausible : Rates → SystemMonitor → SystemMonitor → SystemMetrics → Type 0
Plausible r m m' x =
    (0 < x.memory_total_bytes)
    × (x.memory_total_bytes < 2 ^ 64)
    × (x.memory_used_bytes + x.memory_available_bytes ≡ x.memory_total_bytes)
    × (x.memory_usage_percent ≡ r.percent x.memory_used_bytes x.memory_total_bytes)
    × CpuFine r m.previous_cpu_times m'.previous_cpu_times x.cpu_usage_available x.cpu_usage_percent

-- A sample that succeeds has figures that belong together, whatever the files hold: the memory that is
-- used and the memory that is available make up the total, which is not zero and fits 64 bits, and
-- the memory rate is that of the used part; a processor rate is there only after an earlier sample,
-- and is the rate of a part `busy` in a whole that is not zero and not less: the whole is what the
-- total counter has grown by since then, and the rest of it what the idle counter has, neither of
-- them back or around; the rate is zero where none is there.
pub sample_lem :
    (r : Rates) (files : Readings) (m : SystemMonitor) (x : SystemMetrics)
    → (sample r files m).0 ≡ some x
    → Plausible r m (sample r files m).1 x
unfolding sample with_memory
sample_lem r files m x e =
    let (ok, metrics, after) = sample_cpu r files.stat no_metrics m in
    elim (Bool-cases ok) [
      | inr bad_cpu ↦ let bad : none ≡ some x = rw bad_cpu at e in cc
      | inl good_cpu ↦ elim (Option-cases (sample_memory r files.meminfo metrics)) [
        | inl no_memory ↦ let bad : none ≡ some x = rw (good_cpu, no_memory) at e in cc
        | inr (measured, there) ↦
            let cpu = sample_cpu_lem r files.stat no_metrics m good_cpu in
            let (total, available, positive, fits, within, is) =
              sample_memory_lem r files.meminfo metrics measured there in
            let finished : SystemMetrics → SystemMetrics = λ y. record y {
              timestamp = files.now;
              temperatures = sample_temperatures r files.thermal;
            } in
            let taken : some (finished measured) ≡ some x = rw (good_cpu, there) at e in
            let same : finished (with_memory r total available metrics) ≡ x =
              ap finished (sym is) ∙ some-injective _ _ taken in
            let after_is : (sample r files m).1 ≡ after = rw (good_cpu, there) refl in
            subst (λ n. Plausible r m n x) (sym after_is)
              (subst (Plausible r m after) same (positive, fits, omega arith, refl, cpu))
      ]
    ]
