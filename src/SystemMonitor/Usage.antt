-- ===== src/SystemMonitor/Usage.antt =====
-- src/system_monitor.cpp: the processor's usage between two samples of the kernel's file.
use edge_link.Prelude.{
  ℕ, zero, suc, ◌+◌, ◌-◌, ◌/◌, ◌%◌, ◌^◌, ◌≤◌, ◌<◌, ◌≡◌, refl, ap, ◌∙◌, true, false, some, List, [],
  ◌∷◌, ◌++◌, arith, ltb, eqb, Text, length, All,
}
use edge_link.Prelude.Decimal.{digits_before}
use edge_link.Prelude.Keys.{text_eq, nat_eq}
use edge_link.SystemMonitor.{
  Rates, SystemMetrics, CpuTimes, SystemMonitor, uint64_max, sum_counters, idle_time, cpu_times,
  minus64, cpu_usage, sample_cpu,
}
use edge_link.SystemMonitor.Stat.{spaced, stat_line, times_of, cpu_times-stat_line}
use edge_link.SystemMonitor.Streams.{prepend, lines_of, first_line}

abbrev OneLine : Text → Type 0
OneLine s = All (λ c. eqb c 10 ≡ false) s

digits_before-OneLine :
    (fuel n : ℕ) (rest : Text) → OneLine rest → OneLine (digits_before fuel n rest)
unfolding digits_before
digits_before-OneLine zero n rest h = h
digits_before-OneLine (suc fuel) n rest h =
    let later = digits_before-OneLine fuel (n / 10) ((48 + n % 10) ∷ rest) (ground arith, h) in
    ground (arith, later)

spaced-OneLine : (ns : List ℕ) → OneLine (spaced ns)
spaced-OneLine [] = tt
spaced-OneLine (n ∷ ns) = (refl, digits_before-OneLine 20 n (spaced ns) (spaced-OneLine ns))

lines_of-append :
    (s more_text : Text) → OneLine s → lines_of (s ++ (10 ∷ more_text)) ≡ s ∷ lines_of more_text
unfolding lines_of
lines_of-append [] more_text h = refl
lines_of-append (c ∷ cs) more_text h =
    rw (h.0, lines_of) (ap (prepend c) (lines_of-append cs more_text h.1))

first_line-stat_line :
    (ns : List ℕ) (more_text : Text)
    → first_line (stat_line ns ++ (10 ∷ more_text)) ≡ some (stat_line ns)
unfolding first_line
first_line-stat_line ns more_text =
    let lines =
      lines_of-append (stat_line ns) more_text (refl, (refl, (refl, (refl, spaced-OneLine ns)))) in
    rw (lines, first_line) refl

-- The eight counters without the guest ones, which the kernel counts in them already.
pub record Counters : Type 0 where
  pub user : ℕ
  pub nice : ℕ
  pub system : ℕ
  pub idle : ℕ
  pub iowait : ℕ
  pub irq : ℕ
  pub softirq : ℕ
  pub steal : ℕ

abbrev pub fields : Counters → List ℕ → List ℕ
fields c guests =
    c.user ∷ c.nice ∷ c.system ∷ c.idle ∷ c.iowait ∷ c.irq ∷ c.softirq ∷ c.steal ∷ guests

abbrev pub passed : Counters → ℕ
passed c = c.user + c.nice + c.system + c.idle + c.iowait + c.irq + c.softirq + c.steal

abbrev pub idled : Counters → ℕ
idled c = c.idle + c.iowait

abbrev all_of : List ℕ → ℕ
all_of [] = 0
all_of (n ∷ ns) = n + all_of ns

sum_counters_fits :
    (cs : List ℕ) (total : ℕ)
    → total + all_of cs < 2 ^ 64
    → sum_counters cs total ≡ some (total + all_of cs)
unfolding sum_counters
sum_counters_fits [] total small = ap some (omega arith)
sum_counters_fits (c ∷ cs) total small =
    let rest = sum_counters_fits cs (total + c) (omega arith) in
    let room : ltb (uint64_max - c) total ≡ false = ground arith in
    rw (room, rest) (ap some (omega arith))

times_of-fields :
    (c : Counters) (guests : List ℕ)
    → passed c < 2 ^ 64
    → times_of (fields c guests) ≡ some (record { total = passed c; idle = idled c })
unfolding idle_time
times_of-fields c guests small =
    let sum : sum_counters (fields c []) 0 ≡ some (passed c) =
      sum_counters_fits (fields c []) 0 (omega arith) ∙ ap some (omega arith) in
    let enough : ltb (length (fields c guests)) 4 ≡ false = ground arith in
    let room : ltb (uint64_max - c.iowait) c.idle ≡ false = ground arith in
    rw (enough, sum, room) refl

fields-small :
    (c : Counters) (guests : List ℕ)
    → passed c < 2 ^ 64
    → All (λ n. n < 2 ^ 64) guests
    → All (λ n. n < 2 ^ 64) (fields c guests)
fields-small c guests small guests_small = ground arith

cpu_usage_grown :
    (p c : CpuTimes)
    → p.total < c.total
    → p.idle ≤ c.idle
    → c.idle - p.idle ≤ c.total - p.total
    → c.total < 2 ^ 64
    → c.idle < 2 ^ 64
    → cpu_usage (some p) c ≡ some (c.total - p.total - (c.idle - p.idle), c.total - p.total)
unfolding cpu_usage
cpu_usage_grown p c grown idle_grown less total_small idle_small =
    let total_delta : minus64 c.total p.total ≡ c.total - p.total = omega arith in
    let idle_delta : minus64 c.idle p.idle ≡ c.idle - p.idle = omega arith in
    let busy : minus64 (c.total - p.total) (c.idle - p.idle)
        ≡ c.total - p.total - (c.idle - p.idle) =
      omega arith in
    rw (total_delta, idle_delta, busy) (ground arith)

-- When the first line is the kernel's, with any guest counters and any text behind it, and the eight
-- counters fit 64 bits together: the sample succeeds and keeps their sum and the idle part of it, and
-- where both have not gone back since the last sample, and the sum has grown by at least as much as
-- the idle part and not by zero, the usage is the rate of what was not idle in what has passed.
pub sample_cpu-stat_line :
    (r : Rates) (c : Counters) (guests : List ℕ) (more_text : Text) (before : SystemMetrics)
    (m : SystemMonitor)
    → passed c < 2 ^ 64
    → All (λ n. n < 2 ^ 64) guests
    → let file = stat_line (fields c guests) ++ (10 ∷ more_text) in
      let (ok, metrics, after) = sample_cpu r (some file) before m in
      (ok ≡ true)
      × (after.previous_cpu_times ≡ some (record { total = passed c; idle = idled c }))
      × ((p : CpuTimes)
          → m.previous_cpu_times ≡ some p
          → p.total < passed c
          → p.idle ≤ idled c
          → idled c - p.idle ≤ passed c - p.total
          → (metrics.cpu_usage_available ≡ true)
            × (metrics.cpu_usage_percent
                ≡ r.percent (passed c - p.total - (idled c - p.idle)) (passed c - p.total)))
unfolding sample_cpu
sample_cpu-stat_line r c guests more_text before m small guests_small =
    let ns = fields c guests in
    let current : CpuTimes = record { total = passed c; idle = idled c } in
    let all_small : All (λ n. n < 2 ^ 64) ns = fields-small c guests small guests_small in
    let line = first_line-stat_line ns more_text in
    let times : cpu_times (stat_line ns) ≡ some current =
      cpu_times-stat_line c.user
        (c.nice ∷ c.system ∷ c.idle ∷ c.iowait ∷ c.irq ∷ c.softirq ∷ c.steal ∷ guests) all_small
      ∙ times_of-fields c guests small in
    rw (line, times, sample_cpu)
      (
        refl,
        refl,
        λ p e grown idle_grown less.
            let usage : cpu_usage m.previous_cpu_times current
                ≡ some (passed c - p.total - (idled c - p.idle), passed c - p.total) =
              ap (λ q. cpu_usage q current) e
              ∙ cpu_usage_grown p current grown idle_grown less small (omega arith) in
            rw usage (refl, refl),
      )
