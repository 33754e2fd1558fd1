-- ===== src/SystemMonitor.antt =====
-- src/system_monitor.cpp: the figures of the processor, the memory and the thermal zones. The contents of
-- the files are arguments, `none` where a file cannot be opened; a floating-point number is its bits.
pub mod Streams
pub mod Thermal
pub mod Sample
pub mod Width
pub mod Bounds
pub mod Stat
pub mod Usage
pub mod Fuel
use edge_link.Prelude.{
  ℕ, ◌+◌, ◌-◌, ◌*◌, ◌/◌, ◌%◌, ◌^◌, min, Bool, true, false, not, ◌&&◌, ◌||◌, Option, none, some,
  List, [], ◌∷◌, ltb, leb, eqb, if◌then◌else◌, ◌>>=◌, Text, codes, length, is_empty, take,
}
use edge_link.Prelude.Keys.{text_beq, text_eq, nat_eq}
use edge_link.SystemMonitor.Streams.{lines_of, first_line, read_word, read_unsigned, read_counters}

-- The floating-point results: `part * 100.0 / whole`, and `millidegrees / 1000.0` for a 64-bit pattern.
pub record Rates : Type 0 where
  pub percent : ℕ → ℕ → ℕ
  pub celsius : ℕ → ℕ

pub record ThermalReading : Type 0 where
  pub zone : Text
  pub kind : Text
  pub celsius : ℕ

pub record SystemMetrics : Type 0 where
  pub timestamp : ℕ
  pub cpu_usage_available : Bool
  pub cpu_usage_percent : ℕ
  pub memory_total_bytes : ℕ
  pub memory_available_bytes : ℕ
  pub memory_used_bytes : ℕ
  pub memory_usage_percent : ℕ
  pub temperatures : List ThermalReading

pub record CpuTimes : Type 0 where
  pub total : ℕ
  pub idle : ℕ

-- `hasPreviousCpuTimes_` is whether the previous times are there.
pub record SystemMonitor : Type 0 where
  pub previous_cpu_times : Option CpuTimes

unfoldable pub new : SystemMonitor
new = record { previous_cpu_times = none }

abbrev pub uint64_max : ℕ
uint64_max = 2 ^ 64 - 1

-- The sum of counters, where it does not overflow.
unfoldable pub sum_counters : List ℕ → ℕ → Option ℕ
sum_counters [] total = some total
sum_counters (c ∷ cs) total =
    let rest = sum_counters cs (total + c) in if ltb (uint64_max - c) total then none else rest

-- The fourth counter, with the fifth if there is one.
unfoldable pub idle_time : List ℕ → Option ℕ
idle_time (user ∷ nice ∷ system ∷ idle ∷ []) = some idle
idle_time (user ∷ nice ∷ system ∷ idle ∷ iowait ∷ counters) =
    if ltb (uint64_max - iowait) idle then none else some (idle + iowait)
idle_time _ = none

-- The times of the first line.
unfoldable pub cpu_times : Text → Option CpuTimes
cpu_times line =
    let (label, rest) = read_word line in
    let counters = read_counters (length rest) rest in
    if not (text_beq label (codes "cpu")) || ltb (length counters) 4
    then none
    else (sum_counters (take 8 counters) 0 >>= λ total.
        idle_time counters >>= λ idle. some (record { total = total; idle = idle }))

-- The subtraction of 64-bit counters.
abbrev pub minus64 : ℕ → ℕ → ℕ
minus64 a b = (a + 2 ^ 64 - b) % 2 ^ 64

-- The usage between two samples, where it can be told.
unfoldable pub cpu_usage : Option CpuTimes → CpuTimes → Option (ℕ × ℕ)
cpu_usage none current = none
cpu_usage (some previous) current =
    let total_delta = minus64 current.total previous.total in
    let idle_delta = minus64 current.idle previous.idle in
    if leb previous.total current.total
      && leb previous.idle current.idle
      && ltb 0 total_delta
      && leb idle_delta total_delta
    then some (minus64 total_delta idle_delta, total_delta)
    else none

unfoldable pub sample_cpu :
    Rates → Option Text → SystemMetrics → SystemMonitor → Bool × SystemMetrics × SystemMonitor
sample_cpu r input metrics m = elim (input >>= first_line >>= cpu_times) [
  | none ↦ (false, metrics, m)
  | some current ↦ (
    true,
    elim (cpu_usage m.previous_cpu_times current) [
      | none ↦ record metrics { cpu_usage_available = false; cpu_usage_percent = 0 }
      | some (busy, whole) ↦ record metrics {
        cpu_usage_available = true;
        cpu_usage_percent = r.percent busy whole;
      }
    ],
    record m { previous_cpu_times = some current },
  )
]

-- The fields of the memory file that are read, in KiB.
pub record MemoryFields : Type 0 where
  pub total_kib : ℕ
  pub available_kib : Option ℕ
  pub free_kib : ℕ
  pub buffers_kib : ℕ
  pub cached_kib : ℕ

abbrev pub no_fields : MemoryFields
no_fields = record {
  total_kib = 0;
  available_kib = none;
  free_kib = 0;
  buffers_kib = 0;
  cached_kib = 0;
}

unfoldable pub set_field : Text → ℕ → MemoryFields → MemoryFields
set_field key value f =
    if text_beq key (codes "MemTotal:")
    then record f { total_kib = value }
    else if text_beq key (codes "MemAvailable:")
    then record f { available_kib = some value }
    else if text_beq key (codes "MemFree:")
    then record f { free_kib = value }
    else if text_beq key (codes "Buffers:")
    then record f { buffers_kib = value }
    else if text_beq key (codes "Cached:")
    then record f { cached_kib = value }
    else f

-- A line without a key, a number and the unit is passed over.
unfoldable pub read_memory_line : Text → MemoryFields → MemoryFields
read_memory_line line f =
    let (key, after_key) = read_word line in
    if is_empty key then f else elim (read_unsigned after_key) [
      | none ↦ f
      | some (value, after_value) ↦
          let (measure, rest) = read_word after_value in
          if text_beq measure (codes "kB") then set_field key value f else f
    ]

unfoldable pub read_memory_lines : List Text → MemoryFields → MemoryFields
read_memory_lines [] f = f
read_memory_lines (line ∷ lines) f = read_memory_lines lines (read_memory_line line f)

-- What is available, told or estimated; `none` where the sum overflows.
unfoldable pub available_memory : MemoryFields → Option ℕ
available_memory f = elim f.available_kib [
  | some kib ↦ some kib
  | none ↦
      if ltb (uint64_max - f.buffers_kib) f.free_kib
        || ltb (uint64_max - f.cached_kib) (f.free_kib + f.buffers_kib)
      then none
      else some (f.free_kib + f.buffers_kib + f.cached_kib)
]

unfoldable pub kibibytes_to_bytes : ℕ → Option ℕ
kibibytes_to_bytes kib = if ltb (uint64_max / 1024) kib then none else some (kib * 1024)

unfoldable pub with_memory : Rates → ℕ → ℕ → SystemMetrics → SystemMetrics
with_memory r total available metrics = record metrics {
  memory_total_bytes = total;
  memory_available_bytes = available;
  memory_used_bytes = total - available;
  memory_usage_percent = r.percent (total - available) total;
}

unfoldable pub sample_memory : Rates → Option Text → SystemMetrics → Option SystemMetrics
sample_memory r none metrics = none
sample_memory r (some input) metrics =
    let f = read_memory_lines (lines_of input) no_fields in
    if eqb f.total_kib 0
    then none
    else (available_memory f >>= λ kib. kibibytes_to_bytes f.total_kib >>= λ total.
        kibibytes_to_bytes (min kib f.total_kib) >>= λ available.
        some (with_memory r total available metrics))
