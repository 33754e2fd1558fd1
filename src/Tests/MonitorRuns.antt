-- ===== src/Tests/MonitorRuns.antt =====
-- Runs of the system monitor.
use edge_link.Prelude.{
  ℕ, ◌-◌, ◌≡◌, ◌≤◌, ◌<◌, refl, true, none, some, List, [], ◌∷◌, ◌++◌, arith, codes, ◌*◌, ◌/◌,
}
use edge_link.SystemMonitor
use edge_link.SystemMonitor.{Rates, SystemMetrics, CpuTimes, SystemMonitor, sample_cpu}
use edge_link.SystemMonitor.Bounds.{Plausible, sample_lem}
use edge_link.SystemMonitor.Sample.{Readings, sample, no_metrics}
use edge_link.SystemMonitor.Stat.{stat_line}
use edge_link.SystemMonitor.Streams
use edge_link.SystemMonitor.Thermal
use edge_link.SystemMonitor.Usage.{Counters, fields, passed, idled, sample_cpu-stat_line}

-- Rates in whole numbers.
abbrev whole_rates : Rates
whole_rates = record { percent = λ a b. a * 100 / b; celsius = λ n. n / 1000 }

abbrev counted : Counters
counted = record {
  user = 20;
  nice = 0;
  system = 10;
  idle = 60;
  iowait = 10;
  irq = 0;
  softirq = 0;
  steal = 0;
}

abbrev sampled : SystemMonitor
sampled = record { previous_cpu_times = some (record { total = 40; idle = 30 }) }

abbrev guest_counters : List ℕ
guest_counters = 7 ∷ 0 ∷ []

sample_cpu-stat_line_example :
    let file = stat_line (fields counted guest_counters) ++ (10 ∷ codes "intr 5") in
    let (ok, metrics, after) = sample_cpu whole_rates (some file) no_metrics sampled in
    (ok ≡ true)
    × (after.previous_cpu_times ≡ some (record { total = passed counted; idle = idled counted }))
    × ((p : CpuTimes)
        → sampled.previous_cpu_times ≡ some p
        → p.total < passed counted
        → p.idle ≤ idled counted
        → idled counted - p.idle ≤ passed counted - p.total
        → (metrics.cpu_usage_available ≡ true)
          × (metrics.cpu_usage_percent
              ≡ whole_rates.percent
                  (passed counted - p.total - (idled counted - p.idle))
                  (passed counted - p.total)))
sample_cpu-stat_line_example =
    sample_cpu-stat_line whole_rates counted guest_counters (codes "intr 5") no_metrics sampled
      (omega arith) (omega arith, (omega arith, tt))

abbrev three_files : Readings
three_files = record {
  stat = some (codes "cpu  20 0 10 60 10 0 0 0 7 0");
  meminfo = some (
      codes "MemTotal: 100 kB"
      ++ (10 ∷ codes "Buffers: x kB" ++ (10 ∷ codes "MemAvailable: 150 kB")));
  thermal = some (
      record { name = codes "thermal_zone1"; temp = some (codes "x"); type_file = none }
      ∷ record { name = codes "cooling"; temp = none; type_file = none }
      ∷ []);
  now = 9;
}

abbrev measured : SystemMetrics
measured = record {
  timestamp = 9;
  cpu_usage_available = true;
  cpu_usage_percent = 33;
  memory_total_bytes = 102400;
  memory_available_bytes = 102400;
  memory_used_bytes = 0;
  memory_usage_percent = 0;
  temperatures = [];
}

files_measured : (sample whole_rates three_files sampled).0 ≡ some measured
unfolding sample sample_cpu Streams.first_line Streams.lines_of SystemMonitor.cpu_times
    Streams.read_word Streams.span_word Streams.skip_spaces Streams.read_counters
    Streams.read_unsigned Streams.read_magnitude Streams.read_sign Streams.span_digits
    SystemMonitor.sum_counters SystemMonitor.idle_time SystemMonitor.sample_memory
    SystemMonitor.read_memory_lines SystemMonitor.read_memory_line Streams.read_signed
    Thermal.has_prefix Thermal.read_zone Thermal.read_zones Thermal.sample_temperatures
    Thermal.sort_readings SystemMonitor.available_memory SystemMonitor.cpu_usage
    SystemMonitor.kibibytes_to_bytes SystemMonitor.set_field SystemMonitor.with_memory
files_measured = refl

sample_lem_example :
    Plausible whole_rates sampled (sample whole_rates three_files sampled).1 measured
sample_lem_example = sample_lem whole_rates three_files sampled measured files_measured
