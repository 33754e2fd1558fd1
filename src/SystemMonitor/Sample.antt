-- ===== src/SystemMonitor/Sample.antt =====
-- src/system_monitor.cpp: `sample`, which puts the parts together.
use edge_link.Prelude.{ℕ, false, not, Option, none, some, List, [], if◌then◌else◌, Text}
use edge_link.Prelude.Keys.{text_eq, nat_eq}
use edge_link.SystemMonitor.{Rates, SystemMetrics, SystemMonitor, sample_cpu, sample_memory}
use edge_link.SystemMonitor.Thermal.{ThermalEntry, sample_temperatures}

-- The files, and the clock.
pub record Readings : Type 0 where
  pub stat : Option Text
  pub meminfo : Option Text
  pub thermal : Option (List ThermalEntry)
  pub now : ℕ

abbrev pub no_metrics : SystemMetrics
no_metrics = record {
  timestamp = 0;
  cpu_usage_available = false;
  cpu_usage_percent = 0;
  memory_total_bytes = 0;
  memory_available_bytes = 0;
  memory_used_bytes = 0;
  memory_usage_percent = 0;
  temperatures = [];
}

-- The times of the processor are kept even where the memory cannot be read.
unfoldable pub sample : Rates → Readings → SystemMonitor → Option SystemMetrics × SystemMonitor
sample r files m =
    let (ok, metrics, after) = sample_cpu r files.stat no_metrics m in
    if not ok then (none, after) else elim (sample_memory r files.meminfo metrics) [
      | none ↦ (none, after)
      | some measured ↦ (
        some (record measured {
          timestamp = files.now;
          temperatures = sample_temperatures r files.thermal;
        }),
        after,
      )
    ]
