-- ===== src/SystemMonitor/Thermal.antt =====
-- src/system_monitor.cpp: `sampleTemperatures` over the entries of the thermal directory.
use edge_link.Prelude.{
  ℕ, Bool, true, false, not, ◌&&◌, ◌||◌, Option, none, some, List, [], ◌∷◌, ltb, eqb, if◌then◌else◌,
  ◌>>=◌, Text, codes, is_empty,
}
use edge_link.Prelude.Keys.{text_eq, nat_eq}
use edge_link.SystemMonitor.{Rates, ThermalReading}
use edge_link.SystemMonitor.Streams.{first_line, read_signed}

-- An entry of the thermal directory, with the contents of its two files.
pub record ThermalEntry : Type 0 where
  pub name : Text
  pub temp : Option Text
  pub type_file : Option Text

unfoldable pub ends_line : ℕ → Bool
ends_line c = eqb c 10 || eqb c 13

unfoldable pub trim_line_ending : Text → Text
trim_line_ending [] = []
trim_line_ending (c ∷ cs) =
    let rest = trim_line_ending cs in if is_empty rest && ends_line c then [] else c ∷ rest

unfoldable pub has_prefix : Text → Text → Bool
has_prefix [] s = true
has_prefix (c ∷ cs) [] = false
has_prefix (c ∷ cs) (d ∷ ds) = eqb c d && has_prefix cs ds

unfoldable pub read_type : Option Text → Text
read_type none = []
read_type (some input) = elim (first_line input) [ none ↦ [] | some line ↦ trim_line_ending line ]

-- The reading of an entry, if it has one.
unfoldable pub read_zone : Rates → ThermalEntry → Option ThermalReading
read_zone r entry =
    if not (has_prefix (codes "thermal_zone") entry.name)
    then none
    else (entry.temp >>= λ input. read_signed input >>= λ millidegrees.
        let kind = read_type entry.type_file in
        some (record {
          zone = entry.name;
          kind = if is_empty kind then entry.name else kind;
          celsius = r.celsius millidegrees;
        }))

unfoldable pub read_zones : Rates → List ThermalEntry → List ThermalReading
read_zones r [] = []
read_zones r (entry ∷ entries) = elim (read_zone r entry) [
  | none ↦ read_zones r entries
  | some reading ↦ reading ∷ read_zones r entries
]

-- The order of strings.
unfoldable pub text_leb : Text → Text → Bool
text_leb [] t = true
text_leb (c ∷ cs) [] = false
text_leb (c ∷ cs) (d ∷ ds) = ltb c d || (eqb c d && text_leb cs ds)

-- `std::sort` by the zone, whose names differ.
unfoldable pub insert_reading : ThermalReading → List ThermalReading → List ThermalReading
insert_reading x [] = x ∷ []
insert_reading x (y ∷ ys) =
    let rest = insert_reading x ys in if text_leb x.zone y.zone then x ∷ y ∷ ys else y ∷ rest

unfoldable pub sort_readings : List ThermalReading → List ThermalReading
sort_readings [] = []
sort_readings (x ∷ xs) = insert_reading x (sort_readings xs)

-- `none` where the directory cannot be read.
unfoldable pub sample_temperatures : Rates → Option (List ThermalEntry) → List ThermalReading
sample_temperatures r none = []
sample_temperatures r (some entries) = sort_readings (read_zones r entries)
