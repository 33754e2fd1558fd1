-- ===== src/Modbus/Polling.antt =====
-- plugins/modbus_plugin/modbus_plugin.cpp: what a poll leaves in the table.
use edge_link.DeviceManager
use edge_link.Prelude.{ℕ, ◌≡◌, false, Option, none, some, List, Text, All}
use edge_link.Device.{Quality, TagValue, Tag}
use edge_link.DeviceManager.{DeviceManager}
use edge_link.Modbus.{TagConfig, Floats, engineering_value}
use edge_link.Modbus.Client.{Response}
use edge_link.Prelude.Keys.{text_beq, text_eq, nat_eq}

abbrev pub reading : Text → TagValue → Quality → ℕ → Tag
reading name value quality time = record {
  name = name;
  value = value;
  quality = quality;
  timestamp = time;
}

-- The tag that an answer of the device stands for, at the time at which it was written.
abbrev pub converted : Text → ℕ → Option ℕ → Tag
converted name time none = reading name TagValue.monostate Quality.invalid time
converted name time (some v) = reading name (TagValue.double v) Quality.good time

abbrev pub answer_tag : Floats → TagConfig → ℕ → Option (ℕ × ℕ) → Tag
answer_tag f tag time none = reading tag.name TagValue.monostate Quality.timeout time
answer_tag f tag time (some (r0, r1)) = converted tag.name time (engineering_value f tag r0 r1)

abbrev pub shown : Floats → TagConfig → Response → Tag
shown f tag r = answer_tag f tag r.wall r.registers

-- No later tag of the list has this name.
abbrev pub Unnamed : Text → List TagConfig → Type 0
Unnamed name = All (λ (tag : TagConfig). text_beq tag.name name ≡ false)
