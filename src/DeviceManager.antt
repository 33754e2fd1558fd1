-- ===== src/DeviceManager.antt =====
-- src/device_manager.cpp: the device table. A method that changes the table returns the new table
-- beside its result; logging is left out. `now` is the value of `system_clock::now()` in the call.
pub mod Validity
pub mod Effects
pub mod States
use edge_link.Device
use edge_link.Prelude.{
  ℕ, Bool, true, false, Option, none, some, List, [], ◌∷◌, map, if◌then◌else◌, is_some, Text,
  length, is_empty,
}
use edge_link.Device.{Quality, ConnectionState, Tag, Device}
use edge_link.Prelude.Dict.{find, put, erase, map_values}
use edge_link.Prelude.Keys.{nat_eq, text_eq}

pub record DeviceManager : Type 0 where
  pub devices : List (Text × Device)

unfoldable pub add_device : DeviceManager → Device → Bool × DeviceManager
add_device m d =
    if is_empty d.id
    then (false, m)
    else if is_some (find d.id m.devices)
    then (false, m)
    else (true, record m { devices = put d.id d m.devices })

unfoldable pub remove_device : DeviceManager → Text → Bool × DeviceManager
remove_device m id = elim (find id m.devices) [
  | none ↦ (false, m)
  | some d ↦ (true, record m { devices = erase id m.devices })
]

unfoldable pub find_device : DeviceManager → Text → Option Device
find_device m id = find id m.devices

unfoldable pub has_device : DeviceManager → Text → Bool
has_device m id = is_some (find id m.devices)

pub device_count : DeviceManager → ℕ
device_count m = length m.devices

pub device_ids : DeviceManager → List Text
device_ids m = map (λ e. e.0) m.devices

-- The write through the pointer that `findDevice` returned.
unfoldable pub modify : DeviceManager → Text → (Device → Device) → Bool × DeviceManager
modify m id f = elim (find id m.devices) [
  | none ↦ (false, m)
  | some d ↦ (true, record m { devices = put id (f d) m.devices })
]

unfoldable pub update_connection_state :
    DeviceManager → Text → ConnectionState → Bool × DeviceManager
unfolding modify
update_connection_state m id state = modify m id (λ d. record d { state = state })

unfoldable pub update_tag : DeviceManager → Text → Tag → ℕ → Bool × DeviceManager
update_tag m id tag now = elim (find id m.devices) [
  | none ↦ (false, m)
  | some d ↦
      if is_empty tag.name
      then (false, m)
      else (true, record m { devices = put id (Device.update_tag d tag now) m.devices })
]

abbrev pub mark : Quality → ℕ → Tag → Tag
mark q now tag = record tag { quality = q; timestamp = now }

unfoldable pub update_all_tag_qualities : DeviceManager → Text → Quality → ℕ → Bool × DeviceManager
unfolding modify
update_all_tag_qualities m id q now =
    modify m id (λ d. record d { tags = map_values (mark q now) d.tags })

pub clear : DeviceManager → DeviceManager
clear m = record m { devices = [] }

-- A call of one of the methods that write the table.
pub data Op : Type 0 where
  add : Device → Op
  remove : Text → Op
  set_state : Text → ConnectionState → Op
  set_tag : Text → Tag → ℕ → Op
  mark_all : Text → Quality → ℕ → Op
  clear_all : Op

unfoldable pub step : DeviceManager → Op → Bool × DeviceManager
step m (add d) = add_device m d
step m (remove id) = remove_device m id
step m (set_state id state) = update_connection_state m id state
step m (set_tag id tag now) = update_tag m id tag now
step m (mark_all id q now) = update_all_tag_qualities m id q now
step m clear_all = (true, clear m)

pub run : DeviceManager → List Op → DeviceManager
run m [] = m
run m (op ∷ ops) = run (step m op).1 ops
