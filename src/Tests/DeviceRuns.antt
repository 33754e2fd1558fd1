-- ===== src/Tests/DeviceRuns.antt =====
-- Runs of include/edgelink/device.h, src/device_manager.cpp, src/device_connection_state_machine.cpp
-- and src/reconnect_backoff.cpp.
use edge_link.DeviceManager
use edge_link.DeviceManager.Validity
use edge_link.Connection
use edge_link.Prelude.{
  ℕ, ◌*◌, ◌^◌, min, ◌≡◌, refl, true, ◌&&◌, List, [], ◌∷◌, arith, if◌then◌else◌, Text, codes,
}
use edge_link.Backoff.{Backoff, reset, record_failures}
use edge_link.Backoff.Delays.{record_failures-reset}
use edge_link.Connection.{
  Machine, ns_per_ms, is_transition_allowed, transition_to, mark_activity, check_timeout,
}
use edge_link.Connection.Sync.{with_state, transition_to_lem, IsSynced, run-IsSynced}
use edge_link.Device.{Quality, ConnectionState, TagValue, Tag, Device}
use edge_link.DeviceManager.{
  DeviceManager, add_device, remove_device, find_device, has_device, device_count, mark,
  update_all_tag_qualities,
}
use edge_link.DeviceManager.Validity.{devices_run-IsValid}
use edge_link.Prelude.Dict.{find, Option_map}
use edge_link.Prelude.Keys.{text_beq, text_eq, nat_eq}

abbrev id_a : Text
id_a = codes "plc-1"

abbrev tag_name_a : Text
tag_name_a = codes "temp"

abbrev tag_a : Tag
tag_a = record {
  name = tag_name_a;
  value = TagValue.double 0;
  quality = Quality.good;
  timestamp = 0;
}

abbrev device_a : Device
device_a = record {
  id = id_a;
  name = id_a;
  protocol = codes "modbus-tcp";
  state = ConnectionState.disconnected;
  tags = [];
}

abbrev empty_table : DeviceManager
empty_table = record { devices = [] }

abbrev table_ops : List DeviceManager.Op
table_ops =
    DeviceManager.Op.add device_a
    ∷ DeviceManager.Op.set_tag id_a tag_a 5
    ∷ DeviceManager.Op.mark_all id_a Quality.timeout 6
    ∷ []

abbrev table : DeviceManager
table = DeviceManager.run empty_table table_ops

devices_run-IsValid_example :
    DeviceManager.Validity.IsValid (DeviceManager.run empty_table table_ops)
devices_run-IsValid_example =
    devices_run-IsValid table_ops empty_table ((tt, tt), (tt, (tt, tt)))
      (record { entries = tt; unique = tt })

abbrev machine : Machine
machine = record {
  device_id = id_a;
  timeout = 3000;
  last_activity = 0;
  state = ConnectionState.disconnected;
}

abbrev machine_calls : List (ℕ × Connection.Call)
machine_calls =
    (1, Connection.Call.transition ConnectionState.connecting)
    ∷ (2, Connection.Call.transition ConnectionState.connected)
    ∷ (3, Connection.Call.table (DeviceManager.Op.set_tag id_a tag_a 3))
    ∷ (4000000000, Connection.Call.check)
    ∷ []

run-IsSynced_example :
    let (s, m) =
      Connection.run (machine, record { devices = (id_a, device_a) ∷ [] }) machine_calls in
    IsSynced s m
run-IsSynced_example =
    run-IsSynced machine_calls (machine, record { devices = (id_a, device_a) ∷ [] })
      (tt, (tt, (tt, (tt, tt)))) (device_a, (unfold find_device find in refl), refl)

transition_to_example :
    let (ok, s', m') = transition_to machine table ConnectionState.connecting 7 in
    (ok ≡ has_device table id_a)
    × (s' ≡ (
        if ok && true
        then record machine { state = ConnectionState.connecting; last_activity = 0 }
        else machine))
    × (find_device m' id_a ≡ (
        if ok && true && text_beq id_a id_a
        then Option_map (with_state ConnectionState.connecting) (find_device table id_a)
        else find_device table id_a))
transition_to_example =
    unfold is_transition_allowed in
    transition_to_lem machine table ConnectionState.connecting 7 id_a

abbrev connected_machine : Machine
connected_machine = record machine { state = ConnectionState.connected }

abbrev backoff : Backoff
backoff = record {
  initial_delay = 500;
  maximum_delay = 30000;
  next_delay = 500;
  retry_at = 0;
  failure_count = 0;
}

record_failures-reset_example :
    (record_failures (reset backoff) (1 ∷ 2 ∷ 3 ∷ [])).next_delay ≡ min (500 * 2 ^ 3) 30000
record_failures-reset_example =
    record_failures-reset backoff (1 ∷ 2 ∷ 3 ∷ [])
      (record { positive = omega arith; lower = omega arith; upper = omega arith })

abbrev waiting : Backoff
waiting = record backoff { retry_at = 5000000; failure_count = 1 }
