-- ===== src/Tests/ModbusRuns.antt =====
-- Runs of plugins/modbus_plugin/modbus_plugin.cpp.
use edge_link.Modbus.Client
use edge_link.DeviceManager
use edge_link.Prelude.{
  ℕ, ◌+◌, ◌*◌, ◌≡◌, refl, Bool, true, false, ◌&&◌, none, some, List, [], ◌∷◌, arith, codes,
  is_empty, All,
}
use edge_link.Backoff.{Backoff}
use edge_link.Connection.{Machine}
use edge_link.Device.{Quality, ConnectionState}
use edge_link.DeviceManager.{DeviceManager, find_device}
use edge_link.Modbus.{
  DataType, TagConfig, Config, Floats, register_count, validate_tags, validate_config,
}
use edge_link.Modbus.Client.{
  Session, Plugin, Times, Library, new_device, initialize, poll_once, start_session, stop_session,
}
use edge_link.Modbus.Initialize.{initialize_lem}
use edge_link.Modbus.Lifecycle.{SessionOk}
use edge_link.Modbus.Registers.{Addressable, Distinct, validate_config_lem}
use edge_link.Modbus.Runs.{client_run-SessionOk}
use edge_link.Prelude.Dict.{find}
use edge_link.Prelude.Int.{pos, pos_part, ltb_ℤ, leb_ℤ}
use edge_link.Prelude.Keys.{text_eq, nat_eq}

-- Whole numbers in place of doubles, all of them finite.
abbrev whole : Floats
whole = record {
  of_integer = pos_part;
  of_float = λ n. n;
  times = λ a b. a * b;
  plus = λ a b. a + b;
  is_finite = λ n. true;
}

abbrev level : TagConfig
level = record {
  name = codes "level";
  register_address = pos 0;
  data_type = DataType.uint32;
  scale = 1;
  offset = 2;
}

abbrev config : Config
config = record {
  host = codes "h";
  port = pos 502;
  slave_id = pos 1;
  communication_timeout_ms = pos 3000;
  reconnect_initial_delay_ms = pos 500;
  reconnect_maximum_delay_ms = pos 30000;
  device_id = codes "plc";
  device_name = codes "plc";
  tags = level ∷ [];
}

abbrev lib : Library
lib = record {
  creates = true;
  sets_slave = true;
  connects = true;
  responds = λ i. record { registers = some (1, 2); wall = 7 };
}

abbrev silent : Library
silent = record lib { responds = λ i. record { registers = none; wall = 8 } }

abbrev times : ℕ → Times
times now = record {
  created = now;
  retried = now;
  connecting = now;
  connected = now;
  connect_failed = now;
  polled = now;
  poll_failed = now;
  wall = now;
}

abbrev machine : Machine
machine = record {
  device_id = codes "plc";
  timeout = 3000;
  last_activity = 0;
  state = ConnectionState.disconnected;
}

abbrev backoff : Backoff
backoff = record {
  initial_delay = 500;
  maximum_delay = 30000;
  next_delay = 1000;
  retry_at = 500000000;
  failure_count = 1;
}

abbrev session : Session
session = record { connected = false; machine = machine; backoff = backoff }

abbrev table : DeviceManager
table = record { devices = (codes "plc", new_device config) ∷ [] }

session-SessionOk : SessionOk config session table
session-SessionOk = record {
  synced = (new_device config, (unfold find_device find in refl), refl);
  same_id = refl;
  timeout_positive = omega arith;
  backoff_ok = record { positive = omega arith; lower = omega arith; upper = omega arith };
  agrees = refl;
}

-- A start, a poll without an answer after the timeout, a poll too early to retry, and the end.
abbrev calls : List Client.Call
calls =
    Client.Call.starts lib (times 600000000)
    ∷ Client.Call.table (DeviceManager.Op.mark_all (codes "plc") Quality.stale 3)
    ∷ Client.Call.polls silent (times 4000000000)
    ∷ Client.Call.polls lib (times 4000000001)
    ∷ Client.Call.stops (times 5000000000)
    ∷ []

client_run_example :
    let (s', m') = Client.run whole config (session, table) calls in SessionOk config s' m'
client_run_example =
    client_run-SessionOk whole config calls session table (tt, (tt, (tt, (tt, (tt, tt)))))
      session-SessionOk

abbrev plugin : Plugin
plugin = record { config = config; session = none }

initialize_example :
    (ok : Bool) × (p' : Plugin) × (m' : DeviceManager) × (initialize whole plugin
        (record { devices = [] })
        lib
        0
      ≡ some (ok, p', m'))
    × (ok ≡ (validate_config whole config && true && true))
    × (ok ≡ true → (s : Session) × (p'.session ≡ some s) × SessionOk config s m')
    × (ok ≡ false → p'.session ≡ none)
initialize_example =
    initialize_lem whole plugin (record { devices = [] }) lib 0 refl
      (λ d e. unfold find_device find in cc)

validate_config_example :
    (is_empty config.tags ≡ false)
    × Distinct config.tags
    × All (λ (tag : TagConfig). (is_empty tag.name ≡ false) × Addressable tag) config.tags
    × (leb_ℤ config.port (pos 65535) ≡ true)
    × (ltb_ℤ (pos 0) config.port ≡ true)
    × (leb_ℤ config.slave_id (pos 247) ≡ true)
    × (ltb_ℤ (pos 0) config.slave_id ≡ true)
validate_config_example =
    validate_config_lem whole config (unfold validate_config validate_tags register_count in refl)
