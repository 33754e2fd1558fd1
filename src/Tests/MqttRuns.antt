-- ===== src/Tests/MqttRuns.antt =====
-- Runs of the MQTT service.
use edge_link.Mqtt
use edge_link.Prelude.{
  ℕ, suc, ◌≡◌, refl, ap, ◌⊎◌, true, false, some, List, [], ◌∷◌, ◌++◌, arith, Text, codes, All, IsIn,
}
use edge_link.Device.{Quality, TagValue}
use edge_link.Message.{Message}
use edge_link.Mqtt.{
  MqttConfig, MqttService, config_ok, ConnectAnswers, initialize_client, begin_connect,
  is_connected, set_offline_storage, handle_connect, handle_publish,
}
use edge_link.Mqtt.Json.{escape_json, FloatOutput}
use edge_link.Mqtt.Json.Strings.{in_text, read_json_string, read-escape_json}
use edge_link.Mqtt.Replay.{
  replay_wanted, begin_replay, check_connected, loaded_position, cannot_publish, begin_publish,
  end_publish, initial,
}
use edge_link.Mqtt.Replay.Drain.{replay_messages, Reliable, replay_messages_lem}
use edge_link.Mqtt.Replay.Held.{First}
use edge_link.Mqtt.Replay.Safety.{no_message_lost}
use edge_link.Prelude.Decimal.{c_str}
use edge_link.Prelude.Dict.{find}
use edge_link.Prelude.Int.{ℤ}
use edge_link.Prelude.Keys.{text_eq, nat_eq}
use edge_link.Storage.{SqlValue}
use edge_link.Storage.Outbox.{PendingMqttMessage}
use edge_link.Storage.Tables.{pending_message}
use edge_link.Storage.Values.{timestamp_to_milliseconds}
use edge_link.Tests.Databases.{Rows, numbered, delete_first, rows_queue, rows_queue-QueueLaws}
use edge_link.Mqtt.Replay

abbrev config : MqttConfig
config = record {
  host = codes "127.0.0.1";
  port = 1883;
  client_id = codes "edgelink";
  keep_alive_seconds = 60;
  connect_timeout_ms = ℤ.pos 3000;
  reconnect_initial_delay_seconds = 1;
  reconnect_maximum_delay_seconds = 30;
  publish_ack_timeout_ms = ℤ.pos 3000;
  topic_prefix = codes "edgelink/devices";
}

abbrev quoted : Text
quoted = codes "say \"hi\"\n"

abbrev no_floats : FloatOutput
no_floats = record { output_float = λ b. codes "1"; output_double = λ b. codes "1" }

abbrev empty_rows : Rows
empty_rows = record { base = 6; waiting_rows = []; stored_rows = [] }

abbrev alarm : Message
alarm = record {
  topic = codes "device.tag.updated";
  device_id = codes "plc1";
  tag_name = codes "alarm";
  value = TagValue.string quoted;
  quality = Quality.good;
  timestamp = 1700000000123456789;
}

-- Connected to the broker with the outbox, in a replay.
abbrev in_replay : MqttService
in_replay = record {
  config = config;
  client = some 1;
  loop_running = true;
  connected = true;
  initial_connection_completed = true;
  stopping = false;
  replay_requested = false;
  replaying = true;
  replay_message_id = 0;
  replay_publish_acknowledged = false;
  offline_storage = true;
}

read-escape_json_example :
    read_json_string in_text (escape_json quoted ++ (34 ∷ codes "}")) ≡ some (quoted, codes "}")
read-escape_json_example = read-escape_json quoted (codes "}")

abbrev waiting_message : PendingMqttMessage
waiting_message = pending_message (codes "t") (codes "p") false 0 7

abbrev one_row : Rows
one_row = record {
  base = 6;
  waiting_rows = pending_message (codes "t") (codes "p") false 0 ∷ [];
  stored_rows = [];
}

abbrev first_id : List PendingMqttMessage → ℕ
first_id [] = 0
first_id (m ∷ ms) = m.id

first_deleted :
    (base : ℕ) (rs : List (ℕ → PendingMqttMessage)) (others : List (List SqlValue))
    (m : PendingMqttMessage) (rest : List PendingMqttMessage)
    → numbered base rs ≡ m ∷ rest
    → (delete_first m.id (record { base = base; waiting_rows = rs; stored_rows = others })).0 ≡ true
first_deleted base [] others m rest e = cc
first_deleted base (r ∷ rs) others m rest e =
    let same : suc base ≡ m.id = ap first_id e in ground arith

rows_queue-Reliable : Reliable rows_queue
rows_queue-Reliable = record {
  load_works = λ d. refl;
  remove_works = λ d m rest first. first_deleted d.base d.waiting_rows d.stored_rows m rest first;
}

replay_messages_lem_example :
    let (sent, ended, s', store') = replay_messages rows_queue 1 5 3 in_replay one_row in
    (sent ≡ waiting_message ∷ []) × (ended ≡ true) × (rows_queue.rows store' ≡ [])
replay_messages_lem_example =
    replay_messages_lem rows_queue rows_queue-QueueLaws rows_queue-Reliable 1 5 3 in_replay one_row
      (omega arith) ((refl, omega arith), tt) (refl, refl, refl)

-- A run up to the removal of an acknowledged message.
abbrev Run : Type 0
Run =
    (x : Replay.System rows_queue) × Replay.Reachable rows_queue
      (initial rows_queue config empty_rows) x

abbrev willing : ConnectAnswers
willing = record {
  ready = true;
  created = some 1;
  delay_set = true;
  connect_started = true;
  loop_started = true;
}

abbrev then_step : (r : Run) {y : Replay.System rows_queue} → Replay.Step rows_queue r.0 y → Run
then_step r {y} s = (y, Replay.Reachable.and_then r.0 y r.1 s)

-- A message is stored before the first connection, which then starts the replay.
acknowledged_run : Run
unfolding initial Mqtt.new begin_connect initialize_client config_ok set_offline_storage
    handle_connect replay_wanted begin_replay check_connected is_connected loaded_position
    begin_publish cannot_publish handle_publish end_publish find c_str timestamp_to_milliseconds
acknowledged_run =
    let begun =
      then_step (initial rows_queue config empty_rows, Replay.Reachable.start_here)
        (Replay.Step.connects willing (λ h. refl)) in
    let with_outbox = then_step begun (Replay.Step.sets_storage true) in
    let stored_offline = then_step with_outbox (Replay.Step.stores (codes "t") (codes "p") 0) in
    let up = then_step stored_offline (Replay.Step.connack 1 0) in
    let woken = then_step up (Replay.Step.wakes refl refl) in
    let checked = then_step woken (Replay.Step.checks refl) in
    let sending_it = then_step checked (Replay.Step.loads refl) in
    let sent = then_step sending_it (Replay.Step.sends waiting_message (some 5) refl refl) in
    let answered_now = then_step sent (Replay.Step.puback 1 5 waiting_message refl) in
    then_step answered_now (Replay.Step.ends_wait waiting_message refl)

no_message_lost_example :
    let x = acknowledged_run.0 in
    All (λ m. IsIn m (rows_queue.rows x.store) ⊎ IsIn m x.broker.delivered) x.accepted
    × ((m : PendingMqttMessage) → x.position ≡ Replay.sending m → First m (rows_queue.rows x.store))
    × ((m : PendingMqttMessage)
        → x.position ≡ Replay.removing m
        → IsIn m x.broker.delivered × First m (rows_queue.rows x.store))
no_message_lost_example =
    no_message_lost rows_queue rows_queue-QueueLaws config empty_rows acknowledged_run.0
      acknowledged_run.1
