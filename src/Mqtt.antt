-- ===== src/Mqtt.antt =====
-- src/mqtt_service.cpp: the state of `MqttService` and its methods. Each definition is one section of
-- code under `mutex_`. libmosquitto is a parameter: what it answers is an argument of the section that
-- asks. A client is a number, and `nullptr` is `none`; a message ID is the `int` that libmosquitto
-- gives, from 1 to 65535.
pub mod Json
pub mod Replay
pub mod Forward
use edge_link.Prelude.{
  ℕ, ◌-◌, ◌^◌, Bool, true, false, not, ◌&&◌, ◌||◌, Option, none, some, List, [], ◌∷◌, ◌++◌, ltb,
  eqb, if◌then◌else◌, is_some, Text, length, is_empty,
}
use edge_link.Prelude.Int.{ℤ, leb_ℤ}
use edge_link.Prelude.Keys.{text_eq, nat_eq}

pub record MqttConfig : Type 0 where
  pub host : Text
  pub port : ℕ
  pub client_id : Text
  pub keep_alive_seconds : ℕ
  pub connect_timeout_ms : ℤ
  pub reconnect_initial_delay_seconds : ℕ
  pub reconnect_maximum_delay_seconds : ℕ
  pub publish_ack_timeout_ms : ℤ
  pub topic_prefix : Text

pub record MqttService : Type 0 where
  pub config : MqttConfig
  pub client : Option ℕ
  pub loop_running : Bool
  pub connected : Bool
  pub initial_connection_completed : Bool
  pub stopping : Bool
  pub replay_requested : Bool
  pub replaying : Bool
  pub replay_message_id : ℕ
  pub replay_publish_acknowledged : Bool
  pub offline_storage : Bool

unfoldable pub new : MqttConfig → MqttService
new c = record {
  config = c;
  client = none;
  loop_running = false;
  connected = false;
  initial_connection_completed = false;
  stopping = false;
  replay_requested = false;
  replaying = false;
  replay_message_id = 0;
  replay_publish_acknowledged = false;
  offline_storage = false;
}

-- `service->client_ == client`
abbrev pub is_client : Option ℕ → ℕ → Bool
is_client none c = false
is_client (some d) c = eqb d c

unfoldable pub config_ok : MqttConfig → Bool
config_ok c = not (
    is_empty c.host
    || is_empty c.client_id
    || eqb c.port 0
    || leb_ℤ c.connect_timeout_ms (ℤ.pos 0)
    || leb_ℤ c.publish_ack_timeout_ms (ℤ.pos 0)
    || eqb c.reconnect_initial_delay_seconds 0
    || ltb c.reconnect_maximum_delay_seconds c.reconnect_initial_delay_seconds)

-- What libmosquitto answers while `connect` runs: whether it is initialised, the client that
-- `mosquitto_new` makes, and the success of the delay setting, the connection and the network loop.
pub record ConnectAnswers : Type 0 where
  pub ready : Bool
  pub created : Option ℕ
  pub delay_set : Bool
  pub connect_started : Bool
  pub loop_started : Bool

-- `initializeClientLocked`
unfoldable pub initialize_client : ConnectAnswers → MqttService → Bool × MqttService
initialize_client a s = if not a.ready then (false, s) else elim a.created [
  | none ↦ (false, record s { client = none })
  | some c ↦
      if a.delay_set
      then (true, record s { client = some c })
      else (false, record s { client = none })
]

-- `connect` up to the wait for the first CONNACK: what it returns before, or that it waits, with the
-- network loop and the replay thread started.
unfoldable pub begin_connect : ConnectAnswers → MqttService → Option Bool × MqttService
begin_connect a s =
    if s.connected
    then (some true, s)
    else if s.loop_running
    then (some false, s)
    else if not (config_ok s.config)
    then (some false, s)
    else let (made, s) = initialize_client a s in
      if not made
      then (some false, s)
      else let s = record s { initial_connection_completed = false; stopping = false } in
        if not a.connect_started || not a.loop_started
        then (some false, record s { client = none })
        else (none, record s { loop_running = true; replay_requested = false; replaying = false })

-- The end of `connect`, when the wait is over: what `wait_for` returns is its predicate.
unfoldable pub end_connect : MqttService → Bool
end_connect s = if not s.initial_connection_completed then false else s.connected

-- The locked part of `disconnect`, with the client and whether its loop ran.
unfoldable pub begin_disconnect : MqttService → Option ℕ × Bool × MqttService
begin_disconnect s = (
  s.client,
  s.loop_running,
  record s {
    stopping = true;
    connected = false;
    initial_connection_completed = false;
    client = none;
    loop_running = false;
    replay_requested = false;
  },
)

-- The calls to libmosquitto with which `disconnect` ends, once the replay thread has returned.
pub data LibraryCall : Type 0 where
  asks_disconnect : ℕ → LibraryCall
  stops_loop : ℕ → Bool → LibraryCall
  destroys : ℕ → LibraryCall

unfoldable pub end_disconnect : Option ℕ → Bool → Bool → List LibraryCall
end_disconnect none loop_was_running disconnected_ok = []
end_disconnect (some c) loop_was_running disconnected_ok =
    LibraryCall.asks_disconnect c
      ∷ (if loop_was_running then LibraryCall.stops_loop c (not disconnected_ok) ∷ [] else [])
    ++ (LibraryCall.destroys c ∷ [])

unfoldable pub is_connected : MqttService → Bool
is_connected s = s.connected

-- The result of `mosquitto_publish`.
pub data PublishResult : Type 0 where
  success no_connection connection_lost other_error : PublishResult

abbrev pub largest_payload : ℕ
largest_payload = 2 ^ 31 - 1

-- QoS 0; the result is asked for only where libmosquitto is called.
unfoldable pub publish : MqttService → Text → Text → PublishResult → Bool × MqttService
publish s topic payload result =
    if not s.connected
      || not (is_some s.client)
      || is_empty topic
      || ltb largest_payload (length payload)
    then (false, s)
    else elim result [
      | success ↦ (true, s)
      | no_connection ↦ (false, record s { connected = false })
      | connection_lost ↦ (false, record s { connected = false })
      | other_error ↦ (false, s)
    ]

unfoldable pub set_offline_storage : Bool → MqttService → MqttService
set_offline_storage storage s = record s {
  offline_storage = storage;
  replay_requested = s.replay_requested || (s.connected && storage);
}

-- The callback of a CONNACK; the result code 0 accepts the connection.
unfoldable pub handle_connect : ℕ → ℕ → MqttService → MqttService
handle_connect c result_code s =
    if not (is_client s.client c) || s.stopping
    then s
    else let accepted_now = eqb result_code 0 in
      record s {
        connected = accepted_now;
        initial_connection_completed = true;
        replay_requested = s.replay_requested || (accepted_now && s.offline_storage);
      }

unfoldable pub handle_disconnect : ℕ → MqttService → MqttService
handle_disconnect c s = if is_client s.client c then record s { connected = false } else s

-- The callback of a message that is sent, or acknowledged for QoS 1.
unfoldable pub handle_publish : ℕ → ℕ → MqttService → MqttService
handle_publish c message_id s =
    if is_client s.client c && eqb s.replay_message_id message_id
    then record s { replay_publish_acknowledged = true }
    else s
