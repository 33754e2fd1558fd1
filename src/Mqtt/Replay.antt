-- ===== src/Mqtt/Replay.antt =====
-- src/mqtt_service.cpp: the replay thread, `replayLoop` with `publishWithAcknowledgement`, between the
-- other threads. A step is what one thread does without another one in between: a section under
-- `mutex_`, a call of the storage service, or a callback of libmosquitto.
pub mod Held
pub mod Sections
pub mod Safety
pub mod Drain
use edge_link.Mqtt
use edge_link.Prelude.{
  ℕ, ◌≡◌, Bool, true, false, not, ◌&&◌, ◌||◌, Option, none, some, List, [], ◌∷◌, ◌++◌, ltb,
  if◌then◌else◌, is_some, Text, length, is_empty, drop,
}
use edge_link.Mqtt.{
  publish, MqttConfig, MqttService, ConnectAnswers, begin_connect, begin_disconnect, is_connected,
  PublishResult, largest_payload, set_offline_storage, handle_connect, handle_disconnect,
  handle_publish,
}
use edge_link.Mqtt.Forward.{request_replay}
use edge_link.Prelude.Dict.{find, erase}
use edge_link.Prelude.Keys.{text_eq, nat_eq}
use edge_link.Storage.Contract.{Queue}
use edge_link.Storage.Outbox.{PendingMqttMessage}

-- Where the replay thread is: not running, at the wait for a request, at `isConnected`, at the reading
-- of the outbox, before the publication of a row, at the wait for its acknowledgement, before its
-- removal, at the end of a replay.
pub data Position : Type 0 where
  absent waiting checking loading finishing : Position
  sending awaiting removing : PendingMqttMessage → Position

-- What libmosquitto and the broker hold of the QoS 1 messages: the IDs in flight with their rows, and
-- the rows that the broker has acknowledged.
pub record Broker : Type 0 where
  pub in_flight : List (ℕ × PendingMqttMessage)
  pub delivered : List PendingMqttMessage

-- The predicate of the first wait.
unfoldable pub replay_wanted : MqttService → Bool
replay_wanted s = s.stopping || (s.connected && s.offline_storage && s.replay_requested)

-- The section behind the first wait.
unfoldable pub begin_replay : MqttService → Position × MqttService
begin_replay s =
    if s.stopping
    then (absent, s)
    else (checking, record s { replay_requested = false; replaying = true })

-- `while (isConnected())`
unfoldable pub check_connected : MqttService → Position
check_connected s = if is_connected s then loading else finishing

unfoldable pub loaded_position : List PendingMqttMessage → Position
loaded_position [] = finishing
loaded_position (m ∷ ms) = sending m

-- The guard of `publishWithAcknowledgement`.
unfoldable pub cannot_publish : PendingMqttMessage → MqttService → Bool
cannot_publish m s =
    not s.connected
    || s.stopping
    || not (is_some s.client)
    || is_empty m.topic
    || ltb largest_payload (length m.payload)

-- `publishWithAcknowledgement` up to its wait, with the answer of `mosquitto_publish`: an ID where it
-- succeeds.
unfoldable pub begin_publish : PendingMqttMessage → Option ℕ → MqttService → Position × MqttService
begin_publish m answer s =
    if cannot_publish m s
    then (finishing, s)
    else let s = record s { replay_message_id = 0; replay_publish_acknowledged = false } in
      elim answer [
        | none ↦ (finishing, s)
        | some message_id ↦ (awaiting m, record s { replay_message_id = message_id })
      ]

-- The message is in flight once the wait for its acknowledgement begins.
abbrev pub launched : Position → ℕ → List (ℕ × PendingMqttMessage) → List (ℕ × PendingMqttMessage)
launched (awaiting m) message_id in_flight = (message_id, m) ∷ in_flight
launched _ message_id in_flight = in_flight

-- libmosquitto gives an ID that no message in flight has.
abbrev pub Unused : Option ℕ → List (ℕ × PendingMqttMessage) → Type 0
Unused none in_flight = Unit
Unused (some message_id) in_flight = find message_id in_flight ≡ none

-- The section behind the wait for the acknowledgement; `acknowledged` is the predicate of the wait,
-- which is over because the predicate holds or the time is.
unfoldable pub end_publish : PendingMqttMessage → MqttService → Position × MqttService
end_publish m s =
    let acknowledged = s.stopping || not s.connected || s.replay_publish_acknowledged in
    let succeeded = acknowledged && s.replay_publish_acknowledged in
    (
      if succeeded then removing m else finishing,
      record s { replay_message_id = 0; replay_publish_acknowledged = false },
    )

unfoldable pub end_replay : MqttService → MqttService
end_replay s = record s { replaying = false }

-- The loop goes on after a removal that succeeded.
unfoldable pub removed_position : Bool → Position
removed_position ok = if ok then checking else finishing

module _ (q : Queue) where
  open q use {Store, enqueue, load, remove_row}

  pub record System : Type 0 where
    pub service : MqttService
    pub position : Position
    pub store : Store
    pub broker : Broker
    -- the rows that the storage service has accepted so far
    pub accepted : List PendingMqttMessage

  unfoldable pub initial : MqttConfig → Store → System
  initial c outbox = record {
    service = Mqtt.new c;
    position = absent;
    store = outbox;
    broker = record { in_flight = []; delivered = [] };
    accepted = [];
  }

  abbrev pub moved : System → Position → System
  moved x p = record x { position = p }

  -- The rows that an insertion adds.
  abbrev pub added : Store → Store → List PendingMqttMessage
  added before after = drop (length (q.rows before)) (q.rows after)

  -- The calls of `connect` and `disconnect` follow one another: a thread is started where none runs.
  pub data Step (x : System) : System → Type 0 where
    wakes :
        x.position ≡ waiting
        → replay_wanted x.service ≡ true
        → Step x (let (p, s) = begin_replay x.service in record x { position = p; service = s })
    checks : x.position ≡ checking → Step x (moved x (check_connected x.service))
    loads :
        x.position ≡ loading
        → Step x (
            let (ms, after) = load 1 x.store in
            record x { position = loaded_position ms; store = after })
    sends :
        (m : PendingMqttMessage) (answer : Option ℕ)
        → x.position ≡ sending m
        → Unused answer x.broker.in_flight
        → Step x (
            let (p, s) = begin_publish m answer x.service in
            record x {
              position = p;
              service = s;
              broker = record x.broker {
                in_flight = launched p s.replay_message_id x.broker.in_flight;
              };
            })
    ends_wait :
        (m : PendingMqttMessage)
        → x.position ≡ awaiting m
        → Step x (let (p, s) = end_publish m x.service in record x { position = p; service = s })
    removes_row :
        (m : PendingMqttMessage)
        → x.position ≡ removing m
        → Step x (
            let (ok, after) = remove_row m.id x.store in
            record x { position = removed_position ok; store = after })
    ends :
        x.position ≡ finishing
        → Step x (record x { position = waiting; service = end_replay x.service })
    connects :
        (a : ConnectAnswers)
        → ((begin_connect a x.service).0 ≡ none → x.position ≡ absent)
        → Step x (
            let (early, s) = begin_connect a x.service in
            record x { position = if is_some early then x.position else waiting; service = s })
    disconnects : Step x (record x { service = (begin_disconnect x.service).2 })
    -- the end of `disconnect` destroys the client with what it holds
    destroys_client :
        x.position ≡ absent → Step x (record x { broker = record x.broker { in_flight = [] } })
    connack :
        (c result_code : ℕ) → Step x (record x { service = handle_connect c result_code x.service })
    loses_connection : (c : ℕ) → Step x (record x { service = handle_disconnect c x.service })
    -- the broker acknowledges a message in flight
    puback :
        (c message_id : ℕ) (m : PendingMqttMessage)
        → find message_id x.broker.in_flight ≡ some m
        → Step x (record x {
          service = handle_publish c message_id x.service;
          broker = record {
            in_flight = erase message_id x.broker.in_flight;
            delivered = m ∷ x.broker.delivered;
          };
        })
    -- a QoS 0 message is sent, under an ID that no QoS 1 message has
    sent_unacknowledged :
        (c message_id : ℕ)
        → find message_id x.broker.in_flight ≡ none
        → Step x (record x { service = handle_publish c message_id x.service })
    -- the sections of `forwardMessage`, of any thread
    publishes :
        (topic payload : Text) (result : PublishResult)
        → Step x (record x { service = (publish x.service topic payload result).1 })
    stores :
        (topic payload : Text) (now : ℕ)
        → Step x (
            let (ok, after) = enqueue topic payload false now x.store in
            record x {
              store = after;
              accepted = if ok then x.accepted ++ added x.store after else x.accepted;
            })
    requests_replay : Step x (record x { service = request_replay x.service })
    sets_storage :
        (storage : Bool) → Step x (record x { service = set_offline_storage storage x.service })

  pub data Reachable (x : System) : System → Type 0 where
    start_here : Reachable x x
    and_then : (y z : System) → Reachable x y → Step y z → Reachable x z
