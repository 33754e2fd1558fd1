-- ===== src/Mqtt/Forward.antt =====
-- src/mqtt_service.cpp: `forwardMessage`, the callback of the message bus. Its four sections are apart,
-- since other threads run between them; the composition is that of the code where none does.
use edge_link.Prelude.{ℕ, Bool, false, not, ◌||◌, ◌++◌, if◌then◌else◌, Text, codes, is_empty}
use edge_link.Message.{Message}
use edge_link.Mqtt.{publish, MqttConfig, MqttService, PublishResult}
use edge_link.Mqtt.Json.{FloatOutput, message_to_json}
use edge_link.Prelude.Keys.{text_eq, nat_eq}
use edge_link.SharedMemory.{store, stored}
use edge_link.Storage.Contract.{Queue}

-- `topicPrefix + "/" + deviceId + "/tags/" + tagName`
unfoldable pub topic_of : MqttConfig → Message → Text
topic_of c m = c.topic_prefix ++ codes "/" ++ m.device_id ++ codes "/tags/" ++ m.tag_name

unfoldable pub should_buffer : MqttService → Bool
should_buffer s = not s.connected || s.replaying

-- The last section.
unfoldable pub request_replay : MqttService → MqttService
request_replay s = record s { replay_requested = s.replay_requested || s.connected }

module _ (q : Queue) (f : FloatOutput) where
  open q use {Store, enqueue}

  -- `enqueueMqttMessage` where there is a storage service, and the replay that it asks for.
  unfoldable pub store_for_later :
      MqttService → Bool → Text → Text → ℕ → Store → MqttService × Store
  store_for_later s offline topic payload now store =
      if not offline
      then (s, store)
      else let (ok, stored) = enqueue topic payload false now store in
        (if ok then request_replay s else s, stored)

  -- `result` is the answer of libmosquitto if the message is published, and `now` the system time.
  unfoldable pub forward_message :
      MqttService → Message → PublishResult → ℕ → Store → MqttService × Store
  forward_message s m result now store =
      if is_empty m.device_id || is_empty m.tag_name
      then (s, store)
      else let topic = topic_of s.config m in
        let payload = message_to_json f m in
        if should_buffer s
        then store_for_later s s.offline_storage topic payload now store
        else let (sent, after) = publish s topic payload result in
          if sent
          then (after, store)
          else store_for_later after s.offline_storage topic payload now store
