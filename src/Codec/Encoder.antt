-- ===== src/Codec/Encoder.antt =====
-- `IpcMessageCodec::encode` of src/ipc_message_codec.cpp.
use edge_link.Prelude.{
  ℕ, ◌-◌, ◌^◌, ◌||◌, Option, none, some, ◌++◌, ltb, if◌then◌else◌, Text, length, is_empty,
}
use edge_link.Codec.Bytes.{le_bytes}
use edge_link.Codec.Value.{value_index, encode_value}
use edge_link.Device.{Quality}
use edge_link.Message.{Message}
use edge_link.Prelude.Keys.{nat_eq, text_eq}

abbrev pub message_magic : ℕ
message_magic = 0x454C4D53

abbrev pub message_version : ℕ
message_version = 1

-- `std::numeric_limits<std::uint32_t>::max()`
abbrev pub max_length : ℕ
max_length = 2 ^ 32 - 1

-- `static_cast<std::uint32_t>(quality)`
unfoldable pub quality_rank : Quality → ℕ
quality_rank Quality.good = 0
quality_rank Quality.stale = 1
quality_rank Quality.timeout = 2
quality_rank Quality.invalid = 3
quality_rank Quality.disconnected = 4

-- The fixed header: the lengths are those of the topic, the device id, the tag name and the value.
pub record Header : Type 0 where
  pub magic : ℕ
  pub version : ℕ
  pub type_index : ℕ
  pub quality : ℕ
  pub timestamp : ℕ
  pub topic_length : ℕ
  pub device_id_length : ℕ
  pub tag_name_length : ℕ
  pub value_length : ℕ

unfoldable pub header_of : Message → Header
header_of m = record {
  magic = message_magic;
  version = message_version;
  type_index = value_index m.value;
  quality = quality_rank m.quality;
  timestamp = m.timestamp;
  topic_length = length m.topic;
  device_id_length = length m.device_id;
  tag_name_length = length m.tag_name;
  value_length = length (encode_value m.value);
}

-- The header's fields, in front of `rest`.
unfoldable pub append_header : Header → Text → Text
append_header h rest =
    le_bytes 4 h.magic
    ++ (le_bytes 2 h.version
        ++ (le_bytes 2 h.type_index
            ++ (le_bytes 4 h.quality
                ++ (le_bytes 8 h.timestamp
                    ++ (le_bytes 4 h.topic_length
                        ++ (le_bytes 4 h.device_id_length
                            ++ (le_bytes 4 h.tag_name_length
                                ++ (le_bytes 4 h.value_length ++ rest))))))))

unfoldable pub body : Message → Text
body m = m.topic ++ (m.device_id ++ (m.tag_name ++ encode_value m.value))

unfoldable pub encode : Message → Option Text
encode m =
    if is_empty m.topic
      || ltb max_length (length m.topic)
      || ltb max_length (length m.device_id)
      || ltb max_length (length m.tag_name)
      || ltb (quality_rank Quality.disconnected) (quality_rank m.quality)
    then none
    else if ltb max_length (length (encode_value m.value))
    then none
    else some (append_header (header_of m) (body m))
