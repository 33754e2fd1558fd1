-- ===== src/Codec/Decoder.antt =====
-- `IpcMessageCodec::decode` of src/ipc_message_codec.cpp. It writes the strings into the message as
-- it reads them, so a call that fails may leave some of them there.
use edge_link.Prelude.{
  ℕ, zero, suc, ◌-◌, Bool, true, false, not, ◌||◌, Option, none, some, ltb, eqb, if◌then◌else◌,
  ◌>>=◌, Text, length, is_empty, drop,
}
use edge_link.Codec.Encoder.{message_magic, message_version, quality_rank, Header}
use edge_link.Codec.Reader.{read_pod, read_string}
use edge_link.Codec.Value.{decode_value}
use edge_link.Device.{Quality}
use edge_link.Message.{Message}
use edge_link.Prelude.Keys.{nat_eq, text_eq}

-- The nine fields, one after the other, and the offset behind them.
unfoldable pub read_header : Text → Option (Header × ℕ)
read_header input = do
  (magic, o) ← read_pod 4 input 0
  (version, o) ← read_pod 2 input o
  (type_index, o) ← read_pod 2 input o
  (quality, o) ← read_pod 4 input o
  (timestamp, o) ← read_pod 8 input o
  (topic_length, o) ← read_pod 4 input o
  (device_id_length, o) ← read_pod 4 input o
  (tag_name_length, o) ← read_pod 4 input o
  (value_length, o) ← read_pod 4 input o
  some (
    record {
      magic = magic;
      version = version;
      type_index = type_index;
      quality = quality;
      timestamp = timestamp;
      topic_length = topic_length;
      device_id_length = device_id_length;
      tag_name_length = tag_name_length;
      value_length = value_length;
    },
    o,
  )

-- `static_cast<Quality>(quality)`, of a number that `decode` has checked.
unfoldable pub quality_of : ℕ → Quality
quality_of zero = Quality.good
quality_of (suc zero) = Quality.stale
quality_of (suc (suc zero)) = Quality.timeout
quality_of (suc (suc (suc zero))) = Quality.invalid
quality_of (suc (suc (suc (suc n)))) = Quality.disconnected

-- The end of `decode`: the value is what is left of the input.
unfoldable pub decode_rest : Text → Header → ℕ → Message → Bool × Message
decode_rest input h offset m =
    if is_empty m.topic
      || ltb (length input) offset
      || not (eqb (length input - offset) h.value_length)
    then (false, m)
    else elim (decode_value h.type_index (drop offset input)) [
      | none ↦ (false, m)
      | some v ↦
          (true, record m { value = v; quality = quality_of h.quality; timestamp = h.timestamp })
    ]

-- The strings.
unfoldable pub decode_strings : Text → Header → ℕ → Message → Bool × Message
decode_strings input h offset m = elim (read_string h.topic_length input offset) [
  | none ↦ (false, m)
  | some (topic, o) ↦
      let m = record m { topic = topic } in
      elim (read_string h.device_id_length input o) [
        | none ↦ (false, m)
        | some (device_id, o) ↦
            let m = record m { device_id = device_id } in
            elim (read_string h.tag_name_length input o) [
              | none ↦ (false, m)
              | some (tag_name, o) ↦ decode_rest input h o (record m { tag_name = tag_name })
            ]
      ]
]

unfoldable pub decode : Text → Message → Bool × Message
decode input m = elim (read_header input) [
  | none ↦ (false, m)
  | some (h, offset) ↦
      if not (eqb h.magic message_magic)
        || not (eqb h.version message_version)
        || ltb (quality_rank Quality.disconnected) h.quality
      then (false, m)
      else decode_strings input h offset m
]
