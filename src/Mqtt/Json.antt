-- ===== src/Mqtt/Json.antt =====
-- src/mqtt_service.cpp: the JSON payload of a message.
pub mod Strings
use edge_link.Prelude.{ℕ, ◌+◌, ◌/◌, ◌%◌, [], ◌∷◌, ◌++◌, ltb, eqb, if◌then◌else◌, Text, codes}
use edge_link.Device.{TagValue, quality_to_string}
use edge_link.Message.{Message}
use edge_link.Prelude.Decimal.{print_unsigned, print_signed}
use edge_link.Prelude.Keys.{text_eq, nat_eq}
use edge_link.Storage.Values.{timestamp_to_milliseconds}

-- One hexadecimal digit in lower case.
abbrev pub hex_digit : ℕ → ℕ
hex_digit n = if ltb n 10 then 48 + n else 87 + n

-- The escape of one byte: `\"`, `\\`, the short escapes of five control characters, and `\u` with four
-- digits for the other ones.
unfoldable pub escape_byte : ℕ → Text
escape_byte c =
    if eqb c 34
    then 92 ∷ 34 ∷ []
    else if eqb c 92
    then 92 ∷ 92 ∷ []
    else if eqb c 8
    then 92 ∷ 98 ∷ []
    else if eqb c 12
    then 92 ∷ 102 ∷ []
    else if eqb c 10
    then 92 ∷ 110 ∷ []
    else if eqb c 13
    then 92 ∷ 114 ∷ []
    else if eqb c 9
    then 92 ∷ 116 ∷ []
    else if ltb c 32
    then 92 ∷ 117 ∷ 48 ∷ 48 ∷ hex_digit (c / 16) ∷ hex_digit (c % 16) ∷ []
    else c ∷ []

unfoldable pub escape_json : Text → Text
escape_json [] = []
escape_json (c ∷ cs) = escape_byte c ++ escape_json cs

-- The stream output of a `float` and of a `double`, of the standard library.
pub record FloatOutput : Type 0 where
  pub output_float : ℕ → Text
  pub output_double : ℕ → Text

unfoldable pub tag_value_to_json : FloatOutput → TagValue → Text
tag_value_to_json f TagValue.monostate = codes "null"
tag_value_to_json f (TagValue.boolean b) = if b then codes "true" else codes "false"
tag_value_to_json f (TagValue.int8 v) = print_signed 8 v
tag_value_to_json f (TagValue.int16 v) = print_signed 16 v
tag_value_to_json f (TagValue.int32 v) = print_signed 32 v
tag_value_to_json f (TagValue.int64 v) = print_signed 64 v
tag_value_to_json f (TagValue.uint8 v) = print_unsigned v
tag_value_to_json f (TagValue.uint16 v) = print_unsigned v
tag_value_to_json f (TagValue.uint32 v) = print_unsigned v
tag_value_to_json f (TagValue.uint64 v) = print_unsigned v
tag_value_to_json f (TagValue.float v) = f.output_float v
tag_value_to_json f (TagValue.double v) = f.output_double v
tag_value_to_json f (TagValue.string s) = 34 ∷ escape_json s ++ (34 ∷ [])

unfoldable pub message_to_json : FloatOutput → Message → Text
message_to_json f m =
    codes "{\"deviceId\":\""
    ++ escape_json m.device_id
    ++ codes "\",\"tagName\":\""
    ++ escape_json m.tag_name
    ++ codes "\",\"value\":"
    ++ tag_value_to_json f m.value
    ++ codes ",\"quality\":\""
    ++ quality_to_string m.quality
    ++ codes "\",\"timestampMs\":"
    ++ print_signed 64 (timestamp_to_milliseconds m.timestamp)
    ++ codes "}"
