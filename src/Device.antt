-- ===== src/Device.antt =====
-- include/edgelink/device.h: the unified tag value, tags, devices and their states.
-- A `std::string` is its bytes. An integer alternative of `TagValue` is held as its two's-complement
-- bit pattern, `float` and `double` as their 32 and 64 bits; a `system_clock` time point is the bit
-- pattern of its 64-bit count of nanoseconds.
pub mod Tags
use edge_link.Prelude.{ℕ, Bool, true, false, not, ◌&&◌, Option, List, Text, codes}
use edge_link.Prelude.Dict.{find, put}
use edge_link.Prelude.Keys.{text_eq, nat_eq}

pub data Quality : Type 0 where
  good stale timeout invalid disconnected : Quality

pub data ConnectionState : Type 0 where
  disconnected connecting connected timeout error : ConnectionState

pub data TagValue : Type 0 where
  monostate : TagValue
  boolean : Bool → TagValue
  int8 int16 int32 int64 : ℕ → TagValue
  uint8 uint16 uint32 uint64 : ℕ → TagValue
  float double : ℕ → TagValue
  string : Text → TagValue

pub record Tag : Type 0 where
  pub name : Text
  pub value : TagValue
  pub quality : Quality
  pub timestamp : ℕ

pub record Device : Type 0 where
  pub id : Text
  pub name : Text
  pub protocol : Text
  pub state : ConnectionState
  pub tags : List (Text × Tag)

-- `TagValue{}` holds `std::monostate`.
is_monostate : TagValue → Bool
is_monostate monostate = true
is_monostate _ = false

pub is_good : Quality → Bool
is_good Quality.good = true
is_good _ = false

-- `Tag::isValid`
pub is_valid : Tag → Bool
unfolding is_monostate is_good
is_valid t = is_good t.quality && not (is_monostate t.value)

unfoldable pub find_tag : Device → Text → Option Tag
find_tag d name = find name d.tags

-- `Device::updateTag`, at the time `now`.
unfoldable pub update_tag : Device → Tag → ℕ → Device
update_tag d tag now = record d { tags = put tag.name (record tag { timestamp = now }) d.tags }

pub is_online : Device → Bool
is_online d = elim d.state [
  | ConnectionState.disconnected ↦ false
  | ConnectionState.connecting ↦ false
  | ConnectionState.connected ↦ true
  | ConnectionState.timeout ↦ false
  | ConnectionState.error ↦ false
]

pub quality_to_string : Quality → Text
quality_to_string Quality.good = codes "GOOD"
quality_to_string Quality.stale = codes "STALE"
quality_to_string Quality.timeout = codes "TIMEOUT"
quality_to_string Quality.invalid = codes "INVALID"
quality_to_string Quality.disconnected = codes "DISCONNECTED"

pub connection_state_to_string : ConnectionState → Text
connection_state_to_string ConnectionState.disconnected = codes "DISCONNECTED"
connection_state_to_string ConnectionState.connecting = codes "CONNECTING"
connection_state_to_string ConnectionState.connected = codes "CONNECTED"
connection_state_to_string ConnectionState.timeout = codes "TIMEOUT"
connection_state_to_string ConnectionState.error = codes "ERROR"
