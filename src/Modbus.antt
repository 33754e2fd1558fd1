-- ===== src/Modbus.antt =====
-- plugins/modbus_plugin: the configuration of the Modbus TCP plugin and the decoding of registers.
-- A `double` is its 64 bits; the floating-point operations of the processor are the parameter
-- `Floats`. libmodbus answers through arguments.
pub mod Client
pub mod Registers
pub mod Lifecycle
pub mod Polling
pub mod Calls
pub mod Runs
pub mod Initialize
use edge_link.Prelude.{
  ℕ, ◌+◌, ◌-◌, ◌*◌, ◌^◌, Bool, true, false, not, ◌||◌, Option, none, some, List, [], ◌∷◌, ltb, eqb,
  if◌then◌else◌, Text, is_empty,
}
use edge_link.Prelude.Int.{ℤ, pos, negsuc, ltb_ℤ, leb_ℤ}
use edge_link.Prelude.Keys.{text_beq, text_eq, nat_eq}

pub data DataType : Type 0 where
  uint16 int16 uint32 int32 float32 : DataType

pub record TagConfig : Type 0 where
  pub name : Text
  pub register_address : ℤ
  pub data_type : DataType
  pub scale : ℕ
  pub offset : ℕ

pub record Config : Type 0 where
  pub host : Text
  pub port : ℤ
  pub slave_id : ℤ
  pub communication_timeout_ms : ℤ
  pub reconnect_initial_delay_ms : ℤ
  pub reconnect_maximum_delay_ms : ℤ
  pub device_id : Text
  pub device_name : Text
  pub tags : List TagConfig

-- The conversions of an integer and of a `float` to `double`, `*`, `+` and `std::isfinite`.
pub record Floats : Type 0 where
  pub of_integer : ℤ → ℕ
  pub of_float : ℕ → ℕ
  pub times : ℕ → ℕ → ℕ
  pub plus : ℕ → ℕ → ℕ
  pub is_finite : ℕ → Bool

unfoldable pub register_count : DataType → ℕ
register_count DataType.uint16 = 1
register_count DataType.int16 = 1
register_count DataType.uint32 = 2
register_count DataType.int32 = 2
register_count DataType.float32 = 2

abbrev pub is_one_of : Text → List Text → Bool
is_one_of name [] = false
is_one_of name (n ∷ ns) = text_beq name n || is_one_of name ns

-- The loop of `validateConfig`; `seen` is the set of names.
unfoldable pub validate_tags : Floats → List TagConfig → List Text → Bool
validate_tags f [] seen = true
validate_tags f (tag ∷ tags) seen =
    let needed = register_count tag.data_type in
    let rest = validate_tags f tags (tag.name ∷ seen) in
    if is_empty tag.name
      || is_one_of tag.name seen
      || eqb needed 0
      || ltb_ℤ tag.register_address (pos 0)
      || ltb_ℤ (pos (65535 - (needed - 1))) tag.register_address
      || not (f.is_finite tag.scale)
      || not (f.is_finite tag.offset)
    then false
    else rest

unfoldable pub validate_config : Floats → Config → Bool
validate_config f c =
    if is_empty c.host
      || leb_ℤ c.port (pos 0)
      || ltb_ℤ (pos 65535) c.port
      || leb_ℤ c.slave_id (pos 0)
      || ltb_ℤ (pos 247) c.slave_id
      || leb_ℤ c.communication_timeout_ms (pos 0)
      || leb_ℤ c.reconnect_initial_delay_ms (pos 0)
      || ltb_ℤ c.reconnect_maximum_delay_ms c.reconnect_initial_delay_ms
      || is_empty c.device_id
      || is_empty c.tags
    then false
    else validate_tags f c.tags []

-- `(registers[0] << 16) | registers[1]`, of two 16-bit numbers.
abbrev pub joined : ℕ → ℕ → ℕ
joined high low = high * 2 ^ 16 + low

-- `memcpy` to a signed type of `w` bits.
unfoldable pub signed : ℕ → ℕ → ℤ
signed w bits = if ltb bits (2 ^ (w - 1)) then pos bits else negsuc (2 ^ w - 1 - bits)

unfoldable pub raw_value : Floats → DataType → ℕ → ℕ → ℕ
raw_value f DataType.uint16 r0 r1 = f.of_integer (pos r0)
raw_value f DataType.int16 r0 r1 = f.of_integer (signed 16 r0)
raw_value f DataType.uint32 r0 r1 = f.of_integer (pos (joined r0 r1))
raw_value f DataType.int32 r0 r1 = f.of_integer (signed 32 (joined r0 r1))
raw_value f DataType.float32 r0 r1 = f.of_float (joined r0 r1)

-- `decodeValue`
unfoldable pub engineering_value : Floats → TagConfig → ℕ → ℕ → Option ℕ
engineering_value f tag r0 r1 =
    let raw = raw_value f tag.data_type r0 r1 in
    let value = f.plus (f.times raw tag.scale) tag.offset in
    if not (f.is_finite raw) || not (f.is_finite value) then none else some value
