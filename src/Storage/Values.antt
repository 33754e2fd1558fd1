-- ===== src/Storage/Values.antt =====
-- `serializeTagValue`, `deserializeTagValue` and the times of src/storage_service.cpp.
use edge_link.Prelude.{
  ℕ, ◌-◌, ◌*◌, ◌/◌, ◌%◌, ◌^◌, Bool, ◌||◌, Option, none, some, [], ltb, leb, eqb, if◌then◌else◌,
  ◌>>=◌, Text, codes,
}
use edge_link.Codec.Value.{value_index}
use edge_link.Device.{TagValue}
use edge_link.Prelude.Decimal.{print_unsigned, print_signed, parse_signed, parse_unsigned}
use edge_link.Prelude.Keys.{text_beq, text_eq, nat_eq}

-- The standard library's text of floating-point numbers, on their bits: the stream output with
-- `max_digits10` digits, and `std::stof` and `std::stod`, whose exceptions are `none`.
pub record FloatText : Type 0 where
  pub print_float : ℕ → Text
  pub print_double : ℕ → Text
  pub parse_float : Text → Option ℕ
  pub parse_double : Text → Option ℕ

pub record SerializedValue : Type 0 where
  pub type_index : ℕ
  pub content : Text

-- `static_cast` to an integer of `w` bits.
abbrev pub cast : ℕ → (ℕ → TagValue) → Option ℕ → Option TagValue
cast w make read = (read >>= λ n. some (make (n % 2 ^ w)))

-- `std::visit` in `serializeTagValue`.
unfoldable pub value_text : FloatText → TagValue → Text
value_text f TagValue.monostate = []
value_text f (TagValue.boolean b) = if b then codes "1" else codes "0"
value_text f (TagValue.int8 v) = print_signed 8 v
value_text f (TagValue.int16 v) = print_signed 16 v
value_text f (TagValue.int32 v) = print_signed 32 v
value_text f (TagValue.int64 v) = print_signed 64 v
value_text f (TagValue.uint8 v) = print_unsigned v
value_text f (TagValue.uint16 v) = print_unsigned v
value_text f (TagValue.uint32 v) = print_unsigned v
value_text f (TagValue.uint64 v) = print_unsigned v
value_text f (TagValue.float v) = f.print_float v
value_text f (TagValue.double v) = f.print_double v
value_text f (TagValue.string s) = s

unfoldable pub serialize_tag_value : FloatText → TagValue → SerializedValue
serialize_tag_value f v = record { type_index = value_index v; content = value_text f v }

unfoldable pub read_boolean : Text → Option TagValue
read_boolean s =
    if text_beq s (codes "0") || text_beq s (codes "1")
    then some (TagValue.boolean (text_beq s (codes "1")))
    else none

unfoldable pub deserialize_tag_value : FloatText → ℕ → Text → Option TagValue
deserialize_tag_value f type_index s =
    if eqb type_index 0
    then some TagValue.monostate
    else if eqb type_index 1
    then read_boolean s
    else if eqb type_index 2
    then cast 8 TagValue.int8 (parse_signed 32 s)
    else if eqb type_index 3
    then cast 16 TagValue.int16 (parse_signed 32 s)
    else if eqb type_index 4
    then cast 32 TagValue.int32 (parse_signed 64 s)
    else if eqb type_index 5
    then cast 64 TagValue.int64 (parse_signed 64 s)
    else if eqb type_index 6
    then cast 8 TagValue.uint8 (parse_unsigned s)
    else if eqb type_index 7
    then cast 16 TagValue.uint16 (parse_unsigned s)
    else if eqb type_index 8
    then cast 32 TagValue.uint32 (parse_unsigned s)
    else if eqb type_index 9
    then cast 64 TagValue.uint64 (parse_unsigned s)
    else if eqb type_index 10
    then (f.parse_float s >>= λ b. some (TagValue.float b))
    else if eqb type_index 11
    then (f.parse_double s >>= λ b. some (TagValue.double b))
    else if eqb type_index 12
    then some (TagValue.string s)
    else none

-- `duration_cast` of a signed 64-bit count of nanoseconds to milliseconds, towards zero.
unfoldable pub timestamp_to_milliseconds : ℕ → ℕ
timestamp_to_milliseconds t =
    if ltb t (2 ^ 63) then t / 1000000 else (2 ^ 64 - (2 ^ 64 - t) / 1000000) % 2 ^ 64

unfoldable pub milliseconds_to_timestamp : ℕ → ℕ
milliseconds_to_timestamp ms = ms * 1000000 % 2 ^ 64

-- `isValidQuality`, of the 32 bits of an `int`; a negative one has its high bit set.
unfoldable pub is_valid_quality : ℕ → Bool
is_valid_quality n = leb n 4
