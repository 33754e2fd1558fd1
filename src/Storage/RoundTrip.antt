-- ===== src/Storage/RoundTrip.antt =====
-- src/storage_service.cpp: a stored value is read back, whatever its type.
use edge_link.Prelude.{ℕ, ◌%◌, ◌^◌, ◌≡◌, refl, true, false, Option, some, arith, Text}
use edge_link.Codec.Value.{value_index, ValueOk}
use edge_link.Device.{TagValue}
use edge_link.Prelude.Decimal.{
  parse_signed, parse_unsigned, c_str, c_str-print_unsigned, c_str-print_signed,
  parse_unsigned-print_unsigned, parse_signed-print_signed_8, parse_signed-print_signed_16,
  parse_signed-print_signed_32, parse_signed-print_signed_64,
}
use edge_link.Prelude.Keys.{text_eq, nat_eq}
use edge_link.Storage.Values.{
  FloatText, cast, value_text, serialize_tag_value, read_boolean, deserialize_tag_value,
}

-- What the storing of a value relies on: the number fits its type, a string has no zero byte, and the
-- text of a floating-point number is read back as the same number.
abbrev pub Storable : FloatText → TagValue → Type 0
Storable f (TagValue.string s) = c_str s ≡ s
Storable f (TagValue.float b) =
    (c_str (f.print_float b) ≡ f.print_float b) × (f.parse_float (f.print_float b) ≡ some b)
Storable f (TagValue.double b) =
    (c_str (f.print_double b) ≡ f.print_double b) × (f.parse_double (f.print_double b) ≡ some b)
Storable f v = ValueOk v

restores :
    (w : ℕ) (make : ℕ → TagValue) (read : Text → Option ℕ) {s : Text} {n v : ℕ}
    → c_str s ≡ s
    → read s ≡ some n
    → n % 2 ^ w ≡ v
    → cast w make (read (c_str s)) ≡ some (make v)
restores w make read plain e same = rw (plain, e, same) refl

-- A value is restored from the index and the text that are stored for it, the text taken as a C
-- string, when its number fits its type, its string has no zero byte, and its floating-point number
-- is read back from its own print.
pub deserialize-serialize :
    (f : FloatText) (v : TagValue)
    → Storable f v
    → let s = serialize_tag_value f v in
      deserialize_tag_value f s.type_index (c_str s.content) ≡ some v
unfolding serialize_tag_value deserialize_tag_value value_text read_boolean value_index c_str
deserialize-serialize f TagValue.monostate h = refl
deserialize-serialize f (TagValue.boolean true) h = refl
deserialize-serialize f (TagValue.boolean false) h = refl
deserialize-serialize f (TagValue.int8 v) h =
    restores 8 TagValue.int8 (parse_signed 32) (c_str-print_signed 8 v)
      (parse_signed-print_signed_8 v h) (ground arith)
deserialize-serialize f (TagValue.int16 v) h =
    restores 16 TagValue.int16 (parse_signed 32) (c_str-print_signed 16 v)
      (parse_signed-print_signed_16 v h) (ground arith)
deserialize-serialize f (TagValue.int32 v) h =
    restores 32 TagValue.int32 (parse_signed 64) (c_str-print_signed 32 v)
      (parse_signed-print_signed_32 v h) (ground arith)
deserialize-serialize f (TagValue.int64 v) h =
    restores 64 TagValue.int64 (parse_signed 64) (c_str-print_signed 64 v)
      (parse_signed-print_signed_64 v h) (ground arith)
deserialize-serialize f (TagValue.uint8 v) h =
    restores 8 TagValue.uint8 (parse_unsigned) (c_str-print_unsigned v)
      (parse_unsigned-print_unsigned v (omega arith)) (ground arith)
deserialize-serialize f (TagValue.uint16 v) h =
    restores 16 TagValue.uint16 (parse_unsigned) (c_str-print_unsigned v)
      (parse_unsigned-print_unsigned v (omega arith)) (ground arith)
deserialize-serialize f (TagValue.uint32 v) h =
    restores 32 TagValue.uint32 (parse_unsigned) (c_str-print_unsigned v)
      (parse_unsigned-print_unsigned v (omega arith)) (ground arith)
deserialize-serialize f (TagValue.uint64 v) h =
    restores 64 TagValue.uint64 (parse_unsigned) (c_str-print_unsigned v)
      (parse_unsigned-print_unsigned v (omega arith)) (ground arith)
deserialize-serialize f (TagValue.float b) h = rw (h.0, h.1) refl
deserialize-serialize f (TagValue.double b) h = rw (h.0, h.1) refl
deserialize-serialize f (TagValue.string s) h = rw h refl
