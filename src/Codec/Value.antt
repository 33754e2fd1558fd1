-- ===== src/Codec/Value.antt =====
-- `encodeValue`, `decodeNumericValue` and `decodeValue` of src/ipc_message_codec.cpp.
use edge_link.Prelude.{
  ℕ, ◌^◌, ◌<◌, ◌≡◌, refl, true, false, not, Option, none, some, [], ◌∷◌, arith, ltb, eqb,
  if◌then◌else◌, Text, length, is_empty,
}
use edge_link.Codec.Bytes.{
  le_bytes, of_le, AreBytes, length-le_bytes, of_le-le_bytes, le_bytes-of_le,
}
use edge_link.Device.{TagValue}
use edge_link.Prelude.Keys.{nat_eq, text_eq}

-- `value.index()`
unfoldable pub value_index : TagValue → ℕ
value_index TagValue.monostate = 0
value_index (TagValue.boolean b) = 1
value_index (TagValue.int8 v) = 2
value_index (TagValue.int16 v) = 3
value_index (TagValue.int32 v) = 4
value_index (TagValue.int64 v) = 5
value_index (TagValue.uint8 v) = 6
value_index (TagValue.uint16 v) = 7
value_index (TagValue.uint32 v) = 8
value_index (TagValue.uint64 v) = 9
value_index (TagValue.float v) = 10
value_index (TagValue.double v) = 11
value_index (TagValue.string s) = 12

-- It fails for a variant without a value only, which no `TagValue` of the model is.
unfoldable pub encode_value : TagValue → Text
encode_value TagValue.monostate = []
encode_value (TagValue.boolean b) = le_bytes 1 (if b then 1 else 0)
encode_value (TagValue.int8 v) = le_bytes 1 v
encode_value (TagValue.int16 v) = le_bytes 2 v
encode_value (TagValue.int32 v) = le_bytes 4 v
encode_value (TagValue.int64 v) = le_bytes 8 v
encode_value (TagValue.uint8 v) = le_bytes 1 v
encode_value (TagValue.uint16 v) = le_bytes 2 v
encode_value (TagValue.uint32 v) = le_bytes 4 v
encode_value (TagValue.uint64 v) = le_bytes 8 v
encode_value (TagValue.float v) = le_bytes 4 v
encode_value (TagValue.double v) = le_bytes 8 v
encode_value (TagValue.string s) = s

unfoldable pub decode_numeric_value : ℕ → (ℕ → TagValue) → Text → Option TagValue
decode_numeric_value size make input =
    if not (eqb (length input) size) then none else some (make (of_le input))

-- `input.size() != 1 || input[0] > 1`, and the value `input[0] != 0`.
unfoldable pub decode_boolean : Text → Option TagValue
decode_boolean [] = none
decode_boolean (b ∷ []) = if ltb 1 b then none else some (TagValue.boolean (not (eqb b 0)))
decode_boolean (b ∷ c ∷ bs) = none

-- The fixed-size integers and floats: `T` of `decodeNumericValue<T>`.
unfoldable pub decode_number : ℕ → Text → Option TagValue
unfolding decode_numeric_value
decode_number type_index input =
    if eqb type_index 2
    then decode_numeric_value 1 TagValue.int8 input
    else if eqb type_index 3
    then decode_numeric_value 2 TagValue.int16 input
    else if eqb type_index 4
    then decode_numeric_value 4 TagValue.int32 input
    else if eqb type_index 5
    then decode_numeric_value 8 TagValue.int64 input
    else if eqb type_index 6
    then decode_numeric_value 1 TagValue.uint8 input
    else if eqb type_index 7
    then decode_numeric_value 2 TagValue.uint16 input
    else if eqb type_index 8
    then decode_numeric_value 4 TagValue.uint32 input
    else if eqb type_index 9
    then decode_numeric_value 8 TagValue.uint64 input
    else if eqb type_index 10
    then decode_numeric_value 4 TagValue.float input
    else if eqb type_index 11
    then decode_numeric_value 8 TagValue.double input
    else none

unfoldable pub decode_value : ℕ → Text → Option TagValue
unfolding decode_boolean decode_number
decode_value type_index input =
    if eqb type_index 0
    then (if is_empty input then some TagValue.monostate else none)
    else if eqb type_index 1
    then decode_boolean input
    else if eqb type_index 12
    then some (TagValue.string input)
    else decode_number type_index input

-- The number of an alternative fits its type.
abbrev pub ValueOk : TagValue → Type 0
ValueOk (TagValue.int8 v) = v < 256 ^ 1
ValueOk (TagValue.int16 v) = v < 256 ^ 2
ValueOk (TagValue.int32 v) = v < 256 ^ 4
ValueOk (TagValue.int64 v) = v < 256 ^ 8
ValueOk (TagValue.uint8 v) = v < 256 ^ 1
ValueOk (TagValue.uint16 v) = v < 256 ^ 2
ValueOk (TagValue.uint32 v) = v < 256 ^ 4
ValueOk (TagValue.uint64 v) = v < 256 ^ 8
ValueOk (TagValue.float v) = v < 256 ^ 4
ValueOk (TagValue.double v) = v < 256 ^ 8
ValueOk _ = Unit {0}

numeric-le_bytes :
    (size v : ℕ) (make : ℕ → TagValue)
    → v < 256 ^ size
    → decode_numeric_value size make (le_bytes size v) ≡ some (make v)
unfolding decode_numeric_value
numeric-le_bytes size v make h = rw (length-le_bytes size v, of_le-le_bytes size v h) (ground arith)

-- A value whose number fits its type is decoded from its own bytes.
pub decode_value-encode_value :
    (v : TagValue) → ValueOk v → decode_value (value_index v) (encode_value v) ≡ some v
unfolding decode_value value_index encode_value
decode_value-encode_value TagValue.monostate h = refl
decode_value-encode_value (TagValue.boolean true) h = unfold le_bytes in refl
decode_value-encode_value (TagValue.boolean false) h = unfold le_bytes in refl
decode_value-encode_value (TagValue.int8 v) h = numeric-le_bytes 1 v TagValue.int8 h
decode_value-encode_value (TagValue.int16 v) h = numeric-le_bytes 2 v TagValue.int16 h
decode_value-encode_value (TagValue.int32 v) h = numeric-le_bytes 4 v TagValue.int32 h
decode_value-encode_value (TagValue.int64 v) h = numeric-le_bytes 8 v TagValue.int64 h
decode_value-encode_value (TagValue.uint8 v) h = numeric-le_bytes 1 v TagValue.uint8 h
decode_value-encode_value (TagValue.uint16 v) h = numeric-le_bytes 2 v TagValue.uint16 h
decode_value-encode_value (TagValue.uint32 v) h = numeric-le_bytes 4 v TagValue.uint32 h
decode_value-encode_value (TagValue.uint64 v) h = numeric-le_bytes 8 v TagValue.uint64 h
decode_value-encode_value (TagValue.float v) h = numeric-le_bytes 4 v TagValue.float h
decode_value-encode_value (TagValue.double v) h = numeric-le_bytes 8 v TagValue.double h
decode_value-encode_value (TagValue.string s) h = refl

-- What it means that a decoded value is the one that these bytes encode.
abbrev pub Decodes : ℕ → Text → TagValue → Type 0
Decodes type_index input v = (value_index v ≡ type_index) × (encode_value v ≡ input)

decode_boolean_inv :
    (i : ℕ) (input : Text) (v : TagValue)
    → i ≡ 1
    → decode_boolean input ≡ some v
    → Decodes i input v
unfolding decode_boolean value_index encode_value le_bytes
decode_boolean_inv i [] v e h = cc
decode_boolean_inv i (b ∷ []) v e h = ground arith
decode_boolean_inv i (b ∷ c ∷ bs) v e h = cc

decode_number_inv :
    (i : ℕ) (input : Text) (v : TagValue)
    → AreBytes input
    → decode_number i input ≡ some v
    → Decodes i input v
unfolding decode_number value_index encode_value
decode_number_inv i input v a h = ground (arith, le_bytes-of_le input a)

-- Decoding is exact: bytes that decode to a value under a type number are the ones that this value
-- encodes to, and the number is the index of its type.
pub decode_value_inv :
    (i : ℕ) (input : Text) (v : TagValue)
    → AreBytes input
    → decode_value i input ≡ some v
    → Decodes i input v
unfolding decode_value value_index encode_value
decode_value_inv i input v a h =
    ground (arith, decode_boolean_inv i input v, decode_number_inv i input v a)
