-- ===== src/Codec/RoundTrip.antt =====
-- src/ipc_message_codec.cpp: what `encode` writes, `decode` reads back.
use edge_link.Prelude.{
  subst, ℕ, ◌-◌, ◌^◌, ◌≤◌, ◌<◌, ◌≡◌, refl, ap, ◌∙◌, ◌↔◌, true, false, some, arith, ltb, eqb, Text,
  length, is_empty, drop, length-drop,
}
use edge_link.Codec.Decoder.{read_header, quality_of, decode_rest, decode_strings, decode}
use edge_link.Codec.Encoder.{
  message_magic, message_version, max_length, quality_rank, Header, header_of, append_header, body,
  encode,
}
use edge_link.Codec.Reader.{At, At-read_pod, At-read_string}
use edge_link.Codec.Value.{
  value_index, encode_value, decode_value, ValueOk, decode_value-encode_value,
}
use edge_link.Device.{Quality, TagValue}
use edge_link.Message.{Message}
use edge_link.Prelude.Keys.{nat_eq, text_eq}

-- Every field of the header fits its width.
abbrev pub HeaderOk : Header → Type 0
HeaderOk h =
    (h.magic < 256 ^ 4)
    × (h.version < 256 ^ 2)
    × (h.type_index < 256 ^ 2)
    × (h.quality < 256 ^ 4)
    × (h.timestamp < 256 ^ 8)
    × (h.topic_length < 256 ^ 4)
    × (h.device_id_length < 256 ^ 4)
    × (h.tag_name_length < 256 ^ 4)
    × (h.value_length < 256 ^ 4)

-- A header that fits is read back, and leaves the reader behind it.
read_header_lem :
    (h : Header) (rest : Text)
    → HeaderOk h
    → (read_header (append_header h rest) ≡ some (h, 36)) × At (append_header h rest) 36 rest
unfolding read_header append_header
read_header_lem h rest (b1, b2, b3, b4, b5, b6, b7, b8, b9) =
    let input = append_header h rest in
    let r1 = At-read_pod 4 h.magic input 0 _ b1 (record { inside = omega arith; behind = refl }) in
    let r2 = At-read_pod 2 h.version input 4 _ b2 r1.1 in
    let r3 = At-read_pod 2 h.type_index input 6 _ b3 r2.1 in
    let r4 = At-read_pod 4 h.quality input 8 _ b4 r3.1 in
    let r5 = At-read_pod 8 h.timestamp input 12 _ b5 r4.1 in
    let r6 = At-read_pod 4 h.topic_length input 20 _ b6 r5.1 in
    let r7 = At-read_pod 4 h.device_id_length input 24 _ b7 r6.1 in
    let r8 = At-read_pod 4 h.tag_name_length input 28 _ b8 r7.1 in
    let r9 = At-read_pod 4 h.value_length input 32 rest b9 r8.1 in
    (rw (r1.0, r2.0, r3.0, r4.0, r5.0, r6.0, r7.0, r8.0, r9.0), r9.1)

quality_of-quality_rank : (q : Quality) → quality_of (quality_rank q) ≡ q
unfolding quality_of quality_rank
quality_of-quality_rank Quality.good = refl
quality_of-quality_rank Quality.stale = refl
quality_of-quality_rank Quality.timeout = refl
quality_of-quality_rank Quality.invalid = refl
quality_of-quality_rank Quality.disconnected = refl

-- What is left behind the strings is the value, which completes the message.
decode_rest_lem :
    (m w : Message) (h : Header) (input : Text) (offset : ℕ)
    → is_empty w.topic ≡ false
    → ValueOk m.value
    → h.type_index ≡ value_index m.value
    → h.value_length ≡ length (encode_value m.value)
    → At input offset (encode_value m.value)
    → decode_rest input h offset w ≡ (
      true,
      record w { value = m.value; quality = quality_of h.quality; timestamp = h.timestamp },
    )
unfolding decode_rest
decode_rest_lem m w h input offset t ok i l p =
    let inside = p.inside in
    let behind = length-drop offset input in
    let left : length (drop offset input) ≡ length (encode_value m.value) = ap length p.behind in
    let value : decode_value h.type_index (drop offset input) ≡ some m.value =
      rw (i, p.behind) (decode_value-encode_value m.value ok) in
    let out : ltb (length input) offset ≡ false = ground arith in
    let same : eqb (length input - offset) h.value_length ≡ true = ground arith in
    rw (t, out, same, value)

-- The strings and the value behind a header of the same message are read into any message.
decode_strings_lem :
    (m old : Message) (input : Text) (offset : ℕ)
    → is_empty m.topic ≡ false
    → ValueOk m.value
    → At input offset (body m)
    → decode_strings input (header_of m) offset old ≡ (true, m)
unfolding decode_strings header_of body
decode_strings_lem m old input offset t ok p =
    let r1 = At-read_string m.topic input offset _ p in
    let r2 = At-read_string m.device_id input _ _ r1.1 in
    let r3 = At-read_string m.tag_name input _ (encode_value m.value) r2.1 in
    let q = quality_of-quality_rank m.quality in
    rw (r1.0, r2.0, r3.0, decode_strings)
      (decode_rest_lem m
          (record old { topic = m.topic; device_id = m.device_id; tag_name = m.tag_name })
          (header_of m) input _ t ok refl refl r3.1
        ∙ ap (λ x. (true, record m { quality = x })) (quality_of-quality_rank m.quality))

value_index_lt : (v : TagValue) → value_index v < 256 ^ 2
unfolding value_index
value_index_lt TagValue.monostate = omega arith
value_index_lt (TagValue.boolean b) = omega arith
value_index_lt (TagValue.int8 v) = omega arith
value_index_lt (TagValue.int16 v) = omega arith
value_index_lt (TagValue.int32 v) = omega arith
value_index_lt (TagValue.int64 v) = omega arith
value_index_lt (TagValue.uint8 v) = omega arith
value_index_lt (TagValue.uint16 v) = omega arith
value_index_lt (TagValue.uint32 v) = omega arith
value_index_lt (TagValue.uint64 v) = omega arith
value_index_lt (TagValue.float v) = omega arith
value_index_lt (TagValue.double v) = omega arith
value_index_lt (TagValue.string s) = omega arith

pub quality_rank_le : (q : Quality) → quality_rank q ≤ 4
unfolding quality_rank
quality_rank_le Quality.good = omega arith
quality_rank_le Quality.stale = omega arith
quality_rank_le Quality.timeout = omega arith
quality_rank_le Quality.invalid = omega arith
quality_rank_le Quality.disconnected = omega arith

-- The bits of the value and of the time stamp fit their types.
abbrev pub MessageOk : Message → Type 0
MessageOk m = ValueOk m.value × (m.timestamp < 256 ^ 8)

-- The strings and the encoded value fit the lengths of the header.
abbrev pub Fits : Message → Type 0
Fits m =
    (is_empty m.topic ≡ false)
    × (length m.topic ≤ max_length)
    × (length m.device_id ≤ max_length)
    × (length m.tag_name ≤ max_length)
    × (length (encode_value m.value) ≤ max_length)

-- `encode` succeeds on exactly the messages that fit, with the header and the body.
pub encode_iff :
    (m : Message) (bytes : Text)
    → (encode m ≡ some bytes) ↔ (Fits m × (append_header (header_of m) (body m) ≡ bytes))
unfolding encode
encode_iff m bytes =
    let q = quality_rank_le m.quality in
    let r : quality_rank Quality.disconnected ≡ 4 = unfold quality_rank in refl in
    (λ h. ground arith, λ h. ground arith)

header_of-HeaderOk : (m : Message) → MessageOk m → Fits m → HeaderOk (header_of m)
unfolding header_of
header_of-HeaderOk m ok (t, a, b, c, d) =
    let q = quality_rank_le m.quality in
    let i = value_index_lt m.value in
    let ts = ok.1 in
    (
      omega arith,
      omega arith,
      i,
      omega arith,
      ts,
      omega arith,
      omega arith,
      omega arith,
      omega arith,
    )

-- Behind a header that `decode` accepts, it reads the strings.
decode_header :
    (input : Text) (h : Header) (offset : ℕ) (old : Message)
    → read_header input ≡ some (h, offset)
    → h.magic ≡ message_magic
    → h.version ≡ message_version
    → h.quality ≤ 4
    → decode input old ≡ decode_strings input h offset old
unfolding decode
decode_header input h offset old e m v q =
    let r4 : quality_rank Quality.disconnected ≡ 4 = unfold quality_rank in refl in
    rw (e, decode, m, v) (ground arith)

-- Whatever `encode` writes for a message whose numbers and time stamp fit their types, `decode`
-- reads back as that message, into any message that was there before.
pub decode-encode :
    (m old : Message) (bytes : Text)
    → MessageOk m
    → encode m ≡ some bytes
    → decode bytes old ≡ (true, m)
decode-encode m old bytes ok h =
    let (fits, e) = (encode_iff m bytes).0 h in
    let r = read_header_lem (header_of m) (body m) (header_of-HeaderOk m ok fits) in
    let strings =
      decode_strings_lem m old (append_header (header_of m) (body m)) 36 fits.0 ok.0 r.1 in
    let q : (header_of m).quality ≤ 4 = unfold header_of in quality_rank_le m.quality in
    let magic : (header_of m).magic ≡ message_magic = unfold header_of in refl in
    let version : (header_of m).version ≡ message_version = unfold header_of in refl in
    let header =
      decode_header (append_header (header_of m) (body m)) (header_of m) 36 old r.0 magic version
        q in
    subst (λ x. decode x old ≡ (true, m)) e (header ∙ strings)
