-- ===== src/Tests/CodecRuns.antt =====
-- Runs of src/ipc_message_codec.cpp.
use edge_link.Prelude.{◌≡◌, refl, true, some, [], ◌∷◌, arith, Text, codes}
use edge_link.Codec.Bytes.{le_bytes, of_le, AreBytes}
use edge_link.Codec.Canonical.{encode-decode}
use edge_link.Codec.Decoder.{read_header, quality_of, decode_rest, decode_strings, decode}
use edge_link.Codec.Encoder.{quality_rank, header_of, append_header, body, encode}
use edge_link.Codec.Reader.{read_pod, read_string}
use edge_link.Codec.RoundTrip.{decode-encode}
use edge_link.Codec.Value.{value_index, encode_value, decode_boolean, decode_value}
use edge_link.Device.{Quality, TagValue}
use edge_link.Message.{Message, empty_message}
use edge_link.Prelude.Keys.{nat_eq, text_eq}

abbrev sample : Message
sample = record {
  topic = codes "a";
  device_id = codes "d";
  tag_name = codes "t";
  value = TagValue.boolean true;
  quality = Quality.stale;
  timestamp = 7;
}

abbrev sample_bytes : Text
sample_bytes =
    83 ∷ 77 ∷ 76 ∷ 69 ∷ 1 ∷ 0 ∷ 1 ∷ 0 ∷ 1 ∷ 0 ∷ 0 ∷ 0 ∷ 7 ∷ 0 ∷ 0 ∷ 0 ∷ 0 ∷ 0 ∷ 0 ∷ 0 ∷ 1 ∷ 0 ∷ 0
    ∷ 0 ∷ 1 ∷ 0 ∷ 0 ∷ 0 ∷ 1 ∷ 0 ∷ 0 ∷ 0 ∷ 1 ∷ 0 ∷ 0 ∷ 0 ∷ 97 ∷ 100 ∷ 116 ∷ 1 ∷ []

sample_encodes : encode sample ≡ some sample_bytes
unfolding encode header_of append_header body le_bytes encode_value value_index quality_rank
sample_encodes = refl

decode-encode_example : decode sample_bytes empty_message ≡ (true, sample)
decode-encode_example =
    decode-encode sample empty_message sample_bytes (tt, omega arith) sample_encodes

sample_bytes-AreBytes : AreBytes sample_bytes
sample_bytes-AreBytes = ground arith

sample_decodes : decode sample_bytes empty_message ≡ (true, sample)
unfolding decode read_header decode_strings decode_rest read_pod read_string of_le decode_value
    decode_boolean quality_of quality_rank
sample_decodes = refl

encode-decode_example : encode sample ≡ some sample_bytes
encode-decode_example =
    encode-decode sample_bytes empty_message sample sample_bytes-AreBytes sample_decodes
