-- ===== src/Codec/Canonical.antt =====
-- src/ipc_message_codec.cpp: `decode` accepts nothing but what `encode` writes.
use edge_link.Prelude.{
  subst, some-injective, ℕ, zero, suc, ◌-◌, ◌^◌, ◌≤◌, ◌<◌, ◌≡◌, refl, sym, ap, ◌∙◌, inl, inr, Bool,
  true, false, Option, none, some, ◌++◌, arith, Option-cases, ◌>>=◌, >>=-some, Text, length,
  is_empty, drop, length-drop,
}
use edge_link.Codec.Bytes.{le_bytes, AreBytes}
use edge_link.Codec.Decoder.{read_header, quality_of, decode_rest, decode_strings, decode}
use edge_link.Codec.Encoder.{
  message_magic, message_version, quality_rank, Header, header_of, append_header, body, encode,
}
use edge_link.Codec.Reader.{read_pod, read_string, AreBytes-drop, read_pod_inv, read_string_inv}
use edge_link.Codec.RoundTrip.{HeaderOk, Fits, encode_iff}
use edge_link.Codec.Value.{value_index, encode_value, decode_value, Decodes, decode_value_inv}
use edge_link.Device.{Quality, TagValue}
use edge_link.Message.{Message}
use edge_link.Prelude.Keys.{nat_eq, text_eq}

-- A read that succeeds, and what follows it.
read_pod_bind :
    {A G : Type 0} (size : ℕ) (input : Text) (offset : ℕ) (f : ℕ × ℕ → Option A) {b : A}
    → AreBytes input
    → (read_pod size input offset >>= f) ≡ some b
    → ((v o : ℕ)
        → drop offset input ≡ le_bytes size v ++ drop o input
        → v < 256 ^ size
        → o ≤ length input
        → f (v, o) ≡ some b
        → G)
    → G
read_pod_bind size input offset f a e k =
    let ((v, o), r, rest) = >>=-some e in
    let (i, bound, _, l) = read_pod_inv size input offset a r in k v o i bound l rest

read_header_inv :
    (input : Text) {h : Header} {o : ℕ}
    → AreBytes input
    → read_header input ≡ some (h, o)
    → (input ≡ append_header h (drop o input)) × HeaderOk h × (o ≤ length input)
unfolding read_header append_header
read_header_inv input a e = read_pod_bind 4 input 0 _ a e (λ v1 o1 e1 b1 l1 k1.
    read_pod_bind 2 input o1 _ a k1 (λ v2 o2 e2 b2 l2 k2.
      read_pod_bind 2 input o2 _ a k2 (λ v3 o3 e3 b3 l3 k3.
        read_pod_bind 4 input o3 _ a k3 (λ v4 o4 e4 b4 l4 k4.
          read_pod_bind 8 input o4 _ a k4 (λ v5 o5 e5 b5 l5 k5.
            read_pod_bind 4 input o5 _ a k5 (λ v6 o6 e6 b6 l6 k6.
              read_pod_bind 4 input o6 _ a k6 (λ v7 o7 e7 b7 l7 k7.
                read_pod_bind 4 input o7 _ a k7 (λ v8 o8 e8 b8 l8 k8.
                  read_pod_bind 4 input o8 _ a k8 (λ v9 o9 e9 b9 l9 k9.
                    subst
                      (λ (x : Header × ℕ).
                        (input ≡ append_header x.0 (drop x.1 input))
                        × HeaderOk x.0
                        × (x.1 ≤ length input))
                      (some-injective _ _ k9)
                      (
                        e1
                            ∙ ap (◌++◌ (le_bytes 4 v1)) (
                                e2
                                ∙ ap (◌++◌ (le_bytes 2 v2)) (
                                    e3
                                    ∙ ap (◌++◌ (le_bytes 2 v3)) (
                                        e4
                                        ∙ ap (◌++◌ (le_bytes 4 v4)) (
                                            e5
                                            ∙ ap (◌++◌ (le_bytes 8 v5)) (
                                                e6
                                                ∙ ap (◌++◌ (le_bytes 4 v6)) (
                                                    e7
                                                    ∙ ap (◌++◌ (le_bytes 4 v7))
                                                        (e8 ∙ ap (◌++◌ (le_bytes 4 v8)) (e9)))))))),
                        (b1, b2, b3, b4, b5, b6, b7, b8, b9),
                        l9,
                      ))))))))))

quality_rank-quality_of : (n : ℕ) → n ≤ 4 → quality_rank (quality_of n) ≡ n
unfolding quality_of quality_rank
quality_rank-quality_of zero h = refl
quality_rank-quality_of (suc zero) h = refl
quality_rank-quality_of (suc (suc zero)) h = refl
quality_rank-quality_of (suc (suc (suc zero))) h = refl
quality_rank-quality_of (suc (suc (suc (suc zero)))) h = refl
quality_rank-quality_of (suc (suc (suc (suc (suc n))))) h = omega arith

-- What a call that succeeds found behind the strings.
decode_rest_inv :
    (input : Text) (h : Header) (o : ℕ) (m : Message) {w : Message}
    → AreBytes input
    → decode_rest input h o m ≡ (true, w)
    → (is_empty m.topic ≡ false)
      × (length input - o ≡ h.value_length)
      × (v : TagValue) × Decodes h.type_index (drop o input) v
      × (record m { value = v; quality = quality_of h.quality; timestamp = h.timestamp } ≡ w)
unfolding decode_rest
decode_rest_inv input h o m {w} a e =
    elim (Option-cases (decode_value h.type_index (drop o input))) [
      | inl n ↦ ground arith
      | inr (v, s) ↦
          let d = decode_value_inv h.type_index (drop o input) v (AreBytes-drop o input a) s in
          (ground arith, ground arith, v, d, ground arith)
    ]

-- What the fields of the message are, when the strings and the value were read.
abbrev Describes : Text → Header → ℕ → Message → Type 0
Describes input h o m =
    (is_empty m.topic ≡ false)
    × (drop o input ≡ body m)
    × (length m.topic ≡ h.topic_length)
    × (length m.device_id ≡ h.device_id_length)
    × (length m.tag_name ≡ h.tag_name_length)
    × (length (encode_value m.value) ≡ h.value_length)
    × (value_index m.value ≡ h.type_index)
    × (m.quality ≡ quality_of h.quality)
    × (m.timestamp ≡ h.timestamp)

abbrev read_or_fail : Option (Text × ℕ) → Message → (Text × ℕ → Bool × Message) → Bool × Message
read_or_fail o m f = elim o [ none ↦ (false, m) | some x ↦ f x ]

read_string_bind :
    {G : Type 0} (len : ℕ) (input : Text) (offset : ℕ) (m : Message) (f : Text × ℕ → Bool × Message)
    {w : Message}
    → read_or_fail (read_string len input offset) m f ≡ (true, w)
    → ((s : Text) (o : ℕ)
        → drop offset input ≡ s ++ drop o input
        → length s ≡ len
        → f (s, o) ≡ (true, w)
        → G)
    → G
read_string_bind len input offset m f e k = elim (Option-cases (read_string len input offset)) [
  | inl n ↦ ground arith
  | inr ((s, o), r) ↦ let (i, l, _, _) = read_string_inv len input offset r in k s o i l (rw r at e)
]

decode_strings_inv :
    (input : Text) (h : Header) (offset : ℕ) (old : Message) {m : Message}
    → AreBytes input
    → decode_strings input h offset old ≡ (true, m)
    → Describes input h offset m
unfolding decode_strings body
decode_strings_inv input h offset old {m} a e =
    read_string_bind h.topic_length input offset _ _ e (λ topic o1 e1 l1 k1.
      read_string_bind h.device_id_length input o1 _ _ k1 (λ device_id o2 e2 l2 k2.
        read_string_bind h.tag_name_length input o2 _ _ k2 (λ tag_name o3 e3 l3 k3.
          let (t, l, v, d, w) = decode_rest_inv input h o3 _ a k3 in
          subst (Describes input h offset) w (
            t,
            e1 ∙ ap (◌++◌ topic) (e2 ∙ ap (◌++◌ device_id) (e3 ∙ ap (◌++◌ tag_name) (sym d.1))),
            l1,
            l2,
            l3,
            ap length d.1 ∙ length-drop o3 input ∙ l,
            d.0,
            refl,
            refl,
          ))))

decode_inv :
    (input : Text) (old : Message) {m : Message}
    → decode input old ≡ (true, m)
    → (h : Header) × (o : ℕ) × (read_header input ≡ some (h, o))
      × (h.magic ≡ message_magic)
      × (h.version ≡ message_version)
      × (h.quality ≤ 4)
      × (decode_strings input h o old ≡ (true, m))
unfolding decode
decode_inv input old {m} e = elim (Option-cases (read_header input)) [
  | inl n ↦ ground arith
  | inr ((h, o), r) ↦
      let r4 : quality_rank Quality.disconnected ≡ 4 = unfold quality_rank in refl in
      (h, o, r, ground arith, ground arith, ground arith, ground arith)
]

header_of-Describes :
    (input : Text) (h : Header) (o : ℕ) (m : Message)
    → h.magic ≡ message_magic
    → h.version ≡ message_version
    → h.quality ≤ 4
    → Describes input h o m
    → header_of m ≡ h
unfolding header_of
header_of-Describes input h o m magic version q (_, _, l1, l2, l3, l4, i, r, t) =
    let r' : quality_rank m.quality ≡ h.quality =
      ap quality_rank r ∙ quality_rank-quality_of h.quality q in
    cc

-- A list of bytes that `decode` accepts is the one that `encode` writes for the message it found:
-- no other bytes lead to this message, and none lead to a message that cannot be encoded.
pub encode-decode :
    (bytes : Text) (old m : Message)
    → AreBytes bytes
    → decode bytes old ≡ (true, m)
    → encode m ≡ some bytes
encode-decode bytes old m a e =
    let (h, o, r, magic, version, q, k) = decode_inv bytes old e in
    let (whole, ok, l) = read_header_inv bytes a r in
    let d = decode_strings_inv bytes h o old a k in
    let (t, rest, l1, l2, l3, l4, _, _, _) = d in
    let (_, _, _, _, _, b1, b2, b3, b4) = ok in
    let fits : Fits m = (t, omega arith, omega arith, omega arith, omega arith) in
    (encode_iff m bytes).1 (
      fits,
      ap (λ x. append_header x (body m)) (header_of-Describes bytes h o m magic version q d)
          ∙ ap (append_header h) (sym rest)
          ∙ sym whole,
    )
