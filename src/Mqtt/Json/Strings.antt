-- ===== src/Mqtt/Json/Strings.antt =====
-- The strings of src/mqtt_service.cpp in its JSON payloads, and how any reader of JSON takes them.
use edge_link.Prelude.{
  subst, ℕ, ◌+◌, ◌-◌, ◌*◌, ◌/◌, ◌%◌, ◌<◌, ◌≡◌, refl, sym, ap, ◌∙◌, inl, inr, true, ◌&&◌, ◌||◌,
  Option, none, some, [], ◌∷◌, ◌++◌, append_assoc, arith, ltb, leb, eqb, if◌then◌else◌, ltb→lt,
  eqb_iff, Bool-cases, ◌>>=◌, Text,
}
use edge_link.Mqtt.Json.{hex_digit, escape_byte, escape_json}
use edge_link.Prelude.Keys.{text_eq, nat_eq}

-- A reader between two bytes: in the text, behind a backslash, or in the digits of `\u`, with the
-- number of those left and their value so far.
pub data Mode : Type 0 where
  in_text : Mode
  in_escape : Mode
  in_unicode : ℕ → ℕ → Mode

-- The byte of a short escape of RFC 8259.
unescape : ℕ → Option ℕ
unescape c =
    if eqb c 34 || eqb c 92 || eqb c 47
    then some c
    else if eqb c 98
    then some 8
    else if eqb c 102
    then some 12
    else if eqb c 110
    then some 10
    else if eqb c 114
    then some 13
    else if eqb c 116
    then some 9
    else none

hex_value : ℕ → Option ℕ
hex_value c =
    if leb 48 c && leb c 57
    then some (c - 48)
    else if leb 97 c && leb c 102
    then some (c - 87)
    else if leb 65 c && leb c 70
    then some (c - 55)
    else none

-- One more byte of the string in front of what is read behind it.
abbrev push : ℕ → Option (Text × Text) → Option (Text × Text)
push c read = (read >>= λ (s, rest). some (c ∷ s, rest))

-- Reads the text of a JSON string up to its closing quote, and gives what follows that too. It fails
-- at a control character, an unknown escape and the end of the input; of the escapes `\u` it takes
-- those of ASCII.
pub read_json_string : Mode → Text → Option (Text × Text)
read_json_string mode [] = none
read_json_string in_text (c ∷ cs) =
    let rest = read_json_string in_text cs in
    let escaped = read_json_string in_escape cs in
    if eqb c 34
    then some ([], cs)
    else if eqb c 92
    then escaped
    else if ltb c 32
    then none
    else push c rest
read_json_string in_escape (c ∷ cs) =
    let rest = read_json_string in_text cs in
    let unicode = read_json_string (in_unicode 4 0) cs in
    if eqb c 117 then unicode else (unescape c >>= λ b. push b rest)
read_json_string (in_unicode left value) (c ∷ cs) =
    let rest = read_json_string in_text cs in
    (hex_value c >>= λ digit.
    let value = value * 16 + digit in
    let digits = read_json_string (in_unicode (left - 1) value) cs in
    if ltb 1 left then digits else if ltb value 128 then push value rest else none)

hex_value-hex_digit : (n : ℕ) → n < 16 → hex_value (hex_digit n) ≡ some n
unfolding hex_value
hex_value-hex_digit n h = ground arith

abbrev Reads : ℕ → Text → Type 0
Reads c cs = read_json_string in_text (escape_byte c ++ cs) ≡ push c (read_json_string in_text cs)

read_known : (k c : ℕ) (cs : Text) → eqb c k ≡ true → Reads k cs → Reads c cs
read_known k c cs e h = subst (λ b. Reads b cs) (sym ((eqb_iff c k).0 e)) h

hex_value_zero : hex_value 48 ≡ some 0
unfolding hex_value
hex_value_zero = refl

-- The four digits of a control character.
read_unicode :
    (c : ℕ) (cs : Text)
    → c < 32
    → read_json_string in_text (92 ∷ 117 ∷ 48 ∷ 48 ∷ hex_digit (c / 16) ∷ hex_digit (c % 16) ∷ cs)
      ≡ push c (read_json_string in_text cs)
unfolding read_json_string
read_unicode c cs h =
    let exact : (((0 * 16 + 0) * 16 + 0) * 16 + c / 16) * 16 + c % 16 ≡ c = omega arith in
    let ascii : ltb c 128 ≡ true = ground arith in
    rw
      (
        hex_value_zero,
        hex_value-hex_digit (c / 16) (omega arith),
        hex_value-hex_digit (c % 16) (omega arith),
        exact,
        ascii,
      )
      refl

-- The escape of a byte is read as that byte.
read-escape_byte : (c : ℕ) (cs : Text) → Reads c cs
unfolding escape_byte read_json_string unescape
read-escape_byte c cs = elim (Bool-cases (eqb c 34)) [
  | inl e ↦ read_known 34 c cs e refl
  | inr e34 ↦ elim (Bool-cases (eqb c 92)) [
    | inl e ↦ read_known 92 c cs e refl
    | inr e92 ↦ elim (Bool-cases (eqb c 8)) [
      | inl e ↦ read_known 8 c cs e refl
      | inr e8 ↦ elim (Bool-cases (eqb c 12)) [
        | inl e ↦ read_known 12 c cs e refl
        | inr e12 ↦ elim (Bool-cases (eqb c 10)) [
          | inl e ↦ read_known 10 c cs e refl
          | inr e10 ↦ elim (Bool-cases (eqb c 13)) [
            | inl e ↦ read_known 13 c cs e refl
            | inr e13 ↦ elim (Bool-cases (eqb c 9)) [
              | inl e ↦ read_known 9 c cs e refl
              | inr e9 ↦ elim (Bool-cases (ltb c 32)) [
                | inl e ↦
                    rw (e34, e92, e8, e12, e10, e13, e9, e) (read_unicode c cs (ltb→lt c 32 e))
                | inr e ↦ rw (e34, e92, e8, e12, e10, e13, e9, e, e34, e92, e) refl
              ]
            ]
          ]
        ]
      ]
    ]
  ]
]

-- A reader of JSON strings that meets the escaped text and a closing quote reads the original bytes
-- and stops at that quote, whatever the bytes are.
pub read-escape_json :
    (s rest : Text) → read_json_string in_text (escape_json s ++ (34 ∷ rest)) ≡ some (s, rest)
unfolding escape_json
read-escape_json [] rest = unfold read_json_string in refl
read-escape_json (c ∷ cs) rest =
    ap (read_json_string in_text) (append_assoc (escape_byte c) (escape_json cs) (34 ∷ rest))
    ∙ read-escape_byte c (escape_json cs ++ (34 ∷ rest))
    ∙ ap (push c) (read-escape_json cs rest)
