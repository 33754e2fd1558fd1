-- ===== src/Modbus/Registers.antt =====
-- plugins/modbus_plugin/modbus_plugin.cpp: which registers the requests name, and what is read from
-- them.
use edge_link.Prelude.{
  ℕ, ◌+◌, ◌-◌, ◌^◌, ◌≤◌, ◌<◌, ◌≡◌, refl, true, false, List, [], ◌∷◌, arith, Text, is_empty, All,
}
use edge_link.Modbus.{
  DataType, TagConfig, Config, Floats, register_count, is_one_of, validate_tags, validate_config,
}
use edge_link.Prelude.Int.{ℤ, pos, negsuc, ltb_ℤ, leb_ℤ}
use edge_link.Prelude.Keys.{text_beq, text_eq, nat_eq}

-- The registers of a tag lie in the address space of 2^16 registers.
abbrev pub Addressable : TagConfig → Type 0
Addressable tag =
    (a : ℕ) × (tag.register_address ≡ pos a) × (a + register_count tag.data_type ≤ 2 ^ 16)

abbrev pub Apart : List Text → List TagConfig → Type 0
Apart seen tags = All (λ (tag : TagConfig). is_one_of tag.name seen ≡ false) tags

-- No two tags have the same name.
abbrev pub Distinct : List TagConfig → Type 0
Distinct [] = Unit {0}
Distinct (tag ∷ tags) =
    All (λ (other : TagConfig). text_beq other.name tag.name ≡ false) tags × Distinct tags

in_space :
    (a : ℤ) (t : DataType)
    → ltb_ℤ a (pos 0) ≡ false
    → ltb_ℤ (pos (65535 - (register_count t - 1))) a ≡ false
    → (n : ℕ) × (a ≡ pos n) × (n + register_count t ≤ 2 ^ 16)
in_space (pos n) t low high =
    let few : (0 < register_count t) × (register_count t ≤ 2) =
      unfold register_count in ground arith in
    (n, refl, ground arith)
in_space (negsuc n) t low high = absurd (ground arith)

Apart-cons :
    (n : Text) (seen : List Text) (tags : List TagConfig)
    → Apart (n ∷ seen) tags
    → All (λ (other : TagConfig). text_beq other.name n ≡ false) tags × Apart seen tags
Apart-cons n seen [] a = (tt, tt)
Apart-cons n seen (tag ∷ tags) (a, rest) =
    let (us, vs) = Apart-cons n seen tags rest in ((ground arith, us), (ground arith, vs))

tags_lem :
    (f : Floats) (tags : List TagConfig) (seen : List Text)
    → validate_tags f tags seen ≡ true
    → Apart seen tags
      × Distinct tags
      × All (λ (tag : TagConfig). (is_empty tag.name ≡ false) × Addressable tag) tags
unfolding validate_tags
tags_lem f [] seen h = (tt, tt, tt)
tags_lem f (tag ∷ tags) seen h =
    let later : validate_tags f tags (tag.name ∷ seen) ≡ true = ground arith in
    let (apart, distinct, all_ok) = tags_lem f tags (tag.name ∷ seen) later in
    let (fresh, apart') = Apart-cons tag.name seen tags apart in
    let space = in_space tag.register_address tag.data_type (ground arith) (ground arith) in
    ((ground arith, apart'), (fresh, distinct), ((ground arith, space), all_ok))

-- A configuration that is accepted has at least one tag, all with different, non-empty names, and
-- every request stays within the 2^16 registers; port and slave ID are in their ranges.
pub validate_config_lem :
    (f : Floats) (c : Config)
    → validate_config f c ≡ true
    → (is_empty c.tags ≡ false)
      × Distinct c.tags
      × All (λ (tag : TagConfig). (is_empty tag.name ≡ false) × Addressable tag) c.tags
      × (leb_ℤ c.port (pos 65535) ≡ true)
      × (ltb_ℤ (pos 0) c.port ≡ true)
      × (leb_ℤ c.slave_id (pos 247) ≡ true)
      × (ltb_ℤ (pos 0) c.slave_id ≡ true)
unfolding validate_config
validate_config_lem f c h =
    let tags_ok : validate_tags f c.tags [] ≡ true = ground arith in
    let (_, distinct, good_tags) = tags_lem f c.tags [] tags_ok in
    (ground arith, distinct, good_tags, ground arith, ground arith, ground arith, ground arith)
