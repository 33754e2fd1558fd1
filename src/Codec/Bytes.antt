-- ===== src/Codec/Bytes.antt =====
-- `appendPod` and the `memcpy` of `readPod` in src/ipc_message_codec.cpp: a trivially copyable value
-- of `n` bytes, lowest byte first.
use native.Mathlib.Nat.{pow-suc}
use edge_link.Prelude.{
  ℕ, zero, suc, ◌+◌, ◌*◌, ◌/◌, ◌%◌, ◌^◌, ◌<◌, ◌≡◌, refl, ap, [], ◌∷◌, arith, Text, length, All,
}
use edge_link.Prelude.Keys.{nat_eq, text_eq}

-- The bytes that `appendPod` appends for a value of size `n`.
unfoldable pub le_bytes : ℕ → ℕ → Text
le_bytes zero v = []
le_bytes (suc n) v = v % 256 ∷ le_bytes n (v / 256)

-- The value that `memcpy` makes of the bytes.
unfoldable pub of_le : Text → ℕ
of_le [] = 0
of_le (b ∷ bs) = b + 256 * of_le bs

abbrev pub AreBytes : Text → Type 0
AreBytes = All (λ b. b < 256)

pub length-le_bytes : (n v : ℕ) → length (le_bytes n v) ≡ n
unfolding le_bytes
length-le_bytes zero v = refl
length-le_bytes (suc n) v = ap suc (length-le_bytes n (v / 256))

pub le_bytes-AreBytes : (n v : ℕ) → AreBytes (le_bytes n v)
unfolding le_bytes
le_bytes-AreBytes zero v = tt
le_bytes-AreBytes (suc n) v = (omega arith, le_bytes-AreBytes n (v / 256))

pub of_le-le_bytes : (n v : ℕ) → v < 256 ^ n → of_le (le_bytes n v) ≡ v
unfolding le_bytes of_le
of_le-le_bytes zero v h = omega arith
of_le-le_bytes (suc n) v h =
    omega (arith, pow-suc 256 n, of_le-le_bytes n (v / 256) (omega (arith, pow-suc 256 n)))

pub of_le_lt : (bs : Text) → AreBytes bs → of_le bs < 256 ^ length bs
unfolding of_le
of_le_lt [] h = omega arith
of_le_lt (b ∷ bs) (h, hs) = omega (arith, pow-suc 256 (length bs), of_le_lt bs hs)

pub le_bytes-of_le : (bs : Text) → AreBytes bs → le_bytes (length bs) (of_le bs) ≡ bs
unfolding le_bytes of_le
le_bytes-of_le [] h = refl
le_bytes-of_le (b ∷ bs) (h, hs) =
    let low : (b + 256 * of_le bs) % 256 ≡ b = omega arith in
    let high : (b + 256 * of_le bs) / 256 ≡ of_le bs = omega arith in
    rw (low, high, le_bytes-of_le bs hs)
