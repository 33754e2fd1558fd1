-- ===== src/Codec/Reader.antt =====
-- `readPod` and `readString` of src/ipc_message_codec.cpp, which never read past the end.
use edge_link.Prelude.{
  subst, ℕ, zero, suc, ◌+◌, ◌-◌, ◌^◌, ◌≤◌, ◌<◌, ◌≡◌, refl, sym, ap, ◌∙◌, false, ◌||◌, Option, none,
  some, [], ◌∷◌, ◌++◌, arith, ltb, if◌then◌else◌, Text, length, take, drop, length-append,
  length-take, take-length-append, drop-length-append, take-append-drop, length-drop,
}
use edge_link.Codec.Bytes.{
  le_bytes, of_le, AreBytes, length-le_bytes, of_le-le_bytes, of_le_lt, le_bytes-of_le,
}
use edge_link.Prelude.Keys.{nat_eq, text_eq}

-- The value and the new offset, if `size` bytes are left.
unfoldable pub read_pod : ℕ → Text → ℕ → Option (ℕ × ℕ)
read_pod size input offset =
    if ltb (length input) offset || ltb (length input - offset) size
    then none
    else some (of_le (take size (drop offset input)), offset + size)

unfoldable pub read_string : ℕ → Text → ℕ → Option (Text × ℕ)
read_string len input offset =
    if ltb (length input) offset || ltb (length input - offset) len
    then none
    else some (take len (drop offset input), offset + len)

-- The offset stands in the input, with `rest` behind it.
pub record At (input : Text) (offset : ℕ) (rest : Text) : Type 0 where
  pub inside : offset ≤ length input
  pub behind : drop offset input ≡ rest

drop-nil : (n : ℕ) → drop {A = ℕ} n [] ≡ []
drop-nil zero = refl
drop-nil (suc n) = refl

drop-drop : (n m : ℕ) (xs : Text) → drop n (drop m xs) ≡ drop (m + n) xs
drop-drop n zero xs = let e : 0 + n ≡ n = omega arith in rw e
drop-drop n (suc m) [] = drop-nil n ∙ sym (drop-nil (suc m + n))
drop-drop n (suc m) (x ∷ xs) =
    let e : suc m + n ≡ suc (m + n) = omega arith in rw e (drop-drop n m xs)

At-next :
    (input : Text) (offset : ℕ) (front rest : Text)
    → At input offset (front ++ rest)
    → At input (offset + length front) rest
At-next input offset front rest p = record {
  inside =
      omega
        (arith, length-drop offset input, ap length p.behind, length-append front rest, p.inside);
  behind =
      sym (drop-drop (length front) offset input)
      ∙ ap (drop (length front)) p.behind
      ∙ drop-length-append front rest;
}

enough_left :
    (size : ℕ) (input : Text) (offset : ℕ) (front rest : Text)
    → length front ≡ size
    → At input offset (front ++ rest)
    → (ltb (length input) offset || ltb (length input - offset) size) ≡ false
enough_left size input offset front rest n p =
    let next = At-next input offset front rest p in
    let inside = p.inside in let inside' = next.inside in ground arith

-- Reading `size` bytes at `front ++ rest` gives `front`, and the reader stands at `rest`.
At-front :
    (size : ℕ) (input : Text) (offset : ℕ) (front rest : Text)
    → length front ≡ size
    → At input offset (front ++ rest)
    → (take size (drop offset input) ≡ front) × At input (offset + size) rest
At-front size input offset front rest n p = (
  ap (take size) p.behind
      ∙ subst (λ k. take k (front ++ rest) ≡ front) n (take-length-append front rest),
  subst (λ k. At input (offset + k) rest) n (At-next input offset front rest p),
)

pub At-read_pod :
    (size v : ℕ) (input : Text) (offset : ℕ) (rest : Text)
    → v < 256 ^ size
    → At input offset (le_bytes size v ++ rest)
    → (read_pod size input offset ≡ some (v, offset + size)) × At input (offset + size) rest
unfolding read_pod
At-read_pod size v input offset rest h p =
    let n = length-le_bytes size v in
    let fits = enough_left size input offset (le_bytes size v) rest n p in
    let next = At-front size input offset (le_bytes size v) rest n p in
    (rw (fits, next.0, of_le-le_bytes size v h), next.1)

pub At-read_string :
    (s : Text) (input : Text) (offset : ℕ) (rest : Text)
    → At input offset (s ++ rest)
    → (read_string (length s) input offset ≡ some (s, offset + length s))
      × At input (offset + length s) rest
unfolding read_string
At-read_string s input offset rest p = (
  rw (enough_left (length s) input offset s rest refl p, p.behind, take-length-append s rest),
  At-next input offset s rest p,
)

pub AreBytes-take : (n : ℕ) (xs : Text) → AreBytes xs → AreBytes (take n xs)
AreBytes-take zero xs a = tt
AreBytes-take (suc n) [] a = tt
AreBytes-take (suc n) (x ∷ xs) a = (a.0, AreBytes-take n xs a.1)

pub AreBytes-drop : (n : ℕ) (xs : Text) → AreBytes xs → AreBytes (drop n xs)
AreBytes-drop zero xs a = a
AreBytes-drop (suc n) [] a = tt
AreBytes-drop (suc n) (x ∷ xs) a = AreBytes-drop n xs a.1

split_at :
    (size : ℕ) (input : Text) (offset : ℕ)
    → offset + size ≤ length input
    → (drop offset input ≡ take size (drop offset input) ++ drop (offset + size) input)
      × (length (take size (drop offset input)) ≡ size)
split_at size input offset h = (
  sym (take-append-drop size (drop offset input))
      ∙ ap (◌++◌ (take size (drop offset input))) (drop-drop size offset input),
  omega (arith, length-take size (drop offset input), length-drop offset input),
)

of_le-exact :
    (size : ℕ) (bs : Text)
    → AreBytes bs
    → length bs ≡ size
    → (of_le bs < 256 ^ size) × (le_bytes size (of_le bs) ≡ bs)
of_le-exact size bs a n =
    subst (λ k. (of_le bs < 256 ^ k) × (le_bytes k (of_le bs) ≡ bs)) n
      (of_le_lt bs a, le_bytes-of_le bs a)

-- A successful read of a number: what stood at the offset, and where the reader is now.
pub read_pod_inv :
    (size : ℕ) (input : Text) (offset : ℕ) {v o : ℕ}
    → AreBytes input
    → read_pod size input offset ≡ some (v, o)
    → (drop offset input ≡ le_bytes size v ++ drop o input)
      × (v < 256 ^ size)
      × (o ≡ offset + size)
      × (o ≤ length input)
unfolding read_pod
read_pod_inv size input offset {v} {o} a h =
    let fits : offset + size ≤ length input = ground arith in
    let parts = split_at size input offset fits in
    let exact =
      of_le-exact size (take size (drop offset input))
        (AreBytes-take size (drop offset input) (AreBytes-drop offset input a)) parts.1 in
    let value : (of_le (take size (drop offset input)) ≡ v) × (offset + size ≡ o) = ground arith in
    let bytes : le_bytes size v ≡ take size (drop offset input) = rw value.0 at exact.1 in
    (rw (bytes, sym value.1) parts.0, rw value.0 at exact.0, sym value.1, omega arith)

pub read_string_inv :
    (len : ℕ) (input : Text) (offset : ℕ) {s : Text} {o : ℕ}
    → read_string len input offset ≡ some (s, o)
    → (drop offset input ≡ s ++ drop o input)
      × (length s ≡ len)
      × (o ≡ offset + len)
      × (o ≤ length input)
unfolding read_string
read_string_inv len input offset {s} {o} h =
    let fits : offset + len ≤ length input = ground arith in
    let parts = split_at len input offset fits in ground arith
