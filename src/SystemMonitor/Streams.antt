-- ===== src/SystemMonitor/Streams.antt =====
-- What src/system_monitor.cpp uses of the standard streams, in the C locale: `getline`, and `>>` for
-- words and for 64-bit integers, with what is left of the text.
use edge_link.Prelude.{
  ℕ, zero, suc, ◌+◌, ◌-◌, ◌*◌, ◌%◌, ◌^◌, Bool, true, false, ◌&&◌, Option, none, some, List, [], ◌∷◌,
  ltb, leb, eqb, if◌then◌else◌, Text,
}
use edge_link.Control.{is_space}
use edge_link.Prelude.Keys.{text_eq, nat_eq}

abbrev pub prepend : ℕ → List Text → List Text
prepend c [] = (c ∷ []) ∷ []
prepend c (line ∷ lines) = (c ∷ line) ∷ lines

-- All lines that `getline` gives.
unfoldable pub lines_of : Text → List Text
lines_of [] = []
lines_of (c ∷ cs) = if eqb c 10 then [] ∷ lines_of cs else prepend c (lines_of cs)

unfoldable pub first_line : Text → Option Text
first_line s = elim (lines_of s) [ [] ↦ none | line ∷ lines ↦ some line ]

unfoldable pub skip_spaces : Text → Text
skip_spaces [] = []
skip_spaces (c ∷ cs) = if is_space c then skip_spaces cs else c ∷ cs

unfoldable pub span_word : Text → Text × Text
span_word [] = ([], [])
span_word (c ∷ cs) =
    let (word, rest) = span_word cs in if is_space c then ([], c ∷ cs) else (c ∷ word, rest)

-- The word is empty where the extraction fails.
unfoldable pub read_word : Text → Text × Text
read_word s = span_word (skip_spaces s)

abbrev pub is_digit : ℕ → Bool
is_digit c = leb 48 c && leb c 57

unfoldable pub span_digits : Text → ℕ → ℕ × Text
span_digits [] n = (n, [])
span_digits (c ∷ cs) n =
    let further = span_digits cs (n * 10 + (c - 48)) in if is_digit c then further else (n, c ∷ cs)

-- The magnitude, where a digit comes first.
unfoldable pub read_magnitude : Text → Option (ℕ × Text)
read_magnitude [] = none
read_magnitude (c ∷ cs) = if is_digit c then some (span_digits (c ∷ cs) 0) else none

unfoldable pub read_sign : Text → Bool × Text
read_sign [] = (false, [])
read_sign (c ∷ cs) =
    if eqb c 45 then (true, cs) else if eqb c 43 then (false, cs) else (false, c ∷ cs)

-- A minus sign is taken, and the number wraps around.
unfoldable pub read_unsigned : Text → Option (ℕ × Text)
read_unsigned s =
    let (negative, digits) = read_sign (skip_spaces s) in
    elim (read_magnitude digits) [
      | none ↦ none
      | some (n, rest) ↦
          if leb (2 ^ 64) n
          then none
          else some (if negative then (2 ^ 64 - n) % 2 ^ 64 else n, rest)
    ]

-- The bit pattern of a `long long`.
unfoldable pub read_signed : Text → Option ℕ
read_signed s =
    let (negative, digits) = read_sign (skip_spaces s) in
    elim (read_magnitude digits) [
      | none ↦ none
      | some (n, rest) ↦
          if negative
          then if leb n (2 ^ 63) then some ((2 ^ 64 - n) % 2 ^ 64) else none
          else if ltb n (2 ^ 63)
          then some n
          else none
    ]

-- `while (parser >> counter)`, for at most `fuel` counters.
unfoldable pub read_counters : ℕ → Text → List ℕ
read_counters zero s = []
read_counters (suc fuel) s = elim (read_unsigned s) [
  | none ↦ []
  | some (n, rest) ↦ n ∷ read_counters fuel rest
]
