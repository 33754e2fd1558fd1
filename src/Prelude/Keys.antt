-- ===== src/Prelude/Keys.antt =====
-- The keys of the program's maps, strings and numbers: an interface that the dictionaries take.
use edge_link.Prelude.{
  ℕ, ◌≡◌, refl, ◌↔◌, Bool, true, false, ◌&&◌, [], ◌∷◌, arith, eqb, eqb_iff, Text,
}

-- `operator==` of two `std::string`s.
abbrev pub text_beq : Text → Text → Bool
text_beq [] [] = true
text_beq [] (y ∷ ys) = false
text_beq (x ∷ xs) [] = false
text_beq (x ∷ xs) (y ∷ ys) = eqb x y && text_beq xs ys

pub text_beq_iff : (a b : Text) → (text_beq a b ≡ true) ↔ (a ≡ b)
text_beq_iff [] [] = ground arith
text_beq_iff [] (y ∷ ys) = ground arith
text_beq_iff (x ∷ xs) [] = ground arith
text_beq_iff (x ∷ xs) (y ∷ ys) = ground (arith, text_beq_iff xs ys, eqb_iff x y)

pub text_beq_refl : (a : Text) → text_beq a a ≡ true
text_beq_refl a = (text_beq_iff a a).1 refl

-- A key type decides whether two keys are the same.
pub record Key {ℓ} (K : Type ℓ) : Type ℓ where
  pub matches : K → K → Bool
  pub matches_iff : (i j : K) → (matches i j ≡ true) ↔ (i ≡ j)

instance abbrev pub text_eq : Key Text
text_eq = record { matches = text_beq; matches_iff = text_beq_iff }

instance abbrev pub nat_eq : Key ℕ
nat_eq = record { matches = eqb; matches_iff = eqb_iff }

infix 50 ◌==◌
abbrev pub ◌==◌ {ℓ} : {K : Type ℓ} ⦃key : Key K⦄ → K → K → Bool
◌==◌ ⦃key = k⦄ i j = k.matches i j
