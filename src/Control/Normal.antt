-- ===== src/Control/Normal.antt =====
-- src/control_command_processor.cpp: spaces around a command and the case of its letters do not
-- matter.
use edge_link.Prelude.{
  subst, ℕ, ◌+◌, ◌≤◌, ◌≡◌, refl, sym, ap, ap₂, ◌∙◌, ◌⊎◌, inl, inr, true, ◌&&◌, [], ◌∷◌, ◌++◌,
  append-nil, arith, Bool-cases, Text, is_empty, All,
}
use edge_link.Control.{is_space, upper, trim_front, trim_back, trim, to_upper, respond, process}
use edge_link.Prelude.Keys.{text_eq, nat_eq}

abbrev pub Blank : Text → Type 0
Blank = All (λ c. is_space c ≡ true)

trim_front-append : (p t : Text) → Blank p → trim_front (p ++ t) ≡ trim_front t
unfolding trim_front
trim_front-append [] t h = refl
trim_front-append (c ∷ p) t (h, hs) = rw h (trim_front-append p t hs)

trim_back_blanks : (q : Text) → Blank q → trim_back q ≡ []
unfolding trim_back
trim_back_blanks [] h = refl
trim_back_blanks (c ∷ q) (h, hs) = rw (trim_back_blanks q hs, h) refl

trim_back-append : (t q : Text) → Blank q → trim_back (t ++ q) ≡ trim_back t
unfolding trim_back
trim_back-append [] q h = trim_back_blanks q h
trim_back-append (c ∷ t) q h = rw (trim_back-append t q h) refl

trim-append : (t q : Text) → Blank q → trim_back (trim_front (t ++ q)) ≡ trim_back (trim_front t)
unfolding trim_front
trim-append [] q h = ap trim_back (ap trim_front (sym (append-nil q)) ∙ trim_front-append q [] h)
trim-append (c ∷ t) q h = elim (Bool-cases (is_space c)) [
  | inl e ↦ rw e (trim-append t q h)
  | inr e ↦ rw e (trim_back-append (c ∷ t) q h)
]

is_space-upper : (c : ℕ) → is_space (upper c) ≡ is_space c
is_space-upper c = ground arith

upper-upper : (c : ℕ) → upper (upper c) ≡ upper c
upper-upper c = ground arith

to_upper-to_upper : (t : Text) → to_upper (to_upper t) ≡ to_upper t
unfolding to_upper
to_upper-to_upper [] = refl
to_upper-to_upper (c ∷ t) = ap₂ (◌∷◌) (upper-upper c) (to_upper-to_upper t)

is_empty-to_upper : (t : Text) → is_empty (to_upper t) ≡ is_empty t
unfolding to_upper
is_empty-to_upper [] = refl
is_empty-to_upper (c ∷ t) = refl

trim_back-to_upper : (t : Text) → trim_back (to_upper t) ≡ to_upper (trim_back t)
unfolding to_upper trim_back
trim_back-to_upper [] = refl
trim_back-to_upper (c ∷ t) =
    ground (arith, trim_back-to_upper t, is_empty-to_upper (trim_back t), is_space-upper c)

trim_front-to_upper : (t : Text) → trim_front (to_upper t) ≡ to_upper (trim_front t)
unfolding to_upper trim_front
trim_front-to_upper [] = refl
trim_front-to_upper (c ∷ t) = ground (arith, trim_front-to_upper t, is_space-upper c)

process-to_upper : (t : Text) → process (to_upper t) ≡ process t
unfolding process trim
process-to_upper t = ap respond (
    ap to_upper (ap trim_back (trim_front-to_upper t) ∙ trim_back-to_upper (trim_front t))
    ∙ to_upper-to_upper (trim_back (trim_front t)))

-- A letter of ASCII in lower case, and the one in upper case.
abbrev pub LowerOf : ℕ → ℕ → Type 0
LowerOf c d = (65 ≤ d) × (d ≤ 90) × (c ≡ d + 32)

-- Two texts that differ in the case of letters only.
abbrev pub SameLetters : Text → Text → Type 0
SameLetters [] [] = Unit
SameLetters [] (d ∷ ds) = ⊥
SameLetters (c ∷ cs) [] = ⊥
SameLetters (c ∷ cs) (d ∷ ds) = ((c ≡ d) ⊎ LowerOf c d ⊎ LowerOf d c) × SameLetters cs ds

upper_same : (c d : ℕ) → (c ≡ d) ⊎ LowerOf c d ⊎ LowerOf d c → upper c ≡ upper d
upper_same c d h = ground arith

to_upper_same : (t u : Text) → SameLetters t u → to_upper t ≡ to_upper u
unfolding to_upper
to_upper_same [] [] h = refl
to_upper_same [] (d ∷ ds) h = absurd h
to_upper_same (c ∷ cs) [] h = absurd h
to_upper_same (c ∷ cs) (d ∷ ds) (one, rest) =
    ap₂ (◌∷◌) (upper_same c d one) (to_upper_same cs ds rest)

-- Two requests that differ only in spaces before and after them and in the case of their letters have
-- the same response.
pub process-normal :
    (p t u q : Text) → Blank p → Blank q → SameLetters t u → process (p ++ (t ++ q)) ≡ process u
unfolding process trim
process-normal p t u q h k same =
    ap respond (ap to_upper (ap trim_back (trim_front-append p (t ++ q) h) ∙ trim-append t q k))
    ∙ sym (process-to_upper t)
    ∙ ap process (to_upper_same t u same)
    ∙ process-to_upper u

trim_front-trim_front : (t : Text) → trim_front (trim_front t) ≡ trim_front t
unfolding trim_front
trim_front-trim_front [] = refl
trim_front-trim_front (c ∷ t) = ground (arith, trim_front-trim_front t)

-- What the request is without its spaces: `trim` cuts off spaces only.
trim_front_lem : (t : Text) → (p : Text) × Blank p × (p ++ trim_front t ≡ t)
unfolding trim_front
trim_front_lem [] = ([], tt, refl)
trim_front_lem (c ∷ t) = elim (Bool-cases (is_space c)) [
  | inl e ↦ let (p, h, eq) = trim_front_lem t in rw e (c ∷ p, (e, h), ap (◌∷◌ c) eq)
  | inr e ↦ rw e ([], tt, refl)
]

is_empty-nil : (t : Text) → is_empty t ≡ true → t ≡ []
is_empty-nil [] h = refl
is_empty-nil (c ∷ t) h = cc

trim_back_lem : (t : Text) → (q : Text) × Blank q × (trim_back t ++ q ≡ t)
unfolding trim_back
trim_back_lem [] = ([], tt, refl)
trim_back_lem (c ∷ t) =
    let (q, h, eq) = trim_back_lem t in
    elim (Bool-cases (is_empty (trim_back t) && is_space c)) [
      | inl e ↦
          let nothing : trim_back t ≡ [] = is_empty-nil (trim_back t) (ground arith) in
          let whole : q ≡ t = rw nothing at eq in
          rw e (c ∷ t, (ground arith, subst Blank whole h), refl)
      | inr e ↦ rw e (q, h, ap (◌∷◌ c) eq)
    ]

-- `trim` cuts a request into spaces, the command and spaces again, and there is nothing more to cut
-- from the command.
pub trim_lem :
    (t : Text)
    → ((p : Text) × (q : Text) × Blank p × Blank q × (p ++ (trim t ++ q) ≡ t))
      × (trim (trim t) ≡ trim t)
unfolding trim
trim_lem t =
    let (p, h, eq) = trim_front_lem t in
    let (q, k, eq') = trim_back_lem (trim_front t) in
    (
      (p, q, h, k, ap (◌++◌ p) eq' ∙ eq),
      sym (trim-append (trim_back (trim_front t)) q k)
          ∙ ap (λ x. trim_back (trim_front x)) eq'
          ∙ ap trim_back (trim_front-trim_front t),
    )
