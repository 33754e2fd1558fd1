-- ===== src/Prelude/Dict.antt =====
-- Maps as association lists. An `std::unordered_map` is iterated in an order that the program does
-- not choose: the order of the list stands for it.
use edge_link.Prelude.{
  subst, some-injective, suc, ◌≡◌, refl, sym, ap, ◌∙◌, inl, inr, Option, none, some, List, [], ◌∷◌,
  arith, if◌then◌else◌, Bool-cases, is_some, length, All,
}
use edge_link.Prelude.Keys.{Key, ◌==◌}

module _ {ℓ κ} {K : Type ℓ} {V : Type κ} ⦃e : Key K⦄ where
  unfoldable pub find : K → List (K × V) → Option V
  find k [] = none
  find k ((j, v) ∷ d) = if j == k then some v else find k d

  -- `m[k] = v`
  unfoldable pub put : K → V → List (K × V) → List (K × V)
  put k v [] = (k, v) ∷ []
  put k v ((j, w) ∷ d) = if j == k then (j, v) ∷ d else (j, w) ∷ put k v d

  unfoldable pub erase : K → List (K × V) → List (K × V)
  erase k [] = []
  erase k ((j, w) ∷ d) = if j == k then erase k d else (j, w) ∷ erase k d

  -- No key stands twice.
  abbrev pub IsUnique : List (K × V) → Type (ℓ ⊔ κ)
  IsUnique [] = Unit
  IsUnique ((j, w) ∷ d) = (find j d ≡ none) × IsUnique d

  pub find-put :
      (k j : K) (v : V) (d : List (K × V))
      → find j (put k v d) ≡ (if k == j then some v else find j d)
  unfolding find put
  find-put k j v [] = refl
  find-put k j v ((i, w) ∷ d) =
      ground (arith, e.matches_iff k j, e.matches_iff i k, e.matches_iff i j, find-put k j v d)

  pub find-erase :
      (k j : K) (d : List (K × V)) → find j (erase k d) ≡ (if k == j then none else find j d)
  unfolding find erase
  find-erase k j [] = ground arith
  find-erase k j ((i, w) ∷ d) =
      ground (arith, e.matches_iff k j, e.matches_iff i k, e.matches_iff i j, find-erase k j d)

  pub erase_absent : (k : K) (d : List (K × V)) → find k d ≡ none → erase k d ≡ d
  unfolding find erase
  erase_absent k [] h = refl
  erase_absent k ((i, w) ∷ d) h = ground (arith, erase_absent k d)

  pub put-IsUnique : (k : K) (v : V) (d : List (K × V)) → IsUnique d → IsUnique (put k v d)
  unfolding find put
  put-IsUnique k v [] u = (refl, tt)
  put-IsUnique k v ((i, w) ∷ d) u =
      ground (arith, e.matches_iff i k, e.matches_iff k i, find-put k i v d, put-IsUnique k v d u.1)

  pub erase-IsUnique : (k : K) (d : List (K × V)) → IsUnique d → IsUnique (erase k d)
  unfolding find erase
  erase-IsUnique k [] u = tt
  erase-IsUnique k ((i, w) ∷ d) u = ground (arith, find-erase k i d, erase-IsUnique k d u.1)

  pub length-put :
      (k : K) (v : V) (d : List (K × V))
      → length (put k v d) ≡ (if is_some (find k d) then length d else suc (length d))
  unfolding find put
  length-put k v [] = refl
  length-put k v ((i, w) ∷ d) = ground (arith, length-put k v d)

  pub length-erase :
      (k : K) (d : List (K × V))
      → IsUnique d
      → length d ≡ (if is_some (find k d) then suc (length (erase k d)) else length (erase k d))
  unfolding find erase
  length-erase k [] u = refl
  length-erase k ((i, w) ∷ d) u =
      ground (arith, e.matches_iff i k, erase_absent k d, length-erase k d u.1)

  -- A property of entries that keeps them, whatever key the entry is found under.
  pub All-put {μ} :
      (P : K × V → Type μ) (k : K) (v : V) (d : List (K × V))
      → P (k, v)
      → All P d
      → All P (put k v d)
  unfolding put
  All-put P k v [] h a = (h, tt)
  All-put P k v ((i, w) ∷ d) h a = elim (Bool-cases (i == k)) [
    | inl eq ↦ rw (eq, put) (subst (λ x. P (x, v)) (sym ((e.matches_iff i k).0 eq)) h, a.1)
    | inr ne ↦ rw ne (a.0, All-put P k v d h a.1)
  ]

  pub All-erase {μ} : (P : K × V → Type μ) (k : K) (d : List (K × V)) → All P d → All P (erase k d)
  unfolding erase
  All-erase P k [] a = tt
  All-erase P k ((i, w) ∷ d) a = elim (Bool-cases (i == k)) [
    | inl eq ↦ rw eq (All-erase P k d a.1)
    | inr ne ↦ rw ne (a.0, All-erase P k d a.1)
  ]

  pub All-find {μ} :
      (P : K × V → Type μ) (k : K) (d : List (K × V)) {v : V}
      → All P d
      → find k d ≡ some v
      → P (k, v)
  unfolding find
  All-find P k [] a h = cc
  All-find P k ((i, w) ∷ d) a h = elim (Bool-cases (i == k)) [
    | inl eq ↦ subst P (λ t. ((e.matches_iff i k).0 eq t, some-injective _ _ (rw eq at h) t)) a.0
    | inr ne ↦ All-find P k d a.1 (rw ne at h)
  ]

abbrev pub map_values {ℓ κ ν} :
    {K : Type ℓ} {V : Type κ} {W : Type ν} → (V → W) → List (K × V) → List (K × W)
map_values g [] = []
map_values g ((k, v) ∷ d) = (k, g v) ∷ map_values g d

abbrev pub Option_map {κ ν} : {V : Type κ} {W : Type ν} → (V → W) → Option V → Option W
Option_map g none = none
Option_map g (some v) = some (g v)

module _ {ℓ κ ν} {K : Type ℓ} {V : Type κ} {W : Type ν} ⦃e : Key K⦄ (g : V → W) where
  pub find-map_values :
      (k : K) (d : List (K × V)) → find k (map_values g d) ≡ Option_map g (find k d)
  unfolding find
  find-map_values k [] = refl
  find-map_values k ((i, w) ∷ d) = ground (arith, find-map_values k d)

  pub map_values-IsUnique : (d : List (K × V)) → IsUnique d → IsUnique (map_values g d)
  map_values-IsUnique [] u = tt
  map_values-IsUnique ((i, w) ∷ d) u =
      (find-map_values i d ∙ ap (Option_map g) u.0, map_values-IsUnique d u.1)
