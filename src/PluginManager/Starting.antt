-- ===== src/PluginManager/Starting.antt =====
-- src/plugin_manager.cpp: all plugins start, or none of this call stays started.
use edge_link.Prelude.{
  ◌≡◌, refl, sym, ap, ◌∙◌, inl, inr, Bool, true, false, ◌&&◌, ◌||◌, none, List, [], ◌∷◌, arith,
  Bool-cases, Option-cases, Text, All,
}
use edge_link.PluginManager.{
  LoadedPlugin, PluginManager, stopped, stop_in, start_each, stop_named, start_all,
}
use edge_link.Prelude.Dict.{find, put, IsUnique, map_values}
use edge_link.Prelude.Keys.{text_beq, text_beq_iff, text_eq, nat_eq}

-- A plugin of another name is not touched.
find_other :
    (name n : Text) (p : LoadedPlugin) (ps : List (Text × LoadedPlugin))
    → text_beq n name ≡ false
    → find name ((n, p) ∷ ps) ≡ find name ps
unfolding find
find_other name n p ps other = rw other refl

put_other :
    (name n : Text) (p q : LoadedPlugin) (ps : List (Text × LoadedPlugin))
    → text_beq n name ≡ false
    → put name q ((n, p) ∷ ps) ≡ (n, p) ∷ put name q ps
unfolding put
put_other name n p q ps other = rw other refl

stop_in_other :
    (name n : Text) (p : LoadedPlugin) (ps : List (Text × LoadedPlugin))
    → text_beq n name ≡ false
    → stop_in name ((n, p) ∷ ps) ≡ (n, p) ∷ stop_in name ps
unfolding stop_in
stop_in_other name n p ps other =
    let there = find_other name n p ps other in
    elim (Option-cases (find name ps)) [
      | inl e ↦ rw (there, e, stop_in) refl
      | inr (q, e) ↦ elim (Bool-cases q.started) [
        | inl r ↦ rw (there, e, stop_in, r) (put_other name n p (stopped q) ps other)
        | inr r ↦ rw (there, e, stop_in, r) refl
      ]
    ]

stop_named_other :
    (names : List Text) (n : Text) (p : LoadedPlugin) (ps : List (Text × LoadedPlugin))
    → All (λ name. text_beq n name ≡ false) names
    → stop_named names ((n, p) ∷ ps) ≡ (n, p) ∷ stop_named names ps
unfolding stop_named
stop_named_other [] n p ps apart = refl
stop_named_other (name ∷ names) n p ps apart =
    ap (stop_named names) (stop_in_other name n p ps apart.0)
    ∙ stop_named_other names n p (stop_in name ps) apart.1

text_beq-swap : (a b : Text) → text_beq a b ≡ false → text_beq b a ≡ false
text_beq-swap a b apart = ground (arith, text_beq_iff a b, text_beq_iff b a)

-- The three branches of the loop.
start_each_running :
    (answers : Text → Bool) (n : Text) (p : LoadedPlugin) (ps : List (Text × LoadedPlugin))
    → p.started ≡ true
    → let (ok, names, rest) = start_each answers ps in
      start_each answers ((n, p) ∷ ps) ≡ (ok, names, (n, p) ∷ rest)
unfolding start_each
start_each_running answers n p ps r = simp r refl

start_each_refused :
    (answers : Text → Bool) (n : Text) (p : LoadedPlugin) (ps : List (Text × LoadedPlugin))
    → p.started ≡ false
    → answers n ≡ false
    → start_each answers ((n, p) ∷ ps) ≡ (false, [], (n, p) ∷ ps)
unfolding start_each
start_each_refused answers n p ps r a = simp (r, a) refl

start_each_starting :
    (answers : Text → Bool) (n : Text) (p : LoadedPlugin) (ps : List (Text × LoadedPlugin))
    → p.started ≡ false
    → answers n ≡ true
    → let (ok, names, rest) = start_each answers ps in
      start_each answers ((n, p) ∷ ps) ≡ (ok, n ∷ names, (n, record p { started = true }) ∷ rest)
unfolding start_each
start_each_starting answers n p ps r a = simp (r, a) refl

-- The names that are started are names of the map.
names_apart :
    (answers : Text → Bool) (n : Text) (ps : List (Text × LoadedPlugin))
    → find n ps ≡ none
    → All (λ name. text_beq n name ≡ false) (start_each answers ps).1
unfolding start_each find
names_apart answers n [] unknown = tt
names_apart answers n ((name, p) ∷ ps) unknown = elim (Bool-cases (text_beq name n)) [
  | inl same ↦ ground arith
  | inr other ↦
      let later : find n ps ≡ none = sym (find_other n name p ps other) ∙ unknown in
      let rest = names_apart answers n ps later in
      let apart = text_beq-swap name n other in
      elim (Bool-cases p.started) [
        | inl r ↦ rw (start_each_running answers name p ps r) rest
        | inr r ↦ elim (Bool-cases (answers name)) [
          | inl a ↦ rw (start_each_starting answers name p ps r a) (apart, rest)
          | inr a ↦ rw (start_each_refused answers name p ps r a) tt
        ]
      ]
]

-- What the loop has put back, in front of the rest.
back_in_front :
    (answers : Text → Bool) (n : Text) (p : LoadedPlugin) (ps : List (Text × LoadedPlugin))
    → find n ps ≡ none
    → let (ok, names, rest) = start_each answers ps in
      stop_named names rest ≡ ps → stop_named names ((n, p) ∷ rest) ≡ (n, p) ∷ ps
back_in_front answers n p ps unknown back =
    let (ok, names, rest) = start_each answers ps in
    stop_named_other names n p rest (names_apart answers n ps unknown) ∙ ap (◌∷◌ (n, p)) back

stop_in_first :
    (n : Text) (p : LoadedPlugin) (rest : List (Text × LoadedPlugin))
    → p.started ≡ false
    → stop_in n ((n, record p { started = true }) ∷ rest) ≡ (n, p) ∷ rest
unfolding stop_in find put
stop_in_first n p rest r =
    let same : text_beq n n ≡ true = (text_beq_iff n n).1 refl in
    rw (same, stop_in, same) (ap (λ b. (n, record p { started = b }) ∷ rest) (sym r))

rolled_back :
    (answers : Text → Bool) (ps : List (Text × LoadedPlugin))
    → IsUnique ps
    → let (ok, names, rest) = start_each answers ps in ok ≡ false → stop_named names rest ≡ ps
unfolding stop_named start_each
rolled_back answers [] u = λ stays_down. refl
rolled_back answers ((n, p) ∷ ps) u = elim (Bool-cases p.started) [
  | inl r ↦
      rw (start_each_running answers n p ps r)
        (λ stays_down. back_in_front answers n p ps u.0 (rolled_back answers ps u.1 stays_down))
  | inr r ↦ elim (Bool-cases (answers n)) [
    | inl a ↦ rw (start_each_starting answers n p ps r a) (λ stays_down.
        let (ok, names, rest) = start_each answers ps in
        ap (stop_named names) (stop_in_first n p rest r)
        ∙ back_in_front answers n p ps u.0 (rolled_back answers ps u.1 stays_down))
    | inr a ↦ rw (start_each_refused answers n p ps r a) (λ stays_down. refl)
  ]
]

abbrev pub running : LoadedPlugin → LoadedPlugin
running p = record p { started = true }

all_running :
    (answers : Text → Bool) (ps : List (Text × LoadedPlugin))
    → let (ok, names, rest) = start_each answers ps in ok ≡ true → rest ≡ map_values running ps
unfolding start_each
all_running answers [] = λ ok. refl
all_running answers ((n, p) ∷ ps) = elim (Bool-cases p.started) [
  | inl r ↦ rw (start_each_running answers n p ps r) (λ ok.
      ap (λ b. (n, record p { started = b }) ∷ (start_each answers ps).2) r
      ∙ ap (◌∷◌ (n, running p)) (all_running answers ps ok))
  | inr r ↦ elim (Bool-cases (answers n)) [
    | inl a ↦
        rw (start_each_starting answers n p ps r a)
          (λ ok. ap (◌∷◌ (n, running p)) (all_running answers ps ok))
    | inr a ↦ rw (start_each_refused answers n p ps r a) (λ ok. cc)
  ]
]

-- No plugin refuses: each runs already or answers that it has started.
abbrev pub none_refuses : (Text → Bool) → List (Text × LoadedPlugin) → Bool
none_refuses answers [] = true
none_refuses answers ((n, p) ∷ ps) = (p.started || answers n) && none_refuses answers ps

start_each_result :
    (answers : Text → Bool) (ps : List (Text × LoadedPlugin))
    → (start_each answers ps).0 ≡ none_refuses answers ps
unfolding start_each
start_each_result answers [] = refl
start_each_result answers ((n, p) ∷ ps) = elim (Bool-cases p.started) [
  | inl r ↦ rw (start_each_running answers n p ps r, r) (start_each_result answers ps)
  | inr r ↦ elim (Bool-cases (answers n)) [
    | inl a ↦ rw (start_each_starting answers n p ps r a, r, a) (start_each_result answers ps)
    | inr a ↦ rw (start_each_refused answers n p ps r a, r, a) refl
  ]
]

-- `startAll` on a map without a repeated name: it returns true exactly if each plugin runs already or
-- answers true to its start, and then every plugin is started and nothing else has changed; or it
-- returns false and leaves the manager as it was, with the plugins that were running before the call
-- still running.
pub start_all_lem :
    (answers : Text → Bool) (m : PluginManager)
    → IsUnique m.plugins
    → let (ok, m') = start_all answers m in
      (ok ≡ none_refuses answers m.plugins)
      × (ok ≡ true → m' ≡ record m { plugins = map_values running m.plugins })
      × (ok ≡ false → m' ≡ m)
unfolding start_all
start_all_lem answers m u =
    let result = start_each_result answers m.plugins in
    elim (Bool-cases (start_each answers m.plugins).0) [
      | inl e ↦
          rw (e, start_all)
            (
              sym e ∙ result,
              λ ok. ap (λ ps. record m { plugins = ps }) (all_running answers m.plugins e),
              λ bad. cc,
            )
      | inr e ↦
          rw (e, start_all)
            (
              sym e ∙ result,
              λ ok. cc,
              λ bad. ap (λ ps. record m { plugins = ps }) (rolled_back answers m.plugins u e),
            )
    ]
