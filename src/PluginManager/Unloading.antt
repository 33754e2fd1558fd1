-- ===== src/PluginManager/Unloading.antt =====
-- src/plugin_manager.cpp: the loop of `unloadAll` ends.
use edge_link.Prelude.{
  subst, ℕ, zero, suc, ◌≤◌, ◌≡◌, refl, ap, ◌∙◌, ◌⊎◌, inl, inr, true, List, [], ◌∷◌, arith, Text,
  length,
}
use edge_link.PluginManager.{LoadedPlugin, PluginManager, unload_plugin, unload_all}
use edge_link.Prelude.Dict.{find, erase}
use edge_link.Prelude.Keys.{text_beq, text_beq_iff, text_eq, nat_eq}

erase_shorter : (name : Text) (d : List (Text × LoadedPlugin)) → length (erase name d) ≤ length d
unfolding erase
erase_shorter name [] = omega arith
erase_shorter name ((n, p) ∷ d) = ground (arith, erase_shorter name d)

-- Each round of the loop takes a plugin out.
unload_plugin_shorter :
    (name : Text) (p : LoadedPlugin) (ps : List (Text × LoadedPlugin)) (m : PluginManager)
    → m.plugins ≡ (name, p) ∷ ps
    → length (unload_plugin true name m).1.plugins ≤ length ps
unfolding unload_plugin find erase
unload_plugin_shorter name p ps m e =
    let same : text_beq name name ≡ true = (text_beq_iff name name).1 refl in
    let fewer = erase_shorter name ps in
    let first : erase name ((name, p) ∷ ps) ≡ erase name ps = rw same refl in
    let after : erase name m.plugins ≡ erase name ps = ap (erase name) e ∙ first in
    rw (e, unload_plugin, same) (rw after fewer)

pub plugins-cases :
    (d : List (Text × LoadedPlugin))
    → (d ≡ [])
      ⊎ ((name : Text) × (p : LoadedPlugin) × (ps : List (Text × LoadedPlugin)) × (d
            ≡ (name, p) ∷ ps))
plugins-cases [] = inl refl
plugins-cases ((name, p) ∷ ps) = inr (name, p, ps, refl)

-- With at least as much fuel as there are plugins, `unloadAll` leaves none.
pub unload_all_empty :
    (fuel : ℕ) (m : PluginManager) → length m.plugins ≤ fuel → (unload_all fuel m).plugins ≡ []
unfolding unload_all
unload_all_empty zero m enough = elim (plugins-cases m.plugins) [
  | inl e ↦ e
  | inr (name, p, ps, e) ↦
      let one : length ((name, p) ∷ ps) ≤ 0 = subst (λ d. length d ≤ 0) e enough in ground arith
]
unload_all_empty (suc fuel) m enough = elim (plugins-cases m.plugins) [
  | inl e ↦ rw (e, unload_all) e
  | inr (name, p, ps, e) ↦
      let all_there : length ((name, p) ∷ ps) ≤ suc fuel =
        subst (λ d. length d ≤ suc fuel) e enough in
      let fewer = unload_plugin_shorter name p ps m e in
      rw (e, unload_all) (unload_all_empty fuel (unload_plugin true name m).1 (omega arith))
]
