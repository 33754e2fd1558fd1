-- ===== src/PluginManager/Balance.antt =====
-- src/plugin_manager.cpp: the libraries that are open and the plugin objects that live.
use edge_link.Prelude.{
  ℕ, zero, suc, ◌+◌, ◌-◌, ◌≡◌, refl, sym, ap, ◌∙◌, inl, inr, Bool, true, false, not, ◌||◌, some,
  List, [], ◌∷◌, arith, Bool-cases, Option-cases, Text, length, is_empty,
}
use edge_link.PluginManager.{
  LoadedPlugin, PluginManager, new, LoadAnswers, name_or_empty, has_plugin, register_instance,
  load_plugin, unload_plugin, start_plugin, stopped, stop_in, stop_plugin, start_all, stop_all,
  unload_all,
}
use edge_link.PluginManager.Starting.{running, start_all_lem}
use edge_link.PluginManager.Unloading.{plugins-cases, unload_all_empty}
use edge_link.Prelude.Dict.{
  find, put, IsUnique, put-IsUnique, erase-IsUnique, length-put, length-erase, map_values,
  map_values-IsUnique,
}
use edge_link.Prelude.Keys.{text_eq, nat_eq}
use edge_link.SharedMemory.Sharing.{call}

-- One library and one object for each plugin of the map.
abbrev pub Counted : PluginManager → List (Text × LoadedPlugin) → Type 0
Counted m plugins =
    IsUnique plugins × (m.open_libraries ≡ length plugins) × (m.live_instances ≡ length plugins)

abbrev pub Balanced : PluginManager → Type 0
Balanced m = Counted m m.plugins

register_instance-Balanced :
    (a : LoadAnswers) (path : Text) (handle instance_id : ℕ) (m : PluginManager)
    → Balanced m
    → Balanced
        (register_instance a path handle instance_id (record m {
          open_libraries = m.open_libraries + 1;
          live_instances = m.live_instances + 1;
        })).1
unfolding register_instance has_plugin
register_instance-Balanced a path handle instance_id m (u, libraries, objects) =
    let name = name_or_empty a.plugin_name in
    let p : LoadedPlugin = record {
      handle = handle;
      instance_id = instance_id;
      started = false;
      path = path;
    } in
    ground (arith, put-IsUnique name p m.plugins u, length-put name p m.plugins)

load_plugin-Balanced :
    (a : LoadAnswers) (path : Text) (m : PluginManager)
    → Balanced m
    → Balanced (load_plugin a path m).1
unfolding load_plugin
load_plugin-Balanced a path m balanced =
    let (u, libraries, objects) = balanced in
    let taken_back : (m.open_libraries + 1) - 1 ≡ length m.plugins = omega arith in
    elim (Bool-cases (is_empty path)) [
      | inl e ↦ rw (e, load_plugin) balanced
      | inr e ↦ elim (Option-cases a.opened) [
        | inl o ↦ rw (e, o, load_plugin) balanced
        | inr (handle, o) ↦ elim (Bool-cases (not a.has_create || not a.has_destroy)) [
          | inl b ↦ rw (e, o, b, load_plugin) (u, taken_back, objects)
          | inr b ↦ elim (Option-cases a.created) [
            | inl c ↦ rw (e, o, b, c, load_plugin) (u, taken_back, objects)
            | inr (instance_id, c) ↦
                rw (e, o, b, c, load_plugin)
                  (register_instance-Balanced a path handle instance_id m balanced)
          ]
        ]
      ]
    ]

unload_plugin-Balanced :
    (closed : Bool) (name : Text) (m : PluginManager)
    → Balanced m
    → Balanced (unload_plugin closed name m).1
unfolding unload_plugin
unload_plugin-Balanced closed name m (u, libraries, objects) =
    ground (arith, erase-IsUnique name m.plugins u, length-erase name m.plugins u)

-- A plugin of the map changes.
put-Counted :
    (name : Text) (p q : LoadedPlugin) (m : PluginManager) (ps : List (Text × LoadedPlugin))
    → find name ps ≡ some p
    → Counted m ps
    → Counted m (put name q ps)
put-Counted name p q m ps there (u, libraries, objects) =
    let same = length-put name q ps in ground (arith, put-IsUnique name q ps u)

start_plugin-Balanced :
    (answer : Bool) (name : Text) (m : PluginManager)
    → Balanced m
    → Balanced (start_plugin answer name m).1
unfolding start_plugin
start_plugin-Balanced answer name m balanced = elim (Option-cases (find name m.plugins)) [
  | inl e ↦ rw (e, start_plugin) balanced
  | inr (p, e) ↦ elim (Bool-cases p.started) [
    | inl r ↦ rw (e, start_plugin, r) balanced
    | inr r ↦ elim (Bool-cases answer) [
      | inl a ↦
          rw (e, start_plugin, r, a)
            (put-Counted name p (record p { started = true }) m m.plugins e balanced)
      | inr a ↦ rw (e, start_plugin, r, a) balanced
    ]
  ]
]

stop_in-Counted :
    (name : Text) (m : PluginManager) (ps : List (Text × LoadedPlugin))
    → Counted m ps
    → Counted m (stop_in name ps)
unfolding stop_in
stop_in-Counted name m ps counted = elim (Option-cases (find name ps)) [
  | inl e ↦ rw (e, stop_in) counted
  | inr (p, e) ↦ elim (Bool-cases p.started) [
    | inl r ↦ rw (e, stop_in, r) (put-Counted name p (stopped p) m ps e counted)
    | inr r ↦ rw (e, stop_in, r) counted
  ]
]

length-map_values :
    (g : LoadedPlugin → LoadedPlugin) (ps : List (Text × LoadedPlugin))
    → length (map_values g ps) ≡ length ps
length-map_values g [] = refl
length-map_values g ((name, p) ∷ ps) = ap suc (length-map_values g ps)

map_values-Counted :
    (g : LoadedPlugin → LoadedPlugin) (m : PluginManager) (ps : List (Text × LoadedPlugin))
    → Counted m ps
    → Counted m (map_values g ps)
map_values-Counted g m ps (u, libraries, objects) =
    let same = length-map_values g ps in
    (map_values-IsUnique g ps u, libraries ∙ sym same, objects ∙ sym same)

start_all-Balanced :
    (answers : Text → Bool) (m : PluginManager) → Balanced m → Balanced (start_all answers m).1
start_all-Balanced answers m balanced =
    let (result, all, nothing) = start_all_lem answers m balanced.0 in
    elim (Bool-cases (start_all answers m).0) [
      | inl e ↦ rw (all e) (map_values-Counted running m m.plugins balanced)
      | inr e ↦ rw (nothing e) balanced
    ]

unload_all-Balanced : (fuel : ℕ) (m : PluginManager) → Balanced m → Balanced (unload_all fuel m)
unfolding unload_all
unload_all-Balanced zero m balanced = balanced
unload_all-Balanced (suc fuel) m balanced = elim (plugins-cases m.plugins) [
  | inl e ↦ rw (e, unload_all) balanced
  | inr (name, p, ps, e) ↦
      rw (e, unload_all)
        (unload_all-Balanced fuel (unload_plugin true name m).1
          (unload_plugin-Balanced true name m balanced))
]

-- The calls of the manager, with what the linker and the plugins answer.
pub data PluginCall : Type 0 where
  loads : LoadAnswers → Text → PluginCall
  unloads : Bool → Text → PluginCall
  starts : Bool → Text → PluginCall
  stops : Text → PluginCall
  starts_all : (Text → Bool) → PluginCall
  stops_all unloads_all : PluginCall

unfoldable pub plugin_step : PluginCall → PluginManager → PluginManager
plugin_step (loads a path) m = (load_plugin a path m).1
plugin_step (unloads closed name) m = (unload_plugin closed name m).1
plugin_step (starts answer name) m = (start_plugin answer name m).1
plugin_step (stops name) m = stop_plugin name m
plugin_step (starts_all answers) m = (start_all answers m).1
plugin_step stops_all m = stop_all m
plugin_step unloads_all m = unload_all (length m.plugins) m

unfoldable pub plugin_run : List PluginCall → PluginManager → PluginManager
plugin_run [] m = m
plugin_run (call ∷ calls) m = plugin_run calls (plugin_step call m)

plugin_step-Balanced :
    (call : PluginCall) (m : PluginManager) → Balanced m → Balanced (plugin_step call m)
unfolding plugin_step stop_plugin stop_all
plugin_step-Balanced (loads a path) m b = load_plugin-Balanced a path m b
plugin_step-Balanced (unloads closed name) m b = unload_plugin-Balanced closed name m b
plugin_step-Balanced (starts answer name) m b = start_plugin-Balanced answer name m b
plugin_step-Balanced (stops name) m b = stop_in-Counted name m m.plugins b
plugin_step-Balanced (starts_all answers) m b = start_all-Balanced answers m b
plugin_step-Balanced stops_all m b = map_values-Counted stopped m m.plugins b
plugin_step-Balanced unloads_all m b = unload_all-Balanced (length m.plugins) m b

plugin_run_from-Balanced :
    (calls : List PluginCall) (m : PluginManager) → Balanced m → Balanced (plugin_run calls m)
unfolding plugin_run
plugin_run_from-Balanced [] m b = b
plugin_run_from-Balanced (call ∷ calls) m b =
    plugin_run_from-Balanced calls (plugin_step call m) (plugin_step-Balanced call m b)

-- After any calls, failed loads included, the manager holds one library that it has not closed and one
-- plugin object for each plugin of its map, in which no name stands twice; and its destructor, which
-- unloads all, ends with an empty map, no such library and no plugin object.
pub plugin_run-Balanced :
    (calls : List PluginCall)
    → let m = plugin_run calls new in
      let unloaded = unload_all (length m.plugins) m in
      Balanced m
      × (unloaded.plugins ≡ [])
      × (unloaded.open_libraries ≡ 0)
      × (unloaded.live_instances ≡ 0)
plugin_run-Balanced calls =
    let m = plugin_run calls new in
    let unloaded = unload_all (length m.plugins) m in
    let balanced : Balanced m =
      plugin_run_from-Balanced calls new (unfold new in (tt, refl, refl)) in
    let (u, libraries, objects) = unload_all-Balanced (length m.plugins) m balanced in
    let none_left = unload_all_empty (length m.plugins) m (omega arith) in
    (balanced, none_left, libraries ∙ ap length none_left, objects ∙ ap length none_left)
