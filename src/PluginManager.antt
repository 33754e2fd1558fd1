-- ===== src/PluginManager.antt =====
-- src/plugin_manager.cpp: plugins from dynamic libraries, by name. What the dynamic linker and the code
-- of a plugin answer is an argument; the manager's record counts the libraries that were opened and for
-- which `dlclose` has not been called, whatever it answers, and the plugin objects that live. A call of
-- a plugin's `stop` acts on the plugin alone, so the model has only the manager's flag. The map is iterated in the order of its list.
pub mod Starting
pub mod Unloading
pub mod Balance
use edge_link.Prelude.{
  ℕ, zero, suc, ◌+◌, ◌-◌, Bool, true, false, not, ◌||◌, Option, none, some, List, [], ◌∷◌,
  if◌then◌else◌, is_some, Text, is_empty,
}
use edge_link.Prelude.Dict.{find, put, erase, map_values}
use edge_link.Prelude.Keys.{text_eq, nat_eq}

pub record LoadedPlugin : Type 0 where
  pub handle : ℕ
  pub instance_id : ℕ
  pub started : Bool
  pub path : Text

pub record PluginManager : Type 0 where
  pub plugins : List (Text × LoadedPlugin)
  pub open_libraries : ℕ
  pub live_instances : ℕ

unfoldable pub new : PluginManager
new = record { plugins = []; open_libraries = 0; live_instances = 0 }

-- `dlopen`, both `dlsym`s, `createPlugin`, `name()` and `initialize()`.
pub record LoadAnswers : Type 0 where
  pub opened : Option ℕ
  pub has_create : Bool
  pub has_destroy : Bool
  pub created : Option ℕ
  pub plugin_name : Option Text
  pub initialized : Bool

abbrev pub name_or_empty : Option Text → Text
name_or_empty none = []
name_or_empty (some name) = name

-- `dlclose`, and `destroyPlugin` before it.
abbrev pub close_library : PluginManager → PluginManager
close_library m = record m { open_libraries = m.open_libraries - 1 }

abbrev pub destroy_instance : PluginManager → PluginManager
destroy_instance m = record m { live_instances = m.live_instances - 1 }

unfoldable pub has_plugin : PluginManager → Text → Bool
has_plugin m name = is_some (find name m.plugins)

-- The part of `loadPlugin` from the plugin object on.
unfoldable pub register_instance : LoadAnswers → Text → ℕ → ℕ → PluginManager → Bool × PluginManager
register_instance a path handle instance_id m =
    let name = name_or_empty a.plugin_name in
    if is_empty name || has_plugin m name || not a.initialized
    then (false, close_library (destroy_instance m))
    else (
      true,
      record m {
        plugins =
            put name
              (record { handle = handle; instance_id = instance_id; started = false; path = path })
              m.plugins;
      },
    )

unfoldable pub load_plugin : LoadAnswers → Text → PluginManager → Bool × PluginManager
load_plugin a path m = if is_empty path then (false, m) else elim a.opened [
  | none ↦ (false, m)
  | some handle ↦
      let opened = record m { open_libraries = m.open_libraries + 1 } in
      if not a.has_create || not a.has_destroy
      then (false, close_library opened)
      else elim a.created [
        | none ↦ (false, close_library opened)
        | some instance_id ↦
            register_instance a path handle instance_id
              (record opened { live_instances = m.live_instances + 1 })
      ]
]

-- `closed` is what `dlclose` answers. A running plugin is stopped first; its flag goes with its entry.
unfoldable pub unload_plugin : Bool → Text → PluginManager → Bool × PluginManager
unload_plugin closed name m = elim (find name m.plugins) [
  | none ↦ (false, m)
  | some p ↦
      (closed, record (close_library (destroy_instance m)) { plugins = erase name m.plugins })
]

unfoldable pub get_plugin : PluginManager → Text → Option ℕ
get_plugin m name = elim (find name m.plugins) [ none ↦ none | some p ↦ some p.instance_id ]

-- `start_answer` is what the plugin's `start` returns.
unfoldable pub start_plugin : Bool → Text → PluginManager → Bool × PluginManager
start_plugin start_answer name m = elim (find name m.plugins) [
  | none ↦ (false, m)
  | some p ↦
      if p.started
      then (true, m)
      else if not start_answer
      then (false, m)
      else (true, record m { plugins = put name (record p { started = true }) m.plugins })
]

abbrev pub stopped : LoadedPlugin → LoadedPlugin
stopped p = record p { started = false }

-- `stopPlugin` on the map.
unfoldable pub stop_in : Text → List (Text × LoadedPlugin) → List (Text × LoadedPlugin)
stop_in name plugins = elim (find name plugins) [
  | none ↦ plugins
  | some p ↦ if not p.started then plugins else put name (stopped p) plugins
]

unfoldable pub stop_plugin : Text → PluginManager → PluginManager
stop_plugin name m = record m { plugins = stop_in name m.plugins }

-- The loop of `startAll`: whether it gets through, the names that it has started, and the plugins.
-- `answers` is what `start` of the plugin of a name returns.
unfoldable pub start_each :
    (Text → Bool) → List (Text × LoadedPlugin) → Bool × List Text × List (Text × LoadedPlugin)
start_each answers [] = (true, [], [])
start_each answers ((name, p) ∷ ps) =
    let (ok, names, rest) = start_each answers ps in
    if p.started
    then (ok, names, (name, p) ∷ rest)
    else if not (answers name)
    then (false, [], (name, p) ∷ ps)
    else (ok, name ∷ names, (name, record p { started = true }) ∷ rest)

-- The rollback, in the order of the starts.
unfoldable pub stop_named : List Text → List (Text × LoadedPlugin) → List (Text × LoadedPlugin)
stop_named [] plugins = plugins
stop_named (name ∷ names) plugins = stop_named names (stop_in name plugins)

unfoldable pub start_all : (Text → Bool) → PluginManager → Bool × PluginManager
start_all answers m =
    let (ok, names, plugins) = start_each answers m.plugins in
    if ok
    then (true, record m { plugins = plugins })
    else (false, record m { plugins = stop_named names plugins })

unfoldable pub stop_all : PluginManager → PluginManager
stop_all m = record m { plugins = map_values stopped m.plugins }

-- `while (!plugins_.empty())`, for at most `fuel` rounds.
unfoldable pub unload_all : ℕ → PluginManager → PluginManager
unload_all zero m = m
unload_all (suc fuel) m = elim m.plugins [
  | [] ↦ m
  | (name, p) ∷ ps ↦ unload_all fuel (unload_plugin true name m).1
]
