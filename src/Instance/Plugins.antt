-- ===== src/Instance/Plugins.antt =====
-- S2E::initPlugins(), getPlugin() and refreshPlugins() of src/s2e/S2E.cpp: the plugins that the
-- configuration names, over the factory of Plugin. Where the program prints an error and calls exit(1),
-- the model gives the reason.
pub mod Loading
pub mod Order
mod Tests
use s2e.Common.{
  ℕ, ◌≡◌, Bool, true, false, not, ◌&&◌, List, [], ◌∷◌, ◌++◌, Option, none, some, ◌==◌,
  if◌then◌else◌, Fault, assertion,
}
use s2e.Plugin.{PluginInfo, PluginsFactory, Plugin, find, get_plugin_info, create_plugin, refresh}

pub data Reason : Type 0 where
  unknown_plugin already_loaded function_taken missing_dependency : Reason

-- A run that goes on, that calls exit(1), or that an assertion stops.
pub data Startup (A : Type 0) : Type 0 where
  going : A → Startup A
  exits : Reason → Startup A
  stops : Fault → Startup A

infixl 5 ◌>>=◌
abbrev pub ◌>>=◌ : {A B : Type 0} → Startup A → (A → Startup B) → Startup B
going a >>= f = f a
exits r >>= f = exits r
stops s >>= f = stops s

-- A plugin that is loaded: what getPluginInfo() returns of it, and its address.
pub record Loaded : Type 0 where
  pub info : PluginInfo
  pub plugin : ℕ

abbrev pub ActiveMap : Type 0
ActiveMap = List (ℕ × Loaded)

-- m_activePluginsList and m_activePluginsMap
pub record Active : Type 0 where
  pub plugins : List Loaded
  pub by_name : ActiveMap

-- getPlugin(name)
pub get_plugin : ActiveMap → ℕ → Option Loaded
get_plugin [] name = none
get_plugin ((n, p) ∷ m) name = if n == name then some p else get_plugin m name

-- m_activePluginsMap.insert(): an entry that is there stays.
pub insert : ℕ → Loaded → ActiveMap → ActiveMap
unfolding get_plugin
insert name p m = elim (get_plugin m name) [ none ↦ (name, p) ∷ m | some q ↦ m ]

-- A plugin goes to the end of the list and into the map, under its name and its function.
pub activate : Active → Loaded → Active
unfolding insert
activate a p =
    let named = insert p.info.name p a.by_name in
    record {
      plugins = a.plugins ++ (p ∷ []);
      by_name = if p.info.function_name == 0 then named else insert p.info.function_name p named;
    }

-- The function of a plugin is provided by another one.
abbrev pub taken : ActiveMap → ℕ → Bool
taken m function =
    if function == 0 then false else (elim (get_plugin m function) [ none ↦ false | some q ↦ true ])

-- One round of the loop over the names in the configuration.
pub load_plugin : PluginsFactory → Active → ℕ → Startup Active
unfolding activate get_plugin
load_plugin f a name = elim (get_plugin_info f name) [
  | none ↦ exits unknown_plugin
  | some info ↦ elim (get_plugin a.by_name info.name) [
    | some q ↦ exits already_loaded
    | none ↦
        if taken a.by_name info.function_name
        then exits function_taken
        else if create_plugin f name == 0
        then stops assertion
        else going (activate a (record { info = info; plugin = create_plugin f name }))
  ]
]

pub load_plugins : PluginsFactory → Active → List ℕ → Startup Active
load_plugins f a [] = going a
load_plugins f a (name ∷ names) = load_plugin f a name >>= λ a'. load_plugins f a' names

-- The check of the dependencies of one plugin, and of all.
pub check_names : ActiveMap → List ℕ → Startup (Unit {0})
check_names m [] = going tt
check_names m (name ∷ names) = elim (get_plugin m name) [
  | none ↦ exits missing_dependency
  | some q ↦ check_names m names
]

pub check_plugins : ActiveMap → List Loaded → Startup (Unit {0})
unfolding check_names
check_plugins m [] = going tt
check_plugins m (p ∷ ps) = check_names m p.info.dependencies >>= λ u. check_plugins m ps

-- initPlugins(), up to the calls of initialize(), which follow the list that it returns. `core` is the
-- name of CorePlugin.
pub init_plugins : PluginsFactory → ℕ → List ℕ → Startup Active
unfolding load_plugins check_plugins activate
init_plugins f core names = elim (get_plugin_info f core) [
  | none ↦ stops assertion
  | some info ↦
      if create_plugin f core == 0
      then stops assertion
      else (load_plugins f
            (activate (record { plugins = []; by_name = [] })
              (record { info = info; plugin = create_plugin f core }))
            names
          >>= λ a. check_plugins a.by_name a.plugins >>= λ u. going a)
]

-- refreshPlugins()
pub refresh_plugins : List Plugin → List Plugin
refresh_plugins [] = []
refresh_plugins (p ∷ ps) = refresh p ∷ refresh_plugins ps
