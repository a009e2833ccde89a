-- ===== src/Plugin.antt =====
-- PluginsFactory and the plugins' states, of include/s2e/Plugin.h, src/s2e/Plugin.cpp and
-- getPluginState() of include/s2e/S2EExecutionState.h. Names and pointers are natural numbers, with 0
-- for NULL and for the empty name. A plugin's description and configuration key are left out.
pub mod Registry
pub mod State
mod Tests
use s2e.Common.{
  ℕ, Bool, true, false, not, List, [], ◌∷◌, ◌++◌, Option, none, some, ◌==◌, if◌then◌else◌, Result,
  ok, fault, ◌>>=◌, ◌>>◌, check,
}

pub record PluginInfo : Type 0 where
  pub name : ℕ
  pub function_name : ℕ
  pub dependencies : List ℕ
  pub instance_creator : ℕ → ℕ
  pub opaque : ℕ

pub record PluginsFactory : Type 0 where
  pub plugins_list : List PluginInfo
  pub plugins_map : List (ℕ × PluginInfo)

-- m_pluginsMap.find(name)
unfoldable pub find : List (ℕ × PluginInfo) → ℕ → Option PluginInfo
find [] name = none
find ((n, info) ∷ m) name = if n == name then some info else find m name

-- getPluginInfo(name)
unfoldable pub get_plugin_info : PluginsFactory → ℕ → Option PluginInfo
unfolding find
get_plugin_info f name = find f.plugins_map name

-- registerPlugin(pluginInfo)
unfoldable pub register_plugin : PluginsFactory → PluginInfo → Result PluginsFactory
unfolding find
register_plugin f info = do
  check (elim (find f.plugins_map info.name) [ none ↦ true | some _ ↦ false ])
  ok (record {
    plugins_list = f.plugins_list ++ (info ∷ []);
    plugins_map = (info.name, info) ∷ f.plugins_map;
  })

-- The loop of PluginsFactory() over the compiled plugins.
unfoldable pub register_all : PluginsFactory → List PluginInfo → Result PluginsFactory
register_all f [] = ok f
register_all f (info ∷ infos) = do f' ← register_plugin f info; register_all f' infos

-- createPlugin(s2e, name)
unfoldable pub create_plugin : PluginsFactory → ℕ → ℕ
unfolding get_plugin_info
create_plugin f name = elim (get_plugin_info f name) [
  | none ↦ 0
  | some info ↦ info.instance_creator info.opaque
]

-- The states of the plugins in each execution state.
abbrev pub States : Type 0
States = ℕ → ℕ → Option ℕ

abbrev pub store : States → ℕ → ℕ → ℕ → States
store m s plugin state s' plugin' =
    if s == s' then if plugin == plugin' then some state else m s' plugin' else m s' plugin'

-- S2EExecutionState::getPluginState(plugin, factory); `made` is what the factory returns.
pub state_of : States → ℕ → ℕ → ℕ → Result (States × ℕ)
state_of m s plugin made = elim (m s plugin) [
  | some state ↦ ok (m, state)
  | none ↦ do check (not (made == 0)); ok (store m s plugin made, made)
]

-- A plugin with its cache.
pub record Plugin : Type 0 where
  pub this : ℕ
  pub cached_state : ℕ
  pub cached_exec_state : ℕ

-- Plugin::getPluginState(s, f)
pub get_plugin_state : States → Plugin → ℕ → ℕ → Result (States × Plugin × ℕ)
unfolding state_of
get_plugin_state m p s made =
    let fresh = (do
      (m', state) ← state_of m s p.this made
      ok (m', record p { cached_state = state; cached_exec_state = s }, state)) in
    if p.cached_exec_state == s then ok (m, p, p.cached_state) else fresh

-- refresh()
pub refresh : Plugin → Plugin
refresh p = record p { cached_exec_state = 0; cached_state = 0 }
