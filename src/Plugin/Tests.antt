-- ===== src/Plugin/Tests.antt =====
-- Runs of the registry and of the cache.
use s2e.Common.{ℕ, ◌≡◌, refl, arith, [], ◌∷◌, none, ok, fault, assertion}
use s2e.Plugin.{PluginInfo, find, register_plugin, register_all, States, Plugin, get_plugin_state}
use s2e.Plugin.Registry.{no_plugins}
use s2e.Plugin.State.{IsCoherent, Sets, get_plugin_state-IsCoherent}

abbrev first : PluginInfo
first = record {
  name = 1;
  function_name = 0;
  dependencies = [];
  instance_creator = λ x. x;
  opaque = 7;
}

abbrev second : PluginInfo
second = record {
  name = 2;
  function_name = 0;
  dependencies = [];
  instance_creator = λ x. x;
  opaque = 8;
}

twice_run : register_all no_plugins (first ∷ first ∷ []) ≡ fault assertion
unfolding register_all register_plugin find
twice_run = refl

abbrev states : States
states s plugin = none

abbrev plugin : Plugin
plugin = record { this = 5; cached_state = 0; cached_exec_state = 0 }

get_plugin_state-IsCoherent_example :
    (m' : States) × (p' : Plugin) × (get_plugin_state states plugin 9 33 ≡ ok (m', p', 33))
    × Sets states m' 9 5 33
    × IsCoherent m' p'
    × ((other : ℕ) → get_plugin_state m' p' 9 other ≡ ok (m', p', 33))
get_plugin_state-IsCoherent_example =
    get_plugin_state-IsCoherent states plugin 9 33 (λ ne. absurd (ne refl)) (omega arith)
      (omega arith)
