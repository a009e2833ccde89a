-- ===== src/Instance/Plugins/Tests.antt =====
-- A start with two plugins, the second of which depends on the first and provides a function.
use s2e.Common.{◌≡◌, refl, [], ◌∷◌, ok}
use s2e.Plugin.{
  PluginInfo, PluginsFactory, find, get_plugin_info, create_plugin, register_plugin, register_all,
}
use s2e.Plugin.Registry.{no_plugins, no_plugins-IsNamed, register_all-IsNamed}
use s2e.Instance.Plugins.{
  going, exits, missing_dependency, already_loaded, function_taken, Loaded, Active, get_plugin,
  insert, activate, load_plugin, load_plugins, check_names, check_plugins, init_plugins,
}
use s2e.Instance.Plugins.Loading.{AllProvided}
use s2e.Instance.Plugins.Order.{IsActive, init_plugins-IsActive}

abbrev core : PluginInfo
core = record {
  name = 1;
  function_name = 0;
  dependencies = [];
  instance_creator = λ x. x;
  opaque = 7;
}

abbrev tracer : PluginInfo
tracer = record {
  name = 2;
  function_name = 9;
  dependencies = 1 ∷ [];
  instance_creator = λ x. x;
  opaque = 8;
}

abbrev logger : PluginInfo
logger = record {
  name = 3;
  function_name = 9;
  dependencies = 4 ∷ [];
  instance_creator = λ x. x;
  opaque = 6;
}

abbrev factory : PluginsFactory
factory = record {
  plugins_list = core ∷ tracer ∷ logger ∷ [];
  plugins_map = (3, logger) ∷ (2, tracer) ∷ (1, core) ∷ [];
}

factory_run : register_all no_plugins (core ∷ tracer ∷ logger ∷ []) ≡ ok factory
unfolding register_all register_plugin find
factory_run = refl

abbrev loaded_core : Loaded
loaded_core = record { info = core; plugin = 7 }

abbrev loaded_tracer : Loaded
loaded_tracer = record { info = tracer; plugin = 8 }

abbrev started : Active
started = record {
  plugins = loaded_core ∷ loaded_tracer ∷ [];
  by_name = (9, loaded_tracer) ∷ (2, loaded_tracer) ∷ (1, loaded_core) ∷ [];
}

started_run : init_plugins factory 1 (2 ∷ []) ≡ going started
unfolding init_plugins load_plugins load_plugin check_plugins check_names activate insert get_plugin
    create_plugin get_plugin_info find
started_run = refl

twice_run : init_plugins factory 1 (2 ∷ 2 ∷ []) ≡ exits already_loaded
unfolding init_plugins load_plugins load_plugin check_plugins check_names activate insert get_plugin
    create_plugin get_plugin_info find
twice_run = refl

function_run : init_plugins factory 1 (2 ∷ 3 ∷ []) ≡ exits function_taken
unfolding init_plugins load_plugins load_plugin check_plugins check_names activate insert get_plugin
    create_plugin get_plugin_info find
function_run = refl

dependency_run : init_plugins factory 1 (3 ∷ []) ≡ exits missing_dependency
unfolding init_plugins load_plugins load_plugin check_plugins check_names activate insert get_plugin
    create_plugin get_plugin_info find
dependency_run = refl

init_plugins-IsActive_example :
    IsActive started (1 ∷ 2 ∷ []) × AllProvided started.by_name started.plugins
init_plugins-IsActive_example =
    init_plugins-IsActive factory
      (register_all-IsNamed no_plugins (core ∷ tracer ∷ logger ∷ []) factory no_plugins-IsNamed
        factory_run)
      1 (2 ∷ []) started started_run
