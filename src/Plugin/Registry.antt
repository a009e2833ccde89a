-- ===== src/Plugin/Registry.antt =====
-- The constructor of PluginsFactory.
use s2e.Common.{
  append-nil, append_assoc, ℕ, ◌≡◌, ◌≢◌, refl, sym, ap, ◌∙◌, List, [], ◌∷◌, ◌++◌, none, some, ok,
  ◌==◌, ==_refl, ==_ne, ==_iff, Bool-cases, Option-cases, inl, inr, some-eq, ok-eq, subst,
}
use s2e.Plugin.{PluginInfo, PluginsFactory, find, get_plugin_info, register_plugin, register_all}

-- The map has no entry for the name.
abbrev pub Fresh : ℕ → List PluginInfo → Type 0
Fresh name [] = Unit {0}
Fresh name (info ∷ infos) = (info.name ≢ name) × Fresh name infos

abbrev pub DistinctNames : List PluginInfo → Type 0
DistinctNames [] = Unit {0}
DistinctNames (info ∷ infos) = Fresh info.name infos × DistinctNames infos

-- Each plugin is found under its name.
abbrev pub AllFound : PluginsFactory → List PluginInfo → Type 0
AllFound f [] = Unit {0}
AllFound f (info ∷ infos) = (get_plugin_info f info.name ≡ some info) × AllFound f infos

abbrev added : PluginsFactory → PluginInfo → PluginsFactory
added f info = record {
  plugins_list = f.plugins_list ++ (info ∷ []);
  plugins_map = (info.name, info) ∷ f.plugins_map;
}

-- No name of the list is in the map.
abbrev AllNew : PluginsFactory → List PluginInfo → Type 0
AllNew f [] = Unit {0}
AllNew f (info ∷ infos) = (find f.plugins_map info.name ≡ none) × AllNew f infos

AllNew-added :
    (f : PluginsFactory) (info : PluginInfo) (infos : List PluginInfo)
    → Fresh info.name infos
    → AllNew f infos
    → AllNew (added f info) infos
unfolding find
AllNew-added f info [] d n = tt
AllNew-added f info (i ∷ infos) d n =
    (rw (==_ne info.name i.name (λ e. d.0 (sym e))) n.0, AllNew-added f info infos d.1 n.1)

-- What was found before is still found after more plugins are registered under other names.
abbrev Keeps : PluginsFactory → PluginsFactory → Type 0
Keeps f f' =
    (name : ℕ) (info : PluginInfo)
    → get_plugin_info f name ≡ some info
    → get_plugin_info f' name ≡ some info

Keeps-added :
    (f : PluginsFactory) (info : PluginInfo)
    → find f.plugins_map info.name ≡ none
    → Keeps f (added f info)
unfolding get_plugin_info find
Keeps-added f info new name i e = elim (Bool-cases (info.name == name)) [
  | inl same ↦ absurd (cc (ap (find f.plugins_map) (sym ((==_iff info.name name).0 same)), new, e))
  | inr other ↦ rw other e
]

register_all-from :
    (f : PluginsFactory) (infos : List PluginInfo)
    → DistinctNames infos
    → AllNew f infos
    → (f' : PluginsFactory) × (register_all f infos ≡ ok f')
      × (f'.plugins_list ≡ f.plugins_list ++ infos)
      × AllFound f' infos
      × Keeps f f'
unfolding register_all register_plugin get_plugin_info find
register_all-from f [] d n = (f, refl, sym (append-nil f.plugins_list), tt, λ name info e. e)
register_all-from f (info ∷ infos) d n =
    let (f', run, list, found, keeps) =
      register_all-from (added f info) infos d.1 (AllNew-added f info infos d.0 n.1) in
    (
      f',
      rw (n.0, run),
      list ∙ append_assoc f.plugins_list (info ∷ []) infos,
      (keeps info.name info (rw (==_refl info.name)), found),
      λ name i e. keeps name i (Keeps-added f info n.0 name i e),
    )

abbrev pub no_plugins : PluginsFactory
no_plugins = record { plugins_list = []; plugins_map = [] }

all_new : (infos : List PluginInfo) → AllNew no_plugins infos
unfolding find
all_new [] = tt
all_new (info ∷ infos) = (refl, all_new infos)

-- The constructor, over compiled plugins with different names, fails no assertion: the list holds
-- exactly the plugins in their order, and getPluginInfo() finds each under its name.
pub register_all-AllFound :
    (infos : List PluginInfo)
    → DistinctNames infos
    → (f : PluginsFactory) × (register_all no_plugins infos ≡ ok f)
      × (f.plugins_list ≡ infos)
      × AllFound f infos
register_all-AllFound infos d =
    let (f, run, list, found, _) = register_all-from no_plugins infos d (all_new infos) in
    (f, run, list, found)

-- What getPluginInfo() finds has the name that it is asked for.
abbrev pub IsNamed : PluginsFactory → Type 0
IsNamed f = (name : ℕ) (info : PluginInfo) → get_plugin_info f name ≡ some info → info.name ≡ name

added-IsNamed : (f : PluginsFactory) (info : PluginInfo) → IsNamed f → IsNamed (added f info)
unfolding get_plugin_info find
added-IsNamed f info v name i e = elim (Bool-cases (info.name == name)) [
  | inl t ↦
      ap (λ (x : PluginInfo). x.name) (sym (some-eq info i (rw t at e)))
      ∙ (==_iff info.name name).0 t
  | inr n ↦ v name i (rw n at e)
]

-- So it is in a factory that the constructor has filled.
pub register_all-IsNamed :
    (f : PluginsFactory) (infos : List PluginInfo) (f' : PluginsFactory)
    → IsNamed f
    → register_all f infos ≡ ok f'
    → IsNamed f'
unfolding register_all register_plugin
register_all-IsNamed f [] f' v e = subst IsNamed (ok-eq f f' e) v
register_all-IsNamed f (info ∷ infos) f' v e = elim (Option-cases (find f.plugins_map info.name)) [
  | inl n ↦
      register_all-IsNamed (added f info) infos f' (added-IsNamed f info v)
        (rw (register_plugin, n) at e)
  | inr (i, n) ↦ cc (rw (register_plugin, n) at e)
]

pub no_plugins-IsNamed : IsNamed no_plugins
unfolding get_plugin_info find
no_plugins-IsNamed name info e = cc
