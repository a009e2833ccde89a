-- ===== src/Instance/Plugins/Order.antt =====
-- The result of initPlugins().
use s2e.Common.{
  append-nil, append_assoc, ℕ, ◌≡◌, refl, sym, ap, ◌∙◌, subst, false, List, [], ◌∷◌, ◌++◌, none,
  some, ◌==◌, Misses, Distinct, Distinct-append, Bool-cases, Option-cases, inl, inr,
}
use s2e.Plugin.{PluginsFactory, get_plugin_info, create_plugin}
use s2e.Plugin.Registry.{IsNamed}
use s2e.Instance.Plugins.{
  going, Loaded, ActiveMap, Active, get_plugin, activate, taken, load_plugin, load_plugins,
  check_plugins, init_plugins, ◌>>=◌,
}
use s2e.Instance.Plugins.Loading.{
  >>=-eq-going, names_of, Found, AllProvided, check_plugins-AllProvided, activate-Found,
}

going-eq : {A : Type 0} (a b : A) → going a ≡ going b → a ≡ b
going-eq a b h = cc

names_of-append :
    (ps : List Loaded) (p : Loaded) → names_of (ps ++ (p ∷ [])) ≡ names_of ps ++ (p.info.name ∷ [])
names_of-append [] p = refl
names_of-append (q ∷ ps) p = ap (λ t. q.info.name ∷ t) (names_of-append ps p)

Misses-Found :
    (m : ActiveMap) (ps : List Loaded) (name : ℕ)
    → Found m ps
    → get_plugin m name ≡ none
    → Misses name (names_of ps)
Misses-Found m [] name f e = tt
Misses-Found m (p ∷ ps) name f e =
    ((λ h. cc (ap (get_plugin m) h, e, f.0.0)), Misses-Found m ps name f.1 e)

abbrev no_plugins : Active
no_plugins = record { plugins = []; by_name = [] }

none_found : (name : ℕ) → get_plugin [] name ≡ none
unfolding get_plugin
none_found name = refl

none_taken : (function : ℕ) → taken [] function ≡ false
none_taken function = elim (Bool-cases (function == 0)) [
  | inl t ↦ rw (taken, t) refl
  | inr n ↦ rw (taken, n, none_found function) refl
]

-- The plugins are those of these names, in their order, all different and each found under its name and
-- its function.
pub record IsActive (a : Active) (names : List ℕ) : Type 0 where
  pub in_order : names_of a.plugins ≡ names
  pub distinct : Distinct names
  pub found : Found a.by_name a.plugins

no_plugins-IsActive : IsActive no_plugins []
no_plugins-IsActive = record { in_order = refl; distinct = tt; found = tt }

module _ (f : PluginsFactory) (v : IsNamed f) where
  activate-IsActive :
      (a : Active) (names : List ℕ) (name : ℕ) (p : Loaded)
      → IsActive a names
      → get_plugin_info f name ≡ some p.info
      → get_plugin a.by_name p.info.name ≡ none
      → taken a.by_name p.info.function_name ≡ false
      → IsActive (activate a p) (names ++ (name ∷ []))
  unfolding activate
  activate-IsActive a names name p w e new free =
      let same : p.info.name ≡ name = v name p.info e in
      let misses = Misses-Found a.by_name a.plugins p.info.name w.found new in
      record {
        in_order =
            names_of-append a.plugins p
            ∙ ap (λ l. l ++ (p.info.name ∷ [])) w.in_order
            ∙ ap (λ n. names ++ (n ∷ [])) same;
        distinct =
            Distinct-append name names w.distinct
              (subst (λ n. Misses n names) same (subst (Misses p.info.name) w.in_order misses));
        found = activate-Found a p new free w.found;
      }

  -- A plugin that is loaded is activated.
  load_plugin-inv :
      (a : Active) (name : ℕ) (a' : Active)
      → load_plugin f a name ≡ going a'
      → (p : Loaded) × (a' ≡ activate a p)
        × (get_plugin_info f name ≡ some p.info)
        × (p.plugin ≡ create_plugin f name)
        × (get_plugin a.by_name p.info.name ≡ none)
        × (taken a.by_name p.info.function_name ≡ false)
  unfolding load_plugin
  load_plugin-inv a name a' e = elim (Option-cases (get_plugin_info f name)) [
    | inl n ↦ cc (rw (load_plugin, n) at e)
    | inr (info, i) ↦ elim (Option-cases (get_plugin a.by_name info.name)) [
      | inr (q, n) ↦ cc (rw (load_plugin, i, n) at e)
      | inl n ↦ elim (Bool-cases (taken a.by_name info.function_name)) [
        | inl t ↦ cc (rw (load_plugin, i, n, t) at e)
        | inr t ↦ elim (Bool-cases (create_plugin f name == 0)) [
          | inl z ↦ cc (rw (load_plugin, i, n, t, z) at e)
          | inr z ↦
              let p : Loaded = record { info = info; plugin = create_plugin f name } in
              (
                p,
                sym (going-eq (activate a p) a' (rw (load_plugin, i, n, t, z) at e)),
                i,
                refl,
                n,
                t,
              )
        ]
      ]
    ]
  ]

  load_plugins-IsActive :
      (a : Active) (before names : List ℕ) (a' : Active)
      → IsActive a before
      → load_plugins f a names ≡ going a'
      → IsActive a' (before ++ names)
  unfolding load_plugins
  load_plugins-IsActive a before [] a' w e =
      subst (IsActive a') (sym (append-nil before))
        (subst (λ b. IsActive b before) (going-eq a a' e) w)
  load_plugins-IsActive a before (name ∷ names) a' w e =
      let (a1, one, rest) = >>=-eq-going (load_plugin f a name) (λ a'. load_plugins f a' names) e in
      let (p, at, i, made, new, free) = load_plugin-inv a name a1 one in
      let w1 =
        subst (λ a. IsActive a (before ++ (name ∷ []))) (sym at)
          (activate-IsActive a before name p w i new free) in
      subst (IsActive a') (append_assoc before (name ∷ []) names)
        (load_plugins-IsActive a1 (before ++ (name ∷ [])) names a' w1 rest)

  -- Where initPlugins() goes on, with a factory that finds plugins under their names: the plugins to
  -- initialize are CorePlugin and then those of the configuration in its order, all different; each
  -- is found under its name and, if it has one, under its function, so that no function has two
  -- plugins; and each plugin that one of them depends on is there.
  pub init_plugins-IsActive :
      (core : ℕ) (names : List ℕ) (a : Active)
      → init_plugins f core names ≡ going a
      → IsActive a (core ∷ names) × AllProvided a.by_name a.plugins
  unfolding init_plugins
  init_plugins-IsActive core names a e = elim (Option-cases (get_plugin_info f core)) [
    | inl n ↦ cc (rw (init_plugins, n) at e)
    | inr (info, i) ↦ elim (Bool-cases (create_plugin f core == 0)) [
      | inl z ↦ cc (rw (init_plugins, i, z) at e)
      | inr z ↦
          let p : Loaded = record { info = info; plugin = create_plugin f core } in
          let loading = load_plugins f (activate no_plugins p) names in
          let (a1, loaded, rest) =
            >>=-eq-going loading (λ a. check_plugins a.by_name a.plugins >>= λ u. going a)
              (rw (init_plugins, i, z) at e) in
          let (u, checked, done) =
            >>=-eq-going (check_plugins a1.by_name a1.plugins) (λ u. going a1) rest in
          let first =
            activate-IsActive no_plugins [] core p no_plugins-IsActive i (none_found info.name)
              (none_taken info.function_name) in
          subst (λ a. IsActive a (core ∷ names) × AllProvided a.by_name a.plugins)
            (going-eq a1 a done)
            (
              load_plugins-IsActive (activate no_plugins p) (core ∷ []) names a1 first loaded,
              check_plugins-AllProvided a1.by_name a1.plugins checked,
            )
    ]
  ]
