-- ===== src/Instance/Plugins/Loading.antt =====
-- What initPlugins() has made sure of where it goes on.
use s2e.Common.{
  ℕ, ◌≡◌, refl, sym, ap, ◌∙◌, subst, false, List, [], ◌∷◌, ◌++◌, none, some, ◌==◌, ==_iff, ==_refl,
  ne_of_==, if◌then◌else◌, Bool-cases, Option-cases, inl, inr, ◌⊎◌,
}
use s2e.Instance.Plugins.{
  Startup, going, exits, stops, ◌>>=◌, Loaded, ActiveMap, Active, get_plugin, insert, activate,
  taken, check_names, check_plugins,
}

-- A run that goes on has gone on in its first part.
pub >>=-eq-going :
    {A B : Type 0} (run : Startup A) (f : A → Startup B) {b : B}
    → (run >>= f) ≡ going b
    → (a : A) × (run ≡ going a) × (f a ≡ going b)
>>=-eq-going (going a) f h = (a, refl, h)
>>=-eq-going (exits r) f h = cc
>>=-eq-going (stops s) f h = cc

going-eq : {A : Type 0} (a b : A) → going a ≡ going b → a ≡ b
going-eq a b h = cc

abbrev pub names_of : List Loaded → List ℕ
names_of [] = []
names_of (p ∷ ps) = p.info.name ∷ names_of ps

-- Each plugin of a list is found under its name, and under its function if it has one.
abbrev pub Found : ActiveMap → List Loaded → Type 0
Found m [] = Unit {0}
Found m (p ∷ ps) =
    ((get_plugin m p.info.name ≡ some p)
      × ((p.info.function_name ≡ 0) ⊎ (get_plugin m p.info.function_name ≡ some p)))
    × Found m ps

-- Each dependency is there.
abbrev pub Provided : ActiveMap → List ℕ → Type 0
Provided m [] = Unit {0}
Provided m (name ∷ names) = ((q : Loaded) × (get_plugin m name ≡ some q)) × Provided m names

abbrev pub AllProvided : ActiveMap → List Loaded → Type 0
AllProvided m [] = Unit {0}
AllProvided m (p ∷ ps) = Provided m p.info.dependencies × AllProvided m ps

check_names-Provided :
    (m : ActiveMap) (names : List ℕ) → check_names m names ≡ going tt → Provided m names
unfolding check_names
check_names-Provided m [] e = tt
check_names-Provided m (name ∷ names) e = elim (Option-cases (get_plugin m name)) [
  | inl n ↦ cc (rw (check_names, n) at e)
  | inr (q, f) ↦ ((q, f), check_names-Provided m names (rw (check_names, f) at e))
]

pub check_plugins-AllProvided :
    (m : ActiveMap) (ps : List Loaded) → check_plugins m ps ≡ going tt → AllProvided m ps
unfolding check_plugins
check_plugins-AllProvided m [] e = tt
check_plugins-AllProvided m (p ∷ ps) e =
    let (u, here, rest) =
      >>=-eq-going (check_names m p.info.dependencies) (λ u. check_plugins m ps) e in
    (check_names-Provided m p.info.dependencies here, check_plugins-AllProvided m ps rest)

-- A lookup after insert() under a name that is not there.
get_plugin-insert :
    (name n : ℕ) (p : Loaded) (m : ActiveMap)
    → get_plugin m name ≡ none
    → get_plugin (insert name p m) n ≡ (if name == n then some p else get_plugin m n)
unfolding insert get_plugin
get_plugin-insert name n p m e = rw (e, insert) refl

-- The entries of a map stay.
abbrev pub Keeps : ActiveMap → ActiveMap → Type 0
Keeps m m' = (n : ℕ) (q : Loaded) → get_plugin m n ≡ some q → get_plugin m' n ≡ some q

insert-Keeps : (name : ℕ) (p : Loaded) (m : ActiveMap) → Keeps m (insert name p m)
unfolding insert get_plugin
insert-Keeps name p m n q g = elim (Option-cases (get_plugin m name)) [
  | inl e ↦ elim (Bool-cases (name == n)) [
    | inl t ↦ cc (ap (get_plugin m) ((==_iff name n).0 t), e, g)
    | inr f ↦ rw (e, insert, f) g
  ]
  | inr (r, e) ↦ rw (e, insert) g
]

Found-mono : (m m' : ActiveMap) (ps : List Loaded) → Keeps m m' → Found m ps → Found m' ps
Found-mono m m' [] k f = tt
Found-mono m m' (p ∷ ps) k f = (
  (k p.info.name p f.0.0, elim f.0.1 [ inl e ↦ inl e | inr e ↦ inr (k p.info.function_name p e) ]),
  Found-mono m m' ps k f.1,
)

Found-append :
    (m : ActiveMap) (ps : List Loaded) (p : Loaded)
    → Found m ps
    → Found m (p ∷ [])
    → Found m (ps ++ (p ∷ []))
Found-append m [] p f g = g
Found-append m (q ∷ ps) p f g = (f.0, Found-append m ps p f.1 g)

not_taken :
    (m : ActiveMap) (function : ℕ)
    → taken m function ≡ false
    → (function ≡ 0) ⊎ (get_plugin m function ≡ none)
not_taken m function e = elim (Bool-cases (function == 0)) [
  | inl t ↦ inl ((==_iff function 0).0 t)
  | inr n ↦ elim (Option-cases (get_plugin m function)) [
    | inl f ↦ inr f
    | inr (q, f) ↦ cc (rw (taken, n, f) at e)
  ]
]

-- activate() of a plugin whose name and function are not there.
module _ (a : Active) (p : Loaded) (new : get_plugin a.by_name p.info.name ≡ none)
    (free : taken a.by_name p.info.function_name ≡ false) where
  named : ActiveMap
  named = insert p.info.name p a.by_name

  named_lem :
      (n : ℕ) → get_plugin named n ≡ (if p.info.name == n then some p else get_plugin a.by_name n)
  unfolding named
  named_lem n = get_plugin-insert p.info.name n p a.by_name new

  self : get_plugin named p.info.name ≡ some p
  self = named_lem p.info.name ∙ rw (==_refl p.info.name) refl

  both : ActiveMap
  both = if p.info.function_name == 0 then named else insert p.info.function_name p named

  activate_lem : (activate a p).by_name ≡ both
  unfolding activate both named
  activate_lem = refl

  both-Keeps : Keeps named both
  unfolding both
  both-Keeps n q g = elim (Bool-cases (p.info.function_name == 0)) [
    | inl t ↦ rw t g
    | inr f ↦ rw f (insert-Keeps p.info.function_name p named n q g)
  ]

  function_found : (p.info.function_name ≡ 0) ⊎ (get_plugin both p.info.function_name ≡ some p)
  unfolding both
  function_found = elim (Bool-cases (p.info.function_name == 0)) [
    | inl t ↦ inl ((==_iff p.info.function_name 0).0 t)
    | inr f ↦ inr (elim (not_taken a.by_name p.info.function_name free) [
      | inl z ↦ absurd (ne_of_== p.info.function_name 0 f z)
      | inr missing ↦ elim (Bool-cases (p.info.name == p.info.function_name)) [
        | inl t ↦ rw f (
            insert-Keeps p.info.function_name p named p.info.function_name p
              (named_lem p.info.function_name ∙ rw t refl))
        | inr n ↦ rw f (
            get_plugin-insert p.info.function_name p.info.function_name p named
              (named_lem p.info.function_name ∙ rw n missing)
            ∙ rw (==_refl p.info.function_name) refl)
      ]
    ])
  ]

  Keeps-named : Keeps a.by_name named
  unfolding named
  Keeps-named = insert-Keeps p.info.name p a.by_name

  pub activate-Found :
      Found a.by_name a.plugins → Found (activate a p).by_name (a.plugins ++ (p ∷ []))
  activate-Found f =
      subst (λ m. Found m (a.plugins ++ (p ∷ []))) (sym activate_lem)
        (Found-append both a.plugins p
          (Found-mono a.by_name both a.plugins (λ n q g. both-Keeps n q (Keeps-named n q g)) f)
          ((both-Keeps p.info.name p self, function_found), tt))
