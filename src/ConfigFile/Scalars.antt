-- ===== src/ConfigFile/Scalars.antt =====
-- getBool(), getInt() and getString().
use s2e.Common.{
  ◌⊎◌, ℕ, ◌≡◌, ◌≢◌, refl, ◌∙◌, Bool, true, false, ◌&&◌, List, ◌∷◌, drop, ==_ne, if◌then◌else◌,
  Bool-cases, inl, inr, ok,
}
use s2e.ConfigFile.{
  Lua, top, Got, get_value, get_lua_bool, get_lua_int, get_lua_string, get_bool, get_int,
  get_string,
}

module _ {V : Type 0} (k : Lua V) where
  -- getValueT() of a name that is not empty, where it cannot be evaluated, and where it can.
  pub get_value_failed :
      {A : Type 0} (get_lua : List V → A → Got k A) (s : List V) (name : ℕ) (def : A)
      → name ≢ 0
      → (k.run name).1 ≡ false
      → get_value k get_lua s name def ≡ ok (s, def, false)
  unfolding get_value
  get_value_failed get_lua s name def ne e = rw (==_ne name 0 ne, e) refl

  pub get_value_lem :
      {A : Type 0} (get_lua : List V → A → Got k A) (s : List V) (name : ℕ) (def : A) (s' : List V)
      (res : A) (is : Bool)
      → name ≢ 0
      → (k.run name).1 ≡ true
      → get_lua ((k.run name).0 ∷ s) def ≡ ok (s', res, is)
      → get_value k get_lua s name def ≡ ok (drop 1 s', res, is)
  unfolding get_value
  get_value_lem get_lua s name def s' res is ne e g = rw (==_ne name 0 ne, e, g) refl

  -- A value with its test and conversion, or the default.
  abbrev pub Scalar : {A : Type 0} → List V → (V → Bool) → (V → A) → ℕ → A → Got k A → Type 0
  Scalar s is to name def got =
      ((k.run name).1 && is (k.run name).0 ≡ true) × (got ≡ ok (s, to (k.run name).0, true))
      ⊎ ((k.run name).1 && is (k.run name).0 ≡ false) × (got ≡ ok (s, def, false))

  scalar :
      {A : Type 0} (get_lua : List V → A → Got k A) (is : V → Bool) (to : V → A) (s : List V)
      (name : ℕ) (def : A)
      → name ≢ 0
      → ((s' : List V)
          → get_lua s' def ≡ ok (s', (if is (top k s') then to (top k s') else def), is (top k s')))
      → Scalar s is to name def (get_value k get_lua s name def)
  scalar get_lua is to s name def ne h = elim (Bool-cases (k.run name).1) [
    | inr f ↦ inr (rw f refl, get_value_failed get_lua s name def ne f)
    | inl t ↦
        let v = (k.run name).0 in
        let got =
          get_value_lem get_lua s name def (v ∷ s) (if is v then to v else def) (is v) ne t
            (h (v ∷ s)) in
        elim (Bool-cases (is v)) [
          | inl y ↦ inl (rw (t, y) refl, got ∙ rw y refl)
          | inr n ↦ inr (rw (t, n) refl, got ∙ rw n refl)
        ]
  ]

  -- getBool(), getInt() and getString() of a name that is not empty return the value converted, and say
  -- so, where Lua can evaluate the name and the value is of their type; else they return the default
  -- and say that. On every path Lua's stack is left as it was.
  pub get_bool-Scalar :
      (s : List V) (name def : ℕ) (flag : Bool)
      → name ≢ 0
      → Scalar s k.is_boolean k.to_boolean name flag (get_bool k s name flag)
        × Scalar s k.is_number k.to_integer name def (get_int k s name def)
        × Scalar s k.is_string k.to_string name def (get_string k s name def)
  unfolding get_bool get_int get_string get_lua_bool get_lua_int get_lua_string
  get_bool-Scalar s name def flag ne = (
    scalar (get_lua_bool k) k.is_boolean k.to_boolean s name flag ne (λ s'. refl),
    scalar (get_lua_int k) k.is_number k.to_integer s name def ne (λ s'. refl),
    scalar (get_lua_string k) k.is_string k.to_string s name def ne (λ s'. refl),
  )
