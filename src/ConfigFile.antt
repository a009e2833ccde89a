-- ===== src/ConfigFile.antt =====
-- ConfigFile of include/s2e/ConfigFile.h and src/s2e/ConfigFile.cpp: typed access to the values of the
-- configuration, through Lua's stack, which is a list here, the top first. A name is a number, 0 for the
-- empty one, as are integers and strings. The loops over a table are on fuel, which counts their rounds.
pub mod Scalars
pub mod Lists
pub mod Keys
mod Tests
use s2e.Common.{
  ℕ, zero, suc, ◌+◌, ◌≡◌, Bool, true, false, not, List, [], ◌∷◌, ◌++◌, Option, none, some, drop,
  ◌==◌, if◌then◌else◌, Result, ok, fault, assertion, out_of_bounds, ◌>>=◌, ◌>>◌, check,
}

-- Lua, with its values in `V`: what loading and calling `return name` pushes, and whether that is a value
-- and no error message; the tests and conversions of a value, of which lua_tostring() also changes the
-- value in place; lua_rawgeti(), and lua_next() for a key.
pub record Lua (V : Type 0) : Type 0 where
  pub run : ℕ → V × Bool
  pub global : ℕ → V
  pub nil : V
  pub is_nil : V → Bool
  pub is_boolean : V → Bool
  pub is_number : V → Bool
  pub is_string : V → Bool
  pub is_table : V → Bool
  pub to_boolean : V → Bool
  pub to_integer : V → ℕ
  pub to_string : V → ℕ
  pub as_string : V → V
  pub raw_get : V → ℕ → V
  pub next : V → V → Option (V × V)

module _ {V : Type 0} (k : Lua V) where
  -- The values at the indices -1 and -2.
  abbrev pub top : List V → V
  top [] = k.nil
  top (v ∷ s) = v

  abbrev pub below : List V → V
  below s = top (drop 1 s)

  -- getLuaValue(res, def, -1) for each type: the stack, *res, and the result
  abbrev pub Got : Type 0 → Type 0
  Got A = Result (List V × A × Bool)

  pub get_lua_bool : List V → Bool → Got Bool
  get_lua_bool s def =
      let is = k.is_boolean (top s) in ok (s, (if is then k.to_boolean (top s) else def), is)

  pub get_lua_int : List V → ℕ → Got ℕ
  get_lua_int s def =
      let is = k.is_number (top s) in ok (s, (if is then k.to_integer (top s) else def), is)

  pub get_lua_string : List V → ℕ → Got ℕ
  get_lua_string s def =
      let is = k.is_string (top s) in ok (s, (if is then k.to_string (top s) else def), is)

  -- The loop for string_list and for integer_list, which differ in the conversion.
  pub read_list : (V → ℕ) → ℕ → List V → ℕ → List ℕ → List ℕ → Got (List ℕ)
  read_list to zero s i res def = fault out_of_bounds
  read_list to (suc fuel) s i res def =
      let pushed = k.raw_get (top s) i ∷ s in
      elim (k.is_nil (top pushed)) [
        | true ↦ ok (drop 1 pushed, res, true)
        | false ↦ elim (k.is_string (top pushed)) [
          | true ↦ read_list to fuel (drop 1 pushed) (i + 1) (res ++ (to (top pushed) ∷ [])) def
          | false ↦ ok (drop 1 pushed, def, false)
        ]
      ]

  pub get_lua_string_list : ℕ → List V → List ℕ → Got (List ℕ)
  unfolding read_list
  get_lua_string_list fuel s def =
      if not (k.is_table (top s)) then ok (s, def, false) else read_list k.to_string fuel s 1 [] def

  pub get_lua_integer_list : ℕ → List V → List ℕ → Got (List ℕ)
  unfolding read_list
  get_lua_integer_list fuel s def =
      if not (k.is_table (top s))
      then ok (s, def, false)
      else read_list k.to_integer fuel s 1 [] def

  -- The loop for _list_size
  pub count_list : ℕ → List V → ℕ → ℕ → Got ℕ
  count_list zero s i size = fault out_of_bounds
  count_list (suc fuel) s i size =
      let pushed = k.raw_get (top s) i ∷ s in
      elim (k.is_nil (top pushed)) [
        | true ↦ ok (drop 1 pushed, size, true)
        | false ↦ count_list fuel (drop 1 pushed) (i + 1) (size + 1)
      ]

  pub get_lua_list_size : ℕ → List V → ℕ → Got ℕ
  unfolding count_list
  get_lua_list_size fuel s def =
      if not (k.is_table (top s)) then ok (s, def, false) else count_list fuel s 1 0

  -- The loop for _key_list: lua_next() pops the key, and pushes the next key with its value.
  pub read_keys : ℕ → List V → List ℕ → List ℕ → Got (List ℕ)
  read_keys zero s res def = fault out_of_bounds
  read_keys (suc fuel) s res def = elim (k.next (below s) (top s)) [
    | none ↦ ok (drop 1 s, res, true)
    | some (key, value) ↦ elim (k.is_string key) [
      | true ↦ read_keys fuel (k.as_string key ∷ drop 1 s) (res ++ (k.to_string key ∷ [])) def
      | false ↦ ok (value ∷ key ∷ drop 1 s, def, false)
    ]
  ]

  pub get_lua_keys : ℕ → List V → List ℕ → Got (List ℕ)
  unfolding read_keys
  get_lua_keys fuel s def =
      if not (k.is_table (top s)) then ok (s, def, false) else read_keys fuel (k.nil ∷ s) [] def

  -- getValueT(name, def, ok)
  pub get_value : {A : Type 0} → (List V → A → Got A) → List V → ℕ → A → Got A
  get_value get_lua s name def = do
    check (not (name == 0))
    let pushed = (k.run name).0 ∷ s
    elim (k.run name).1 [
      | false ↦ ok (drop 1 pushed, def, false)
      | true ↦ do (s', res, is) ← get_lua pushed def; ok (drop 1 s', res, is)
    ]

  -- getBool(), getInt(), getString(), getStringList(), getIntegerList(), getListSize() and getListKeys()
  pub get_bool : List V → ℕ → Bool → Got Bool
  unfolding get_value get_lua_bool
  get_bool s name def = get_value get_lua_bool s name def

  pub get_int : List V → ℕ → ℕ → Got ℕ
  unfolding get_value get_lua_int
  get_int s name def = get_value get_lua_int s name def

  pub get_string : List V → ℕ → ℕ → Got ℕ
  unfolding get_value get_lua_string
  get_string s name def = get_value get_lua_string s name def

  pub get_string_list : ℕ → List V → ℕ → List ℕ → Got (List ℕ)
  unfolding get_value get_lua_string_list
  get_string_list fuel s name def = get_value (get_lua_string_list fuel) s name def

  pub get_integer_list : ℕ → List V → ℕ → List ℕ → Got (List ℕ)
  unfolding get_value get_lua_integer_list
  get_integer_list fuel s name def = get_value (get_lua_integer_list fuel) s name def

  pub get_list_size : ℕ → List V → ℕ → Got ℕ
  unfolding get_value get_lua_list_size
  get_list_size fuel s name = get_value (get_lua_list_size fuel) s name 0

  pub get_list_keys : ℕ → List V → ℕ → Got (List ℕ)
  unfolding get_value get_lua_keys
  get_list_keys fuel s name = get_value (get_lua_keys fuel) s name []

  -- hasKey(name): an error message stays on the stack.
  pub has_key : List V → ℕ → Result (List V × Bool)
  has_key s name = do
    check (not (name == 0))
    let pushed = (k.run name).0 ∷ s
    elim (k.run name).1 [
      | false ↦ ok (pushed, false)
      | true ↦ ok (drop 1 pushed, not (k.is_nil (top pushed)))
    ]

  -- isFunctionDefined(name)
  pub is_function_defined : List V → ℕ → List V × Bool
  is_function_defined s name =
      let pushed = k.global name ∷ s in (drop 1 pushed, not (k.is_nil (top pushed)))
