-- ===== src/ConfigFile/Keys.antt =====
-- getListKeys() of a table.
use s2e.Common.{
  append-nil, append_assoc, ℕ, zero, suc, ◌<◌, ◌≡◌, ◌≢◌, refl, sym, ap, ◌∙◌, true, false, List, [],
  ◌∷◌, ◌++◌, Option, none, some, length, arith, ok,
}
use s2e.ConfigFile.{Lua, Got, read_keys, get_lua_keys, get_list_keys}
use s2e.ConfigFile.Scalars.{get_value_lem}

module _ {V : Type 0} (k : Lua V) where
  -- A walk through a table from a key on, with the keys that lua_next() gives after the key before was
  -- changed to a string: the keys met, and at the end nothing more, or a key that is no string and its
  -- value.
  abbrev pub Walk : V → V → List V → Option (V × V) → Type 0
  Walk t key [] none = k.next t key ≡ none
  Walk t key [] (some (bad, value)) = (k.next t key ≡ some (bad, value)) × (k.is_string bad ≡ false)
  Walk t key (v ∷ vs) end =
      ((value : V) × (k.next t key ≡ some (v, value)))
      × (k.is_string v ≡ true)
      × Walk t (k.as_string v) vs end

  abbrev pub keys : List V → List ℕ
  keys [] = []
  keys (v ∷ vs) = k.to_string v ∷ keys vs

  -- What read_keys() leaves and returns at an end.
  abbrev outcome : V → List V → List ℕ → List ℕ → Option (V × V) → Got k (List ℕ)
  outcome t s all def none = ok (t ∷ s, all, true)
  outcome t s all def (some (bad, value)) = ok (value ∷ bad ∷ t ∷ s, def, false)

  read_keys-Walk :
      (fuel : ℕ) (t key : V) (s : List V) (res def : List ℕ) (vs : List V) (end : Option (V × V))
      → Walk t key vs end
      → length vs < fuel
      → read_keys k fuel (key ∷ t ∷ s) res def ≡ outcome t s (res ++ keys vs) def end
  unfolding read_keys
  read_keys-Walk zero t key s res def vs end w lt = absurd (omega (arith, lt))
  read_keys-Walk (suc fuel) t key s res def [] none w lt =
      rw (read_keys, w) (ap (λ r. ok (t ∷ s, r, true)) (sym (append-nil res)))
  read_keys-Walk (suc fuel) t key s res def [] (some (bad, value)) w lt =
      rw (read_keys, w.0, w.1) refl
  read_keys-Walk (suc fuel) t key s res def (v ∷ vs) end w lt =
      rw (read_keys, w.0.1, w.1)
        (read_keys-Walk fuel t (k.as_string v) s (res ++ (k.to_string v ∷ [])) def vs end w.2
            (omega (arith, lt))
          ∙ ap (λ r. outcome t s r def end) (append_assoc res (k.to_string v ∷ []) (keys vs)))

  module _ (s : List V) (name fuel : ℕ) (vs : List V) (ne : name ≢ 0) (done : (k.run name).1 ≡ true)
      (table : k.is_table (k.run name).0 ≡ true) (enough : length vs < fuel) where
    abbrev t : V
    t = (k.run name).0

    -- Where lua_next() meets only keys of a table that are strings or numbers, getListKeys(), with fuel
    -- for them, returns them all in the order of the walk, and leaves Lua's stack as it was.
    pub get_list_keys-Walk :
        Walk t k.nil vs none → get_list_keys k fuel s name ≡ ok (s, keys vs, true)
    unfolding get_list_keys get_lua_keys
    get_list_keys-Walk w =
        get_value_lem k (get_lua_keys k fuel) s name [] (t ∷ s) (keys vs) true ne done
          (rw table (read_keys-Walk fuel t k.nil s [] [] vs none w enough))

    -- Where lua_next() meets a key that is neither a string nor a number, getListKeys(), with fuel for
    -- the keys before it, returns no key and reports that, but leaves that key and the table on Lua's
    -- stack.
    pub get_list_keys_leaks :
        (bad value : V)
        → Walk t k.nil vs (some (bad, value))
        → get_list_keys k fuel s name ≡ ok (bad ∷ t ∷ s, [], false)
    unfolding get_list_keys get_lua_keys
    get_list_keys_leaks bad value w =
        get_value_lem k (get_lua_keys k fuel) s name [] (value ∷ bad ∷ t ∷ s) [] false ne done
          (rw table (read_keys-Walk fuel t k.nil s [] [] vs (some (bad, value)) w enough))
