-- ===== src/ConfigFile/Lists.antt =====
-- getStringList(), getIntegerList() and getListSize() of a table.
use s2e.Common.{
  append-nil, append_assoc, ℕ, zero, suc, ◌+◌, ◌<◌, ◌≡◌, ◌≢◌, refl, sym, ap, ◌∙◌, Bool, true, false,
  List, [], ◌∷◌, ◌++◌, length, arith, ok,
}
use s2e.ConfigFile.{
  Lua, read_list, count_list, get_lua_string_list, get_lua_integer_list, get_lua_list_size,
  get_string_list, get_integer_list, get_list_size,
}
use s2e.ConfigFile.Scalars.{get_value_lem}

module _ {V : Type 0} (k : Lua V) where
  -- The entries of a table from an index on are these strings or integers, and then none.
  abbrev pub Entries : (V → ℕ) → V → ℕ → List ℕ → Type 0
  Entries to t i [] = k.is_nil (k.raw_get t i) ≡ true
  Entries to t i (x ∷ xs) =
      (k.is_nil (k.raw_get t i) ≡ false)
      × (k.is_string (k.raw_get t i) ≡ true)
      × (to (k.raw_get t i) ≡ x)
      × Entries to t (i + 1) xs

  -- n entries are strings or numbers, and the next one is there but is neither.
  abbrev pub Refused : V → ℕ → ℕ → Type 0
  Refused t i zero = (k.is_nil (k.raw_get t i) ≡ false) × (k.is_string (k.raw_get t i) ≡ false)
  Refused t i (suc n) =
      (k.is_nil (k.raw_get t i) ≡ false)
      × (k.is_string (k.raw_get t i) ≡ true)
      × Refused t (i + 1) n

  read_list-Entries :
      (to : V → ℕ) (fuel : ℕ) (t : V) (s : List V) (i : ℕ) (res def xs : List ℕ)
      → Entries to t i xs
      → length xs < fuel
      → read_list k to fuel (t ∷ s) i res def ≡ ok (t ∷ s, res ++ xs, true)
  unfolding read_list
  read_list-Entries to zero t s i res def xs e lt = absurd (omega (arith, lt))
  read_list-Entries to (suc fuel) t s i res def [] e lt =
      rw (read_list, e) (ap (λ r. ok (t ∷ s, r, true)) (sym (append-nil res)))
  read_list-Entries to (suc fuel) t s i res def (x ∷ xs) e lt =
      let here = to (k.raw_get t i) in
      rw (read_list, e.0, e.1)
        (read_list-Entries to fuel t s (i + 1) (res ++ (here ∷ [])) def xs e.3 (omega (arith, lt))
          ∙ ap (λ r. ok (t ∷ s, r, true))
              (append_assoc res (here ∷ []) xs ∙ ap (λ x. res ++ (x ∷ xs)) e.2))

  read_list-Refused :
      (to : V → ℕ) (fuel : ℕ) (t : V) (s : List V) (i : ℕ) (res def : List ℕ) (n : ℕ)
      → Refused t i n
      → n < fuel
      → read_list k to fuel (t ∷ s) i res def ≡ ok (t ∷ s, def, false)
  unfolding read_list
  read_list-Refused to zero t s i res def n e lt = absurd (omega (arith, lt))
  read_list-Refused to (suc fuel) t s i res def zero e lt = rw (read_list, e.0, e.1) refl
  read_list-Refused to (suc fuel) t s i res def (suc n) e lt =
      rw (read_list, e.0, e.1)
        (read_list-Refused to fuel t s (i + 1) (res ++ (to (k.raw_get t i) ∷ [])) def n e.2
          (omega (arith, lt)))

  count_list-Entries :
      (to : V → ℕ) (fuel : ℕ) (t : V) (s : List V) (i size : ℕ) (xs : List ℕ)
      → Entries to t i xs
      → length xs < fuel
      → count_list k fuel (t ∷ s) i size ≡ ok (t ∷ s, size + length xs, true)
  unfolding count_list
  count_list-Entries to zero t s i size xs e lt = absurd (omega (arith, lt))
  count_list-Entries to (suc fuel) t s i size [] e lt =
      rw (count_list, e) (ap (λ n. ok (t ∷ s, n, true)) (omega arith))
  count_list-Entries to (suc fuel) t s i size (x ∷ xs) e lt =
      rw (count_list, e.0)
        (count_list-Entries to fuel t s (i + 1) (size + 1) xs e.3 (omega (arith, lt))
          ∙ ap (λ n. ok (t ∷ s, n, true)) (omega arith))

  module _ (s : List V) (name : ℕ) (def : List ℕ) (ne : name ≢ 0) (done : (k.run name).1 ≡ true)
      (table : k.is_table (k.run name).0 ≡ true) where
    abbrev t : V
    t = (k.run name).0

    strings :
        (fuel : ℕ) (res : List ℕ) (is : Bool)
        → read_list k k.to_string fuel (t ∷ s) 1 [] def ≡ ok (t ∷ s, res, is)
        → get_string_list k fuel s name def ≡ ok (s, res, is)
    unfolding get_string_list get_lua_string_list
    strings fuel res is h =
        get_value_lem k (get_lua_string_list k fuel) s name def (t ∷ s) res is ne done (rw table h)

    integers :
        (fuel : ℕ) (res : List ℕ) (is : Bool)
        → read_list k k.to_integer fuel (t ∷ s) 1 [] def ≡ ok (t ∷ s, res, is)
        → get_integer_list k fuel s name def ≡ ok (s, res, is)
    unfolding get_integer_list get_lua_integer_list
    integers fuel res is h =
        get_value_lem k (get_lua_integer_list k fuel) s name def (t ∷ s) res is ne done (rw table h)

    size :
        (fuel n : ℕ)
        → count_list k fuel (t ∷ s) 1 0 ≡ ok (t ∷ s, n, true)
        → get_list_size k fuel s name ≡ ok (s, n, true)
    unfolding get_list_size get_lua_list_size
    size fuel n h =
        get_value_lem k (get_lua_list_size k fuel) s name 0 (t ∷ s) n true ne done (rw table h)

    -- Where the entries of a table up to the first missing one are strings or numbers, getStringList(),
    -- with fuel for them, returns them as strings in their order, getListSize() returns how many they
    -- are, and both leave Lua's stack as it was.
    pub get_string_list-Entries :
        (fuel : ℕ) (xs : List ℕ)
        → Entries k.to_string t 1 xs
        → length xs < fuel
        → (get_string_list k fuel s name def ≡ ok (s, xs, true))
          × (get_list_size k fuel s name ≡ ok (s, length xs, true))
    get_string_list-Entries fuel xs e lt = (
      strings fuel xs true (read_list-Entries k.to_string fuel t s 1 [] def xs e lt),
      size fuel (length xs) (
          count_list-Entries k.to_string fuel t s 1 0 xs e lt
          ∙ ap (λ n. ok (t ∷ s, n, true)) (omega arith)),
    )

    -- Where an entry of a table, before the first missing one, is neither a string nor a number,
    -- getStringList() and getIntegerList(), with fuel for the entries before it, return the default and
    -- report that, and leave Lua's stack as it was.
    pub get_string_list-Refused :
        (fuel n : ℕ)
        → Refused t 1 n
        → n < fuel
        → (get_string_list k fuel s name def ≡ ok (s, def, false))
          × (get_integer_list k fuel s name def ≡ ok (s, def, false))
    get_string_list-Refused fuel n e lt = (
      strings fuel def false (read_list-Refused k.to_string fuel t s 1 [] def n e lt),
      integers fuel def false (read_list-Refused k.to_integer fuel t s 1 [] def n e lt),
    )

    -- getIntegerList() takes a list of strings or numbers, and returns Lua's conversion to an integer of
    -- each, which is 0 for a string that is not a number.
    get_integer_list-Entries :
        (fuel : ℕ) (xs : List ℕ)
        → Entries k.to_integer t 1 xs
        → length xs < fuel
        → get_integer_list k fuel s name def ≡ ok (s, xs, true)
    get_integer_list-Entries fuel xs e lt =
        integers fuel xs true (read_list-Entries k.to_integer fuel t s 1 [] def xs e lt)
