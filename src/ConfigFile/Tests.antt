-- ===== src/ConfigFile/Tests.antt =====
-- A configuration with a boolean, a list of strings, a list with a table in it, a table with string keys and
-- one with another key.
use s2e.Common.{
  ℕ, ◌≡◌, refl, Bool, true, false, List, [], ◌∷◌, Option, none, some, arith, ok, ◌==◌,
  if◌then◌else◌, get_or,
}
use s2e.ConfigFile.{
  Lua, get_bool, get_int, get_string, get_string_list, get_integer_list, get_list_size,
  get_list_keys, has_key, is_function_defined,
}
use s2e.ConfigFile.Scalars.{Scalar, get_bool-Scalar}
use s2e.ConfigFile.Lists.{get_string_list-Entries, get_string_list-Refused}
use s2e.ConfigFile.Keys.{get_list_keys_leaks}

data Value : Type 0 where
  absent : Value
  flag : Bool → Value
  number : ℕ → Value
  text : ℕ → Value
  array : List ℕ → Value
  mixed : Value
  keyed : Bool → Value

abbrev absent? : Value → Bool
absent? absent = true
absent? _ = false

abbrev flag? : Value → Bool
flag? (flag b) = true
flag? _ = false

abbrev number? : Value → Bool
number? (number n) = true
number? _ = false

abbrev text? : Value → Bool
text? (number n) = true
text? (text n) = true
text? _ = false

abbrev table? : Value → Bool
table? (array xs) = true
table? mixed = true
table? (keyed b) = true
table? _ = false

abbrev bool_of : Value → Bool
bool_of (flag b) = b
bool_of _ = true

abbrev content : Value → ℕ
content (number n) = n
content (text n) = n
content _ = 0

abbrev entry : Value → ℕ → Value
entry (array xs) i = get_or (absent ∷ texts xs) i absent
  where
    texts : List ℕ → List Value
    texts [] = []
    texts (x ∷ xs) = text x ∷ texts xs
entry mixed i = if i == 1 then text 5 else if i == 2 then mixed else absent
entry _ i = absent

-- The keys of a table: 7, and then none or a flag.
abbrev successor : Value → Value → Option (Value × Value)
successor (keyed b) absent = some (text 7, number 1)
successor (keyed true) (text n) = some (flag true, number 2)
successor _ _ = none

abbrev stored : ℕ → Value × Bool
stored name =
    if name == 1
    then (flag true, true)
    else if name == 2
    then (array (5 ∷ 6 ∷ []), true)
    else if name == 3
    then (mixed, true)
    else if name == 4
    then (keyed false, true)
    else if name == 5
    then (keyed true, true)
    else (text 99, false)

abbrev lua : Lua Value
lua = record {
  run = stored;
  global = λ name. absent;
  nil = absent;
  is_nil = absent?;
  is_boolean = flag?;
  is_number = number?;
  is_string = text?;
  is_table = table?;
  to_boolean = bool_of;
  to_integer = content;
  to_string = content;
  as_string = λ v. v;
  raw_get = entry;
  next = successor;
}

has_key_run :
    (has_key lua [] 1 ≡ ok ([], true))
    × (has_key lua [] 8 ≡ ok (text 99 ∷ [], false))
    × (is_function_defined lua [] 8 ≡ ([], false))
unfolding has_key is_function_defined
has_key_run = (refl, refl, refl)

get_bool-Scalar_example :
    Scalar lua [] flag? bool_of 1 false (get_bool lua [] 1 false)
    × Scalar lua [] number? content 1 4 (get_int lua [] 1 4)
    × Scalar lua [] text? content 1 4 (get_string lua [] 1 4)
get_bool-Scalar_example = get_bool-Scalar lua [] 1 4 false (omega arith)

get_string_list-Entries_example :
    (get_string_list lua 3 [] 2 [] ≡ ok ([], 5 ∷ 6 ∷ [], true))
    × (get_list_size lua 3 [] 2 ≡ ok ([], 2, true))
get_string_list-Entries_example =
    get_string_list-Entries lua [] 2 [] (omega arith) refl refl 3 (5 ∷ 6 ∷ [])
      (refl, refl, refl, (refl, refl, refl, refl)) (omega arith)

get_string_list-Refused_example :
    (get_string_list lua 2 [] 3 (8 ∷ []) ≡ ok ([], 8 ∷ [], false))
    × (get_integer_list lua 2 [] 3 (8 ∷ []) ≡ ok ([], 8 ∷ [], false))
get_string_list-Refused_example =
    get_string_list-Refused lua [] 3 (8 ∷ []) (omega arith) refl refl 2 1 (refl, refl, (refl, refl))
      (omega arith)

get_list_keys_leaks_example : get_list_keys lua 2 [] 5 ≡ ok (flag true ∷ keyed true ∷ [], [], false)
get_list_keys_leaks_example =
    get_list_keys_leaks lua [] 5 2 (text 7 ∷ []) (omega arith) refl refl (omega arith) (flag true)
      (number 2) ((number 1, refl), refl, (refl, refl))
