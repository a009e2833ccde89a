-- ===== src/Slab/RegionMap.antt =====
-- The ordered containers of PageAllocator in include/s2e/Slab.h: std::map and std::set over region
-- addresses under the comparator `RegCmp`, as lists in the container's order. A std::set is a map
-- into the type with one element.
pub mod Laws
pub mod All
use s2e.Common.{
  ℕ, ◌+◌, ◌*◌, ◌%◌, ◌^◌, Bool, List, [], ◌∷◌, Option, none, some, leb, ◌==◌, if◌then◌else◌,
}

-- REGION_SIZE
abbrev pub region_size : ℕ
region_size = 256 * 1024

-- RegCmp::operator(), with the wrap-around of uintptr_t.
abbrev pub region_less : ℕ → ℕ → Bool
region_less r1 r2 = leb ((r1 + region_size) % 2 ^ 64) r2

module _ {ℓ} {V : Type ℓ} where
  -- find(key): the first element that is not below the key, if the key is not below it either.
  unfoldable pub find : ℕ → List (ℕ × V) → Option (ℕ × V)
  find key [] = none
  find key ((r, v) ∷ m) =
      if region_less r key then find key m else if region_less key r then none else some (r, v)

  -- map[key] = v, and insert(key) for a set.
  unfoldable pub assign : ℕ → V → List (ℕ × V) → List (ℕ × V)
  assign key v [] = (key, v) ∷ []
  assign key v ((r, w) ∷ m) =
      if region_less r key
      then (r, w) ∷ assign key v m
      else if region_less key r
      then (key, v) ∷ (r, w) ∷ m
      else (r, v) ∷ m

  -- erase(key)
  unfoldable pub erase : ℕ → List (ℕ × V) → List (ℕ × V)
  erase key [] = []
  erase key ((r, v) ∷ m) =
      if region_less r key
      then (r, v) ∷ erase key m
      else if region_less key r
      then (r, v) ∷ m
      else m

  -- What the container holds under exactly this address.
  abbrev pub at_base : ℕ → List (ℕ × V) → Option V
  at_base key [] = none
  at_base key ((r, v) ∷ m) = if r == key then some v else at_base key m
