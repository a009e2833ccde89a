-- ===== src/Slab/Bitmap.antt =====
-- The uint64_t bitmaps of include/s2e/Slab.h, as their bits, the least significant first, and the
-- assembly routine of include/s2e/machine.h that scans one.
pub mod Laws
use s2e.Common.{
  ℕ, ◌<◌, ◌≡◌, Bool, true, false, List, [], ◌∷◌, Option, none, some, get_or, replicate,
}

-- A uint64_t; 64 long where the invariants hold.
abbrev pub Word : Type 0
Word = List Bool

-- (uint64_t)-1
abbrev pub all_ones : Word
all_ones = replicate 64 true

-- The test `if (mask)`.
abbrev pub is_zero : Word → Bool
is_zero [] = true
is_zero (true ∷ bs) = false
is_zero (false ∷ bs) = is_zero bs

-- The test `mask == (uint64_t)-1`.
abbrev pub is_ones : Word → Bool
is_ones [] = true
is_ones (true ∷ bs) = is_ones bs
is_ones (false ∷ bs) = false

-- `bit_scan_forward_64` is written in assembly outside the repository's sources: it finds the
-- lowest set bit and returns 0, here `none`, where no bit is set.
pub record BitScan : Type 0 where
  pub scan : Word → Option ℕ
  pub scan_none : (w : Word) → scan w ≡ none → is_zero w ≡ true
  pub scan_set : (w : Word) (i : ℕ) → scan w ≡ some i → get_or w i false ≡ true
  pub scan_lowest : (w : Word) (i j : ℕ) → scan w ≡ some i → j < i → get_or w j false ≡ false
