-- ===== src/Slab/Tests.antt =====
-- Concrete states of the slab of src/s2e/Slab.cpp, on which its theorems are run.
mod Pages
mod Headers
mod States
mod Blocks
mod Slabs
mod Sizes
use s2e.Common.{
  ℕ, zero, suc, ◌<◌, ◌≡◌, refl, arith, Bool, true, false, [], ◌∷◌, Option, none, some, get_or,
  some-eq, sym, subst,
}
use s2e.Slab.Bitmap.{Word, is_zero, BitScan}

-- The lowest set bit.
unfoldable pub first_set : Word → Option ℕ
first_set [] = none
first_set (true ∷ bs) = some 0
first_set (false ∷ bs) = elim (first_set bs) [ none ↦ none | some i ↦ some (suc i) ]

pub first_set-none : (w : Word) → first_set w ≡ none → is_zero w ≡ true
unfolding first_set
first_set-none [] e = refl
first_set-none (true ∷ bs) e = cc
first_set-none (false ∷ bs) e = first_set-none bs (ground (arith, e))

pub first_set-set : (w : Word) (i : ℕ) → first_set w ≡ some i → get_or w i false ≡ true
unfolding first_set
first_set-set [] i e = cc
first_set-set (true ∷ bs) zero e = refl
first_set-set (true ∷ bs) (suc i) e = absurd (ground (arith, e))
first_set-set (false ∷ bs) zero e = absurd (ground (arith, e))
first_set-set (false ∷ bs) (suc i) e = first_set-set bs i (ground (arith, e))

pub first_set-lowest :
    (w : Word) (i j : ℕ) → first_set w ≡ some i → j < i → get_or w j false ≡ false
unfolding first_set
first_set-lowest [] i j e l = refl
first_set-lowest (true ∷ bs) i j e l = absurd (ground (arith, e))
first_set-lowest (false ∷ bs) zero j e l = absurd (omega arith)
first_set-lowest (false ∷ bs) (suc i) zero e l = refl
first_set-lowest (false ∷ bs) (suc i) (suc j) e l =
    first_set-lowest bs i j (ground (arith, e)) (omega arith)

-- The assembly routine, as its documentation has it.
unfoldable pub lowest_bit : BitScan
lowest_bit = record {
  scan = first_set;
  scan_none = first_set-none;
  scan_set = first_set-set;
  scan_lowest = first_set-lowest;
}
