-- ===== src/Slab/Bitmap/Laws.antt =====
-- The bits of a bitmap against its tests for zero and for all ones.
use s2e.Common.{
  ℕ, zero, suc, ◌<◌, ◌≡◌, refl, ap, true, false, [], ◌∷◌, some, arith, length, get_or, replicate,
  inl, inr, Option-cases,
}
use s2e.Slab.Bitmap.{Word, is_zero, is_ones, BitScan}

pub get_or-lt : (w : Word) (i : ℕ) → get_or w i false ≡ true → i < length w
get_or-lt [] i h = cc
get_or-lt (b ∷ bs) zero h = omega arith
get_or-lt (b ∷ bs) (suc i) h = omega (arith, get_or-lt bs i h)

pub is_zero_of_get : (w : Word) (i : ℕ) → get_or w i false ≡ true → is_zero w ≡ false
is_zero_of_get [] i h = cc
is_zero_of_get (true ∷ bs) i h = refl
is_zero_of_get (false ∷ bs) zero h = cc
is_zero_of_get (false ∷ bs) (suc i) h = is_zero_of_get bs i h

pub get_of_is_zero : (w : Word) (i : ℕ) → is_zero w ≡ true → get_or w i false ≡ false
get_of_is_zero [] i h = refl
get_of_is_zero (true ∷ bs) i h = cc
get_of_is_zero (false ∷ bs) zero h = refl
get_of_is_zero (false ∷ bs) (suc i) h = get_of_is_zero bs i h

pub is_ones_of_get :
    (w : Word) (i : ℕ) → i < length w → get_or w i false ≡ false → is_ones w ≡ false
is_ones_of_get [] i l h = absurd (omega arith)
is_ones_of_get (false ∷ bs) i l h = refl
is_ones_of_get (true ∷ bs) zero l h = cc
is_ones_of_get (true ∷ bs) (suc i) l h = is_ones_of_get bs i (omega arith) h

pub is_zero-replicate : (w : Word) → is_zero w ≡ true → w ≡ replicate (length w) false
is_zero-replicate [] h = refl
is_zero-replicate (true ∷ bs) h = cc
is_zero-replicate (false ∷ bs) h = ap (λ t. false ∷ t) (is_zero-replicate bs h)

pub is_ones-replicate : (w : Word) → is_ones w ≡ true → w ≡ replicate (length w) true
is_ones-replicate [] h = refl
is_ones-replicate (false ∷ bs) h = cc
is_ones-replicate (true ∷ bs) h = ap (λ t. true ∷ t) (is_ones-replicate bs h)

-- A word that is not zero has a lowest set bit.
pub scan_total : (B : BitScan) (w : Word) → is_zero w ≡ false → (i : ℕ) × (B.scan w ≡ some i)
scan_total B w h = elim (Option-cases (B.scan w)) [
  | inl e ↦ absurd (cc (B.scan_none w e))
  | inr (i, e) ↦ (i, e)
]
