-- ===== src/Slab/SlabAllocator/Construction.antt =====
-- SlabAllocator's constructor and the array that it fills.
use s2e.Common.{
  refl, ℕ, zero, suc, ◌+◌, ◌-◌, ◌≤◌, ◌≡◌, arith, ok, fault, out_of_bounds, ltb, le→leb, Bool-cases,
  ltb→lt, inl, inr,
}
use s2e.Slab.BlockAllocator
use s2e.Slab.BlockAllocator.{BlockAllocator, Memory}
use s2e.Slab.SlabAllocator.{slots, build, init}

-- The block allocators of the sizes from a power of two on can be built.
abbrev pub Buildable : ℕ → ℕ → Type 0
Buildable min_po2 max_po2 =
    (i : ℕ)
    → i ≤ max_po2 - min_po2
    → (ba : BlockAllocator) × (BlockAllocator.init (i + min_po2) (i + min_po2) ≡ ok ba)

module _ (min_po2 max_po2 : ℕ) (le : min_po2 ≤ max_po2) (each : Buildable min_po2 max_po2) where
  -- A loop that goes one round past the last slot does not end.
  build_overflows :
      (rounds i : ℕ)
      → rounds + i ≡ suc (max_po2 - min_po2)
      → i ≤ max_po2 - min_po2
      → build (slots min_po2 max_po2) rounds i min_po2 ≡ fault out_of_bounds
  unfolding build
  build_overflows zero i e lo = absurd (omega (arith, e, lo))
  build_overflows (suc rounds) i e lo =
      let (ba, made) = each i lo in
      elim (Bool-cases (ltb i (max_po2 - min_po2))) [
        | inl t ↦
            let rest =
              build_overflows rounds (i + 1) (omega (arith, e))
                (omega (arith, ltb→lt i (max_po2 - min_po2) t)) in
            rw (build, made, t, rest) refl
        | inr f ↦ rw (build, made, f) refl
      ]

  -- The constructor goes one round too far, for every range of sizes whose block allocators can be
  -- built: it writes behind the last slot of its array.
  pub init_overflows : (memory : Memory) → init min_po2 max_po2 memory ≡ fault out_of_bounds
  unfolding init
  init_overflows memory =
      rw
        (
          init,
          le→leb min_po2 max_po2 le,
          build_overflows (max_po2 - min_po2 + 1) 0 (omega arith) (omega arith),
        )
        refl
