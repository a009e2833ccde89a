-- ===== src/Slab/SlabAllocator/Invariant.antt =====
-- The well-formedness of the slab: each slot holds a well-formed block allocator of its own size,
-- which signs its pages with the slot's power of two.
use s2e.Common.{
  ℕ, ◌+◌, ◌^◌, ◌≤◌, ◌<◌, ◌≡◌, ◌≢◌, ◌∙◌, ◌⊎◌, sym, ap, refl, some, arith, length, get_elem?, set,
  ◌==◌, ==_iff, ne_of_==, Bool-cases, inl, inr, length-set, get_elem?-set_self, get_elem?-set_ne,
  get_elem?-lt, true, false, some-eq,
}
use s2e.Slab.BlockAllocator
use s2e.Slab.BlockAllocator.{BlockAllocator, World, Memory, block_hdr_signature}
use s2e.Slab.BlockAllocator.Frame.{frame-IsValid}
use s2e.Slab.SlabAllocator.{SlabAllocator, slots}

-- The allocator of slot `i`.
pub record IsSlot (min_po2 i : ℕ) (ba : BlockAllocator) (mem : Memory) : Type 0 where
  pub valid : BlockAllocator.Invariant.IsValid ba mem
  pub signed : ba.magic ≡ min_po2 + i
  pub size : ba.block_size ≡ 2 ^ (min_po2 + i)

-- A slab whose array has a well-formed allocator in each of its slots. What the constructor writes behind
-- the array is no part of it.
pub record IsValid (s : SlabAllocator) : Type 0 where
  pub ordered : s.min_po2 ≤ s.max_po2
  pub small : s.max_po2 < 256
  pub filled : length s.bas ≡ slots s.min_po2 s.max_po2
  pub each :
      (i : ℕ) (ba : BlockAllocator)
      → get_elem? s.bas i ≡ some ba
      → IsSlot s.min_po2 i ba s.world.memory

-- A slot gets a new allocator that is well-formed over the new memory, which differs at one page
-- that bears the slot's signature: the other slots stay well-formed.
pub set-IsValid :
    (s : SlabAllocator) (i : ℕ) (ba ba' : BlockAllocator) (w' : World) (p : ℕ)
    → IsValid s
    → get_elem? s.bas i ≡ some ba
    → IsSlot s.min_po2 i ba' w'.memory
    → (s.world.memory p).signature ≡ block_hdr_signature + ba.magic
    → ((q : ℕ) → p ≢ q → w'.memory q ≡ s.world.memory q)
    → IsValid (record s { bas = set s.bas i ba'; world = w' })
set-IsValid s i ba ba' w' p v at new signed others = record {
  ordered = v.ordered;
  small = v.small;
  filled = length-set s.bas i ba' ∙ v.filled;
  each = λ j b e. each j b e (Bool-cases (i == j));
}
  where
    each :
        (j : ℕ) (b : BlockAllocator)
        → get_elem? (set s.bas i ba') j ≡ some b
        → ((i == j) ≡ true) ⊎ ((i == j) ≡ false)
        → IsSlot s.min_po2 j b w'.memory
    each j b e (inl same) =
        let here : i ≡ j = (==_iff i j).0 same in
        let b_new : ba' ≡ b = some-eq ba' b (
          sym (get_elem?-set_self s.bas i ba' (get_elem?-lt s.bas i ba at))
          ∙ (ap (λ x. get_elem? (set s.bas i ba') x) here ∙ e)) in
        rw (← here, ← b_new) new
    each j b e (inr other) =
        let ne = ne_of_== i j other in
        let old = v.each j b (sym (get_elem?-set_ne s.bas i j ba' ne) ∙ e) in
        record {
          valid =
              frame-IsValid b s.world.memory p (w'.memory p) old.valid
                (λ f. ne (omega (arith, sym signed ∙ f, old.signed, (v.each i ba at).signed)))
                w'.memory refl others;
          signed = old.signed;
          size = old.size;
        }
