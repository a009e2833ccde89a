-- ===== src/Slab/BlockAllocator/Free.antt =====
-- BlockAllocator::free() gives back the block that it is called with, and undoes alloc().
use s2e.Common.{
  ℕ, suc, ◌+◌, ◌*◌, ◌/◌, ◌%◌, ◌^◌, ◌≤◌, ◌<◌, ◌≡◌, ◌≢◌, inl, inr, refl, sym, ap, subst, ◌∙◌, Bool,
  true, false, List, [], ◌∷◌, arith, get_or, set, ◌==◌, ==_refl, ==_ne, ==_iff, ne_of_==, ok,
  Bool-cases, zero, get_or-set_self,
}
use native.Mathlib.Nat.{mul-div_cancel}
use s2e.Slab.Bitmap.{BitScan}
use s2e.Slab.Bitmap.Laws.{get_or-lt}
use s2e.Slab.PageAllocator.{page_size}
use s2e.Slab.BlockHdr.{BlockHdr, hdr_size}
use s2e.Slab.BlockHdr.Bits.{flat}
use s2e.Slab.BlockHdr.Count.{IsHdr, free-Puts}
use s2e.Slab.BlockAllocator.{
  Memory, write, World, BlockAllocator, block_hdr_signature, sub64, block_index, alloc, free,
  release,
}
use s2e.Slab.BlockAllocator.Unlink.{InUse, AllPages-Holds}
use s2e.Slab.BlockAllocator.Invariant.{IsPage, PartlyFree, NoneFree, IsValid}
use s2e.Slab.BlockAllocator.Release.{busy-IsValid}
use s2e.Slab.BlockAllocator.Refill.{kept-IsValid, emptied-IsValid}
use s2e.Slab.BlockAllocator.Alloc.{Took, block_end}
use s2e.Slab.BlockAllocator.Expand.{alloc-Took}

-- Block `k` of the page at `p` is free again; no other block changed its state.
pub record Gave (ba ba' : BlockAllocator) (mem mem' : Memory) (p k : ℕ) : Type 0 where
  pub bits : flat (mem' p).mask ≡ set (flat (mem p).mask) k true
  pub others : (q : ℕ) → p ≢ q → mem' q ≡ mem q
  pub same_shape :
      (ba'.block_size ≡ ba.block_size)
      × (ba'.blocks_per_page ≡ ba.blocks_per_page)
      × (ba'.magic ≡ ba.magic)
  pub valid : IsValid ba' mem'

-- The geometry does not change.
release_shape :
    (ba : BlockAllocator) (p c : ℕ)
    → let b = release ba p c in
      (b.block_size ≡ ba.block_size)
      × (b.blocks_per_page ≡ ba.blocks_per_page)
      × (b.magic ≡ ba.magic)
unfolding release
release_shape ba p c = ground arith

-- From a block's address back to its page and its index.
pub address_lem :
    (p k n size : ℕ)
    → p % page_size ≡ 0
    → p + page_size ≤ 2 ^ 64
    → 0 < size
    → k < n
    → n < 512
    → hdr_size + n * size ≤ page_size
    → ((p + hdr_size + k * size) / page_size * page_size ≡ p)
      × (block_index size (p + hdr_size + k * size) ≡ k)
address_lem p k n size a hi pos l small fits =
    let below = block_end n size k l fits in (omega arith, index)
  where
    offset : sub64 ((p + hdr_size + k * size) % page_size) hdr_size ≡ k * size
    offset = omega (arith, block_end n size k l fits)

    index : block_index size (p + hdr_size + k * size) ≡ k
    index =
        ap (λ x. x / size % 2 ^ 32) offset
        ∙ ap (λ x. x % 2 ^ 32) (mul-div_cancel k pos)
        ∙ omega arith

module _ (ba : BlockAllocator) (w : World) (p k : ℕ) (v : IsValid ba w.memory)
    (in_page : k < ba.blocks_per_page)
    (used : get_or (flat (w.memory p).mask) k false ≡ false) where
  open ba use {blocks_per_page as n}

  abbrev pub Freed : Type 0
  Freed =
      (ba' : BlockAllocator) × (mem' : Memory) × (free ba w (p + hdr_size + k * ba.block_size)
        ≡ ok (ba', record w { memory = mem' }))
      × Gave ba ba' w.memory mem' p k

  -- The run, from what is known of the page and of the lists that come out.
  free_from :
      (P : ℕ → Type 0)
      → IsPage n ba.magic P w.memory p
      → ((h : BlockHdr)
          → IsHdr n h
          → h.signature ≡ block_hdr_signature + ba.magic
          → h.free_count ≡ suc (w.memory p).free_count
          → IsValid (release ba p h.free_count) (write w.memory p h))
      → Freed
  unfolding free
  free_from P page keeps =
      let (h, run, puts, up) = free-Puts n (w.memory p) k page.hdr in_page used in
      let (base, index) =
        address_lem p k n ba.block_size page.aligned page.high v.size_pos in_page v.few_blocks
          v.fits in
      (
        release ba p h.free_count,
        write w.memory p h,
        rw (free, base, index, (==_iff _ _).1 page.signed, run),
        record {
          bits = rw (==_refl p) puts.bits;
          others = λ q ne. rw (==_ne p q ne);
          same_shape = release_shape ba p h.free_count;
          valid = keeps h puts.valid (puts.signature ∙ page.signed) up;
        },
      )

  free_held : InUse p ba → Freed
  free_held (inr held) =
      free_from NoneFree
        (AllPages-Holds p (IsPage n ba.magic NoneFree w.memory) ba.busy_pages held v.none_free)
        (λ h hv signed up. busy-IsValid ba w.memory p h v hv signed up held)
  free_held (inl held) =
      free_from (PartlyFree n)
        (AllPages-Holds p (IsPage n ba.magic (PartlyFree n) w.memory) ba.free_pages held
          v.part_free)
        (λ h hv signed up. elim (Bool-cases (h.free_count == n)) [
          | inl all ↦
              emptied-IsValid ba w.memory p h v hv signed up held ((==_iff h.free_count n).0 all)
          | inr more ↦
              kept-IsValid ba w.memory p h v hv signed up held (ne_of_== h.free_count n more)
        ])

  -- free() of a block in use, of a page that the well-formed allocator holds, fails no assertion:
  -- the block is free again, the other blocks and pages keep their state, and lists and counters
  -- stay right.
  pub free-Gave : InUse p ba → Freed
  free-Gave = free_held

set-set {ℓ} : {A : Type ℓ} (xs : List A) (i : ℕ) (x y : A) → set (set xs i x) i y ≡ set xs i y
set-set [] i x y = refl
set-set (z ∷ zs) zero x y = refl
set-set (z ∷ zs) (suc i) x y = ap (λ t. z ∷ t) (set-set zs i x y)

set-get_or : (xs : List Bool) (i : ℕ) → get_or xs i false ≡ true → set xs i true ≡ xs
set-get_or [] i h = refl
set-get_or (x ∷ xs) zero h = ap (λ t. t ∷ xs) (sym h)
set-get_or (x ∷ xs) (suc i) h = ap (λ t. x ∷ t) (set-get_or xs i h)

pub restored :
    (ba ba1 ba2 : BlockAllocator) (mem mem1 mem2 : Memory) (p k : ℕ)
    → Took ba ba1 mem mem1 p k
    → Gave ba1 ba2 mem1 mem2 p k
    → (q : ℕ) → flat (mem2 q).mask ≡ flat (mem q).mask
restored ba ba1 ba2 mem mem1 mem2 p k took gave q = elim (Bool-cases (p == q)) [
  | inl here ↦
      let same : p ≡ q = (==_iff p q).0 here in
      subst (λ x. flat (mem2 x).mask ≡ flat (mem x).mask) same
        (gave.bits
          ∙ ap (λ x. set x k true) took.bits
          ∙ set-set (flat (mem p).mask) k false true
          ∙ set-get_or (flat (mem p).mask) k took.first.is_set)
  | inr other ↦
      let ne = ne_of_== p q other in
      ap (λ x. flat x.mask) (gave.others q ne) ∙ ap (λ x. flat x.mask) (took.others q ne)
]

-- In a well-formed block allocator that counts a free block, so that alloc() does not expand it,
-- alloc() returns a block, free() of its address fails no assertion, and then the block allocator is
-- well-formed and every page has the same free blocks as before the two calls.
pub free-alloc :
    (B : BitScan) (ba : BlockAllocator) (w : World) (os_region : ℕ)
    → IsValid ba w.memory
    → ba.free_blocks_count ≢ 0
    → (b : ℕ) × (ba1 : BlockAllocator) × (w1 : World) × (ba2 : BlockAllocator) × (w2 : World)
      × (alloc B ba w os_region ≡ ok (ba1, w1, b))
      × (free ba1 w1 b ≡ ok (ba2, w2))
      × IsValid ba2 w2.memory
      × ((q : ℕ) → flat (w2.memory q).mask ≡ flat (w.memory q).mask)
free-alloc B ba w os_region v some =
    let (p, k, ba1, mem1, run, took) = alloc-Took B ba w os_region v some in
    let w1 : World = record w { memory = mem1 } in
    let (ba2, mem2, back, gave) =
      free-Gave ba1 w1 p k took.valid (rw took.same_shape.1 took.in_page)
        (rw took.bits (
          get_or-set_self (flat (w.memory p).mask) k false false
            (get_or-lt (flat (w.memory p).mask) k took.first.is_set)))
        took.held in
    (
      p + hdr_size + k * ba.block_size,
      ba1,
      w1,
      ba2,
      record w1 { memory = mem2 },
      run,
      rw took.same_shape.0 at back,
      gave.valid,
      restored ba ba1 ba2 w.memory mem1 mem2 p k took gave,
    )
