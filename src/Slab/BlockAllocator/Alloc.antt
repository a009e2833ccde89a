-- ===== src/Slab/BlockAllocator/Alloc.antt =====
-- BlockAllocator::alloc() takes a free block, and keeps the lists and the counters right.
use s2e.Common.{
  ℕ, suc, ◌+◌, ◌*◌, ◌%◌, ◌^◌, ◌≤◌, ◌<◌, ◌≡◌, ◌≢◌, ◌⊎◌, refl, ◌∙◌, true, false, List, [], ◌∷◌, arith,
  set, ==_refl, ==_ne, ok, inl, inr, Bool-cases, ltb, ltb→lt,
}
use s2e.Slab.Bitmap.{BitScan}
use s2e.Slab.PageAllocator.{page_size}
use s2e.Slab.BlockHdr.{BlockHdr, hdr_size}
use s2e.Slab.BlockHdr.Bits.{flat}
use s2e.Slab.BlockHdr.FindFree.{IsFirst, find_free-IsFirst}
use s2e.Slab.BlockHdr.Count.{IsHdr, alloc-Puts}
use s2e.Slab.BlockAllocator.{
  Memory, write, World, BlockAllocator, block_hdr_signature, settle, alloc_block, first_page,
}
use s2e.Slab.BlockAllocator.Invariant.{IsPage, TotallyFree, PartlyFree, IsValid}
use s2e.Slab.BlockAllocator.Settle.{
  stays, leaves, opens, stays_held, leaves_held, opens_held, settle_shape,
}
use s2e.Slab.BlockAllocator.Unlink.{InUse}

-- Block `k` of the page at `p` was the lowest free one of its page, and is taken; no other block
-- changed its state.
pub record Took (ba ba' : BlockAllocator) (mem mem' : Memory) (p k : ℕ) : Type 0 where
  pub chosen : first_page ba.free_pages ba.totally_free ≡ ok p
  pub aligned : p % page_size ≡ 0
  pub high : p + page_size ≤ 2 ^ 64
  pub signed : (mem p).signature ≡ block_hdr_signature + ba.magic
  pub in_page : k < ba.blocks_per_page
  pub first : IsFirst (flat (mem p).mask) k
  pub bits : flat (mem' p).mask ≡ set (flat (mem p).mask) k false
  pub others : (q : ℕ) → p ≢ q → mem' q ≡ mem q
  pub signature : (mem' p).signature ≡ (mem p).signature
  pub held : InUse p ba'
  pub same_shape :
      (ba'.block_size ≡ ba.block_size)
      × (ba'.blocks_per_page ≡ ba.blocks_per_page)
      × (ba'.magic ≡ ba.magic)
  pub valid : IsValid ba' mem'

abbrev pub Allocated : BitScan → BlockAllocator → World → Type 0
Allocated B ba w =
    (p : ℕ) × (k : ℕ) × (ba' : BlockAllocator) × (mem' : Memory) × (alloc_block B ba w
      ≡ ok (ba', record w { memory = mem' }, p + hdr_size + k * ba.block_size))
    × Took ba ba' w.memory mem' p k

-- Block `k` ends within its page.
pub block_end :
    (n size k : ℕ)
    → k < n
    → hdr_size + n * size ≤ page_size
    → hdr_size + k * size + size ≤ page_size
block_end n size k l f = grind arith

module _ (B : BitScan) (ba : BlockAllocator) (w : World) where
  open ba use {blocks_per_page as n}

  module _ (p : ℕ) (P : ℕ → Type 0) (page : IsPage n ba.magic P w.memory p)
      (some_free : 0 < (w.memory p).free_count) (size_pos : 0 < ba.block_size)
      (fits : hdr_size + n * ba.block_size ≤ page_size)
      (chosen : first_page ba.free_pages ba.totally_free ≡ ok p)
      (keeps : (h : BlockHdr)
        → IsHdr n h
        → h.signature ≡ block_hdr_signature + ba.magic
        → (w.memory p).free_count ≡ suc h.free_count
        → IsValid (settle ba p h.free_count) (write w.memory p h)
          × InUse p (settle ba p h.free_count)) where
    alloc_from : Allocated B ba w
    unfolding alloc_block
    alloc_from =
        let hdr = w.memory p in
        let (k, found, l, f) =
          find_free-IsFirst B hdr n page.hdr.wide some_free
            (omega (arith, page.hdr.counted, some_free)) in
        let (h, run, puts, down) = alloc-Puts n hdr k page.hdr l f.is_set in
        let fit = block_end n ba.block_size k l fits in
        let no_wrap : (p + hdr_size + k * ba.block_size) % 2 ^ 64
            ≡ p + hdr_size + k * ba.block_size =
          omega (arith, page.high) in
        (
          p,
          k,
          settle ba p h.free_count,
          write w.memory p h,
          rw (chosen, page.aligned, found, run, no_wrap),
          record {
            chosen = chosen;
            aligned = page.aligned;
            high = page.high;
            signed = page.signed;
            in_page = l;
            first = f;
            bits = rw (==_refl p) puts.bits;
            others = λ q ne. rw (==_ne p q ne);
            signature = rw (==_refl p) puts.signature;
            held = (keeps h puts.valid (puts.signature ∙ page.signed) down).1;
            same_shape = settle_shape ba p h.free_count;
            valid = (keeps h puts.valid (puts.signature ∙ page.signed) down).0;
          },
        )

module _ (B : BitScan) (ba : BlockAllocator) (w : World) where
  alloc_parts :
      (tf fp : List ℕ)
      → IsValid (record ba { totally_free = tf; free_pages = fp }) w.memory
      → ba.free_blocks_count ≢ 0
      → Allocated B (record ba { totally_free = tf; free_pages = fp }) w
  unfolding first_page
  alloc_parts [] [] v some = absurd (omega (arith, v.free_blocks_counted))
  alloc_parts (p ∷ fs) [] v some =
      alloc_from B (record ba { totally_free = p ∷ fs; free_pages = [] }) w p
        (TotallyFree ba.blocks_per_page) v.all_free.0
        (omega (arith, v.all_free.0.free, v.some_blocks)) v.size_pos v.fits refl
        (λ h hv signed down. (
          opens ba w.memory h p [] fs hv signed down v,
          opens_held ba w.memory h p [] fs hv signed down v,
        ))
  alloc_parts tf (p ∷ fs) v some =
      alloc_from B (record ba { totally_free = tf; free_pages = p ∷ fs }) w p
        (PartlyFree ba.blocks_per_page) v.part_free.0 v.part_free.0.free.0 v.size_pos v.fits refl
        (λ h hv signed down. keeps h hv signed down (Bool-cases (ltb 0 h.free_count)))
    where
      keeps :
          (h : BlockHdr)
          → IsHdr ba.blocks_per_page h
          → h.signature ≡ block_hdr_signature + ba.magic
          → (w.memory p).free_count ≡ suc h.free_count
          → (ltb 0 h.free_count ≡ true) ⊎ (ltb 0 h.free_count ≡ false)
          → IsValid
              (settle (record ba { totally_free = tf; free_pages = p ∷ fs }) p h.free_count)
              (write w.memory p h)
            × InUse p (settle (record ba { totally_free = tf; free_pages = p ∷ fs }) p h.free_count)
      keeps h hv signed down (inl more) = (
        stays ba w.memory h p tf fs hv signed down v (ltb→lt 0 h.free_count more),
        stays_held ba w.memory h p tf fs hv signed down v (ltb→lt 0 h.free_count more),
      )
      keeps h hv signed down (inr last) = (
        leaves ba w.memory h p tf fs hv signed down v (ground arith),
        leaves_held ba w.memory h p tf fs hv signed down v (ground arith),
      )

  pub alloc_block-Took : IsValid ba w.memory → ba.free_blocks_count ≢ 0 → Allocated B ba w
  alloc_block-Took = alloc_parts ba.totally_free ba.free_pages
