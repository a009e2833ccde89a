-- ===== src/Slab/BlockAllocator/Expand.antt =====
-- BlockAllocator::expand() adds a page of free blocks, and alloc() falls back on it.
use s2e.Common.{
  ℕ, suc, ◌+◌, ◌*◌, ◌%◌, ◌^◌, ◌≤◌, ◌<◌, ◌≡◌, ◌≢◌, refl, [], ◌∷◌, ◌++◌, arith, length, ==_refl,
  ==_ne, ==_iff, ok, length-append,
}
use s2e.Slab.Bitmap.{BitScan}
use s2e.Slab.PageAllocator.{PageAllocator, page_size, alloc_page}
use s2e.Slab.BlockHdr
use s2e.Slab.BlockHdr.{BlockHdr, hdr_size}
use s2e.Slab.BlockHdr.Count.{IsHdr, init-IsHdr}
use s2e.Slab.BlockAllocator.{
  Memory, write, World, BlockAllocator, block_hdr_signature, add64, expand, alloc,
}
use s2e.Slab.BlockAllocator.Pages.{Absent, AllPages-append, Distinct-append, sum_free-off}
use s2e.Slab.BlockAllocator.Invariant.{
  IsPage, TotallyFree, PartlyFree, NoneFree, IsValid, IsPage-off,
}
use s2e.Slab.BlockAllocator.Settle.{scaled}
use s2e.Slab.BlockAllocator.Alloc.{Took, alloc_block-Took}

-- A page that the allocator does not have yet.
pub record IsNewPage (ba : BlockAllocator) (p : ℕ) : Type 0 where
  pub not_null : p ≢ 0
  pub aligned : p % page_size ≡ 0
  pub high : p + page_size ≤ 2 ^ 64
  pub not_total : Absent p ba.totally_free
  pub not_part : Absent p ba.free_pages
  pub not_busy : Absent p ba.busy_pages
  pub room :
      (suc (length ba.totally_free) + length ba.free_pages + length ba.busy_pages) * 512 < 2 ^ 64

module _ (B : BitScan) (ba : BlockAllocator) (w : World) (os_region page : ℕ)
    (pages : PageAllocator) (given : alloc_page B w.pages os_region ≡ ok (pages, page))
    (v : IsValid ba w.memory) (new : IsNewPage ba page) where
  open ba use {blocks_per_page as n}

  -- The header that expand() writes.
  pub new_hdr : BlockHdr
  new_hdr = record (BlockHdr.init (w.memory page) n) { signature = block_hdr_signature + ba.magic }

  -- The allocator and its world after expand().
  pub grown : BlockAllocator
  grown = record ba {
    totally_free = ba.totally_free ++ (page ∷ []);
    free_pages_count = add64 ba.free_pages_count 1;
    free_blocks_count = add64 ba.free_blocks_count n;
  }

  pub grown_world : World
  unfolding new_hdr
  grown_world = record { pages = pages; memory = write w.memory page new_hdr }

  pub expand_lem : expand B ba w os_region ≡ ok (grown, grown_world, page)
  unfolding expand grown grown_world
  expand_lem = rw (given, ==_ne page 0 new.not_null)

  new_IsHdr : IsHdr n new_hdr
  unfolding new_hdr
  new_IsHdr =
      let h = (init-IsHdr n (w.memory page) v.few_blocks).0 in
      record { words = h.words; wide = h.wide; small = h.small; counted = h.counted }

  new_IsPage : IsPage n ba.magic (TotallyFree n) (write w.memory page new_hdr) page
  unfolding new_hdr BlockHdr.init
  new_IsPage = record {
    aligned = new.aligned;
    high = new.high;
    hdr = rw (==_refl page) new_IsHdr;
    signed = rw (==_refl page);
    free = rw (==_refl page) refl;
  }

  -- Given a page that it does not have yet, expand() adds it at the end of the list of totally free
  -- pages, and keeps lists and counters right.
  pub grown-IsValid : IsValid grown grown_world.memory
  unfolding grown grown_world
  grown-IsValid = record {
    some_blocks = v.some_blocks;
    few_blocks = v.few_blocks;
    size_pos = v.size_pos;
    fits = v.fits;
    all_free =
        AllPages-append (IsPage n ba.magic (TotallyFree n) (write w.memory page new_hdr))
          ba.totally_free (page ∷ [])
          (IsPage-off n ba.magic (TotallyFree n) w.memory page new_hdr ba.totally_free new.not_total
            v.all_free)
          (new_IsPage, tt);
    part_free =
        IsPage-off n ba.magic (PartlyFree n) w.memory page new_hdr ba.free_pages new.not_part
          v.part_free;
    none_free =
        IsPage-off n ba.magic NoneFree w.memory page new_hdr ba.busy_pages new.not_busy v.none_free;
    all_distinct = Distinct-append ba.totally_free page v.all_distinct new.not_total;
    part_distinct = v.part_distinct;
    none_distinct = v.none_distinct;
    few_pages = omega (arith, size, new.room);
    free_pages_counted = omega (arith, size, new.room, v.free_pages_counted);
    busy_pages_counted = v.busy_pages_counted;
    free_blocks_counted =
        rw (size, sum_free-off w.memory page new_hdr ba.free_pages new.not_part)
          (omega (arith, v.free_blocks_counted, v.blocks_counted, bound, new.room));
    blocks_counted =
        rw size (omega (arith, v.free_blocks_counted, v.blocks_counted, bound, new.room));
  }
    where
      size : length (ba.totally_free ++ (page ∷ [])) ≡ suc (length ba.totally_free)
      size = omega (arith, length-append ba.totally_free (page ∷ []))

      bound :
          (suc (length ba.totally_free) + length ba.free_pages + length ba.busy_pages) * n
          ≤ (suc (length ba.totally_free) + length ba.free_pages + length ba.busy_pages) * 512
      bound =
          scaled (suc (length ba.totally_free) + length ba.free_pages + length ba.busy_pages) n
            v.few_blocks

  grown_counts : ba.free_blocks_count ≡ 0 → grown.free_blocks_count ≢ 0
  unfolding grown
  grown_counts none = omega (arith, v.some_blocks, v.few_blocks)

  -- With no free block counted, alloc() of a well-formed allocator takes a new page, and then the
  -- lowest free block of a page, as it would if the page had been there before.
  pub alloc-Took_expanded :
      ba.free_blocks_count ≡ 0
      → (p : ℕ) × (k : ℕ) × (ba' : BlockAllocator) × (mem' : Memory) × (alloc B ba w os_region
          ≡ ok (ba', record grown_world { memory = mem' }, p + hdr_size + k * grown.block_size))
        × Took grown ba' grown_world.memory mem' p k
  unfolding alloc
  alloc-Took_expanded none =
      let (p, k, ba', mem', run, took) =
        alloc_block-Took B grown grown_world grown-IsValid (grown_counts none) in
      (
        p,
        k,
        ba',
        mem',
        rw ((==_iff ba.free_blocks_count 0).1 none, expand_lem, ==_ne page 0 new.not_null) run,
        took,
      )

-- Where the page allocator has no page, alloc() returns 0, and the allocator and the memory stay as
-- they are.
pub alloc_exhausted :
    (B : BitScan) (ba : BlockAllocator) (w : World) (os_region : ℕ) (pages : PageAllocator)
    → alloc_page B w.pages os_region ≡ ok (pages, 0)
    → ba.free_blocks_count ≡ 0
    → alloc B ba w os_region ≡ ok (ba, record w { pages = pages }, 0)
unfolding alloc expand
alloc_exhausted B ba w os_region pages given none = rw (none, expand, given)

-- In a well-formed allocator that counts a free block, alloc() fails no assertion and asks for no
-- page. It returns the address of the lowest free block of a page, which lies within that page; that
-- block is taken, the other blocks and pages keep their state, and lists and counters stay right.
pub alloc-Took :
    (B : BitScan) (ba : BlockAllocator) (w : World) (os_region : ℕ)
    → IsValid ba w.memory
    → ba.free_blocks_count ≢ 0
    → (p : ℕ) × (k : ℕ) × (ba' : BlockAllocator) × (mem' : Memory) × (alloc B ba w os_region
        ≡ ok (ba', record w { memory = mem' }, p + hdr_size + k * ba.block_size))
      × Took ba ba' w.memory mem' p k
unfolding alloc
alloc-Took B ba w os_region v some =
    let (p, k, ba', mem', run, took) = alloc_block-Took B ba w v some in
    (p, k, ba', mem', rw (==_ne ba.free_blocks_count 0 some) run, took)
