-- ===== src/Slab/Tests/Blocks.antt =====
-- Runs of the block allocator.
use s2e.Common.{ℕ, ◌+◌, ◌*◌, ◌≡◌, refl, arith, inl, false, [], ◌∷◌, set, ok}
use s2e.Slab.Bitmap.{all_ones}
use s2e.Slab.PageAllocator.{PageAllocator, alloc_page}
use s2e.Slab.BlockHdr.Bits.{flat}
use s2e.Slab.BlockAllocator
use s2e.Slab.BlockAllocator.{BlockAllocator, Memory, World, write}
use s2e.Slab.BlockAllocator.Invariant.{IsValid}
use s2e.Slab.BlockAllocator.Alloc.{Took}
use s2e.Slab.BlockAllocator.Expand.{IsNewPage, alloc-Took}
use s2e.Slab.BlockAllocator.Free.{Freed, free-Gave, free-alloc}
use s2e.Slab.Tests.{lowest_bit, first_set}
use s2e.Slab.Tests.States.{
  pages, memory, without_page, with_page, with_used, world, used_world, with_page-IsValid,
  with_used-IsValid,
}

fresh_page_run :
    alloc_page lowest_bit pages 0
    ≡ ok (record pages { regions = (0x40000, set (set all_ones 0 false) 1 false) ∷ [] }, 0x41000)
unfolding alloc_page lowest_bit first_set
fresh_page_run = refl

abbrev later_pages : PageAllocator
later_pages = record pages { regions = (0x40000, set (set all_ones 0 false) 1 false) ∷ [] }

second_is_new : IsNewPage without_page 0x41000
second_is_new = record {
  not_null = omega arith;
  aligned = refl;
  high = omega arith;
  not_total = tt;
  not_part = tt;
  not_busy = tt;
  room = omega arith;
}

alloc-Took_example :
    (p : ℕ) × (k : ℕ) × (ba' : BlockAllocator) × (mem' : Memory) × (BlockAllocator.alloc lowest_bit
        with_page world 0
      ≡ ok (ba', record world { memory = mem' }, p + 128 + k * 8))
    × Took with_page ba' memory mem' p k
alloc-Took_example = alloc-Took lowest_bit with_page world 0 with_page-IsValid (omega arith)

free-Gave_example : Freed with_used used_world 0x40000 0 with_used-IsValid (omega arith) refl
free-Gave_example =
    free-Gave with_used used_world 0x40000 0 with_used-IsValid (omega arith) refl (inl (inl refl))

free-alloc_example :
    (b : ℕ) × (ba1 : BlockAllocator) × (w1 : World) × (ba2 : BlockAllocator) × (w2 : World)
    × (BlockAllocator.alloc lowest_bit with_page world 0 ≡ ok (ba1, w1, b))
    × (BlockAllocator.free ba1 w1 b ≡ ok (ba2, w2))
    × IsValid ba2 w2.memory
    × ((q : ℕ) → flat (w2.memory q).mask ≡ flat (memory q).mask)
free-alloc_example = free-alloc lowest_bit with_page world 0 with_page-IsValid (omega arith)
