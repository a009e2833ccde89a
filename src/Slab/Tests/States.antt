-- ===== src/Slab/Tests/States.antt =====
-- A page allocator, its memory and block allocators of 8 bytes, for the runs.
use s2e.Common.{ℕ, ◌≡◌, refl, arith, false, List, [], ◌∷◌, set, replicate, ok}
use s2e.Slab.Bitmap.{all_ones}
use s2e.Slab.PageAllocator.{PageAllocator, alloc_page}
use s2e.Slab.BlockHdr.{BlockHdr}
use s2e.Slab.BlockAllocator.{BlockAllocator, Memory, World, write}
use s2e.Slab.BlockAllocator.Invariant.{IsValid}
use s2e.Slab.Tests.{lowest_bit}

-- One region, its first page in use.
abbrev pub pages : PageAllocator
pages = record { regions = (0x40000, set all_ones 0 false) ∷ []; busy_regions = [] }

-- Memory that holds headers of free pages, and the same with the first block in use.
abbrev pub memory : Memory
memory q = record { signature = 0x11AABB03; free_count = 496; mask = replicate 8 all_ones }

abbrev pub used_hdr : BlockHdr
used_hdr = record {
  signature = 0x11AABB03;
  free_count = 495;
  mask = set all_ones 0 false ∷ replicate 7 all_ones;
}

abbrev pub used_memory : Memory
used_memory = write memory 0x40000 used_hdr

abbrev pub allocator : List ℕ → List ℕ → ℕ → ℕ → ℕ → BlockAllocator
allocator totally_free free_pages count free_blocks in_use = record {
  totally_free = totally_free;
  free_pages = free_pages;
  busy_pages = [];
  block_size = 8;
  blocks_per_page = 496;
  free_pages_count = count;
  busy_pages_count = 0;
  free_blocks_count = free_blocks;
  allocated_blocks_count = in_use;
  magic = 3;
}

-- Without a page, with a page of free blocks, and with one of which a block is in use.
abbrev pub without_page : BlockAllocator
without_page = allocator [] [] 0 0 0

abbrev pub with_page : BlockAllocator
with_page = allocator (0x40000 ∷ []) [] 1 496 0

abbrev pub with_used : BlockAllocator
with_used = allocator [] (0x40000 ∷ []) 1 495 1

abbrev pub world : World
world = record { pages = pages; memory = memory }

abbrev pub used_world : World
used_world = record { pages = pages; memory = used_memory }

pub without_page-IsValid : IsValid without_page memory
without_page-IsValid = record {
  some_blocks = omega arith;
  few_blocks = omega arith;
  size_pos = omega arith;
  fits = omega arith;
  all_free = tt;
  part_free = tt;
  none_free = tt;
  all_distinct = tt;
  part_distinct = tt;
  none_distinct = tt;
  few_pages = omega arith;
  free_pages_counted = refl;
  busy_pages_counted = refl;
  free_blocks_counted = refl;
  blocks_counted = refl;
}

pub with_page-IsValid : IsValid with_page memory
with_page-IsValid = record {
  some_blocks = omega arith;
  few_blocks = omega arith;
  size_pos = omega arith;
  fits = omega arith;
  all_free = (
    record {
      aligned = refl;
      high = omega arith;
      hdr = record { words = refl; wide = omega arith; small = omega arith; counted = refl };
      signed = refl;
      free = refl;
    },
    tt,
  );
  part_free = tt;
  none_free = tt;
  all_distinct = (tt, tt);
  part_distinct = tt;
  none_distinct = tt;
  few_pages = omega arith;
  free_pages_counted = refl;
  busy_pages_counted = refl;
  free_blocks_counted = refl;
  blocks_counted = refl;
}

pub with_used-IsValid : IsValid with_used used_memory
with_used-IsValid = record {
  some_blocks = omega arith;
  few_blocks = omega arith;
  size_pos = omega arith;
  fits = omega arith;
  all_free = tt;
  part_free = (
    record {
      aligned = refl;
      high = omega arith;
      hdr = record { words = refl; wide = omega arith; small = omega arith; counted = refl };
      signed = refl;
      free = (omega arith, omega arith);
    },
    tt,
  );
  none_free = tt;
  all_distinct = tt;
  part_distinct = (tt, tt);
  none_distinct = tt;
  few_pages = omega arith;
  free_pages_counted = refl;
  busy_pages_counted = refl;
  free_blocks_counted = refl;
  blocks_counted = refl;
}

abbrev pub no_pages : PageAllocator
no_pages = record { regions = []; busy_regions = [] }

pub no_page_run : alloc_page lowest_bit no_pages 0 ≡ ok (no_pages, 0)
unfolding alloc_page
no_page_run = refl
