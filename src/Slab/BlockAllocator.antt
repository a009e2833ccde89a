-- ===== src/Slab/BlockAllocator.antt =====
-- BlockAllocator of include/s2e/Slab.h and src/s2e/Slab.cpp: blocks of one size, cut out of pages.
-- The three intrusive lists are the page addresses in list order; `memory` gives the header that
-- stands at a page's address. The fill bytes written into blocks are no part of the state.
pub mod Pages
pub mod Invariant
pub mod Settle
pub mod Alloc
pub mod Frame
pub mod Unlink
pub mod Expand
pub mod Release
pub mod Refill
pub mod Free
use s2e.Common.{
  ℕ, ◌+◌, ◌-◌, ◌*◌, ◌/◌, ◌%◌, ◌^◌, Bool, List, [], ◌∷◌, ◌++◌, ltb, ◌==◌, if◌then◌else◌, assertion,
  Result, ok, fault, ◌>>=◌, ◌>>◌, check,
}
use s2e.Slab.Bitmap.{BitScan}
use s2e.Slab.PageAllocator.{PageAllocator, page_size, alloc_page, free_page}
use s2e.Slab.BlockHdr
use s2e.Slab.BlockHdr.{BlockHdr, hdr_size, find_free}

-- What stands in memory at each address, read as a block header.
abbrev pub Memory : Type 0
Memory = ℕ → BlockHdr

abbrev pub write : Memory → ℕ → BlockHdr → Memory
write mem p h q = if p == q then h else mem q

-- The page allocator and the memory that the block allocators share.
pub record World : Type 0 where
  pub pages : PageAllocator
  pub memory : Memory

pub record BlockAllocator : Type 0 where
  pub totally_free : List ℕ
  pub free_pages : List ℕ
  pub busy_pages : List ℕ
  pub block_size : ℕ
  pub blocks_per_page : ℕ
  pub free_pages_count : ℕ
  pub busy_pages_count : ℕ
  pub free_blocks_count : ℕ
  pub allocated_blocks_count : ℕ
  pub magic : ℕ

-- BLOCK_HDR_SIGNATURE, whose low byte is 0: `| m_magic` of a uint8_t adds it.
abbrev pub block_hdr_signature : ℕ
block_hdr_signature = 0x11AABB00

-- `++` and `--` of a uint64_t, and `+=` and `-=`.
abbrev pub add64 : ℕ → ℕ → ℕ
add64 a b = (a + b) % 2 ^ 64

abbrev pub sub64 : ℕ → ℕ → ℕ
sub64 a b = (a + 2 ^ 64 - b) % 2 ^ 64

fresh : ℕ → ℕ → ℕ → BlockAllocator
fresh size count magic = record {
  totally_free = [];
  free_pages = [];
  busy_pages = [];
  block_size = size;
  blocks_per_page = count;
  free_pages_count = 0;
  busy_pages_count = 0;
  free_blocks_count = 0;
  allocated_blocks_count = 0;
  magic = magic;
}

-- BlockAllocator(pa, blockSizePo2, magic)
unfoldable pub init : ℕ → ℕ → Result BlockAllocator
unfolding fresh
init po2 magic = do
  let size = 2 ^ po2
  check (ltb size 2048)
  let count = (page_size - hdr_size) / size
  check (ltb count 512)
  ok (fresh size count (magic % 2 ^ 8))

-- list_remove_entry(&page->link): the entry leaves the list that it is in.
pub remove : ℕ → List ℕ → List ℕ
remove p [] = []
remove p (q ∷ qs) = if p == q then qs else q ∷ remove p qs

pub unlink : ℕ → BlockAllocator → BlockAllocator
unfolding remove
unlink p ba = record ba {
  totally_free = remove p ba.totally_free;
  free_pages = remove p ba.free_pages;
  busy_pages = remove p ba.busy_pages;
}

-- list_remove_tail(head), for a list that is not empty.
split_tail : ℕ → List ℕ → List ℕ × ℕ
split_tail p [] = ([], p)
split_tail p (q ∷ qs) = let (rest, last) = split_tail q qs in (p ∷ rest, last)

-- A page with all blocks but one left goes to the front of the free list ...
to_free : BlockAllocator → ℕ → ℕ → BlockAllocator
unfolding unlink
to_free ba page count =
    let u = unlink page ba in
    if count == ba.blocks_per_page - 1 then record u { free_pages = page ∷ u.free_pages } else ba

-- ... and a page with none left to the front of the busy list.
to_busy : BlockAllocator → ℕ → ℕ → BlockAllocator
unfolding unlink
to_busy ba page count =
    let u = unlink page ba in
    if count == 0
    then record u {
      busy_pages = page ∷ u.busy_pages;
      free_pages_count = sub64 u.free_pages_count 1;
      busy_pages_count = add64 u.busy_pages_count 1;
    }
    else ba

count_alloc : BlockAllocator → BlockAllocator
count_alloc ba = record ba { allocated_blocks_count = add64 ba.allocated_blocks_count 1 }

take_block : BlockAllocator → BlockAllocator
take_block ba = record ba { free_blocks_count = sub64 ba.free_blocks_count 1 }

-- The lists and counters once a block of the page is taken and `count` blocks of it are left.
pub settle : BlockAllocator → ℕ → ℕ → BlockAllocator
unfolding to_free to_busy count_alloc take_block
settle ba page count = count_alloc (to_busy (to_free (take_block ba) page count) page count)

-- The first page of m_freeList, or else of m_totallyFreeList.
unfoldable pub first_page : List ℕ → List ℕ → Result ℕ
first_page (p ∷ _) _ = ok p
first_page [] (p ∷ _) = ok p
first_page [] [] = fault assertion

module _ (B : BitScan) where
  -- expand(); `os_region` is what mmap returns if a new region is needed. The last part is the new
  -- page, or 0.
  pub expand : BlockAllocator → World → ℕ → Result (BlockAllocator × World × ℕ)
  expand ba w os_region = do
    (pages, page) ← alloc_page B w.pages os_region
    let h = BlockHdr.init (w.memory page) ba.blocks_per_page
    let h' = record h { signature = block_hdr_signature + ba.magic }
    ok (
        if page == 0 then (ba, record w { pages = pages }, 0) else (
          record ba {
            totally_free = ba.totally_free ++ (page ∷ []);
            free_pages_count = add64 ba.free_pages_count 1;
            free_blocks_count = add64 ba.free_blocks_count ba.blocks_per_page;
          },
          record { pages = pages; memory = write w.memory page h' },
          page,
        ))

  -- alloc() from where a block is known to be free.
  pub alloc_block : BlockAllocator → World → Result (BlockAllocator × World × ℕ)
  unfolding settle first_page
  alloc_block ba w = do
    page ← first_page ba.free_pages ba.totally_free
    check (page % page_size == 0)
    fb ← find_free B (w.memory page) ba.blocks_per_page
    h ← BlockHdr.alloc (w.memory page) fb
    ok (
      settle ba page h.free_count,
      record w { memory = write w.memory page h },
      (page + hdr_size + fb * ba.block_size) % 2 ^ 64,
    )

  -- alloc(); the last part is the block's address, or 0.
  pub alloc : BlockAllocator → World → ℕ → Result (BlockAllocator × World × ℕ)
  alloc ba w os_region =
      if ba.free_blocks_count == 0
      then (do
        (ba', w', page) ← expand ba w os_region
        if page == 0 then ok (ba', w', 0) else alloc_block ba' w')
      else alloc_block ba w

-- shrink(): the last totally free page goes back to the page allocator.
shrink_from : BlockAllocator → World → List ℕ → Result (BlockAllocator × World)
unfolding split_tail
shrink_from ba w [] = ok (ba, w)
shrink_from ba w (p ∷ ps) = do
  let (rest, page) = split_tail p ps
  (pages, _) ← free_page w.pages page
  ok (
    record ba {
      totally_free = rest;
      free_pages_count = sub64 ba.free_pages_count 1;
      free_blocks_count = sub64 ba.free_blocks_count ba.blocks_per_page;
    },
    record w { pages = pages },
  )

pub shrink : BlockAllocator → World → Result (BlockAllocator × World)
unfolding shrink_from
shrink ba w = shrink_from ba w ba.totally_free

-- The index that free(b) computes, as an `unsigned`.
abbrev pub block_index : ℕ → ℕ → ℕ
block_index size b = sub64 (b % page_size) hdr_size / size % 2 ^ 32

-- A page with its first free block goes to the free list ...
freed_one : BlockAllocator → ℕ → ℕ → BlockAllocator
unfolding unlink
freed_one ba page count =
    let u = unlink page ba in
    if count == 1
    then record u {
      free_pages = page ∷ u.free_pages;
      free_pages_count = add64 u.free_pages_count 1;
      busy_pages_count = sub64 u.busy_pages_count 1;
    }
    else ba

-- ... and one with all blocks free to the totally free list.
freed_all : BlockAllocator → ℕ → ℕ → BlockAllocator
unfolding unlink
freed_all ba page count =
    let u = unlink page ba in
    if count == ba.blocks_per_page then record u { totally_free = page ∷ u.totally_free } else ba

count_free : BlockAllocator → BlockAllocator
count_free ba = record ba {
  free_blocks_count = add64 ba.free_blocks_count 1;
  allocated_blocks_count = sub64 ba.allocated_blocks_count 1;
}

pub release : BlockAllocator → ℕ → ℕ → BlockAllocator
unfolding freed_one freed_all count_free
release ba page count = freed_all (freed_one (count_free ba) page count) page count

-- free(b)
pub free : BlockAllocator → World → ℕ → Result (BlockAllocator × World)
unfolding release
free ba w b = do
  let page = b / page_size * page_size
  check ((w.memory page).signature == block_hdr_signature + ba.magic)
  h ← BlockHdr.free (w.memory page) (block_index ba.block_size b)
  ok (release ba page h.free_count, record w { memory = write w.memory page h })
