-- ===== src/Slab/SlabAllocator.antt =====
-- SlabAllocator of include/s2e/Slab.h and src/s2e/Slab.cpp: a block allocator for each power of two
-- from 2^minPo2 to 2^maxPo2, and the page's signature to find the one that an address came from.
pub mod Log
pub mod Invariant
pub mod RoundTrip
pub mod Construction
use s2e.Common.{
  ℕ, zero, suc, ◌+◌, ◌-◌, ◌*◌, ◌/◌, ◌%◌, ◌^◌, Bool, true, false, ◌&&◌, ◌||◌, List, [], ◌∷◌, Option,
  none, some, get_elem?, set, length, ltb, leb, ◌==◌, if◌then◌else◌, assertion, out_of_bounds,
  Result, ok, fault, ◌>>=◌, ◌>>◌, check,
}
use s2e.Slab.Bitmap.{BitScan}
use s2e.Slab.PageAllocator
use s2e.Slab.PageAllocator.{page_size, belongs_to_us}
use s2e.Slab.BlockHdr.{BlockHdr}
use s2e.Slab.BlockAllocator
use s2e.Slab.BlockAllocator.{BlockAllocator, World, Memory, block_hdr_signature}

pub record SlabAllocator : Type 0 where
  pub bas : List BlockAllocator
  pub min_po2 : ℕ
  pub max_po2 : ℕ
  pub world : World

-- The number of slots that `new BlockAllocator*[m_maxPo2 - m_minPo2]` asks for.
abbrev pub slots : ℕ → ℕ → ℕ
slots min_po2 max_po2 = max_po2 - min_po2

-- An index into an array of n elements.
abbrev pub check_index : ℕ → ℕ → Result (Unit {0})
check_index i n = if ltb i n then ok tt else fault out_of_bounds

-- The loop of the constructor from i on, in an array of n slots: what it writes to the slots.
unfoldable pub build : ℕ → ℕ → ℕ → ℕ → Result (List BlockAllocator)
build n zero i min_po2 = ok []
build n (suc rounds) i min_po2 = do
  ba ← BlockAllocator.init (i + min_po2) (i + min_po2)
  check_index i n
  rest ← build n rounds (i + 1) min_po2
  ok (ba ∷ rest)

-- SlabAllocator(minPo2, maxPo2)
pub init : ℕ → ℕ → Memory → Result SlabAllocator
unfolding build
init min_po2 max_po2 memory = do
  check (leb min_po2 max_po2)
  bas ← build (slots min_po2 max_po2) (max_po2 - min_po2 + 1) 0 min_po2
  ok (record {
    bas = bas;
    min_po2 = min_po2;
    max_po2 = max_po2;
    world = record { pages = PageAllocator.init; memory = memory };
  })

-- getSlab(addr): the index of the block allocator, `none` where no signature stands in the page.
pub get_slab : SlabAllocator → ℕ → Result (Option ℕ)
get_slab s addr =
    let hdr = s.world.memory (addr / page_size * page_size) in
    let m = hdr.signature % 256 in
    let slot =
      if leb m s.max_po2 && leb s.min_po2 m
      then (do check_index (m - s.min_po2) (length s.bas); ok (some (m - s.min_po2)))
      else fault assertion in
    if hdr.signature / 256 * 256 == block_hdr_signature then slot else ok none

-- log(size)
unfoldable pub log : ℕ → ℕ
log size =
    if leb 4 size && leb size 8
    then 3
    else if leb 9 size && leb size 16
    then 4
    else if leb 17 size && leb size 32
    then 5
    else if leb 33 size && leb size 64
    then 6
    else if leb 65 size && leb size 128
    then 7
    else if leb 129 size && leb size 256
    then 8
    else 0

-- m_bas[i]
abbrev pub slab_at : SlabAllocator → ℕ → Result BlockAllocator
slab_at s i = elim (get_elem? s.bas i) [ none ↦ fault out_of_bounds | some ba ↦ ok ba ]

-- alloc(size); the last part is the block's address, or 0.
unfoldable pub alloc : BitScan → SlabAllocator → ℕ → ℕ → Result (SlabAllocator × ℕ)
alloc B s size os_region =
    let i = log size in
    let slot = i - s.min_po2 in
    if i == 0 || ltb i s.min_po2 || ltb s.max_po2 i then ok (s, 0) else (do
      ba ← slab_at s slot
      (ba', w, addr) ← BlockAllocator.alloc B ba s.world os_region
      ok (record s { bas = set s.bas slot ba'; world = w }, addr))

free_in : SlabAllocator → ℕ → Option ℕ → Result (SlabAllocator × Bool)
free_in s addr none = ok (s, false)
free_in s addr (some slot) = do
  check (belongs_to_us s.world.pages addr)
  ba ← slab_at s slot
  (ba', w) ← BlockAllocator.free ba s.world addr
  ok (record s { bas = set s.bas slot ba'; world = w }, true)

-- free(addr)
pub free : SlabAllocator → ℕ → Result (SlabAllocator × Bool)
free s addr = get_slab s addr >>= free_in s addr

-- isValid(addr)
pub is_valid : SlabAllocator → ℕ → Result Bool
is_valid s addr = do slot ← get_slab s addr; ok (elim slot [ none ↦ false | some _ ↦ true ])

-- The total that printStats() prints, a uint64_t.
total_size : ℕ → List BlockAllocator → ℕ → ℕ
total_size i [] acc = acc
total_size i (ba ∷ bas) acc =
    total_size (i + 1) bas ((acc + 2 ^ i * ba.allocated_blocks_count) % 2 ^ 64)

pub print_stats : SlabAllocator → ℕ
unfolding total_size
print_stats s = total_size s.min_po2 s.bas 0
