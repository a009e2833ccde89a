-- ===== src/Slab/PageAllocator.antt =====
-- PageAllocator of include/s2e/Slab.h and src/s2e/Slab.cpp: 4 KB pages out of 256 KB regions.
-- `m_regions` maps each region with a free page to the bitmap of its free pages, and
-- `m_busyRegions` holds the regions with none. The value that mmap returns is an argument. The
-- fill bytes that `memset` writes into a page are no part of the state.
pub mod Invariant
pub mod Alloc
pub mod Free
pub mod Neighbour
pub mod Ownership
use s2e.Common.{
  ℕ, ◌+◌, ◌-◌, ◌*◌, ◌/◌, ◌%◌, ◌^◌, Bool, true, false, not, ◌&&◌, ◌||◌, List, [], ◌∷◌, ◌++◌, Option,
  none, some, get_or, set, replicate, ltb, leb, ◌==◌, if◌then◌else◌, Fault, assertion, bad_shift,
  use_after_free, Result, ok, fault, ◌>>=◌, ◌>>◌, check,
}
use s2e.Slab.Bitmap.{Word, all_ones, is_zero, is_ones, BitScan}
use s2e.Slab.RegionMap.{region_size, find, assign, erase}

-- getPageSize()
abbrev pub page_size : ℕ
page_size = 0x1000

pub record PageAllocator : Type 0 where
  pub regions : List (ℕ × Word)
  pub busy_regions : List (ℕ × Unit {0})

unfoldable pub init : PageAllocator
init = record { regions = []; busy_regions = [] }

-- The number of a page in the region at `r`: the difference of two uintptr_t wraps.
abbrev pub page_index : ℕ → ℕ → ℕ
page_index page r = (page + 2 ^ 64 - r) % 2 ^ 64 / page_size

-- 1LL << index is defined below 64 only.
abbrev pub check_shift : ℕ → Result (Unit {0})
check_shift index = if ltb index 64 then ok tt else fault bad_shift

-- What is left of the first region once its page `i` is taken.
take_page : PageAllocator → ℕ → Word → List (ℕ × Word) → PageAllocator
take_page pa r w rest =
    if is_zero w
    then record { regions = erase r ((r, w) ∷ rest); busy_regions = assign r tt pa.busy_regions }
    else record pa { regions = (r, w) ∷ rest }

-- allocPage(); `os_region` is the address that osAlloc() returns.
module _ (B : BitScan) where
  alloc_from : PageAllocator → List (ℕ × Word) → ℕ → Result (PageAllocator × ℕ)
  unfolding take_page
  alloc_from pa [] os_region =
      if os_region == 0
      then ok (pa, 0)
      else ok
          (record pa { regions = assign os_region (set all_ones 0 false) pa.regions }, os_region)
  alloc_from pa ((r, w) ∷ rest) os_region = elim (B.scan w) [
    | none ↦ fault assertion
    | some index ↦ ok (take_page pa r (set w index false) rest, (r + index * page_size) % 2 ^ 64)
  ]

  unfoldable pub alloc_page : PageAllocator → ℕ → Result (PageAllocator × ℕ)
  unfolding alloc_from
  alloc_page pa os_region = alloc_from pa pa.regions os_region

-- A page of a busy region comes back. The code erases the element from the set, and then reads the
-- region's address through the iterator to it, so that what it does then is undefined.
free_busy : PageAllocator → ℕ → Option (ℕ × Unit {0}) → Result (PageAllocator × Option ℕ)
free_busy pa page none = fault assertion
free_busy pa page (some (r, _)) = do check_shift (page_index page r); fault use_after_free

-- A page of a region that has free pages comes back.
free_shared : PageAllocator → ℕ → ℕ → Word → Result (PageAllocator × Option ℕ)
free_shared pa page r w = do
  check_shift (page_index page r)
  check (not (get_or w (page_index page r) false))
  let w' = set w (page_index page r) true
  ok (
      if is_ones w'
      then (record pa { regions = erase r pa.regions }, some r)
      else (record pa { regions = assign r w' pa.regions }, none))

-- freePage(page); the second part is the region that goes back to the system by osFree().
unfoldable pub free_page : PageAllocator → ℕ → Result (PageAllocator × Option ℕ)
unfolding free_busy free_shared
free_page pa page = elim (find page pa.regions) [
  | none ↦ free_busy pa page (find page pa.busy_regions)
  | some (r, w) ↦ free_shared pa page r w
]

-- A loop of belongsToUs(addr).
unfoldable pub in_regions {ℓ} : {V : Type ℓ} → ℕ → List (ℕ × V) → Bool
in_regions addr [] = false
in_regions addr ((a, _) ∷ m) =
    (leb a addr && ltb addr ((a + region_size) % 2 ^ 64)) || in_regions addr m

unfoldable pub belongs_to_us : PageAllocator → ℕ → Bool
unfolding in_regions
belongs_to_us pa addr = in_regions addr pa.regions || in_regions addr pa.busy_regions

bases {ℓ} : {V : Type ℓ} → List (ℕ × V) → List ℕ
bases [] = []
bases ((r, _) ∷ m) = r ∷ bases m

-- The regions that ~PageAllocator() gives back.
pub destroy : PageAllocator → List ℕ
unfolding bases
destroy pa = bases pa.regions ++ bases pa.busy_regions
