-- ===== src/Slab/PageAllocator/Neighbour.antt =====
-- freePage() beside a region that has free pages. `RegCmp` takes a page for equal to any region
-- that begins within a region's size of it, also to one that does not contain it.
use s2e.Common.{ℕ, ◌+◌, ◌*◌, ◌≤◌, ◌<◌, ◌≡◌, some, arith, le→ltb, fault, bad_shift}
use s2e.Slab.Bitmap.{Word}
use s2e.Slab.RegionMap.{region_size, at_base}
use s2e.Slab.RegionMap.Laws.{at_base-bound, find_neighbour}
use s2e.Slab.RegionMap.All.{All-at}
use s2e.Slab.PageAllocator.{PageAllocator, page_size, page_index, free_shared, free_page}
use s2e.Slab.PageAllocator.Invariant.{IsBusy, IsValid}

-- When a busy region lies directly below a region that has free pages, giving back any page of it
-- but the first makes the code compute with the neighbour's address: the index of the page wraps
-- round, and the bitmap is shifted by 64 or more.
pub free_page_neighbour :
    (pa : PageAllocator) (r i : ℕ) (w : Word)
    → IsValid pa
    → at_base r pa.busy_regions ≡ some tt
    → at_base (r + region_size) pa.regions ≡ some w
    → 1 ≤ i
    → i < 64
    → free_page pa (r + i * page_size) ≡ fault bad_shift
unfolding free_page free_shared
free_page_neighbour pa r i w v held next lo hi =
    let bound = at_base-bound 1 (r + region_size) w pa.regions v.regions_apart next in
    let clear = All-at (IsBusy pa.regions) r tt pa.busy_regions v.busy held in
    rw (
      free_page,
      find_neighbour 1 (r + i * page_size) r w pa.regions v.regions_apart clear.1 (omega arith)
          (omega arith) next,
      free_shared,
      le→ltb (page_index (r + i * page_size) (r + region_size)) 64 (omega (arith, bound)),
    )
