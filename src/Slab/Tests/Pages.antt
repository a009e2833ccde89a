-- ===== src/Slab/Tests/Pages.antt =====
-- Runs of PageAllocator.
use s2e.Common.{use_after_free, ◌≡◌, refl, arith, false, [], ◌∷◌, some, set, ok, fault, bad_shift}
use s2e.Slab.RegionMap.{find, assign, erase}
use s2e.Slab.Bitmap.{Word, all_ones}
use s2e.Slab.PageAllocator.{PageAllocator, init, alloc_page, free_page}
use s2e.Slab.PageAllocator.Invariant.{IsValid}
use s2e.Slab.PageAllocator.Alloc.{Allocated, alloc_page-Takes}
use s2e.Slab.PageAllocator.Free.{Freed, free_page-Returns, free_page_busy}
use s2e.Slab.PageAllocator.Neighbour.{free_page_neighbour}
use s2e.Slab.Tests.{lowest_bit, first_set}

-- All pages but the first are free.
abbrev most : Word
most = set all_ones 0 false

-- One region, one page of it in use.
abbrev one_used : PageAllocator
one_used = record { regions = (0x40000, most) ∷ []; busy_regions = [] }

-- A busy region, and a region with free pages directly above it.
abbrev neighbours : PageAllocator
neighbours = record { regions = (0x80000, most) ∷ []; busy_regions = (0x40000, tt) ∷ [] }

first_page_run : alloc_page lowest_bit init 0x40000 ≡ ok (one_used, 0x40000)
unfolding alloc_page init assign lowest_bit first_set
first_page_run = refl

second_page_run :
    alloc_page lowest_bit one_used 0
    ≡ ok (record one_used { regions = (0x40000, set most 1 false) ∷ [] }, 0x41000)
unfolding alloc_page lowest_bit first_set
second_page_run = refl

last_page_run : free_page one_used 0x40000 ≡ ok (init, some 0x40000)
unfolding free_page init find erase
last_page_run = refl

one_used-IsValid : IsValid one_used
one_used-IsValid = record {
  regions_apart = (omega arith, omega arith, tt);
  busy_apart = tt;
  shared = (record { aligned = refl; width = refl; some_free = refl; some_used = refl }, tt);
  busy = tt;
}

neighbours-IsValid : IsValid neighbours
neighbours-IsValid = record {
  regions_apart = (omega arith, omega arith, tt);
  busy_apart = (omega arith, omega arith, tt);
  shared = (record { aligned = refl; width = refl; some_free = refl; some_used = refl }, tt);
  busy = ((refl, ((omega arith), tt)), tt);
}

alloc_page-Takes_example : Allocated lowest_bit one_used 0
alloc_page-Takes_example = alloc_page-Takes lowest_bit 0 one_used one_used-IsValid (λ e. cc)

free_page-Returns_example : Freed one_used 0x40000 0 most
free_page-Returns_example =
    free_page-Returns one_used 0x40000 0 one_used-IsValid (omega arith) most refl refl

-- A region whose pages are all used.
abbrev full : PageAllocator
full = record { regions = []; busy_regions = (0x40000, tt) ∷ [] }

full-IsValid : IsValid full
full-IsValid = record {
  regions_apart = tt;
  busy_apart = (omega arith, omega arith, tt);
  shared = tt;
  busy = ((refl, tt), tt);
}

free_page_busy_example : free_page full 0x41000 ≡ fault use_after_free
free_page_busy_example = free_page_busy full 0x40000 1 full-IsValid (omega arith) refl tt

free_page_neighbour_example : free_page neighbours 0x41000 ≡ fault bad_shift
free_page_neighbour_example =
    free_page_neighbour neighbours 0x40000 1 most neighbours-IsValid refl refl (omega arith)
      (omega arith)
