-- ===== src/Slab/PageAllocator/Free.antt =====
-- PageAllocator::freePage() gives back the page that it is called with.
use s2e.Common.{
  fault, use_after_free, ℕ, ◌+◌, ◌*◌, ◌^◌, ◌≤◌, ◌<◌, ◌≡◌, ◌∙◌, inl, inr, true, false, Option, none,
  some, arith, get_or, set, ◌==◌, if◌then◌else◌, ok, Bool-cases, length-set, get_or-set_self,
  lt→ltb,
}
use s2e.Slab.Bitmap.{Word, is_ones}
use s2e.Slab.Bitmap.Laws.{is_zero_of_get}
use s2e.Slab.RegionMap.{region_size, at_base, assign, erase}
use s2e.Slab.RegionMap.Laws.{
  Clear, at_base-Clear, at_base-bound, at_base-assign_old, at_base-erase, assign-Apart_old,
  erase-Apart, erase-Clear, find_within, find-Clear,
}
use s2e.Slab.RegionMap.All.{All-at, All-mono, All-assign_old, All-erase}
use s2e.Slab.PageAllocator.{PageAllocator, page_size, page_index, free_busy, free_shared, free_page}
use s2e.Slab.PageAllocator.Invariant.{IsShared, IsBusy, IsValid, view, busy-Clear, IsBusy-assign}

-- Page `i` of the region at `r`, whose bitmap was `w`, becomes free; a region without a used page
-- is given up.
pub record Returns (before after : ℕ → Option Word) (unmapped : Option ℕ) (r i : ℕ) (w : Word)
    : Type 0 where
  pub returned :
      (q : ℕ)
      → after q ≡ (
          if r == q then if is_ones (set w i true) then none else some (set w i true) else before q)
  pub given_up : unmapped ≡ (if is_ones (set w i true) then some r else none)

abbrev pub Freed : PageAllocator → ℕ → ℕ → Word → Type 0
Freed pa r i w =
    (pa' : PageAllocator) × (unmapped : Option ℕ) × (free_page pa (r + i * page_size)
      ≡ ok (pa', unmapped))
    × Returns (view pa) (view pa') unmapped r i w
    × IsValid pa'

index_lem : (r i : ℕ) → i < 64 → r + 2 * region_size ≤ 2 ^ 64 → page_index (r + i * page_size) r ≡ i
index_lem r i h k = omega arith

module _ (pa : PageAllocator) (r i : ℕ) (v : IsValid pa) (in_region : i < 64) where
  module _ (held : at_base r pa.busy_regions ≡ some tt)
      (above : Clear (r + i * page_size) pa.regions) where
    held_bound : (1 ≤ r) × (r + 2 * region_size ≤ 2 ^ 64)
    held_bound = at_base-bound 1 r tt pa.busy_regions v.busy_apart held

    busy_run : free_page pa (r + i * page_size) ≡ fault use_after_free
    unfolding free_page free_busy
    busy_run = rw (
      free_page,
      find-Clear 1 (r + i * page_size) pa.regions v.regions_apart (omega (arith, held_bound)) above,
      find_within 1 (r + i * page_size) r tt pa.busy_regions v.busy_apart held (omega arith)
          (omega (arith, held_bound)),
      free_busy,
      index_lem r i in_region held_bound.1,
      lt→ltb i 64 in_region,
    )

  module _ (w : Word) (held : at_base r pa.regions ≡ some w) (used : get_or w i false ≡ false) where
    region_bound : (1 ≤ r) × (r + 2 * region_size ≤ 2 ^ 64)
    region_bound = at_base-bound 1 r w pa.regions v.regions_apart held

    region-IsShared : IsShared r w
    region-IsShared = All-at IsShared r w pa.regions v.shared held

    beside_busy : Clear r pa.busy_regions
    beside_busy = busy-Clear r w pa.regions pa.busy_regions held v.busy

    abbrev emptied : PageAllocator
    emptied = record pa { regions = erase r pa.regions }

    abbrev kept : PageAllocator
    kept = record pa { regions = assign r (set w i true) pa.regions }

    shared_run :
        free_page pa (r + i * page_size)
        ≡ ok (if is_ones (set w i true) then (emptied, some r) else (kept, none))
    unfolding free_page free_shared
    shared_run = rw (
      free_page,
      find_within 1 (r + i * page_size) r w pa.regions v.regions_apart held (omega arith)
          (omega (arith, region_bound)),
      free_shared,
      index_lem r i in_region region_bound.1,
      lt→ltb i 64 in_region,
      used,
    )

    emptied-IsValid : IsValid emptied
    emptied-IsValid = record {
      regions_apart = erase-Apart 1 r pa.regions v.regions_apart;
      busy_apart = v.busy_apart;
      shared = All-erase IsShared r pa.regions v.shared;
      busy =
          All-mono (IsBusy pa.regions) (IsBusy (erase r pa.regions)) pa.busy_regions
            (λ s u h. (h.0, erase-Clear s r pa.regions h.1)) v.busy;
    }

    kept-IsValid : is_ones (set w i true) ≡ false → IsValid kept
    kept-IsValid part = record {
      regions_apart = assign-Apart_old 1 r (set w i true) w pa.regions v.regions_apart held;
      busy_apart = v.busy_apart;
      shared =
          All-assign_old IsShared 1 r (set w i true) w pa.regions v.regions_apart held
            (record {
              aligned = region-IsShared.aligned;
              width = length-set w i true ∙ region-IsShared.width;
              some_free =
                  is_zero_of_get (set w i true) i
                    (get_or-set_self w i true false (rw region-IsShared.width in_region));
              some_used = part;
            })
            v.shared;
      busy = IsBusy-assign r (set w i true) pa.regions pa.busy_regions beside_busy v.busy;
    }

    free_page-shared : Freed pa r i w
    free_page-shared = elim (Bool-cases (is_ones (set w i true))) [
      | inl all ↦ (
        emptied,
        some r,
        rw all at shared_run,
        record {
          returned = λ q. rw all (
              ground (
                arith,
                at_base-erase 1 r q w pa.regions v.regions_apart held,
                at_base-Clear r pa.busy_regions beside_busy,
              ));
          given_up = rw all;
        },
        emptied-IsValid,
      )
      | inr part ↦ (
        kept,
        none,
        rw part at shared_run,
        record {
          returned = λ q. rw part (
              ground (
                arith,
                at_base-assign_old 1 r q (set w i true) w pa.regions v.regions_apart held,
                at_base-Clear r pa.busy_regions beside_busy,
              ));
          given_up = rw part;
        },
        kept-IsValid part,
      )
    ]

  -- freePage() of a used page of a region that has free pages, in a well-formed allocator, fails no
  -- assertion: it marks that page free and no other, gives the region up exactly when no page of it is
  -- used any more, and keeps the allocator well-formed.
  pub free_page-Returns :
      (w : Word) → at_base r pa.regions ≡ some w → get_or w i false ≡ false → Freed pa r i w
  free_page-Returns w held used = free_page-shared w held used

  -- freePage() of any page of a busy region of a well-formed allocator, above which no region with a
  -- free page begins within a region's size, reads through an iterator to an element that it has erased.
  pub free_page_busy :
      at_base r pa.busy_regions ≡ some tt
      → Clear (r + i * page_size) pa.regions
      → free_page pa (r + i * page_size) ≡ fault use_after_free
  free_page_busy held above = busy_run held above
