-- ===== src/Slab/PageAllocator/Alloc.antt =====
-- PageAllocator::allocPage() takes a free page, and that page only.
use s2e.Common.{
  ℕ, ◌+◌, ◌*◌, ◌%◌, ◌^◌, ◌≤◌, ◌<◌, ◌≡◌, ◌⊎◌, inl, inr, refl, true, false, List, [], ◌∷◌, Option,
  none, some, arith, get_or, set, ◌==◌, if◌then◌else◌, ok, Bool-cases, length-set, get_or-set_self,
  ==_refl, ==_ne, ◌∙◌, ap,
}
use s2e.Slab.Bitmap.{Word, all_ones, is_zero, BitScan}
use s2e.Slab.Bitmap.Laws.{get_or-lt, is_ones_of_get, is_zero-replicate, scan_total}
use s2e.Slab.RegionMap.{region_size, assign}
use s2e.Slab.RegionMap.Laws.{
  Clear, Apart-Clear, at_base-Clear, at_base-assign_new, assign-Apart_new, erase-head, assign-nil,
  Apart-mono,
}
use s2e.Slab.RegionMap.All.{All-assign_new, All-mono}
use s2e.Slab.PageAllocator.{PageAllocator, page_size, take_page, alloc_from, alloc_page}
use s2e.Slab.PageAllocator.Invariant.{IsShared, IsBusy, IsValid, view, busy-Clear, IsBusy-assign}

-- What mmap returns for a new region: a page-aligned address, not 0, away from the allocator's
-- regions and from the end of the address space.
pub record IsFresh (pa : PageAllocator) (r : ℕ) : Type 0 where
  pub not_null : 1 ≤ r
  pub aligned : r % page_size ≡ 0
  pub room : r + 2 * region_size ≤ 2 ^ 64
  pub clear : Clear r pa.regions
  pub clear_busy : Clear r pa.busy_regions

-- Page `i` of the region at `r` was free, in a region with the bitmap `w` or in a new one, and is
-- no longer; nothing else changed.
pub record Takes (before after : ℕ → Option Word) (r i : ℕ) (w : Word) : Type 0 where
  pub in_region : i < 64
  pub was_free : get_or w i false ≡ true
  pub found : (before r ≡ some w) ⊎ (before r ≡ none) × (w ≡ all_ones)
  pub taken : (q : ℕ) → after q ≡ (if r == q then some (set w i false) else before q)

abbrev pages : List (ℕ × Word) → List (ℕ × Unit {0}) → PageAllocator
pages m b = record { regions = m; busy_regions = b }

module _ (r i : ℕ) (w : Word) (rest : List (ℕ × Word)) (b : List (ℕ × Unit {0}))
    (v : IsValid (pages ((r, w) ∷ rest) b)) (set_bit : get_or w i false ≡ true) where
  bit_in : i < 64
  bit_in = omega (arith, get_or-lt w i set_bit, v.shared.0.width)

  head-Clear : Clear r b
  head-Clear = busy-Clear r w ((r, w) ∷ rest) b (rw (==_refl r)) v.busy

  rest-Clear : Clear r rest
  rest-Clear = Apart-Clear (r + region_size) r rest (omega arith) v.regions_apart.2

  still-IsShared : is_zero (set w i false) ≡ false → IsShared r (set w i false)
  still-IsShared part = record {
    aligned = v.shared.0.aligned;
    width = length-set w i false ∙ v.shared.0.width;
    some_free = part;
    some_used =
        is_ones_of_get (set w i false) i (rw (length-set w i false) (get_or-lt w i set_bit))
          (get_or-set_self w i false false (get_or-lt w i set_bit));
  }

  take_page-IsValid : IsValid (take_page (pages ((r, w) ∷ rest) b) r (set w i false) rest)
  unfolding take_page
  take_page-IsValid = elim (Bool-cases (is_zero (set w i false))) [
    | inl full ↦
        rw (full, erase-head 1 r (set w i false) rest v.regions_apart)
          (record {
            regions_apart = Apart-mono 1 (r + region_size) rest (omega arith) v.regions_apart.2;
            busy_apart =
                assign-Apart_new 1 r tt b v.busy_apart head-Clear v.regions_apart.0
                  v.regions_apart.1;
            shared = v.shared.1;
            busy =
                All-assign_new (IsBusy rest) 1 r tt b v.busy_apart head-Clear v.regions_apart.1
                  (v.shared.0.aligned, rest-Clear)
                  (All-mono (IsBusy ((r, w) ∷ rest)) (IsBusy rest) b (λ s u h. (h.0, h.1.1))
                    v.busy);
          })
    | inr part ↦ rw part (record {
      regions_apart = v.regions_apart;
      busy_apart = v.busy_apart;
      shared = (still-IsShared part, v.shared.1);
      busy = v.busy;
    })
  ]

  take_page-taken :
      (q : ℕ)
      → view (take_page (pages ((r, w) ∷ rest) b) r (set w i false) rest) q
        ≡ (if r == q then some (set w i false) else view (pages ((r, w) ∷ rest) b) q)
  unfolding take_page
  take_page-taken q = elim (Bool-cases (is_zero (set w i false))) [
    | inl full ↦
        rw (full, erase-head 1 r (set w i false) rest v.regions_apart)
          (ground (
            arith,
            at_base-assign_new 1 r q tt b v.busy_apart head-Clear v.regions_apart.1,
            is_zero-replicate (set w i false) full,
            length-set w i false,
            v.shared.0.width,
            at_base-Clear r b head-Clear,
          ))
    | inr part ↦ rw part (ground (arith, at_base-Clear r b head-Clear))
  ]

-- What a successful allocation amounts to.
abbrev pub Allocated : BitScan → PageAllocator → ℕ → Type 0
Allocated B pa os_region =
    (pa' : PageAllocator) × (r : ℕ) × (i : ℕ) × (w : Word) × (alloc_page B pa os_region
      ≡ ok (pa', r + i * page_size))
    × Takes (view pa) (view pa') r i w
    × IsValid pa'

module _ (B : BitScan) (os_region : ℕ) where
  alloc_shared :
      (r : ℕ) (w : Word) (rest : List (ℕ × Word)) (b : List (ℕ × Unit {0}))
      → IsValid (pages ((r, w) ∷ rest) b)
      → Allocated B (pages ((r, w) ∷ rest) b) os_region
  unfolding alloc_page alloc_from
  alloc_shared r w rest b v =
      let (i, e) = scan_total B w v.shared.0.some_free in
      let here = B.scan_set w i e in
      (
        take_page (pages ((r, w) ∷ rest) b) r (set w i false) rest,
        r,
        i,
        w,
        rw (e, alloc_from)
            (ap (λ p. ok (take_page (pages ((r, w) ∷ rest) b) r (set w i false) rest, p))
              (omega (arith, bit_in r i w rest b v here))),
        record {
          in_region = bit_in r i w rest b v here;
          was_free = here;
          found = inl (ground (arith, at_base-Clear r b (head-Clear r i w rest b v here)));
          taken = take_page-taken r i w rest b v here;
        },
        take_page-IsValid r i w rest b v here,
      )

  alloc_new :
      (b : List (ℕ × Unit {0}))
      → IsValid (pages [] b)
      → IsFresh (pages [] b) os_region
      → Allocated B (pages [] b) os_region
  unfolding alloc_page alloc_from
  alloc_new b v f = (
    pages (assign os_region (set all_ones 0 false) []) b,
    os_region,
    0,
    all_ones,
    rw (==_ne os_region 0 (omega arith))
        (ap (λ p. ok (pages (assign os_region (set all_ones 0 false) []) b, p)) (omega arith)),
    record {
      in_region = omega arith;
      was_free = refl;
      found = inr (rw (at_base-Clear os_region b f.clear_busy), refl);
      taken = λ q. ground (
        arith,
        at_base-Clear os_region b f.clear_busy,
        at_base-assign_new 1 os_region q (set all_ones 0 false) [] tt tt f.room,
      );
    },
    record {
      regions_apart = rw assign-nil (f.not_null, f.room, tt);
      busy_apart = v.busy_apart;
      shared =
          rw assign-nil
            (record { aligned = f.aligned; width = refl; some_free = refl; some_used = refl }, tt);
      busy = IsBusy-assign os_region (set all_ones 0 false) [] b f.clear_busy v.busy;
    },
  )

  alloc_parts :
      (m : List (ℕ × Word)) (b : List (ℕ × Unit {0}))
      → IsValid (pages m b)
      → (m ≡ [] → IsFresh (pages m b) os_region)
      → Allocated B (pages m b) os_region
  alloc_parts [] b v f = alloc_new b v (f refl)
  alloc_parts ((r, w) ∷ rest) b v f = alloc_shared r w rest b v

  -- In a well-formed allocator that has a region with a free page, or to which the system supplies a
  -- fresh region, allocPage() fails no assertion and returns page `i` of a region, which was free; that
  -- page is taken, no other page of any region changes, and the allocator stays well-formed.
  pub alloc_page-Takes :
      (pa : PageAllocator)
      → IsValid pa
      → (pa.regions ≡ [] → IsFresh pa os_region)
      → Allocated B pa os_region
  alloc_page-Takes pa = alloc_parts pa.regions pa.busy_regions
