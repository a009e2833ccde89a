-- ===== src/Slab/PageAllocator/Invariant.antt =====
-- The well-formedness of PageAllocator, and its state seen as the free pages of each region.
use s2e.Common.{ℕ, ◌%◌, ◌≡◌, false, List, [], ◌∷◌, Option, none, some, length, replicate}
use s2e.Slab.Bitmap.{Word, is_zero, is_ones}
use s2e.Slab.RegionMap.{at_base, assign}
use s2e.Slab.RegionMap.Laws.{Apart, Clear, Beside-symm, assign-Clear, at_base_of_Clear}
use s2e.Slab.RegionMap.All.{All}
use s2e.Slab.PageAllocator.{PageAllocator, page_size, init}

-- A region with a free page: not all of its pages are free, or it would have been given back.
pub record IsShared (r : ℕ) (w : Word) : Type 0 where
  pub aligned : r % page_size ≡ 0
  pub width : length w ≡ 64
  pub some_free : is_zero w ≡ false
  pub some_used : is_ones w ≡ false

-- A busy region is aligned, and overlaps no region of `m`.
abbrev pub IsBusy : List (ℕ × Word) → ℕ → Unit {0} → Type 0
IsBusy m r _ = (r % page_size ≡ 0) × Clear r m

pub record IsValid (pa : PageAllocator) : Type 0 where
  pub regions_apart : Apart 1 pa.regions
  pub busy_apart : Apart 1 pa.busy_regions
  pub shared : All IsShared pa.regions
  pub busy : All (IsBusy pa.regions) pa.busy_regions

-- The free pages of the region at `r`; `none` where no region of the allocator starts there.
abbrev pub view : PageAllocator → ℕ → Option Word
view pa r = elim (at_base r pa.busy_regions) [
  | some _ ↦ some (replicate 64 false)
  | none ↦ at_base r pa.regions
]

pub init-IsValid : IsValid init
unfolding init
init-IsValid = record { regions_apart = tt; busy_apart = tt; shared = tt; busy = tt }

-- A region with free pages overlaps no busy region.
pub busy-Clear :
    (r : ℕ) (w : Word) (m : List (ℕ × Word)) (b : List (ℕ × Unit {0}))
    → at_base r m ≡ some w
    → All (IsBusy m) b
    → Clear r b
busy-Clear r w m [] e a = tt
busy-Clear r w m ((s, u) ∷ b) e a =
    (Beside-symm r s (at_base_of_Clear s r w m a.0.1 e), busy-Clear r w m b e a.1)

-- A region beside the busy ones may join the regions with free pages.
pub IsBusy-assign :
    (r : ℕ) (w : Word) (m : List (ℕ × Word)) (b : List (ℕ × Unit {0}))
    → Clear r b
    → All (IsBusy m) b
    → All (IsBusy (assign r w m)) b
IsBusy-assign r w m [] c a = tt
IsBusy-assign r w m ((s, u) ∷ b) c a =
    ((a.0.0, assign-Clear s r w m a.0.1 (Beside-symm s r c.0)), IsBusy-assign r w m b c.1 a.1)
