-- ===== src/Slab/PageAllocator/Ownership.antt =====
-- PageAllocator::belongsToUs() against the regions that the allocator holds.
use s2e.Common.{
  ℕ, ◌+◌, ◌%◌, ◌^◌, ◌≤◌, ◌<◌, ◌≡◌, ◌↔◌, ◌&&◌, inl, inr, true, false, List, [], ◌∷◌, some, arith,
  ltb, leb, Bool-cases, Option-cases, replicate,
}
use s2e.Slab.Bitmap.{Word}
use s2e.Slab.RegionMap.{region_size, at_base}
use s2e.Slab.RegionMap.Laws.{Apart, at_base-bound, at_base-Clear}
use s2e.Slab.PageAllocator.{PageAllocator, in_regions, belongs_to_us}
use s2e.Slab.PageAllocator.Invariant.{IsValid, view, busy-Clear}

-- The address lies in a region of the container.
abbrev Within : {V : Type 0} → ℕ → List (ℕ × V) → Type 0
Within {V} addr m =
    (r : ℕ) × (v : V) × (at_base r m ≡ some v) × (r ≤ addr) × (addr < r + region_size)

module _ {V : Type 0} (addr : ℕ) where
  Within-tail :
      (lo s : ℕ) (x : V) (m : List (ℕ × V))
      → Apart lo ((s, x) ∷ m)
      → Within addr m
      → Within addr ((s, x) ∷ m)
  Within-tail lo s x m a (r, v, e, p, q) =
      (r, v, ground (arith, at_base-bound (s + region_size) r v m a.2), p, q)

  in_regions_sound :
      (lo : ℕ) (m : List (ℕ × V)) → Apart lo m → in_regions addr m ≡ true → Within addr m
  unfolding in_regions
  in_regions_sound lo [] a h = cc
  in_regions_sound lo ((s, x) ∷ m) a h =
      elim (Bool-cases (leb s addr && ltb addr ((s + region_size) % 2 ^ 64))) [
        | inl here ↦ (s, x, ground arith, ground arith, ground arith)
        | inr later ↦
            Within-tail lo s x m a (in_regions_sound (s + region_size) m a.2 (rw later at h))
      ]

  in_regions_complete :
      (lo r : ℕ) (v : V) (m : List (ℕ × V))
      → Apart lo m
      → at_base r m ≡ some v
      → r ≤ addr
      → addr < r + region_size
      → in_regions addr m ≡ true
  unfolding in_regions
  in_regions_complete lo r v [] a e p q = cc
  in_regions_complete lo r v ((s, x) ∷ m) a e p q =
      ground (arith, in_regions_complete (s + region_size) r v m a.2)

module _ (pa : PageAllocator) (addr : ℕ) (v : IsValid pa) where
  abbrev Held : Type 0
  Held = (r : ℕ) × (w : Word) × (view pa r ≡ some w) × (r ≤ addr) × (addr < r + region_size)

  held_shared : Within addr pa.regions → Held
  held_shared (r, w, e, p, q) =
      let free =
        at_base-Clear r pa.busy_regions (busy-Clear r w pa.regions pa.busy_regions e v.busy) in
      (r, w, rw (view, free) e, p, q)

  held-IsBusy : Within addr pa.busy_regions → Held
  held-IsBusy (r, u, e, p, q) = (r, replicate 64 false, rw (view, e), p, q)

  sound : belongs_to_us pa addr ≡ true → Held
  unfolding belongs_to_us
  sound h = elim (Bool-cases (in_regions addr pa.regions)) [
    | inl e ↦ held_shared (in_regions_sound addr 1 pa.regions v.regions_apart e)
    | inr e ↦ held-IsBusy (in_regions_sound addr 1 pa.busy_regions v.busy_apart (rw e at h))
  ]

  complete : Held → belongs_to_us pa addr ≡ true
  unfolding belongs_to_us
  complete (r, w, e, p, q) = elim (Option-cases (at_base r pa.busy_regions)) [
    | inl shared ↦
        rw (in_regions_complete addr 1 r w pa.regions v.regions_apart (rw (view, shared) at e) p q)
    | inr (u, busy) ↦
        ground (arith, in_regions_complete addr 1 r u pa.busy_regions v.busy_apart busy p q)
  ]

  -- In a well-formed allocator, belongsToUs(addr) holds exactly when the address lies within a
  -- region that the allocator holds, with free pages or without.
  pub belongs_to_us_iff :
      (belongs_to_us pa addr ≡ true)
      ↔ ((r : ℕ) × (w : Word) × (view pa r ≡ some w) × (r ≤ addr) × (addr < r + region_size))
  belongs_to_us_iff = (sound, complete)
