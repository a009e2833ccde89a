-- ===== src/Slab/BlockAllocator/Settle.antt =====
-- The lists and the counters after BlockAllocator::alloc() took a block of a page.
use s2e.Common.{
  ℕ, suc, ◌+◌, ◌-◌, ◌*◌, ◌≤◌, ◌<◌, ◌≡◌, refl, List, [], ◌∷◌, arith, length, ==_refl, ==_ne, inl,
  inr,
}
use s2e.Slab.BlockHdr.{BlockHdr}
use s2e.Slab.BlockHdr.Count.{IsHdr}
use s2e.Slab.BlockAllocator.{
  Memory, write, BlockAllocator, block_hdr_signature, settle, add64, sub64,
}
use s2e.Slab.BlockAllocator.Pages.{Absent, Absent-of, remove-Absent_id, remove-head, sum_free-off}
use s2e.Slab.BlockAllocator.Unlink.{InUse}
use s2e.Slab.BlockAllocator.Invariant.{
  IsPage, TotallyFree, PartlyFree, NoneFree, IsValid, IsPage-off,
}

pub scaled : (t n : ℕ) → n < 512 → t * n ≤ t * 512
scaled t n h = grind arith

-- The geometry does not change.
pub settle_shape :
    (ba : BlockAllocator) (p c : ℕ)
    → let b = settle ba p c in
      (b.block_size ≡ ba.block_size)
      × (b.blocks_per_page ≡ ba.blocks_per_page)
      × (b.magic ≡ ba.magic)
unfolding settle
settle_shape ba p c = ground arith

module _ (ba : BlockAllocator) (mem : Memory) (h : BlockHdr) (p : ℕ) where
  abbrev n : ℕ
  n = ba.blocks_per_page

  -- The page list that a block was taken from, and what the header is now.
  module _ (tf fs : List ℕ) (hv : IsHdr n h) (signed : h.signature ≡ block_hdr_signature + ba.magic)
      (down : (mem p).free_count ≡ suc h.free_count) where
    abbrev from_free : BlockAllocator
    from_free = record ba { totally_free = tf; free_pages = p ∷ fs }

    abbrev from_total : BlockAllocator
    from_total = record ba { totally_free = p ∷ fs; free_pages = [] }

    -- The page, once the block is taken.
    IsPage-now :
        (P Q : ℕ → Type 0)
        → IsPage n ba.magic P mem p
        → Q h.free_count
        → IsPage n ba.magic Q (write mem p h) p
    IsPage-now P Q v q = record {
      aligned = v.aligned;
      high = v.high;
      hdr = rw (==_refl p) hv;
      signed = rw (==_refl p) signed;
      free = rw (==_refl p) q;
    }

    part_total : IsValid from_free mem → Absent p tf
    part_total v =
        Absent-of (IsPage n ba.magic (TotallyFree n) mem) p tf
          (λ w. omega (arith, w.free, v.part_free.0.free)) v.all_free

    part_none : IsValid from_free mem → Absent p ba.busy_pages
    part_none v =
        Absent-of (IsPage n ba.magic NoneFree mem) p ba.busy_pages
          (λ w. omega (arith, w.free, v.part_free.0.free)) v.none_free

    abbrev counted : BlockAllocator → BlockAllocator
    counted b = record b {
      free_blocks_count = sub64 b.free_blocks_count 1;
      allocated_blocks_count = add64 b.allocated_blocks_count 1;
    }

    abbrev left_free : BlockAllocator
    left_free = record (counted from_free) {
      free_pages = fs;
      busy_pages = p ∷ ba.busy_pages;
      free_pages_count = sub64 ba.free_pages_count 1;
      busy_pages_count = add64 ba.busy_pages_count 1;
    }

    abbrev opened : BlockAllocator
    opened = record (counted from_total) { totally_free = fs; free_pages = p ∷ [] }

    settle_stays :
        IsValid from_free mem
        → 0 < h.free_count
        → settle from_free p h.free_count ≡ counted from_free
    unfolding settle
    settle_stays v more = rw (
      ==_ne h.free_count (n - 1) (omega (arith, v.part_free.0.free, v.some_blocks)),
      ==_ne h.free_count 0 (omega arith),
    )

    settle_leaves :
        IsValid from_free mem → h.free_count ≡ 0 → settle from_free p h.free_count ≡ left_free
    unfolding settle
    settle_leaves v none = rw (
      ==_ne h.free_count (n - 1) (omega (arith, v.part_free.0.free, v.some_blocks)),
      none,
      remove-head p fs,
      remove-Absent_id p tf (part_total v),
      remove-Absent_id p ba.busy_pages (part_none v),
    )

    total_none : IsValid from_total mem → Absent p ba.busy_pages
    total_none v =
        Absent-of (IsPage n ba.magic NoneFree mem) p ba.busy_pages
          (λ w. omega (arith, w.free, v.all_free.0.free, v.some_blocks)) v.none_free

    settle_opens : IsValid from_total mem → settle from_total p h.free_count ≡ opened
    unfolding settle
    settle_opens v =
        let last : h.free_count ≡ n - 1 = omega (arith, v.all_free.0.free) in
        rw (
          last,
          ==_refl (n - 1),
          ==_ne (n - 1) 0 (omega (arith, v.some_blocks)),
          remove-head p fs,
          remove-Absent_id p ba.busy_pages (total_none v),
        )

    pub stays :
        IsValid from_free mem
        → 0 < h.free_count
        → IsValid (settle from_free p h.free_count) (write mem p h)
    stays v more =
        let bound = scaled (length tf + suc (length fs) + length ba.busy_pages) n v.few_blocks in
        rw (settle_stays v more) (record {
          some_blocks = v.some_blocks;
          few_blocks = v.few_blocks;
          size_pos = v.size_pos;
          fits = v.fits;
          all_free = IsPage-off n ba.magic (TotallyFree n) mem p h tf (part_total v) v.all_free;
          part_free = (
            IsPage-now (PartlyFree n) (PartlyFree n) v.part_free.0
                (more, omega (arith, v.part_free.0.free)),
            IsPage-off n ba.magic (PartlyFree n) mem p h fs v.part_distinct.0 v.part_free.1,
          );
          none_free =
              IsPage-off n ba.magic NoneFree mem p h ba.busy_pages (part_none v) v.none_free;
          all_distinct = v.all_distinct;
          part_distinct = v.part_distinct;
          none_distinct = v.none_distinct;
          few_pages = v.few_pages;
          free_pages_counted = v.free_pages_counted;
          busy_pages_counted = v.busy_pages_counted;
          free_blocks_counted =
              rw (==_refl p, sum_free-off mem p h fs v.part_distinct.0) (omega arith);
          blocks_counted = omega arith;
        })

    pub leaves :
        IsValid from_free mem
        → h.free_count ≡ 0
        → IsValid (settle from_free p h.free_count) (write mem p h)
    leaves v none =
        let bound = scaled (length tf + suc (length fs) + length ba.busy_pages) n v.few_blocks in
        rw (settle_leaves v none) (record {
          some_blocks = v.some_blocks;
          few_blocks = v.few_blocks;
          size_pos = v.size_pos;
          fits = v.fits;
          all_free = IsPage-off n ba.magic (TotallyFree n) mem p h tf (part_total v) v.all_free;
          part_free =
              IsPage-off n ba.magic (PartlyFree n) mem p h fs v.part_distinct.0 v.part_free.1;
          none_free = (
            IsPage-now (PartlyFree n) NoneFree v.part_free.0 none,
            IsPage-off n ba.magic NoneFree mem p h ba.busy_pages (part_none v) v.none_free,
          );
          all_distinct = v.all_distinct;
          part_distinct = v.part_distinct.1;
          none_distinct = (part_none v, v.none_distinct);
          few_pages = omega (arith, v.few_pages);
          free_pages_counted = omega (arith, v.few_pages, v.free_pages_counted);
          busy_pages_counted = omega (arith, v.few_pages, v.busy_pages_counted);
          free_blocks_counted =
              rw (sum_free-off mem p h fs v.part_distinct.0) (omega (arith, v.free_blocks_counted));
          blocks_counted = omega arith;
        })

    pub opens : IsValid from_total mem → IsValid (settle from_total p h.free_count) (write mem p h)
    opens v =
        let bound = scaled (suc (length fs) + 0 + length ba.busy_pages) n v.few_blocks in
        rw (settle_opens v) (record {
          some_blocks = v.some_blocks;
          few_blocks = v.few_blocks;
          size_pos = v.size_pos;
          fits = v.fits;
          all_free = IsPage-off n ba.magic (TotallyFree n) mem p h fs v.all_distinct.0 v.all_free.1;
          part_free = (
            IsPage-now (TotallyFree n) (PartlyFree n) v.all_free.0
                (omega (arith, v.all_free.0.free, v.some_blocks), omega (arith, v.all_free.0.free)),
            tt,
          );
          none_free =
              IsPage-off n ba.magic NoneFree mem p h ba.busy_pages (total_none v) v.none_free;
          all_distinct = v.all_distinct.1;
          part_distinct = (tt, tt);
          none_distinct = v.none_distinct;
          few_pages = omega (arith, v.few_pages);
          free_pages_counted = omega (arith, v.free_pages_counted);
          busy_pages_counted = v.busy_pages_counted;
          free_blocks_counted =
              rw (==_refl p)
                (omega (arith, v.free_blocks_counted, v.all_free.0.free, v.blocks_counted));
          blocks_counted = omega (arith, v.free_blocks_counted, v.blocks_counted);
        })

    -- The page is then in the list of pages with a block in use, and has one.
    pub stays_held :
        IsValid from_free mem → 0 < h.free_count → InUse p (settle from_free p h.free_count)
    stays_held v more = rw (settle_stays v more) (inl (inl refl))

    pub leaves_held :
        IsValid from_free mem → h.free_count ≡ 0 → InUse p (settle from_free p h.free_count)
    leaves_held v none = rw (settle_leaves v none) (inr (inl refl))

    pub opens_held : IsValid from_total mem → InUse p (settle from_total p h.free_count)
    opens_held v = rw (settle_opens v) (inl (inl refl))
