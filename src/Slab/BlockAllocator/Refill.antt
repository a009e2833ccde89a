-- ===== src/Slab/BlockAllocator/Refill.antt =====
-- The lists and the counters after BlockAllocator::free() of a block of a partly free page.
use s2e.Common.{ℕ, suc, ◌+◌, ◌*◌, ◌^◌, ◌≤◌, ◌<◌, ◌≡◌, ◌≢◌, ap, ◌∷◌, arith, ==_refl, ==_ne, ==_iff}
use s2e.Slab.BlockHdr.{BlockHdr}
use s2e.Slab.BlockHdr.Count.{IsHdr}
use s2e.Slab.BlockAllocator.{
  Memory, write, BlockAllocator, block_hdr_signature, add64, sub64, release,
}
use s2e.Slab.BlockAllocator.Pages.{Absent, Absent-of, remove-Absent_id, sum_free, sum_free-off}
use s2e.Slab.BlockAllocator.Unlink.{
  Holds, AllPages-Holds, AllPages-remove, Distinct-remove, remove-Absent, length-remove,
  sum_free-remove,
}
use s2e.Slab.BlockAllocator.{remove}
use s2e.Slab.BlockAllocator.Invariant.{
  IsPage, TotallyFree, PartlyFree, NoneFree, IsValid, IsPage-off, IsPage-at,
}
use s2e.Slab.BlockAllocator.Release.{sum_free-le, IsPage-now, total_small}

module _ (ba : BlockAllocator) (mem : Memory) (p : ℕ) (h : BlockHdr) (v : IsValid ba mem)
    (hv : IsHdr ba.blocks_per_page h) (signed : h.signature ≡ block_hdr_signature + ba.magic)
    (up : h.free_count ≡ suc (mem p).free_count) where
  open ba use {blocks_per_page as n}

  module _ (held : Holds p ba.free_pages) where
    was_part : IsPage n ba.magic (PartlyFree n) mem p
    was_part =
        AllPages-Holds p (IsPage n ba.magic (PartlyFree n) mem) ba.free_pages held v.part_free

    part_total : Absent p ba.totally_free
    part_total =
        Absent-of (IsPage n ba.magic (TotallyFree n) mem) p ba.totally_free
          (λ a. omega (arith, a.free, was_part.free)) v.all_free

    part_busy : Absent p ba.busy_pages
    part_busy =
        Absent-of (IsPage n ba.magic NoneFree mem) p ba.busy_pages
          (λ a. omega (arith, a.free, was_part.free)) v.none_free

    off : Absent p (remove p ba.free_pages)
    off = remove-Absent p ba.free_pages v.part_distinct

    part_sum :
        sum_free mem ba.free_pages ≡ (mem p).free_count + sum_free mem (remove p ba.free_pages)
    part_sum = sum_free-remove p mem ba.free_pages held

    new_sum : sum_free (write mem p h) ba.free_pages ≡ suc (sum_free mem ba.free_pages)
    new_sum = omega (
      arith,
      sum_free-remove p (write mem p h) ba.free_pages held,
      sum_free-off mem p h (remove p ba.free_pages) off,
      part_sum,
      ap (λ (x : BlockHdr). x.free_count) (written p h),
    )
      where
        written : (p : ℕ) (h : BlockHdr) → write mem p h p ≡ h
        written p h = rw (==_refl p)

    -- The page holds a block in use, so the counters have room.
    part_room : suc ba.free_blocks_count ≤ ba.allocated_blocks_count + ba.free_blocks_count
    part_room =
        let few =
          sum_free-le n ba.magic mem (remove p ba.free_pages)
            (AllPages-remove p (IsPage n ba.magic (PartlyFree n) mem) ba.free_pages v.part_free) in
        omega (
          arith,
          v.blocks_counted,
          v.free_blocks_counted,
          few,
          part_sum,
          was_part.free,
          ap (λ (t : ℕ). t * n) (length-remove p ba.free_pages held),
        )

    all_small : ba.allocated_blocks_count + ba.free_blocks_count < 2 ^ 64
    all_small = total_small ba mem p h v hv signed up

    abbrev counted : BlockAllocator
    counted = record ba {
      free_blocks_count = add64 ba.free_blocks_count 1;
      allocated_blocks_count = sub64 ba.allocated_blocks_count 1;
    }

    abbrev emptied : BlockAllocator
    emptied = record counted {
      totally_free = p ∷ ba.totally_free;
      free_pages = remove p ba.free_pages;
    }

    release_kept : h.free_count ≢ n → release ba p h.free_count ≡ counted
    unfolding release
    release_kept more =
        rw (==_ne h.free_count 1 (omega (arith, was_part.free)), ==_ne h.free_count n more)

    release-emptied : h.free_count ≡ n → release ba p h.free_count ≡ emptied
    unfolding release
    release-emptied all = rw (
      ==_ne h.free_count 1 (omega (arith, was_part.free)),
      (==_iff h.free_count n).1 all,
      remove-Absent_id p ba.totally_free part_total,
      remove-Absent_id p ba.busy_pages part_busy,
    )

    pub kept-IsValid : h.free_count ≢ n → IsValid (release ba p h.free_count) (write mem p h)
    kept-IsValid more = rw (release_kept more) (record {
      some_blocks = v.some_blocks;
      few_blocks = v.few_blocks;
      size_pos = v.size_pos;
      fits = v.fits;
      all_free =
          IsPage-off n ba.magic (TotallyFree n) mem p h ba.totally_free part_total v.all_free;
      part_free =
          IsPage-at n ba.magic (PartlyFree n) mem p h ba.free_pages hv signed
            (omega arith, omega (arith, was_part.free)) v.part_free;
      none_free = IsPage-off n ba.magic NoneFree mem p h ba.busy_pages part_busy v.none_free;
      all_distinct = v.all_distinct;
      part_distinct = v.part_distinct;
      none_distinct = v.none_distinct;
      few_pages = v.few_pages;
      free_pages_counted = v.free_pages_counted;
      busy_pages_counted = v.busy_pages_counted;
      free_blocks_counted = omega (arith, new_sum, v.free_blocks_counted, part_room, all_small);
      blocks_counted = omega (arith, v.blocks_counted, part_room, all_small);
    })

    pub emptied-IsValid : h.free_count ≡ n → IsValid (release ba p h.free_count) (write mem p h)
    emptied-IsValid all = rw (release-emptied all) (record {
      some_blocks = v.some_blocks;
      few_blocks = v.few_blocks;
      size_pos = v.size_pos;
      fits = v.fits;
      all_free = (
        IsPage-now ba mem p h v hv signed up (PartlyFree n) (TotallyFree n) was_part all,
        IsPage-off n ba.magic (TotallyFree n) mem p h ba.totally_free part_total v.all_free,
      );
      part_free =
          IsPage-off n ba.magic (PartlyFree n) mem p h (remove p ba.free_pages) off
            (AllPages-remove p (IsPage n ba.magic (PartlyFree n) mem) ba.free_pages v.part_free);
      none_free = IsPage-off n ba.magic NoneFree mem p h ba.busy_pages part_busy v.none_free;
      all_distinct = (part_total, v.all_distinct);
      part_distinct = Distinct-remove p ba.free_pages v.part_distinct;
      none_distinct = v.none_distinct;
      few_pages = omega (arith, v.few_pages, length-remove p ba.free_pages held);
      free_pages_counted = omega (arith, v.free_pages_counted, length-remove p ba.free_pages held);
      busy_pages_counted = v.busy_pages_counted;
      free_blocks_counted =
          rw (sum_free-off mem p h (remove p ba.free_pages) off)
            (omega (arith, part_sum, v.free_blocks_counted, part_room, all_small));
      blocks_counted = omega (
        arith,
        v.blocks_counted,
        part_room,
        all_small,
        ap (λ (t : ℕ). t * n) (length-remove p ba.free_pages held),
      );
    })
