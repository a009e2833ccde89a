-- ===== src/Slab/BlockAllocator/Release.antt =====
-- The lists and the counters after BlockAllocator::free() of a block of a busy page.
use s2e.Common.{
  ℕ, suc, ◌+◌, ◌*◌, ◌^◌, ◌≤◌, ◌<◌, ◌≡◌, ap, List, [], ◌∷◌, arith, length, ==_refl, ==_ne,
}
use s2e.Slab.BlockHdr.{BlockHdr}
use s2e.Slab.BlockHdr.Count.{IsHdr}
use s2e.Slab.BlockAllocator.{
  Memory, write, BlockAllocator, block_hdr_signature, add64, sub64, release,
}
use s2e.Slab.BlockAllocator.Pages.{
  AllPages, Absent, Absent-of, remove-Absent_id, sum_free, sum_free-off,
}
use s2e.Slab.BlockAllocator.Unlink.{
  Holds, AllPages-Holds, AllPages-remove, Distinct-remove, remove-Absent, length-remove,
}
use s2e.Slab.BlockAllocator.{remove}
use s2e.Slab.BlockAllocator.Invariant.{
  IsPage, TotallyFree, PartlyFree, NoneFree, IsValid, IsPage-off,
}
use s2e.Slab.BlockAllocator.Settle.{scaled}

pub sum_free-le :
    (n magic : ℕ) (mem : Memory) (ps : List ℕ)
    → AllPages (IsPage n magic (PartlyFree n) mem) ps
    → sum_free mem ps ≤ length ps * n
sum_free-le n magic mem [] a = omega arith
sum_free-le n magic mem (q ∷ qs) a = omega (arith, a.0.free, sum_free-le n magic mem qs a.1)

module _ (ba : BlockAllocator) (mem : Memory) (p : ℕ) (h : BlockHdr) (v : IsValid ba mem)
    (hv : IsHdr ba.blocks_per_page h) (signed : h.signature ≡ block_hdr_signature + ba.magic)
    (up : h.free_count ≡ suc (mem p).free_count) where
  open ba use {blocks_per_page as n}

  -- The page, once the block is back.
  pub IsPage-now :
      (P Q : ℕ → Type 0)
      → IsPage n ba.magic P mem p
      → Q h.free_count
      → IsPage n ba.magic Q (write mem p h) p
  IsPage-now P Q a q = record {
    aligned = a.aligned;
    high = a.high;
    hdr = rw (==_refl p) hv;
    signed = rw (==_refl p) signed;
    free = rw (==_refl p) q;
  }

  bound :
      (length ba.totally_free + length ba.free_pages + length ba.busy_pages) * n
      ≤ (length ba.totally_free + length ba.free_pages + length ba.busy_pages) * 512
  bound =
      scaled (length ba.totally_free + length ba.free_pages + length ba.busy_pages) n v.few_blocks

  pub total_small : ba.allocated_blocks_count + ba.free_blocks_count < 2 ^ 64
  total_small = omega (arith, v.blocks_counted, bound, v.few_pages)

  module _ (held : Holds p ba.busy_pages) where
    was_busy : IsPage n ba.magic NoneFree mem p
    was_busy = AllPages-Holds p (IsPage n ba.magic NoneFree mem) ba.busy_pages held v.none_free

    busy_total : Absent p ba.totally_free
    busy_total =
        Absent-of (IsPage n ba.magic (TotallyFree n) mem) p ba.totally_free
          (λ a. omega (arith, a.free, was_busy.free, v.some_blocks)) v.all_free

    busy_part : Absent p ba.free_pages
    busy_part =
        Absent-of (IsPage n ba.magic (PartlyFree n) mem) p ba.free_pages
          (λ a. omega (arith, a.free, was_busy.free)) v.part_free

    -- The busy pages leave room in the counters.
    busy_room : ba.free_blocks_count + n ≤ ba.allocated_blocks_count + ba.free_blocks_count
    busy_room =
        let some : 1 ≤ length ba.busy_pages = omega (arith, length-remove p ba.busy_pages held) in
        let many : 1 * n ≤ length ba.busy_pages * n = grind arith in
        let few = sum_free-le n ba.magic mem ba.free_pages v.part_free in
        omega (arith, v.blocks_counted, v.free_blocks_counted, many, few)

    abbrev unblocked : BlockAllocator
    unblocked = record ba {
      free_pages = p ∷ ba.free_pages;
      busy_pages = remove p ba.busy_pages;
      free_pages_count = add64 ba.free_pages_count 1;
      busy_pages_count = sub64 ba.busy_pages_count 1;
      free_blocks_count = add64 ba.free_blocks_count 1;
      allocated_blocks_count = sub64 ba.allocated_blocks_count 1;
    }

    release_busy : release ba p h.free_count ≡ unblocked
    unfolding release
    release_busy =
        let one : h.free_count ≡ 1 = omega (arith, was_busy.free) in
        rw (
          one,
          remove-Absent_id p ba.totally_free busy_total,
          remove-Absent_id p ba.free_pages busy_part,
          ==_ne 1 n (omega (arith, v.some_blocks)),
        )

    pub busy-IsValid : IsValid (release ba p h.free_count) (write mem p h)
    busy-IsValid = rw release_busy (record {
      some_blocks = v.some_blocks;
      few_blocks = v.few_blocks;
      size_pos = v.size_pos;
      fits = v.fits;
      all_free =
          IsPage-off n ba.magic (TotallyFree n) mem p h ba.totally_free busy_total v.all_free;
      part_free = (
        IsPage-now NoneFree (PartlyFree n) was_busy (
          omega (arith, was_busy.free, v.some_blocks),
          omega (arith, was_busy.free, v.some_blocks),
        ),
        IsPage-off n ba.magic (PartlyFree n) mem p h ba.free_pages busy_part v.part_free,
      );
      none_free =
          IsPage-off n ba.magic NoneFree mem p h (remove p ba.busy_pages)
            (remove-Absent p ba.busy_pages v.none_distinct)
            (AllPages-remove p (IsPage n ba.magic NoneFree mem) ba.busy_pages v.none_free);
      all_distinct = v.all_distinct;
      part_distinct = (busy_part, v.part_distinct);
      none_distinct = Distinct-remove p ba.busy_pages v.none_distinct;
      few_pages = omega (arith, v.few_pages, length-remove p ba.busy_pages held);
      free_pages_counted =
          omega (arith, v.free_pages_counted, v.few_pages, length-remove p ba.busy_pages held);
      busy_pages_counted =
          omega (arith, v.busy_pages_counted, v.few_pages, length-remove p ba.busy_pages held);
      free_blocks_counted =
          rw (==_refl p, sum_free-off mem p h ba.free_pages busy_part)
            (omega
              (arith, busy_room, total_small, v.free_blocks_counted, was_busy.free, v.some_blocks));
      blocks_counted = omega (
        arith,
        busy_room,
        total_small,
        v.blocks_counted,
        v.some_blocks,
        ap (λ (t : ℕ). t * n) (length-remove p ba.busy_pages held),
      );
    })
