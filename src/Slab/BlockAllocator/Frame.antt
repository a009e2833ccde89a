-- ===== src/Slab/BlockAllocator/Frame.antt =====
-- A block allocator is not disturbed by a change of a page that bears another signature.
use mathlib.Core.Path.{fun_ext}
use s2e.Common.{ℕ, ◌+◌, ◌≡◌, ◌≢◌, sym, subst, List, ◌==◌, ==_iff, ne_of_==, Bool-cases, inl, inr}
use s2e.Slab.BlockHdr.{BlockHdr}
use s2e.Slab.BlockAllocator.{Memory, write, BlockAllocator, block_hdr_signature}
use s2e.Slab.BlockAllocator.Pages.{AllPages, Absent, Absent-of, sum_free-off}
use s2e.Slab.BlockAllocator.Invariant.{
  IsPage, TotallyFree, PartlyFree, NoneFree, IsValid, IsPage-off,
}

module _ (ba : BlockAllocator) (mem : Memory) (p : ℕ) (h : BlockHdr) (v : IsValid ba mem)
    (foreign : (mem p).signature ≢ block_hdr_signature + ba.magic) where
  open ba use {blocks_per_page as n}

  absent : (P : ℕ → Type 0) (ps : List ℕ) → AllPages (IsPage n ba.magic P mem) ps → Absent p ps
  absent P ps = Absent-of (IsPage n ba.magic P mem) p ps (λ a. foreign a.signed)

  write-IsValid : IsValid ba (write mem p h)
  write-IsValid = record {
    some_blocks = v.some_blocks;
    few_blocks = v.few_blocks;
    size_pos = v.size_pos;
    fits = v.fits;
    all_free =
        IsPage-off n ba.magic (TotallyFree n) mem p h ba.totally_free
          (absent (TotallyFree n) ba.totally_free v.all_free) v.all_free;
    part_free =
        IsPage-off n ba.magic (PartlyFree n) mem p h ba.free_pages
          (absent (PartlyFree n) ba.free_pages v.part_free) v.part_free;
    none_free =
        IsPage-off n ba.magic NoneFree mem p h ba.busy_pages
          (absent NoneFree ba.busy_pages v.none_free) v.none_free;
    all_distinct = v.all_distinct;
    part_distinct = v.part_distinct;
    none_distinct = v.none_distinct;
    few_pages = v.few_pages;
    free_pages_counted = v.free_pages_counted;
    busy_pages_counted = v.busy_pages_counted;
    free_blocks_counted =
        rw (sum_free-off mem p h ba.free_pages (absent (PartlyFree n) ba.free_pages v.part_free))
          v.free_blocks_counted;
    blocks_counted = v.blocks_counted;
  }

  -- The same for any memory that differs at that page only.
  pub frame-IsValid :
      (mem' : Memory) → mem' p ≡ h → ((q : ℕ) → p ≢ q → mem' q ≡ mem q) → IsValid ba mem'
  frame-IsValid mem' here others = subst (λ m. IsValid ba m) (sym (fun_ext same)) write-IsValid
    where
      same : (q : ℕ) → mem' q ≡ write mem p h q
      same q = elim (Bool-cases (p == q)) [
        | inl e ↦ rw e (subst (λ x. mem' x ≡ h) ((==_iff p q).0 e) here)
        | inr e ↦ rw e (others q (ne_of_== p q e))
      ]
