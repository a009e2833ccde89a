-- ===== src/Slab/BlockAllocator/Invariant.antt =====
-- The well-formedness of a block allocator over the headers in memory.
use s2e.Common.{
  ℕ, ◌+◌, ◌*◌, ◌%◌, ◌^◌, ◌≤◌, ◌<◌, ◌≡◌, List, [], ◌∷◌, length, Bool-cases, inl, inr, ◌==◌, ==_ne,
}
use s2e.Slab.PageAllocator.{page_size}
use s2e.Slab.BlockHdr.{BlockHdr, hdr_size}
use s2e.Slab.BlockHdr.Count.{IsHdr}
use s2e.Slab.BlockAllocator.{Memory, write, BlockAllocator, block_hdr_signature}
use s2e.Slab.BlockAllocator.Pages.{AllPages, Distinct, Absent, AllPages-off, sum_free}

-- A page of `n` blocks with the allocator's signature, whose free count meets `P`.
pub record IsPage (n magic : ℕ) (P : ℕ → Type 0) (mem : Memory) (p : ℕ) : Type 0 where
  pub aligned : p % page_size ≡ 0
  pub high : p + page_size ≤ 2 ^ 64
  pub hdr : IsHdr n (mem p)
  pub signed : (mem p).signature ≡ block_hdr_signature + magic
  pub free : P (mem p).free_count

abbrev pub TotallyFree : ℕ → ℕ → Type 0
TotallyFree n c = c ≡ n

abbrev pub PartlyFree : ℕ → ℕ → Type 0
PartlyFree n c = (0 < c) × (c < n)

abbrev pub NoneFree : ℕ → Type 0
NoneFree c = c ≡ 0

pub record IsValid (ba : BlockAllocator) (mem : Memory) : Type 0 where
  pub some_blocks : 2 ≤ ba.blocks_per_page
  pub few_blocks : ba.blocks_per_page < 512
  pub size_pos : 0 < ba.block_size
  pub fits : hdr_size + ba.blocks_per_page * ba.block_size ≤ page_size
  pub all_free :
      AllPages
        (IsPage ba.blocks_per_page ba.magic (TotallyFree ba.blocks_per_page) mem)
        ba.totally_free
  pub part_free :
      AllPages
        (IsPage ba.blocks_per_page ba.magic (PartlyFree ba.blocks_per_page) mem)
        ba.free_pages
  pub none_free : AllPages (IsPage ba.blocks_per_page ba.magic NoneFree mem) ba.busy_pages
  pub all_distinct : Distinct ba.totally_free
  pub part_distinct : Distinct ba.free_pages
  pub none_distinct : Distinct ba.busy_pages
  pub few_pages :
      (length ba.totally_free + length ba.free_pages + length ba.busy_pages) * 512 < 2 ^ 64
  pub free_pages_counted : ba.free_pages_count ≡ length ba.totally_free + length ba.free_pages
  pub busy_pages_counted : ba.busy_pages_count ≡ length ba.busy_pages
  pub free_blocks_counted :
      ba.free_blocks_count
      ≡ length ba.totally_free * ba.blocks_per_page + sum_free mem ba.free_pages
  pub blocks_counted :
      ba.allocated_blocks_count + ba.free_blocks_count
      ≡ (length ba.totally_free + length ba.free_pages + length ba.busy_pages) * ba.blocks_per_page

-- Pages other than the one that is written keep their state.
pub IsPage-off :
    (n magic : ℕ) (P : ℕ → Type 0) (mem : Memory) (p : ℕ) (h : BlockHdr) (ps : List ℕ)
    → Absent p ps
    → AllPages (IsPage n magic P mem) ps
    → AllPages (IsPage n magic P (write mem p h)) ps
IsPage-off n magic P mem p h ps a =
    AllPages-off (IsPage n magic P mem) (IsPage n magic P (write mem p h)) p ps
      (λ q ne v. record {
        aligned = v.aligned;
        high = v.high;
        hdr = rw (==_ne p q ne) v.hdr;
        signed = rw (==_ne p q ne) v.signed;
        free = rw (==_ne p q ne) v.free;
      })
      a

-- A page that is written with a header that meets `P` is again such a page, wherever it stands.
pub IsPage-at :
    (n magic : ℕ) (P : ℕ → Type 0) (mem : Memory) (p : ℕ) (h : BlockHdr) (ps : List ℕ)
    → IsHdr n h
    → h.signature ≡ block_hdr_signature + magic
    → P h.free_count
    → AllPages (IsPage n magic P mem) ps
    → AllPages (IsPage n magic P (write mem p h)) ps
IsPage-at n magic P mem p h [] hv signed f a = tt
IsPage-at n magic P mem p h (q ∷ qs) hv signed f a = (
  elim (Bool-cases (p == q)) [
    | inl here ↦ record {
      aligned = a.0.aligned;
      high = a.0.high;
      hdr = rw here hv;
      signed = rw here signed;
      free = rw here f;
    }
    | inr other ↦ record {
      aligned = a.0.aligned;
      high = a.0.high;
      hdr = rw other a.0.hdr;
      signed = rw other a.0.signed;
      free = rw other a.0.free;
    }
  ],
  IsPage-at n magic P mem p h qs hv signed f a.1,
)
