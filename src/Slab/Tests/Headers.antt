-- ===== src/Slab/Tests/Headers.antt =====
-- Runs of BlockAllocatorHdr.
use s2e.Common.{◌≡◌, refl, arith, false, ◌∷◌, set, replicate, fault, assertion}
use s2e.Slab.Bitmap.{all_ones}
use s2e.Slab.BlockHdr.{BlockHdr, free}
use s2e.Slab.BlockHdr.Count.{IsHdr}

-- A header whose first block is in use, of 15.
abbrev one_taken : BlockHdr
one_taken = record {
  signature = 0;
  free_count = 14;
  mask = set all_ones 0 false ∷ replicate 7 all_ones;
}

one_taken-IsHdr : IsHdr 15 one_taken
one_taken-IsHdr = record { words = refl; wide = (omega arith); small = omega arith; counted = refl }

double_free_run : free one_taken 1 ≡ fault assertion
unfolding free
double_free_run = refl
