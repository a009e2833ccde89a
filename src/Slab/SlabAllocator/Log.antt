-- ===== src/Slab/SlabAllocator/Log.antt =====
-- SlabAllocator::log(): the size class of a request.
use s2e.Common.{ℕ, ◌*◌, ◌^◌, ◌≤◌, ◌<◌, ◌≡◌, ◌⊎◌, arith}
use s2e.Slab.SlabAllocator.{log}

-- log(size) is 0 exactly for the sizes that the slab does not serve, those below 4 and above 256.
-- Otherwise it is the least class of at least 8 bytes whose blocks hold `size` bytes.
pub log_bounds :
    (size : ℕ)
    → ((log size ≡ 0) × ((size < 4) ⊎ (256 < size)))
      ⊎ ((3 ≤ log size)
          × (log size ≤ 8)
          × (size ≤ 2 ^ log size)
          × ((log size ≡ 3) ⊎ (2 ^ log size < 2 * size)))
unfolding log
log_bounds size = ground arith
