-- ===== src/Slab/Tests/Sizes.antt =====
-- Runs of the size classes and of the constructor.
use s2e.Common.{zero, suc, fault, out_of_bounds, ◌≡◌, refl, arith, []}
use s2e.Slab.BlockAllocator
use s2e.Slab.BlockAllocator.{BlockAllocator, Memory}
use s2e.Slab.SlabAllocator.{init, log}
use s2e.Slab.SlabAllocator.Construction.{Buildable, init_overflows}

-- Memory that holds zeros.
abbrev zeros : Memory
zeros q = record { signature = 0; free_count = 0; mask = [] }

log_run : (log 3 ≡ 0) × (log 4 ≡ 3) × (log 33 ≡ 6) × (log 256 ≡ 8) × (log 257 ≡ 0)
unfolding log
log_run = (refl, refl, refl, refl, refl)

-- The block allocators of slab_init()'s range of sizes can be built.
buildable : Buildable 3 8
unfolding BlockAllocator.init
buildable zero le = (_, refl)
buildable (suc zero) le = (_, refl)
buildable (suc (suc zero)) le = (_, refl)
buildable (suc (suc (suc zero))) le = (_, refl)
buildable (suc (suc (suc (suc zero)))) le = (_, refl)
buildable (suc (suc (suc (suc (suc zero))))) le = (_, refl)
buildable (suc (suc (suc (suc (suc (suc i)))))) le = absurd (omega (arith, le))

-- The range of slab_init().
init_overflows_example : init 3 8 zeros ≡ fault out_of_bounds
init_overflows_example = init_overflows 3 8 (omega arith) buildable zeros
