-- ===== src/Slab/OperatorNew/Flag.antt =====
-- The flag `s_inalloc` across the calls.
use s2e.Common.{ℕ, ◌≡◌, ◌≢◌, ◌⊎◌, false, some, arith, ◌==◌, if◌then◌else◌, ok}
use s2e.Slab.Bitmap.{BitScan}
use s2e.Slab.SlabAllocator
use s2e.Slab.SlabAllocator.{SlabAllocator}
use s2e.Slab.OperatorNew.{Runtime, pointer, operator_new, new_in}

-- Otherwise a call that finds the slab idle leaves it idle: it returns the slab's block if there is
-- one, and else malloc's.
pub operator_new_idle :
    (B : BitScan) (rt : Runtime) (s s' : SlabAllocator) (size os_region addr m : ℕ)
    → rt.slab ≡ some s
    → rt.in_alloc ≡ false
    → SlabAllocator.alloc B s size os_region ≡ ok (s', addr)
    → (addr ≢ 0) ⊎ (m ≢ 0)
    → operator_new B rt size os_region m
      ≡ ok (record { slab = some s'; in_alloc = false }, pointer (if addr == 0 then m else addr))
unfolding operator_new
operator_new_idle B rt s s' size os_region addr m has idle run given =
    rw (operator_new, has, idle, new_in, run) (ground arith)
