-- ===== src/Slab/OperatorNew.antt =====
-- `operator new` and `operator delete` of src/s2e/Slab.cpp, and slab_init(). The results of malloc
-- and mmap are arguments; a call of malloc's `free` is the second part of operator delete's result.
-- The two flags of the file are the global `s_slab` and `s_inalloc`.
pub mod Flag
use s2e.Common.{
  ℕ, ◌+◌, Bool, true, false, not, ◌||◌, Option, none, some, ◌==◌, if◌then◌else◌, Result, ok, fault,
  ◌>>=◌, ◌>>◌, check,
}
use s2e.Slab.Bitmap.{BitScan}
use s2e.Slab.PageAllocator.{belongs_to_us}
use s2e.Slab.BlockAllocator.{Memory}
use s2e.Slab.SlabAllocator
use s2e.Slab.SlabAllocator.{SlabAllocator}

pub record Runtime : Type 0 where
  pub slab : Option SlabAllocator
  pub in_alloc : Bool

-- What operator new ends with: a block, or an exception.
pub data Outcome : Type 0 where
  pointer : ℕ → Outcome
  bad_alloc : Outcome

-- slab_init()
pub slab_init : Runtime → Memory → Result Runtime
slab_init rt memory = elim rt.slab [
  | some _ ↦ ok rt
  | none ↦ do s ← SlabAllocator.init 3 8 memory; ok (record rt { slab = some s })
]

-- malloc(size), and the exception where it returns 0.
abbrev pub from_malloc : ℕ → Outcome
from_malloc p = if p == 0 then bad_alloc else pointer p

-- What follows s_slab->alloc(size).
after_slab : Runtime → SlabAllocator → ℕ → ℕ → Runtime × Outcome
after_slab rt s addr malloc_result =
    if addr == 0
    then (
      record rt {
        slab = some s;
        in_alloc = elim (from_malloc malloc_result) [ bad_alloc ↦ true | pointer _ ↦ false ];
      },
      from_malloc malloc_result,
    )
    else (record rt { slab = some s; in_alloc = false }, pointer addr)

-- The part of operator new behind the test of `s_slab` and `s_inalloc`.
new_in : BitScan → Runtime → SlabAllocator → ℕ → ℕ → ℕ → Result (Runtime × Outcome)
unfolding after_slab
new_in B rt s size os_region malloc_result = do
  (s', addr) ← SlabAllocator.alloc B s size os_region
  ok (after_slab rt s' addr malloc_result)

-- operator new(size)
pub operator_new : BitScan → Runtime → ℕ → ℕ → ℕ → Result (Runtime × Outcome)
unfolding new_in
operator_new B rt size os_region malloc_result = elim rt.slab [
  | none ↦ ok (rt, from_malloc malloc_result)
  | some s ↦
      if rt.in_alloc
      then ok (rt, from_malloc malloc_result)
      else new_in B rt s size os_region malloc_result
]

delete_in : Runtime → SlabAllocator → ℕ → Result (Runtime × Bool)
delete_in rt s p = do
  (s', freed) ← SlabAllocator.free s p
  check (freed || not (belongs_to_us s'.world.pages p))
  ok (record { slab = some s'; in_alloc = false }, not freed)

-- operator delete(p); the second part says whether malloc's `free` was called.
pub operator_delete : Runtime → ℕ → Result (Runtime × Bool)
unfolding delete_in
operator_delete rt p = elim rt.slab [ none ↦ ok (rt, true) | some s ↦ delete_in rt s p ]
