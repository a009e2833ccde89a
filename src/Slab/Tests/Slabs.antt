-- ===== src/Slab/Tests/Slabs.antt =====
-- Runs of the slab and of `operator new`.
use s2e.Common.{
  le→leb, lt→ltb, ℕ, zero, suc, ◌-◌, ◌^◌, ◌≡◌, refl, arith, true, false, [], ◌∷◌, some, get_elem?,
  ok, some-eq,
}
use s2e.Slab.PageAllocator.{belongs_to_us, in_regions}
use s2e.Slab.BlockHdr.Bits.{flat}
use s2e.Slab.BlockAllocator.{BlockAllocator, World}
use s2e.Slab.SlabAllocator
use s2e.Slab.SlabAllocator.{SlabAllocator, log}
use s2e.Slab.SlabAllocator.Invariant.{IsSlot}
use s2e.Slab.SlabAllocator.RoundTrip.{Served, alloc-Served, Ours, is_valid-free-alloc}
use s2e.Slab.OperatorNew.{Runtime}
use s2e.Slab.Tests.{lowest_bit}
use s2e.Slab.Tests.States.{
  pages, memory, without_page, with_page, world, with_page-IsValid, no_pages,
}

abbrev slab_of : BlockAllocator → World → SlabAllocator
slab_of ba w = record { bas = ba ∷ []; min_po2 = 3; max_po2 = 4; world = w }

slab_of-IsValid :
    (ba : BlockAllocator) (w : World)
    → IsSlot 3 0 ba w.memory
    → SlabAllocator.Invariant.IsValid (slab_of ba w)
slab_of-IsValid ba w slot = record {
  ordered = omega arith;
  small = omega arith;
  filled = refl;
  each = each;
}
  where
    each : (i : ℕ) (b : BlockAllocator) → get_elem? (ba ∷ []) i ≡ some b → IsSlot 3 i b w.memory
    each zero b e = rw (← some-eq ba b e) slot
    each (suc i) b e = absurd (ground (arith, e))

slab-IsValid : SlabAllocator.Invariant.IsValid (slab_of with_page world)
slab-IsValid =
    slab_of-IsValid with_page world
      (record { valid = with_page-IsValid; signed = refl; size = refl })

log_of_five : log 5 ≡ 3
unfolding log
log_of_five = refl

alloc-Served_example :
    (s' : SlabAllocator) × (addr : ℕ) × (p : ℕ) × (k : ℕ) × (ba : BlockAllocator)
    × (ba' : BlockAllocator) × (SlabAllocator.alloc lowest_bit (slab_of with_page world) 5 0
        ≡ ok (s', addr))
    × (ba.block_size ≡ 2 ^ log 5)
    × Served (slab_of with_page world) s' (log 5 - 3) p k addr ba ba'
alloc-Served_example =
    alloc-Served lowest_bit (slab_of with_page world) 5 0 slab-IsValid (omega (arith, log_of_five))
      (omega (arith, log_of_five)) (omega (arith, log_of_five))
      (rw log_of_five (λ ba e. rw (← some-eq with_page ba e) (omega arith)))

page-Ours : Ours pages 0x40000
unfolding belongs_to_us in_regions
page-Ours addr e =
    rw (le→leb 0x40000 addr (omega (arith, e)), lt→ltb addr 0x80000 (omega (arith, e))) refl

is_valid-free-alloc_example :
    (s' : SlabAllocator) × (addr : ℕ) × (s'' : SlabAllocator) × (SlabAllocator.alloc lowest_bit
        (slab_of with_page world)
        5
        0
      ≡ ok (s', addr))
    × (SlabAllocator.is_valid s' addr ≡ ok true)
    × (SlabAllocator.free s' addr ≡ ok (s'', true))
    × SlabAllocator.Invariant.IsValid s''
    × ((q : ℕ) → flat (s''.world.memory q).mask ≡ flat (memory q).mask)
is_valid-free-alloc_example =
    is_valid-free-alloc lowest_bit (slab_of with_page world) 5 0 slab-IsValid
      (omega (arith, log_of_five)) (omega (arith, log_of_five)) (omega (arith, log_of_five))
      with_page (rw log_of_five refl) (omega arith) (tt, (page-Ours, tt))

-- A slab whose slot has no block, with the flag of `operator new` clear.
abbrev empty_slab : SlabAllocator
empty_slab = slab_of without_page (record world { pages = no_pages })

abbrev idle : Runtime
idle = record { slab = some empty_slab; in_alloc = false }
