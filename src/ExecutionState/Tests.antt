-- ===== src/ExecutionState/Tests.antt =====
-- Runs of the memory of an execution state, on the small KLEE of Example.
use s2e.Common.{
  ℕ, ◌≡◌, refl, arith, true, false, List, [], ◌∷◌, none, some, ltb, if◌then◌else◌, ok, fault,
  assertion, inr, ◌>>=◌,
}
use s2e.ExecutionState.Example.{
  Byte, concrete, symbol, Heap, object, engine, start, start-IsCoherent,
}
use s2e.ExecutionState.Memory.{
  Cache, State, lookup, virtual_address, physical_address, Mmu, get_host_address,
}
use s2e.ExecutionState.Memory.Coherence.{IsCoherent, lookup-IsCoherent}
use s2e.ExecutionState.Memory.Copy.{Owns, get_writeable-Owns}
use s2e.ExecutionState.Ram.{write_ram, read_ram}
use s2e.ExecutionState.Ram.Write.{Wrote, write_ram-Wrote}
use s2e.ExecutionState.Ram.Read.{read_ram-write_ram}
use s2e.ExecutionState.Access.{constant_bytes, read_memory, read_each, write_memory}
use s2e.ExecutionState.Access.Translate.{HostBounded}
use s2e.ExecutionState.Access.Reads.{read_memory-SameAsBytes}
use s2e.ExecutionState.Access.Crossing.{write_memory_crossing}
use s2e.ExecutionState.Access.Writes.{Has, write_memory-Has}
use s2e.ExecutionState.Access.RoundTrip.{read_memory-write_memory}

-- The physical pages below 100 lie in host memory as they are; virtual pages are physical pages.
abbrev mmu : Mmu
mmu = record { phys_page = λ x. some x; host_page = λ x. if ltb x 100 then some x else none }

mmu-bounded : HostBounded mmu
mmu-bounded x p e = ground arith

lookup-IsCoherent_example :
    (c : Cache) × (lookup engine start 0x10080
      ≡ ok (record start { memcache = c }, some (object false 0x10080)))
    × IsCoherent engine (record start { memcache = c })
lookup-IsCoherent_example = lookup-IsCoherent engine start 0x10080 start-IsCoherent refl

get_writeable-Owns_example :
    (s' : Heap) × (c' : Cache) × (o : ℕ) × Owns engine start (object false 0x10080) s' c' o
get_writeable-Owns_example =
    get_writeable-Owns engine start (object false 0x10080) start-IsCoherent refl refl refl

write_ram-Wrote_example :
    (s' : Heap) × (c' : Cache) × (write_ram engine false 3 start 0x1007e (7 ∷ 8 ∷ 9 ∷ [])
      ≡ ok (record start { space = s'; memcache = c' }))
    × Wrote engine start 0x1007e (7 ∷ 8 ∷ 9 ∷ []) s' c'
write_ram-Wrote_example =
    write_ram-Wrote engine 3 start 0x1007e (7 ∷ 8 ∷ 9 ∷ []) refl start-IsCoherent
      (λ i lt. (concrete 0, ground arith)) (omega arith) (omega arith) (omega arith)

read_ram-write_ram_example :
    (st1 : State Heap) × (st2 : State Heap) × (write_ram engine false 3 start 0x1007e
        (7 ∷ 8 ∷ 9 ∷ [])
      ≡ ok st1)
    × (read_ram engine false 3 st1 0x1007e 3 ≡ ok (st2, 7 ∷ 8 ∷ 9 ∷ []))
    × (st2.space ≡ st1.space)
read_ram-write_ram_example =
    read_ram-write_ram engine 3 start 0x1007e (7 ∷ 8 ∷ 9 ∷ []) refl start-IsCoherent
      (λ i lt. (concrete 0, ground arith)) (omega arith) (omega arith) (omega arith)

read_memory-SameAsBytes_example :
    (c' : Cache) × (read_memory engine mmu virtual_address start 0x1007c 4 ≡ (
      read_each engine mmu virtual_address start 0x1007c 4 >>= λ bytes.
      ok (record start { memcache = c' }, bytes)))
    × IsCoherent engine (record start { memcache = c' })
read_memory-SameAsBytes_example =
    read_memory-SameAsBytes engine mmu virtual_address start start-IsCoherent mmu-bounded 0x1007c 4
      (omega arith) (omega arith)

write_memory_crossing_example :
    write_memory engine mmu physical_address false 2 start 0x1007e
      (concrete 1 ∷ concrete 2 ∷ concrete 3 ∷ concrete 4 ∷ [])
    ≡ fault assertion
unfolding constant_bytes
write_memory_crossing_example =
    write_memory_crossing engine mmu physical_address false 0 start 0x1007e
      (concrete 1 ∷ concrete 2 ∷ concrete 3 ∷ concrete 4 ∷ []) (1 ∷ 2 ∷ 3 ∷ 4 ∷ []) refl
      (omega arith) (omega arith)

-- A symbolic byte beside a concrete one.
abbrev mixed : List Byte
mixed = concrete 1 ∷ symbol 2 ∷ []

write_memory-Has_example :
    (s' : Heap) × (c' : Cache) × (write_memory engine mmu virtual_address false 1 start 0x10004
        mixed
      ≡ ok (record start { space = s'; memcache = c' }, true))
    × Has engine mmu virtual_address start 0x10004 mixed s' c'
unfolding get_host_address
write_memory-Has_example =
    write_memory-Has engine mmu virtual_address 0 start 0x10004 0x10004 mixed (concrete 0)
      start-IsCoherent mmu-bounded (omega arith) refl refl (inr refl) (omega arith)

read_memory-write_memory_example :
    (st1 : State Heap) × (st2 : State Heap) × (write_memory engine mmu virtual_address false 1 start
        0x10004 mixed
      ≡ ok (st1, true))
    × (read_memory engine mmu virtual_address st1 0x10004 2 ≡ ok (st2, some mixed))
unfolding get_host_address
read_memory-write_memory_example =
    read_memory-write_memory engine mmu virtual_address 0 start 0x10004 0x10004 mixed (concrete 0)
      start-IsCoherent mmu-bounded (omega arith) refl refl (inr refl) (omega arith)
