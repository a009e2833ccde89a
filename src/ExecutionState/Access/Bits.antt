-- ===== src/ExecutionState/Access/Bits.antt =====
-- Accesses of one bit are accesses of its byte.
use s2e.Common.{
  ℕ, ◌+◌, ◌%◌, ◌≡◌, refl, Bool, true, [], ◌∷◌, arith, leb, le→leb, Option-cases, inl, inr, ok,
  ◌>>=◌,
}
use s2e.ExecutionState.Klee.{Klee}
use s2e.ExecutionState.Memory.{State, object_size, AddressType, Mmu}
use s2e.ExecutionState.Access.{
  constant_bytes, lowest, read_memory, read_memory_bool, write_memory8, write_memory,
  write_memory_bool,
}

-- A byte lies in one object.
fits : (a : ℕ) → leb (a % object_size + 1) object_size ≡ true
fits a = le→leb (a % object_size + 1) object_size (omega arith)

module _ {S E : Type 0} (k : Klee S E) (mmu : Mmu) (ty : AddressType) where
  -- A read of one bit is the lowest bit of a read of one byte.
  pub read_memory_bool_lem :
      {B : Type 0} (bit : E → B) (st : State S) (a : ℕ)
      → read_memory_bool k mmu ty bit st a
        ≡ (read_memory k mmu ty st a 1 >>= λ r. ok (r.0, lowest bit r.1))
  unfolding read_memory_bool read_memory
  read_memory_bool_lem bit st a = rw (fits a) refl

  -- A write of one bit is a write of the byte that it is extended to.
  pub write_memory_bool_lem :
      (stop : Bool) (fuel : ℕ) (st : State S) (a : ℕ) (e : E)
      → write_memory_bool k mmu ty stop fuel st a e ≡ write_memory k mmu ty stop fuel st a (e ∷ [])
  unfolding write_memory_bool write_memory write_memory8 constant_bytes
  write_memory_bool_lem stop fuel st a e = elim (Option-cases (k.constant e)) [
    | inl n ↦ rw (write_memory_bool, write_memory, constant_bytes, n, fits a) refl
    | inr (v, c) ↦ rw (write_memory_bool, write_memory, constant_bytes, c) refl
  ]
