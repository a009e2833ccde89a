-- ===== src/ExecutionState/Ram.antt =====
-- readRamConcrete() and writeRamConcrete() of src/s2e/S2EExecutionState.cpp: QEMU's concrete code reads
-- and writes RAM by host addresses. A buffer is the list of its bytes. Both functions call themselves
-- where the access leaves a RAM object; the fuel counts these calls.
pub mod Overlay
pub mod Write
pub mod Read
use s2e.Common.{
  ℕ, zero, suc, ◌+◌, ◌-◌, ◌/◌, ◌%◌, ◌^◌, Bool, true, false, List, [], ◌∷◌, ◌++◌, Option, none, some,
  length, take, drop, leb, if◌then◌else◌, Result, ok, fault, out_of_bounds, ◌>>=◌, ◌>>◌, check,
}
use s2e.ExecutionState.Klee.{ObjectPair, Klee}
use s2e.ExecutionState.Memory.{
  State, object_size, object_base, ram_at, constants, write_bytes, lookup, get_writeable,
}

module _ {S E : Type 0} (k : Klee S E) (stop : Bool) where
  -- The access to one object in writeRamConcrete().
  pub write_object : State S → ℕ → List ℕ → Result (State S)
  write_object st host buf = do
    (st1, op) ← lookup k st (object_base host)
    p ← ram_at (object_base host) op
    (st2, o) ← get_writeable k stop st1 p
    ok (record st2 { space = write_bytes k st2.space o (host % object_size) (constants k buf) })

  -- writeRamConcrete(hostAddress, buf, size)
  pub write_ram : ℕ → State S → ℕ → List ℕ → Result (State S)
  write_ram zero st host buf = fault out_of_bounds
  write_ram (suc fuel) st host buf =
      let size1 = object_size - host % object_size in
      let rest = λ (st1 : State S). write_ram fuel st1 ((host + size1) % 2 ^ 64) (drop size1 buf) in
      do
        check st.active
        elim (leb (host % object_size + length buf) object_size) [
          | true ↦ write_object st host buf
          | false ↦ do st1 ← write_ram fuel st host (take size1 buf); rest st1
        ]

  -- The loop over the bytes of one object in readRamConcrete(): a symbolic byte is given a value, in
  -- an object state of its own. `o` is op.second, and `mine` says whether it is `wos` already.
  pub read_object : State S → ObjectPair → ℕ → Bool → ℕ → ℕ → Result (State S × List ℕ)
  read_object st p o mine i zero = ok (st, [])
  read_object st p o mine i (suc n) = elim (k.constant (k.read8 st.space o i)) [
    | some v ↦ do (st', buf) ← read_object st p o mine (i + 1) n; ok (st', v ∷ buf)
    | none ↦ do
      (st1, o1) ← elim mine [ true ↦ ok (st, o) | false ↦ get_writeable k stop st p ]
      let picked = k.to_constant st1.space (k.read8 st1.space o1 i)
      (st', buf) ←
          read_object (record st1 { space = k.write8 picked.0 o1 i (k.byte picked.1) }) p o1 true
            (i + 1) n
      ok (st', picked.1 ∷ buf)
  ]

  -- readRamConcrete(hostAddress, buf, size)
  pub read_ram : ℕ → State S → ℕ → ℕ → Result (State S × List ℕ)
  unfolding read_object
  read_ram zero st host size = fault out_of_bounds
  read_ram (suc fuel) st host size =
      let size1 = object_size - host % object_size in
      let rest = λ (st1 : State S). read_ram fuel st1 ((host + size1) % 2 ^ 64) (size - size1) in
      do
        check st.active
        elim (leb (host % object_size + size) object_size) [
          | true ↦ do
            (st1, op) ← lookup k st (object_base host)
            p ← ram_at (object_base host) op
            read_object st1 p p.state false (host % object_size) size
          | false ↦ do
            (st1, buf1) ← read_ram fuel st host size1
            (st2, buf2) ← rest st1
            ok (st2, buf1 ++ buf2)
        ]
