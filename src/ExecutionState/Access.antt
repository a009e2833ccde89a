-- ===== src/ExecutionState/Access.antt =====
-- readMemory() and writeMemory() of src/s2e/S2EExecutionState.cpp with their concrete variants, for
-- virtual, physical and host addresses. `none` stands for a null expression. The fuel of write_buffer
-- counts the calls of writeMemory() with a buffer in itself.
pub mod Translate
pub mod Reads
pub mod Crossing
pub mod Writes
pub mod RoundTrip
pub mod Bits
use s2e.Common.{
  ℕ, zero, suc, ◌+◌, ◌-◌, ◌*◌, ◌/◌, ◌%◌, ◌^◌, Bool, true, false, ◌&&◌, ◌||◌, List, [], ◌∷◌, Option,
  none, some, length, take, drop, leb, ◌==◌, if◌then◌else◌, Result, ok, fault, assertion,
  out_of_bounds, ◌>>=◌, ◌>>◌, check,
}
use s2e.ExecutionState.Klee.{ObjectPair, Klee}
use s2e.ExecutionState.Memory.{
  State, object_size, object_base, ram, constants, read_bytes, write_bytes, lookup, get_writeable,
  AddressType, virtual_address, Mmu, get_host_address,
}

-- The address that follows, as a uint64_t.
abbrev pub next : ℕ → ℕ → ℕ
next a n = (a + n) % 2 ^ 64

abbrev pub cons? {ℓ} : {A : Type ℓ} → A → Option (List A) → Option (List A)
cons? a none = none
cons? a (some as') = some (a ∷ as')

-- The lowest bit of the byte read, if one was.
abbrev pub lowest {ℓ κ} : {A : Type ℓ} {B : Type κ} → (A → B) → Option (List A) → Option B
lowest bit none = none
lowest bit (some []) = none
lowest bit (some (e ∷ es)) = some (bit e)

-- dyn_cast<ConstantExpr> of an expression of several bytes
unfoldable pub constant_bytes : {S E : Type 0} → Klee S E → List E → Option (List ℕ)
constant_bytes k [] = some []
constant_bytes k (e ∷ es) = elim (k.constant e) [
  | none ↦ none
  | some v ↦ cons? v (constant_bytes k es)
]

module _ {S E : Type 0} (k : Klee S E) (mmu : Mmu) (ty : AddressType) where
  -- readMemory8(address, addressType)
  pub read_memory8 : State S → ℕ → Result (Option E)
  read_memory8 st a = do
    host ← get_host_address mmu st.active a ty
    elim host [
      | none ↦ ok none
      | some h ↦ do
        p ← ram (k.find_object st.space (object_base h))
        ok (some (k.read8 st.space p.state (h % object_size)))
    ]

  -- The loop of readMemory() over the bytes of an access to several objects.
  pub read_each : State S → ℕ → ℕ → Result (Option (List E))
  read_each st a zero = ok (some [])
  read_each st a (suc n) = do
    byte ← read_memory8 st a
    elim byte [ none ↦ ok none | some e ↦ do rest ← read_each st (next a 1) n; ok (cons? e rest) ]

  -- The access of readMemory() to one object, through the cache.
  pub read_one : State S → ℕ → ℕ → Result (State S × Option (List E))
  read_one st a n = do
    host ← get_host_address mmu st.active a ty
    elim host [
      | none ↦ ok (st, none)
      | some h ↦ do
        (st', op) ← lookup k st (object_base h)
        p ← ram op
        ok (st', some (read_bytes k st'.space p.state (a % object_size) n))
    ]

  -- readMemory(address, width, addressType), for a width of n bytes
  pub read_memory : State S → ℕ → ℕ → Result (State S × Option (List E))
  unfolding read_each read_one
  read_memory st a n =
      if leb (a % object_size + n) object_size
      then read_one st a n
      else (do bytes ← read_each st a n; ok (st, bytes))

  -- readMemory(address, width, addressType) for a width of one bit, whose size in bytes is 0: the lowest
  -- bit of the byte at the address, by `bit`.
  pub read_memory_bool : {B : Type 0} → (E → B) → State S → ℕ → Result (State S × Option B)
  unfolding read_one
  read_memory_bool bit st a = do (st', v) ← read_one st a 1; ok (st', lowest bit v)

  -- readMemoryConcrete(address, buf, size, addressType): `none` where it returns false.
  pub read_memory_concrete : State S → ℕ → ℕ → Result (State S × Option (List ℕ))
  read_memory_concrete st a zero = ok (st, some [])
  read_memory_concrete st a (suc n) = do
    (st', v) ← read_memory st a 1
    elim v [
      | some (e ∷ []) ↦ elim (k.constant e) [
        | some b ↦ do (st2, rest) ← read_memory_concrete st' (next a 1) n; ok (st2, cons? b rest)
        | none ↦ ok (st', none)
      ]
      | _ ↦ ok (st', none)
    ]

  -- readString(address, s, maxLen), where the type is that of virtual addresses: the bytes of the
  -- string and whether the reads succeeded. A maxLen of 0 wraps around and is left out.
  pub read_string : State S → ℕ → ℕ → Result (State S × List ℕ × Bool)
  unfolding read_memory_concrete
  read_string st a zero = ok (st, [], true)
  read_string st a (suc n) = do
    (st', c) ← read_memory_concrete st a 1
    elim c [
      | some (b ∷ []) ↦ elim (b == 0) [
        | true ↦ ok (st', [], true)
        | false ↦ do (st2, s, done) ← read_string st' (next a 1) n; ok (st2, b ∷ s, done)
      ]
      | _ ↦ ok (st', [], false)
    ]

  module _ (stop : Bool) where
    -- The object at a host address, made writeable, gets the bytes from an offset on.
    pub write_at : State S → ℕ → ℕ → List E → Result (State S)
    write_at st h i bytes = do
      p ← ram (k.find_object st.space (object_base h))
      (st', o) ← get_writeable k stop st p
      ok (record st' { space = write_bytes k st'.space o i bytes })

    -- writeMemory8(address, value, addressType), for an expression
    pub write_memory8 : State S → ℕ → E → Result (State S × Bool)
    write_memory8 st a e = do
      host ← get_host_address mmu st.active a ty
      elim host [
        | none ↦ ok (st, false)
        | some h ↦ do st' ← write_at st h (h % object_size) (e ∷ []); ok (st', true)
      ]

    -- writeMemory(address, buf, width, addressType), for a buffer of bytes
    pub write_buffer : ℕ → State S → ℕ → List ℕ → ℕ → Result (State S × Bool)
    unfolding write_at
    write_buffer zero st a buf width = fault out_of_bounds
    write_buffer (suc fuel) st a buf width =
        let size = width / 8 in
        let size1 = object_size - a % object_size in
        let rest =
          λ (st1 : State S). write_buffer fuel st1 (next a size1) (drop size1 buf) (size - size1) in
        do
          check (width % 8 == 0)
          elim (leb (a % object_size + size) object_size) [
            | true ↦ do
              host ← get_host_address mmu st.active a ty
              elim host [
                | none ↦ ok (st, false)
                | some h ↦ do
                  st' ← write_at st h (a % object_size) (constants k (take size buf))
                  ok (st', true)
              ]
            | false ↦ do
              (st1, done) ← write_buffer fuel st a buf size1
              elim done [ false ↦ ok (st1, false) | true ↦ rest st1 ]
          ]

    -- The loop of writeMemory() over the bytes of an expression.
    pub write_each : State S → ℕ → List E → Result (State S × Bool)
    unfolding write_memory8
    write_each st a [] = ok (st, true)
    write_each st a (e ∷ es) = do
      (st', done) ← write_memory8 st a e
      elim done [ false ↦ ok (st', false) | true ↦ write_each st' (next a 1) es ]

    -- writeMemory(address, value, addressType), for an expression of whole bytes
    pub write_memory : ℕ → State S → ℕ → List E → Result (State S × Bool)
    unfolding write_buffer write_each constant_bytes
    write_memory fuel st a value =
        let n = length value in
        let one = (do
          host ← get_host_address mmu st.active a ty
          elim host [
            | none ↦ ok (st, false)
            | some h ↦ do st' ← write_at st h (h % object_size) value; ok (st', true)
          ]) in
        let symbolic =
          if leb (a % object_size + n) object_size then one else write_each st a value in
        elim (constant_bytes k value) [
          | none ↦ symbolic
          | some buf ↦
              if leb n 8
              then if n == 1 || n == 2 || n == 4 || n == 8
                then write_buffer fuel st a buf (8 * n)
                else fault assertion
              else symbolic
        ]

    -- writeMemory(address, value, addressType) for an expression of one bit, of which `e` is the byte that
    -- it is extended to with zeros.
    pub write_memory_bool : ℕ → State S → ℕ → E → Result (State S × Bool)
    unfolding write_buffer write_memory8
    write_memory_bool fuel st a e = elim (k.constant e) [
      | some v ↦ write_buffer fuel st a (v ∷ []) 8
      | none ↦ write_memory8 st a e
    ]

    -- writeMemoryConcrete(address, buf, size, addressType)
    pub write_memory_concrete : ℕ → State S → ℕ → List ℕ → Result (State S × Bool)
    write_memory_concrete fuel st a [] = ok (st, true)
    write_memory_concrete fuel st a (b ∷ bs) = do
      (st', done) ← write_memory fuel st a (k.byte b ∷ [])
      elim done [ false ↦ ok (st', false) | true ↦ write_memory_concrete fuel st' (next a 1) bs ]
