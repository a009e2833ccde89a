-- ===== src/ExecutionState/Registers.antt =====
-- The CPU of an execution state: readCpuRegister(), writeCpuRegister(), readCpuState() and writeCpuState()
-- of src/s2e/S2EExecutionState.cpp, with the switches between symbolic and concrete execution of
-- src/s2e/S2EExecutor.cpp. The registers lie below CPU_CONC_LIMIT in CPUArchState and may be symbolic, the
-- rest of it may not. A value of n bytes is the list of its bytes, the lowest first.
pub mod Bytes
pub mod Modes
pub mod Routes
pub mod Writes
pub mod System
mod Tests
use s2e.Common.{
  ℕ, zero, suc, ◌+◌, ◌-◌, ◌/◌, ◌%◌, ◌<◌, ◌≡◌, Bool, true, false, not, ◌&&◌, ◌||◌, List, [], ◌∷◌,
  Option, none, some, length, take, ltb, leb, ◌==◌, if◌then◌else◌, Result, ok, fault, assertion,
  out_of_bounds, ◌>>=◌, ◌>>◌, check,
}

abbrev pub is_some {ℓ} : {A : Type ℓ} → Option A → Bool
is_some none = false
is_some (some a) = true

-- klee::ObjectState for `O`, with expressions of one byte in `E`: read8(), write8(), isConcrete() of a
-- byte, the bytes at getConcreteStore(true), and a memcpy() of n bytes to there.
pub record Object (O E : Type 0) : Type 0 where
  pub read8 : O → ℕ → E
  pub write8 : O → ℕ → E → O
  pub is_concrete8 : O → ℕ → Bool
  pub concrete_store : O → ℕ → ℕ
  pub fill : O → ℕ → (ℕ → ℕ) → O
  pub constant : E → Option ℕ
  pub byte : ℕ → E
  pub byte-constant : (e : E) (v : ℕ) → constant e ≡ some v → e ≡ byte v
  pub read8-write8 :
      (o : O) (i : ℕ) (e : E) (j : ℕ) → read8 (write8 o i e) j ≡ (if i == j then e else read8 o j)
  pub is_concrete8-write8 :
      (o : O) (i : ℕ) (e : E) (j : ℕ)
      → is_concrete8 (write8 o i e) j ≡ (if i == j then is_some (constant e) else is_concrete8 o j)
  pub read8_concrete :
      (o : O) (i : ℕ) → is_concrete8 o i ≡ true → read8 o i ≡ byte (concrete_store o i)
  pub concrete_store-fill :
      (o : O) (n : ℕ) (m : ℕ → ℕ) (i : ℕ) → i < n → concrete_store (fill o n m) i ≡ m i
  pub is_concrete8-fill :
      (o : O) (n : ℕ) (m : ℕ → ℕ) (i : ℕ) → is_concrete8 (fill o n m) i ≡ is_concrete8 o i
  pub read8-fill_symbolic :
      (o : O) (n : ℕ) (m : ℕ → ℕ) (i : ℕ)
      → is_concrete8 o i ≡ false
      → read8 (fill o n m) i ≡ read8 o i

-- m_cpuRegistersObject, the CPUArchState that QEMU runs on, the concrete store of m_cpuSystemObject,
-- m_active and m_runningConcrete.
pub record Cpu (O : Type 0) : Type 0 where
  pub registers : O
  pub memory : ℕ → ℕ
  pub system_store : ℕ → ℕ
  pub active : Bool
  pub running_concrete : Bool

-- n bytes from i on, and small_memcpy() of bytes to i.
unfoldable pub bytes_at {ℓ} : {A : Type ℓ} → (ℕ → A) → ℕ → ℕ → List A
bytes_at m i zero = []
bytes_at m i (suc n) = m i ∷ bytes_at m (i + 1) n

unfoldable pub put_bytes : (ℕ → ℕ) → ℕ → List ℕ → ℕ → ℕ
put_bytes m i [] j = m j
put_bytes m i (b ∷ bs) j = if i == j then b else put_bytes m (i + 1) bs j

-- Expr::getMinBytesForWidth(width)
abbrev pub min_bytes : ℕ → ℕ
min_bytes width = (width + 7) / 8

-- `ret &= 1` for a width of one bit
abbrev pub masked : ℕ → List ℕ → List ℕ
masked width [] = []
masked width (b ∷ bs) = if width == 1 then (b % 2) ∷ [] else b ∷ bs

-- `total` is sizeof(CPUArchState), `limit` is CPU_CONC_LIMIT.
module _ {O : Type 0} (limit total : ℕ) where
  -- readCpuState(offset, width)
  pub read_cpu_state : Cpu O → ℕ → ℕ → Result (List ℕ)
  read_cpu_state c i width = do
    check ((width == 1 || width % 8 == 0) && leb width 64)
    check (leb limit i)
    check (leb (i + min_bytes width) total)
    ok (
        masked width (
          if c.active
          then bytes_at c.memory i (min_bytes width)
          else bytes_at c.system_store (i - limit) (min_bytes width)))

  -- writeCpuState(offset, value, width), for the bytes of a value
  pub write_cpu_state : Cpu O → ℕ → List ℕ → ℕ → Result (Cpu O)
  write_cpu_state c i value width =
      let bytes = masked width (take (min_bytes width) value) in
      do
        check ((width == 1 || width % 8 == 0) && leb width 64)
        check (leb limit i)
        check (leb (i + min_bytes width) total)
        if c.active
            then ok (record c { memory = put_bytes c.memory i bytes })
            else ok (record c { system_store = put_bytes c.system_store (i - limit) bytes })

module _ {O E : Type 0} (k : Object O E) where
  abbrev pub constants : List ℕ → List E
  constants [] = []
  constants (v ∷ vs) = k.byte v ∷ constants vs

  -- dyn_cast<ConstantExpr> of an expression of several bytes
  abbrev pub constant_bytes : List E → Option (List ℕ)
  constant_bytes [] = some []
  constant_bytes (e ∷ es) = elim (k.constant e) [
    | none ↦ none
    | some v ↦ elim (constant_bytes es) [ none ↦ none | some vs ↦ some (v ∷ vs) ]
  ]

  -- isConcrete(offset, width), for n bytes
  unfoldable pub is_concrete : O → ℕ → ℕ → Bool
  is_concrete o i zero = true
  is_concrete o i (suc n) = k.is_concrete8 o i && is_concrete o (i + 1) n

  -- ObjectState::write(offset, value)
  unfoldable pub write : O → ℕ → List E → O
  write o i [] = o
  write o i (e ∷ es) = write (k.write8 o i e) (i + 1) es

  module _ (limit : ℕ) where
    -- readCpuRegister(offset, width), for a width of n bytes
    pub read_cpu_register : Cpu O → ℕ → ℕ → Result (List E)
    read_cpu_register c i n = do
      check (leb n 8)
      check (leb (i + n) limit)
      if not c.running_concrete || not (is_concrete c.registers i n)
          then ok (bytes_at (k.read8 c.registers) i n)
          else ok (constants (bytes_at c.memory i n))

    -- writeCpuRegister(offset, value)
    pub write_cpu_register : Cpu O → ℕ → List E → Result (Cpu O)
    write_cpu_register c i value = do
      check (leb (length value) 8)
      check (leb (i + length value) limit)
      if not c.running_concrete || not (is_concrete c.registers i (length value))
          then ok (record c { registers = write c.registers i value })
          else (elim (constant_bytes value) [
            | none ↦ fault assertion
            | some bytes ↦ ok (record c { memory = put_bytes c.memory i bytes })
          ])

    -- readCpuRegister(offset, width) for a width of one bit, the lowest of its byte by `bit`, and
    -- writeCpuRegister(offset, value) of one bit, which `byte` extends to a byte with zeros.
    pub read_cpu_register_bool : {B : Type 0} → (E → B) → Cpu O → ℕ → Result (Option B)
    unfolding read_cpu_register
    read_cpu_register_bool bit c i = do
      value ← read_cpu_register c i 1
      ok (elim value [ [] ↦ none | e ∷ es ↦ some (bit e) ])

    pub write_cpu_register_bool : {B : Type 0} → (B → E) → Cpu O → ℕ → B → Result (Cpu O)
    unfolding write_cpu_register
    write_cpu_register_bool byte c i b = write_cpu_register c i (byte b ∷ [])

    -- writeCpuRegisterSymbolic(offset, value)
    pub write_cpu_register_symbolic : Cpu O → ℕ → List E → Result (Cpu O)
    write_cpu_register_symbolic c i value = do
      check (leb (length value) 8)
      check (leb (i + length value) limit)
      ok (record c { registers = write c.registers i value })

    -- readCpuRegisterConcrete(offset, buf, size): `none` where it returns false.
    pub read_cpu_register_concrete : Cpu O → ℕ → ℕ → Result (Option (List ℕ))
    unfolding read_cpu_register
    read_cpu_register_concrete c i n = do
      check (leb n 8)
      value ← read_cpu_register c i n
      ok (constant_bytes value)

    -- writeCpuRegisterConcrete(offset, buf, size): more than 8 bytes do not fit into its variable.
    pub write_cpu_register_concrete : Cpu O → ℕ → List ℕ → Result (Cpu O)
    unfolding write_cpu_register
    write_cpu_register_concrete c i buf =
        if leb (length buf) 8 then write_cpu_register c i (constants buf) else fault out_of_bounds

    -- memcpy() of the registers into CPUArchState
    abbrev pub copied : (ℕ → ℕ) → (ℕ → ℕ) → ℕ → ℕ
    copied from to i = if ltb i limit then from i else to i

    -- S2EExecutor::switchToConcrete(state); the stub for m_forceConcretizations stops the run.
    pub switch_to_concrete : Bool → Cpu O → Result (Cpu O)
    switch_to_concrete force c = do
      check (not c.running_concrete)
      check (not force)
      ok (record c {
        memory = copied (k.concrete_store c.registers) c.memory;
        running_concrete = true;
      })

    -- S2EExecutor::switchToSymbolic(state)
    pub switch_to_symbolic : Cpu O → Result (Cpu O)
    switch_to_symbolic c = do
      check c.running_concrete
      ok (record c { registers = k.fill c.registers limit c.memory; running_concrete = false })
