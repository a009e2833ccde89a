-- ===== src/ExecutionState/Registers/Tests.antt =====
-- A CPU with four bytes of registers, of which the last two are symbolic, and four other bytes.
use s2e.Common.{
  inl, ℕ, ◌+◌, ◌≡◌, refl, Bool, true, false, Option, none, some, [], ◌∷◌, arith, ltb, lt→ltb, ◌==◌,
  if◌then◌else◌, ok, fault, assertion, inr,
}
use s2e.ExecutionState.Registers.{
  Object, Cpu, bytes_at, put_bytes, is_some, is_concrete, write, read_cpu_register,
  write_cpu_register, write_cpu_state, switch_to_concrete, switch_to_symbolic,
}
use s2e.ExecutionState.Registers.Modes.{
  switch_to_concrete-SameRegisters, switch_to_symbolic-SameRegisters,
}
use s2e.ExecutionState.Registers.Writes.{
  Written, read_cpu_register-write_cpu_register, write_cpu_register-Lost, Lost,
}
use s2e.ExecutionState.Registers.System.{Stored, read_cpu_state-write_cpu_state}

data Byte : Type 0 where
  constant : ℕ → Byte
  symbol : ℕ → Byte

-- The symbolic bytes have an expression beside the byte of the store.
record Store : Type 0 where
  bytes : ℕ → ℕ
  symbols : ℕ → Option ℕ

abbrev value_of : Byte → Option ℕ
value_of (constant v) = some v
value_of (symbol x) = none

abbrev symbol_of : Byte → Option ℕ
symbol_of (constant v) = none
symbol_of (symbol x) = some x

abbrev byte_of : Byte → ℕ → ℕ
byte_of (constant v) old = v
byte_of (symbol x) old = old

abbrev read : Store → ℕ → Byte
read o i = elim (o.symbols i) [ none ↦ constant (o.bytes i) | some x ↦ symbol x ]

abbrev write8 : Store → ℕ → Byte → Store
write8 o i e = record {
  bytes = λ j. if i == j then byte_of e (o.bytes j) else o.bytes j;
  symbols = λ j. if i == j then symbol_of e else o.symbols j;
}

abbrev concrete8 : Store → ℕ → Bool
concrete8 o i = elim (o.symbols i) [ none ↦ true | some x ↦ false ]

abbrev filled : Store → ℕ → (ℕ → ℕ) → Store
filled o n m = record o { bytes = λ i. if ltb i n then m i else o.bytes i }

constant-value_of : (e : Byte) (v : ℕ) → value_of e ≡ some v → e ≡ constant v
constant-value_of (constant w) v h = ground arith
constant-value_of (symbol x) v h = cc

read-write8 :
    (o : Store) (i : ℕ) (e : Byte) (j : ℕ)
    → read (write8 o i e) j ≡ (if i == j then e else read o j)
read-write8 o i (constant v) j = ground arith
read-write8 o i (symbol x) j = ground arith

concrete8-write8 :
    (o : Store) (i : ℕ) (e : Byte) (j : ℕ)
    → concrete8 (write8 o i e) j ≡ (if i == j then is_some (value_of e) else concrete8 o j)
concrete8-write8 o i (constant v) j = ground arith
concrete8-write8 o i (symbol x) j = ground arith

read-concrete8 : (o : Store) (i : ℕ) → concrete8 o i ≡ true → read o i ≡ constant (o.bytes i)
read-concrete8 o i h = ground arith

read-filled :
    (o : Store) (n : ℕ) (m : ℕ → ℕ) (i : ℕ)
    → concrete8 o i ≡ false
    → read (filled o n m) i ≡ read o i
read-filled o n m i h = ground arith

abbrev object : Object Store Byte
object = record {
  read8 = read;
  write8 = write8;
  is_concrete8 = concrete8;
  concrete_store = λ o. o.bytes;
  fill = filled;
  constant = value_of;
  byte = constant;
  byte-constant = constant-value_of;
  read8-write8 = read-write8;
  is_concrete8-write8 = concrete8-write8;
  read8_concrete = read-concrete8;
  concrete_store-fill = λ o n m i l. rw (lt→ltb i n l) refl;
  is_concrete8-fill = λ o n m i. refl;
  read8-fill_symbolic = read-filled;
}

abbrev registers : Store
registers = record { bytes = λ i. i; symbols = λ i. if ltb i 2 then none else some i }

abbrev cpu : Bool → Cpu Store
cpu mode = record {
  registers = registers;
  memory = λ i. i + 100;
  system_store = λ i. i + 200;
  active = true;
  running_concrete = mode;
}

abbrev asleep : Cpu Store
asleep = record (cpu false) { active = false }

reads_run :
    (read_cpu_register object 4 (cpu false) 0 2 ≡ ok (constant 0 ∷ constant 1 ∷ []))
    × (read_cpu_register object 4 (cpu true) 0 2 ≡ ok (constant 100 ∷ constant 101 ∷ []))
    × (read_cpu_register object 4 (cpu true) 1 2 ≡ ok (constant 1 ∷ symbol 2 ∷ []))
    × (read_cpu_register object 4 (cpu true) 3 2 ≡ fault assertion)
unfolding read_cpu_register bytes_at is_concrete
reads_run = (refl, refl, refl, refl)

symbolic_write_run :
    write_cpu_register object 4 (cpu true) 0 (symbol 9 ∷ symbol 9 ∷ []) ≡ fault assertion
unfolding write_cpu_register is_concrete
symbolic_write_run = refl

switch_to_concrete-SameRegisters_example :
    (c' : Cpu Store) × (switch_to_concrete object 4 false (cpu false) ≡ ok c')
    × (c'.running_concrete ≡ true)
    × ((i n : ℕ) → read_cpu_register object 4 c' i n ≡ read_cpu_register object 4 (cpu false) i n)
switch_to_concrete-SameRegisters_example =
    switch_to_concrete-SameRegisters object 4 (cpu false) refl

first_concrete : is_concrete object registers 0 2 ≡ true
unfolding is_concrete
first_concrete = refl

switch_to_symbolic-SameRegisters_example :
    (c' : Cpu Store) × (switch_to_symbolic object 4 (cpu true) ≡ ok c')
    × (c'.running_concrete ≡ false)
    × (read_cpu_register object 4 c' 0 2 ≡ read_cpu_register object 4 (cpu true) 0 2)
switch_to_symbolic-SameRegisters_example =
    switch_to_symbolic-SameRegisters object 4 (cpu true) 0 2 refl (inl first_concrete)

abbrev after : Cpu Store
after = record (cpu true) { memory = put_bytes (cpu true).memory 0 (7 ∷ 8 ∷ []) }

after_run : write_cpu_register object 4 (cpu true) 0 (constant 7 ∷ constant 8 ∷ []) ≡ ok after
unfolding write_cpu_register is_concrete
after_run = refl

read_cpu_register-write_cpu_register_example :
    Written object 4 (cpu true) after 0 (constant 7 ∷ constant 8 ∷ [])
read_cpu_register-write_cpu_register_example =
    read_cpu_register-write_cpu_register object 4 (cpu true) 0 (constant 7 ∷ constant 8 ∷ []) after
      after_run (inr first_concrete)

abbrev lost : Cpu Store
lost = record (cpu true) { registers = write object registers 2 (constant 7 ∷ constant 8 ∷ []) }

lost_run : write_cpu_register object 4 (cpu true) 2 (constant 7 ∷ constant 8 ∷ []) ≡ ok lost
unfolding write_cpu_register is_concrete write
lost_run = refl

last_symbolic : is_concrete object registers 2 2 ≡ false
unfolding is_concrete
last_symbolic = refl

write_cpu_register-Lost_example : Lost object 4 (cpu true) lost 2 (constant 7 ∷ constant 8 ∷ [])
write_cpu_register-Lost_example =
    write_cpu_register-Lost object 4 (cpu true) 2 (constant 7 ∷ constant 8 ∷ []) (7 ∷ 8 ∷ []) lost
      refl last_symbolic refl lost_run

abbrev saved : Cpu Store
saved = record asleep { system_store = put_bytes asleep.system_store 1 (1 ∷ []) }

saved_run : write_cpu_state 4 8 asleep 5 (3 ∷ 0 ∷ []) 1 ≡ ok saved
unfolding write_cpu_state
saved_run = refl

read_cpu_state-write_cpu_state_example : Stored 4 8 asleep saved 5 (3 ∷ 0 ∷ []) 1
read_cpu_state-write_cpu_state_example =
    read_cpu_state-write_cpu_state 4 8 asleep 5 (3 ∷ 0 ∷ []) 1 saved saved_run (omega arith)
