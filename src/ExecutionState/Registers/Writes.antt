-- ===== src/ExecutionState/Registers/Writes.antt =====
-- Reads of registers after writes.
use s2e.Common.{
  ℕ, ◌+◌, ◌≡◌, refl, sym, ap, ◌∙◌, true, false, List, some, length, leb, Bool-cases, inl, inr, ◌⊎◌,
  ok, check, ◌>>◌, subst,
}
use s2e.ExecutionState.Registers.{
  Object, Cpu, bytes_at, put_bytes, constants, constant_bytes, is_concrete, write,
  read_cpu_register, write_cpu_register,
}
use s2e.ExecutionState.Registers.Bytes.{
  Apart, bytes_at-put_bytes, put_bytes-Apart, bytes_at-write, write-Apart, constants-constant_bytes,
  is_concrete-write,
}
use s2e.ExecutionState.Registers.Modes.{read_cpu_register_symbolic, read_cpu_register_concrete_mode}
use s2e.ExecutionState.Registers.Routes.{Fits, object_case, memory_case}

module _ {O E : Type 0} (k : Object O E) (limit : ℕ) where
  -- The run is read from where it has been written to.
  abbrev Readable : Cpu O → ℕ → ℕ → Type 0
  Readable c i n = (c.running_concrete ≡ false) ⊎ (is_concrete k c.registers i n ≡ true)

  -- The results of reads after a write.
  abbrev pub Written : Cpu O → Cpu O → ℕ → List E → Type 0
  Written c c' i value =
      (read_cpu_register k limit c' i (length value) ≡ ok value)
      × ((j n : ℕ)
          → Apart i (length value) j n
          → read_cpu_register k limit c' j n ≡ read_cpu_register k limit c j n)

  Fits-run :
      {A : Type 0} (i n : ℕ) (a : A)
      → Fits k limit i n
      → (check (leb n 8) >> (check (leb (i + n) limit) >> ok a)) ≡ ok a
  Fits-run i n a f = rw (f.0, f.1) refl

  object_Written :
      (c : Cpu O) (i : ℕ) (value : List E)
      → c.running_concrete ≡ false
      → Fits k limit i (length value)
      → Written c (record c { registers = write k c.registers i value }) i value
  object_Written c i value r fits =
      let c' : Cpu O = record c { registers = write k c.registers i value } in
      (
        read_cpu_register_symbolic k limit c' i (length value) (rw r refl)
            ∙ Fits-run i (length value) (bytes_at (k.read8 c'.registers) i (length value)) fits
            ∙ ap ok (bytes_at-write k c.registers i value),
        λ j n out.
            read_cpu_register_symbolic k limit c' j n (rw r refl)
            ∙ ap (λ v. check (leb n 8) >> (check (leb (j + n) limit) >> ok v))
                (write-Apart k c.registers i value j n out)
            ∙ sym (read_cpu_register_symbolic k limit c j n (rw r refl)),
      )

  memory_Written :
      (c : Cpu O) (i : ℕ) (value : List E) (bytes : List ℕ)
      → c.running_concrete ≡ true
      → is_concrete k c.registers i (length value) ≡ true
      → Fits k limit i (length value)
      → constant_bytes k value ≡ some bytes
      → Written c (record c { memory = put_bytes c.memory i bytes }) i value
  memory_Written c i value bytes r t fits b =
      let c' : Cpu O = record c { memory = put_bytes c.memory i bytes } in
      let (same, len) = constants-constant_bytes k value bytes b in
      (
        read_cpu_register_concrete_mode k limit c' i (length value) r t
            ∙ Fits-run i (length value) (constants k (bytes_at c'.memory i (length value))) fits
            ∙ ap (λ l. ok (constants k (bytes_at c'.memory i l))) (sym len)
            ∙ ap (λ l. ok (constants k l)) (bytes_at-put_bytes c.memory i bytes)
            ∙ ap ok same,
        λ j n out. elim (Bool-cases (is_concrete k c.registers j n)) [
          | inr f ↦
              read_cpu_register_symbolic k limit c' j n (rw (r, f) refl)
              ∙ sym (read_cpu_register_symbolic k limit c j n (rw (r, f) refl))
          | inl u ↦
              read_cpu_register_concrete_mode k limit c' j n r u
              ∙ ap (λ v. check (leb n 8) >> (check (leb (j + n) limit) >> ok (constants k v)))
                  (put_bytes-Apart c.memory i bytes j n (subst (λ l. Apart i l j n) (sym len) out))
              ∙ sym (read_cpu_register_concrete_mode k limit c j n r u)
        ],
      )

  -- After writeCpuRegister() in symbolic execution, or in concrete execution to a register that is
  -- concrete: readCpuRegister() of the register returns what was written, and any other register that
  -- does not overlap it reads as before.
  pub read_cpu_register-write_cpu_register :
      (c : Cpu O) (i : ℕ) (value : List E) (c' : Cpu O)
      → write_cpu_register k limit c i value ≡ ok c'
      → Readable c i (length value)
      → Written c c' i value
  read_cpu_register-write_cpu_register c i value c' h (inl r) =
      let (fits, (o, at)) = object_case k limit c i value c' h (rw r refl) in
      subst (λ d. Written c d i value) at (object_Written c i value r fits)
  read_cpu_register-write_cpu_register c i value c' h (inr t) =
      elim (Bool-cases c.running_concrete) [
        | inr r ↦
            let (fits, (o, at)) = object_case k limit c i value c' h (rw r refl) in
            subst (λ d. Written c d i value) at (object_Written c i value r fits)
        | inl r ↦
            let (fits, (r', t', (bytes, b, at))) = memory_case k limit c i value c' h r t in
            subst (λ d. Written c d i value) at (memory_Written c i value bytes r t fits b)
      ]

  -- The object has the value, CPUArchState is as before, and is what is read.
  abbrev pub Lost : Cpu O → Cpu O → ℕ → List E → Type 0
  Lost c c' i value =
      (bytes_at (k.read8 c'.registers) i (length value) ≡ value)
      × (is_concrete k c'.registers i (length value) ≡ true)
      × (c'.memory ≡ c.memory)
      × (read_cpu_register k limit c' i (length value)
          ≡ ok (constants k (bytes_at c.memory i (length value))))

  -- In concrete execution, a write of a constant of whole bytes to a register that is not concrete,
  -- which fails no assertion, is lost: the object takes the constant and is concrete there,
  -- CPUArchState does not change, and readCpuRegister() then returns what CPUArchState has there.
  pub write_cpu_register-Lost :
      (c : Cpu O) (i : ℕ) (value : List E) (bytes : List ℕ) (c' : Cpu O)
      → c.running_concrete ≡ true
      → is_concrete k c.registers i (length value) ≡ false
      → constant_bytes k value ≡ some bytes
      → write_cpu_register k limit c i value ≡ ok c'
      → Lost c c' i value
  write_cpu_register-Lost c i value bytes c' r f b h =
      let (fits, (o, at)) = object_case k limit c i value c' h (rw (r, f) refl) in
      let d : Cpu O = record c { registers = write k c.registers i value } in
      let concrete = is_concrete-write k c.registers i value bytes b in
      subst (λ d. Lost c d i value) at
        (
          bytes_at-write k c.registers i value,
          concrete,
          refl,
          read_cpu_register_concrete_mode k limit d i (length value) r concrete
              ∙ Fits-run i (length value) (constants k (bytes_at c.memory i (length value))) fits,
        )
