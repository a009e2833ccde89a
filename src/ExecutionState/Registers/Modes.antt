-- ===== src/ExecutionState/Registers/Modes.antt =====
-- The switches between symbolic and concrete execution keep the registers.
use s2e.Common.{
  ℕ, ◌+◌, ◌≤◌, ◌<◌, ◌≡◌, refl, sym, ap, ◌∙◌, true, false, not, ◌||◌, arith, leb, leb→le, lt→ltb,
  Bool-cases, inl, inr, ◌⊎◌, ok, check, ◌>>◌,
}
use s2e.ExecutionState.Registers.{
  Object, Cpu, bytes_at, constants, is_concrete, read_cpu_register, copied, switch_to_concrete,
  switch_to_symbolic,
}
use s2e.ExecutionState.Registers.Bytes.{bytes_at_eq, is_concrete_eq, bytes_at_concrete}

module _ {O E : Type 0} (k : Object O E) (limit : ℕ) where
  -- Where a register is read from.
  pub read_cpu_register_symbolic :
      (c : Cpu O) (i n : ℕ)
      → not c.running_concrete || not (is_concrete k c.registers i n) ≡ true
      → read_cpu_register k limit c i n ≡ (
          check (leb n 8) >> (check (leb (i + n) limit) >> ok (bytes_at (k.read8 c.registers) i n)))
  unfolding read_cpu_register
  read_cpu_register_symbolic c i n h = rw h refl

  pub read_cpu_register_concrete_mode :
      (c : Cpu O) (i n : ℕ)
      → c.running_concrete ≡ true
      → is_concrete k c.registers i n ≡ true
      → read_cpu_register k limit c i n ≡ (
          check (leb n 8)
          >> (check (leb (i + n) limit) >> ok (constants k (bytes_at c.memory i n))))
  unfolding read_cpu_register
  read_cpu_register_concrete_mode c i n r h = rw (r, h) refl

  -- The assertion on the offset holds, or both reads fail.
  in_registers :
      {A : Type 0} (i n : ℕ) (a b : A)
      → (i + n ≤ limit → a ≡ b)
      → (check (leb n 8) >> (check (leb (i + n) limit) >> ok a))
        ≡ (check (leb n 8) >> (check (leb (i + n) limit) >> ok b))
  in_registers i n a b h = elim (Bool-cases (leb (i + n) limit)) [
    | inl t ↦
        ap (λ v. check (leb n 8) >> (check (leb (i + n) limit) >> ok v))
          (h (leb→le (i + n) limit t))
    | inr f ↦ rw f refl
  ]

  module _ (c : Cpu O) where
    -- The states after the switches.
    concrete : Cpu O
    concrete = record c {
      memory = copied k limit (k.concrete_store c.registers) c.memory;
      running_concrete = true;
    }

    symbolic : Cpu O
    symbolic = record c { registers = k.fill c.registers limit c.memory; running_concrete = false }

    concrete_reads :
        c.running_concrete ≡ false
        → (i n : ℕ) → read_cpu_register k limit concrete i n ≡ read_cpu_register k limit c i n
    unfolding concrete
    concrete_reads r i n = elim (Bool-cases (is_concrete k c.registers i n)) [
      | inl t ↦
          read_cpu_register_concrete_mode concrete i n refl t
          ∙ in_registers i n (constants k (bytes_at concrete.memory i n))
              (bytes_at (k.read8 c.registers) i n)
              (λ le.
                ap (constants k) (
                  bytes_at_eq concrete.memory (k.concrete_store c.registers) i n
                    (λ j a b. rw (lt→ltb j limit (omega (arith, b, le))) refl))
                ∙ sym (bytes_at_concrete k c.registers i n t))
          ∙ sym (read_cpu_register_symbolic c i n (rw r refl))
      | inr f ↦
          read_cpu_register_symbolic concrete i n (rw f refl)
          ∙ sym (read_cpu_register_symbolic c i n (rw r refl))
    ]

    -- All bytes of the run are concrete, or all are symbolic.
    abbrev pub Uniform : ℕ → ℕ → Type 0
    Uniform i n =
        (is_concrete k c.registers i n ≡ true)
        ⊎ (is_concrete k c.registers i n ≡ false)
          × ((j : ℕ) → i ≤ j → j < i + n → k.is_concrete8 c.registers j ≡ false)

    symbolic_reads :
        c.running_concrete ≡ true
        → (i n : ℕ) → Uniform i n
        → read_cpu_register k limit symbolic i n ≡ read_cpu_register k limit c i n
    unfolding symbolic
    symbolic_reads r i n (inl t) =
        read_cpu_register_symbolic symbolic i n refl
        ∙ in_registers i n (bytes_at (k.read8 symbolic.registers) i n)
            (constants k (bytes_at c.memory i n))
            (λ le.
              bytes_at_concrete k symbolic.registers i n (
                is_concrete_eq k symbolic.registers c.registers i n
                  (λ j a b. k.is_concrete8-fill c.registers limit c.memory j)
                ∙ t)
              ∙ ap (constants k) (
                  bytes_at_eq (k.concrete_store symbolic.registers) c.memory i n (λ j a b.
                    k.concrete_store-fill c.registers limit c.memory j (omega (arith, b, le)))))
        ∙ sym (read_cpu_register_concrete_mode c i n r t)
    symbolic_reads r i n (inr (f, all)) =
        read_cpu_register_symbolic symbolic i n refl
        ∙ in_registers i n (bytes_at (k.read8 symbolic.registers) i n)
            (bytes_at (k.read8 c.registers) i n)
            (λ le.
              bytes_at_eq (k.read8 symbolic.registers) (k.read8 c.registers) i n
                (λ j a b. k.read8-fill_symbolic c.registers limit c.memory j (all j a b)))
        ∙ sym (read_cpu_register_symbolic c i n (rw (r, f) refl))

  -- The switch from symbolic to concrete execution, where no concretization is forced, fails no
  -- assertion, and every register reads as before, whether it is concrete, symbolic or part of each.
  pub switch_to_concrete-SameRegisters :
      (c : Cpu O)
      → c.running_concrete ≡ false
      → (c' : Cpu O) × (switch_to_concrete k limit false c ≡ ok c')
        × (c'.running_concrete ≡ true)
        × ((i n : ℕ) → read_cpu_register k limit c' i n ≡ read_cpu_register k limit c i n)
  unfolding switch_to_concrete concrete
  switch_to_concrete-SameRegisters c r = (concrete c, rw r refl, refl, concrete_reads c r)

  -- The switch from concrete to symbolic execution fails no assertion, and a register reads as before
  -- where its bytes are all concrete or all symbolic; the concrete ones are those that the concrete
  -- execution has left in CPUArchState.
  pub switch_to_symbolic-SameRegisters :
      (c : Cpu O) (i n : ℕ)
      → c.running_concrete ≡ true
      → Uniform c i n
      → (c' : Cpu O) × (switch_to_symbolic k limit c ≡ ok c')
        × (c'.running_concrete ≡ false)
        × (read_cpu_register k limit c' i n ≡ read_cpu_register k limit c i n)
  unfolding switch_to_symbolic symbolic
  switch_to_symbolic-SameRegisters c i n r u =
      (symbolic c, rw r refl, refl, symbolic_reads c r i n u)
