-- ===== src/ExecutionState/Registers/Routes.antt =====
-- Where writeCpuRegister() writes to.
use s2e.Common.{
  assertion, ℕ, ◌+◌, ◌≡◌, refl, sym, ap, ◌∙◌, Bool, true, false, not, ◌||◌, List, Option, none,
  some, length, leb, if◌then◌else◌, Bool-cases, Option-cases, inl, inr, Result, ok, fault, ok-eq,
  check, ◌>>◌,
}
use s2e.ExecutionState.Registers.{
  Object, Cpu, put_bytes, constant_bytes, is_concrete, write, write_cpu_register,
}

module _ {O E : Type 0} (k : Object O E) (limit : ℕ) where
  -- The two assertions on a width and an offset.
  abbrev pub Fits : ℕ → ℕ → Type 0
  Fits i n = (leb n 8 ≡ true) × (leb (i + n) limit ≡ true)

  checked :
      {A : Type 0} (i n : ℕ) (run : Result A) (a : A)
      → (check (leb n 8) >> (check (leb (i + n) limit) >> run)) ≡ ok a
      → Fits i n × (run ≡ ok a)
  checked i n run a h = elim (Bool-cases (leb n 8)) [
    | inr f ↦ cc (rw f at h)
    | inl t ↦ elim (Bool-cases (leb (i + n) limit)) [
      | inr f ↦ cc (rw (t, f) at h)
      | inl u ↦ ((t, u), rw (t, u) at h)
    ]
  ]

  -- Where a write goes: to the object of the registers, or to CPUArchState.
  abbrev pub ToObject : Cpu O → ℕ → List E → Cpu O → Type 0
  ToObject c i value c' =
      (not c.running_concrete || not (is_concrete k c.registers i (length value)) ≡ true)
      × (record c { registers = write k c.registers i value } ≡ c')

  abbrev pub ToMemory : Cpu O → ℕ → List E → Cpu O → Type 0
  ToMemory c i value c' =
      (c.running_concrete ≡ true)
      × (is_concrete k c.registers i (length value) ≡ true)
      × ((bytes : List ℕ) × (constant_bytes k value ≡ some bytes)
          × (record c { memory = put_bytes c.memory i bytes } ≡ c'))

  to_memory : Cpu O → ℕ → Option (List ℕ) → Result (Cpu O)
  to_memory c i none = fault assertion
  to_memory c i (some bytes) = ok (record c { memory = put_bytes c.memory i bytes })

  outside : Cpu O → ℕ → ℕ → Bool
  outside c i n = not c.running_concrete || not (is_concrete k c.registers i n)

  branch : Cpu O → ℕ → List E → Bool → Result (Cpu O)
  branch c i value b =
      check (leb (length value) 8)
      >> (check (leb (i + length value) limit)
          >> (if b
              then ok (record c { registers = write k c.registers i value })
              else to_memory c i (constant_bytes k value)))

  branch_lem :
      (c : Cpu O) (i : ℕ) (value : List E)
      → write_cpu_register k limit c i value ≡ branch c i value (outside c i (length value))
  unfolding write_cpu_register to_memory branch outside
  branch_lem c i value = elim (Option-cases (constant_bytes k value)) [
    | inl n ↦ rw n refl
    | inr (bytes, b) ↦ rw b refl
  ]

  object_lem :
      (c : Cpu O) (i : ℕ) (value : List E)
      → not c.running_concrete || not (is_concrete k c.registers i (length value)) ≡ true
      → write_cpu_register k limit c i value ≡ (
          check (leb (length value) 8)
          >> (check (leb (i + length value) limit)
              >> ok (record c { registers = write k c.registers i value })))
  unfolding branch outside
  object_lem c i value h = branch_lem c i value ∙ ap (branch c i value) h

  memory_lem :
      (c : Cpu O) (i : ℕ) (value : List E)
      → c.running_concrete ≡ true
      → is_concrete k c.registers i (length value) ≡ true
      → write_cpu_register k limit c i value ≡ (
          check (leb (length value) 8)
          >> (check (leb (i + length value) limit) >> to_memory c i (constant_bytes k value)))
  unfolding branch outside
  memory_lem c i value r t =
      let inside : outside c i (length value) ≡ false = rw (r, t) refl in
      branch_lem c i value ∙ ap (branch c i value) inside

  pub object_case :
      (c : Cpu O) (i : ℕ) (value : List E) (c' : Cpu O)
      → write_cpu_register k limit c i value ≡ ok c'
      → not c.running_concrete || not (is_concrete k c.registers i (length value)) ≡ true
      → Fits i (length value) × ToObject c i value c'
  object_case c i value c' h o =
      let to_object : Cpu O = record c { registers = write k c.registers i value } in
      let (fits, run) =
        checked i (length value) (ok to_object) c' (sym (object_lem c i value o) ∙ h) in
      (fits, (o, ok-eq to_object c' run))

  pub memory_case :
      (c : Cpu O) (i : ℕ) (value : List E) (c' : Cpu O)
      → write_cpu_register k limit c i value ≡ ok c'
      → c.running_concrete ≡ true
      → is_concrete k c.registers i (length value) ≡ true
      → Fits i (length value) × ToMemory c i value c'
  unfolding to_memory
  memory_case c i value c' h r t =
      let (fits, run) =
        checked i (length value) (to_memory c i (constant_bytes k value)) c'
          (sym (memory_lem c i value r t) ∙ h) in
      elim (Option-cases (constant_bytes k value)) [
        | inl n ↦ cc (rw (n, to_memory) at run)
        | inr (bytes, b) ↦
            let stored : Cpu O = record c { memory = put_bytes c.memory i bytes } in
            (fits, (r, t, (bytes, b, ok-eq stored c' (rw (b, to_memory) at run))))
      ]
