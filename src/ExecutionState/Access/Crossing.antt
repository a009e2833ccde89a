-- ===== src/ExecutionState/Access/Crossing.antt =====
-- writeMemory() of a constant that leaves an object.
use s2e.Common.{
  ℕ, suc, ◌+◌, ◌-◌, ◌*◌, ◌/◌, ◌%◌, ◌≤◌, ◌<◌, ◌≡◌, refl, sym, ap, ◌∙◌, Bool, true, false, ◌||◌, List,
  [], ◌∷◌, some, arith, length, leb, le→leb, lt→leb, ◌==◌, ==_ne, fault, assertion, some-eq,
  Bool-cases, Option-cases, inl, inr,
}
use s2e.ExecutionState.Klee.{Klee}
use s2e.ExecutionState.Memory.{State, object_size, constants, AddressType, Mmu}
use s2e.ExecutionState.Access.{write_buffer, constant_bytes, write_memory}

zero_mod : (n : ℕ) → 8 * n % 8 ≡ 0
zero_mod n = omega arith

module _ {S E : Type 0} (k : Klee S E) (mmu : Mmu) (ty : AddressType) where
  -- A constant expression is the expression of its bytes.
  pub constants-constant_bytes :
      (value : List E) (buf : List ℕ)
      → constant_bytes k value ≡ some buf
      → (constants k buf ≡ value) × (length buf ≡ length value)
  unfolding constant_bytes constants
  constants-constant_bytes [] [] e = (refl, refl)
  constants-constant_bytes [] (b ∷ bs) e = cc
  constants-constant_bytes (x ∷ xs) buf e = elim (Option-cases (k.constant x)) [
    | inl n ↦ cc (rw (n, constant_bytes) at e)
    | inr (v, f) ↦ elim (Option-cases (constant_bytes k xs)) [
      | inl n ↦ cc (rw (f, constant_bytes, n) at e)
      | inr (vs, g) ↦
          let same : v ∷ vs ≡ buf = some-eq (v ∷ vs) buf (rw (f, constant_bytes, g) at e) in
          let (bytes, count) = constants-constant_bytes xs vs g in
          (
            ap (constants k) (sym same)
                ∙ ap (λ t. t ∷ constants k vs) (sym (k.byte-constant x v f))
                ∙ ap (λ t. x ∷ t) bytes,
            ap length (sym same) ∙ ap suc count,
          )
    ]
  ]

  module _ (stop : Bool) (fuel : ℕ) (st : State S) (a : ℕ) (buf : List ℕ) where
    buffer_bits :
        (width : ℕ)
        → (width % 8 == 0) ≡ false
        → write_buffer k mmu ty stop (suc fuel) st a buf width ≡ fault assertion
    unfolding write_buffer
    buffer_bits width odd = rw odd refl

    buffer_crossing :
        (n : ℕ)
        → n ≤ 8
        → object_size < a % object_size + n
        → write_buffer k mmu ty stop (suc (suc fuel)) st a buf (8 * n) ≡ fault assertion
    unfolding write_buffer
    buffer_crossing n small over =
        let whole : (8 * n % 8 == 0) ≡ true = rw (zero_mod n) refl in
        let size : 8 * n / 8 ≡ n = omega arith in
        let two : leb (a % object_size + n) object_size ≡ false =
          lt→leb (a % object_size + n) object_size over in
        let odd : ((object_size - a % object_size) % 8 == 0) ≡ false =
          ==_ne ((object_size - a % object_size) % 8) 0 (λ h. omega (arith, h)) in
        rw (whole, size, two, buffer_bits (object_size - a % object_size) odd) refl

  -- A write of a constant of up to 8 bytes that does not lie in one object fails an assertion, since
  -- writeMemory() of a buffer passes the number of bytes in the first object on as a number of bits.
  pub write_memory_crossing :
      (stop : Bool) (fuel : ℕ) (st : State S) (a : ℕ) (value : List E) (buf : List ℕ)
      → constant_bytes k value ≡ some buf
      → length value ≤ 8
      → object_size < a % object_size + length value
      → write_memory k mmu ty stop (suc (suc fuel)) st a value ≡ fault assertion
  unfolding write_memory
  write_memory_crossing stop fuel st a value buf e small over =
      let fits = le→leb (length value) 8 small in
      let n = length value in
      elim (Bool-cases (n == 1 || n == 2 || n == 4 || n == 8)) [
        | inl t ↦ rw (e, write_memory, fits, t) (buffer_crossing stop fuel st a buf n small over)
        | inr f ↦ rw (e, write_memory, fits, f) refl
      ]
