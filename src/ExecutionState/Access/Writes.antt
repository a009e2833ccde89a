-- ===== src/ExecutionState/Access/Writes.antt =====
-- writeMemory() within an object, and readMemory() after it.
use s2e.Common.{
  ℕ, zero, suc, ◌+◌, ◌*◌, ◌/◌, ◌%◌, ◌^◌, ◌≤◌, ◌<◌, ◌≡◌, refl, sym, ap, ◌∙◌, true, false, ◌||◌, List,
  [], ◌∷◌, some, arith, length, take, leb, le→leb, lt→leb, ◌==◌, ok, ◌⊎◌, Bool-cases, Option-cases,
  inl, inr,
}
use mathlib.Core.Path.{fun_ext}
use s2e.ExecutionState.Klee.{ObjectPair, Klee}
use s2e.ExecutionState.Memory.{
  Cache, State, object_size, object_base, is_ram, constants, write_bytes, get_writeable,
  AddressType, Mmu, get_host_address,
}
use s2e.ExecutionState.Memory.Coherence.{IsCoherent}
use s2e.ExecutionState.Memory.Copy.{ram_byte, get_writeable-Owns}
use s2e.ExecutionState.Ram.Overlay.{overlay, ram_byte-write_bytes}
use s2e.ExecutionState.Ram.Write.{ram_object, IsCoherent-space, base_offset}
use s2e.ExecutionState.Access.{write_at, write_buffer, constant_bytes, write_memory}
use s2e.ExecutionState.Access.Translate.{HostBounded, get_host_address-mod}
use s2e.ExecutionState.Access.Crossing.{constants-constant_bytes}

take_all {ℓ} : {A : Type ℓ} (n : ℕ) (xs : List A) → length xs ≡ n → take n xs ≡ xs
take_all zero [] e = refl
take_all zero (x ∷ xs) e = absurd (omega (arith, e))
take_all (suc n) [] e = refl
take_all (suc n) (x ∷ xs) e = ap (λ t. x ∷ t) (take_all n xs (omega (arith, e)))

-- The sizes of which writeMemory() takes a constant: all above 8 bytes, and four below.
abbrev pub IsSize : ℕ → Type 0
IsSize n = (8 < n) ⊎ ((n == 1 || n == 2 || n == 4 || n == 8) ≡ true)

module _ {S E : Type 0} (k : Klee S E) (mmu : Mmu) (ty : AddressType) where
  write_at_run :
      (st st1 : State S) (h i o : ℕ) (value : List E) (p : ObjectPair)
      → k.find_object st.space (object_base h) ≡ some p
      → is_ram p ≡ true
      → get_writeable k false st p ≡ ok (st1, o)
      → write_at k mmu ty false st h i value
        ≡ ok (record st1 { space = write_bytes k st1.space o i value })
  unfolding write_at
  write_at_run st st1 h i o value p f is own = rw (f, is, own) refl

  -- RAM has the bytes of the value from a host address on and is the same elsewhere, and the cache is
  -- coherent.
  pub record Has (st : State S) (h : ℕ) (value : List E) (s' : S) (c' : Cache) : Type 0 where
    pub coherent : IsCoherent k (record st { space = s'; memcache = c' })
    pub bytes : ram_byte k s' ≡ overlay h value (ram_byte k st.space)

  module _ (st : State S) (v : IsCoherent k st) (h : ℕ) (value : List E) (e : E)
      (byte : ram_byte k st.space h ≡ some e)
      (fits : h % object_size + length value ≤ object_size) where
    write_at-Has :
        (s' : S) × (c' : Cache) × (write_at k mmu ty false st h (h % object_size) value
          ≡ ok (record st { space = s'; memcache = c' }))
        × Has st h value s' c'
    write_at-Has =
        let (p, f, is, at, z) = ram_object k st.space h e byte in
        let (s2, c2, o, owns) =
          get_writeable-Owns k st p v (ap (k.find_object st.space) at ∙ f) z (omega (arith, at)) in
        let (bytes, found) =
          ram_byte-write_bytes k (object_base h) (record p { state = o }) is (omega arith) s2
            (h % object_size) value (ap (k.find_object s2) (sym at) ∙ owns.found) fits in
        (
          write_bytes k s2 o (h % object_size) value,
          c2,
          write_at_run st (record st { space = s2; memcache = c2 }) h (h % object_size) o value p f
              is owns.run,
          record {
            coherent =
                IsCoherent-space k (record st { space = s2; memcache = c2 })
                  (write_bytes k s2 o (h % object_size) value) c2 owns.coherent refl found;
            bytes =
                bytes
                ∙ ap (λ n. overlay n value (ram_byte k s2)) (base_offset h)
                ∙ ap (overlay h value) (fun_ext owns.bytes);
          },
        )

  module _ (fuel : ℕ) (st st' : State S) (a h : ℕ)
      (at : get_host_address mmu st.active a ty ≡ ok (some h))
      (place : h % object_size ≡ a % object_size) (value : List E)
      (fits : a % object_size + length value ≤ object_size)
      (run : write_at k mmu ty false st h (h % object_size) value ≡ ok st') where
    write_buffer_run :
        (buf : List ℕ)
        → constants k buf ≡ value
        → length buf ≡ length value
        → write_buffer k mmu ty false (suc fuel) st a buf (8 * length value) ≡ ok (st', true)
    unfolding write_buffer
    write_buffer_run buf same count =
        let whole : (8 * length value % 8 == 0) ≡ true = ground arith in
        let size : 8 * length value / 8 ≡ length value = omega arith in
        let one = le→leb (a % object_size + length value) object_size fits in
        rw (whole, size, one, at, size, take_all (length value) buf count, same, ← place, run) refl

    write_memory_run :
        IsSize (length value) → write_memory k mmu ty false (suc fuel) st a value ≡ ok (st', true)
    unfolding write_memory
    write_memory_run sized =
        let one = le→leb (a % object_size + length value) object_size fits in
        elim (Option-cases (constant_bytes k value)) [
          | inl n ↦ rw (n, write_memory, one, at, run) refl
          | inr (buf, e) ↦
              let (same, count) = constants-constant_bytes k mmu ty value buf e in
              elim sized [
                | inl large ↦ rw (e, write_memory, lt→leb (length value) 8 large, one, at, run) refl
                | inr listed ↦ elim (Bool-cases (leb (length value) 8)) [
                  | inl small ↦
                      rw (e, write_memory, small, listed) (write_buffer_run buf same count)
                  | inr large ↦ rw (e, write_memory, large, one, at, run) refl
                ]
              ]
        ]

  -- writeMemory() of an expression, constant or not, of a size that the code takes, to an address that
  -- translates to RAM and within one object, for a coherent state, in a build where the stubs do not
  -- stop a run: it returns true, RAM has the bytes of the expression at the host address and is the
  -- same elsewhere, and the cache is coherent again.
  pub write_memory-Has :
      (fuel : ℕ) (st : State S) (a h : ℕ) (value : List E) (e : E)
      → IsCoherent k st
      → HostBounded mmu
      → a < 2 ^ 64
      → get_host_address mmu st.active a ty ≡ ok (some h)
      → ram_byte k st.space h ≡ some e
      → IsSize (length value)
      → a % object_size + length value ≤ object_size
      → (s' : S) × (c' : Cache) × (write_memory k mmu ty false (suc fuel) st a value
          ≡ ok (record st { space = s'; memcache = c' }, true))
        × Has st h value s' c'
  write_memory-Has fuel st a h value e v bounded low at byte sized fits =
      let (page, top) = get_host_address-mod mmu st.active bounded ty a h low at in
      let place : h % object_size ≡ a % object_size = omega (arith, page) in
      let (s', c', run, has) = write_at-Has st v h value e byte (omega (arith, place)) in
      (
        s',
        c',
        write_memory_run fuel st (record st { space = s'; memcache = c' }) a h at place value fits
            run sized,
        has,
      )
