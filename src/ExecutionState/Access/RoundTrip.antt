-- ===== src/ExecutionState/Access/RoundTrip.antt =====
-- readMemory() after writeMemory().
use s2e.Common.{
  ℕ, suc, ◌+◌, ◌%◌, ◌^◌, ◌≤◌, ◌<◌, ◌≡◌, refl, sym, ap, ◌∙◌, true, false, List, [], ◌∷◌, Option,
  some, arith, length, le→leb, ◌==◌, ==_refl, if◌then◌else◌, ok, some-eq,
}
use s2e.ExecutionState.Klee.{ObjectPair, Klee}
use s2e.ExecutionState.Memory.{
  State, object_size, object_base, is_ram, read_bytes, lookup, AddressType, Mmu, get_host_address,
}
use s2e.ExecutionState.Memory.Coherence.{IsCoherent, lookup-IsCoherent}
use s2e.ExecutionState.Memory.Copy.{ram_byte}
use s2e.ExecutionState.Ram.Overlay.{overlay, overlay_before, ram_byte_found}
use s2e.ExecutionState.Ram.Write.{overlay-some, ram_object}
use s2e.ExecutionState.Access.{write_memory, read_memory}
use s2e.ExecutionState.Access.Translate.{HostBounded, get_host_address-mod}
use s2e.ExecutionState.Access.Reads.{read_one_run}
use s2e.ExecutionState.Access.Writes.{IsSize, write_memory-Has}

module _ {S E : Type 0} (k : Klee S E) (mmu : Mmu) (ty : AddressType) where
  -- The bytes of an object state under an overlay.
  read_bytes-overlay :
      (s : S) (p : ObjectPair) (base h i : ℕ) (value : List E) (f : ℕ → Option E)
      → k.find_object s base ≡ some p
      → is_ram p ≡ true
      → base % object_size ≡ 0
      → base + i ≡ h
      → i + length value ≤ object_size
      → ram_byte k s ≡ overlay h value f
      → read_bytes k s p.state i (length value) ≡ value
  unfolding read_bytes
  read_bytes-overlay s p base h i [] f here is al at fits eq = refl
  read_bytes-overlay s p base h i (x ∷ xs) f here is al at fits eq =
      let f' : ℕ → Option E = λ y. if h == y then some x else f y in
      let same : object_base h ≡ base = omega arith in
      let place : h % object_size ≡ i = omega arith in
      let held : some (k.read8 s p.state i) ≡ some x =
        ap (λ j. some (k.read8 s p.state j)) (sym place)
        ∙ sym (ram_byte_found k s h p (ap (k.find_object s) same ∙ here) is)
        ∙ ap (λ (g : ℕ → Option E). g h) eq
        ∙ overlay_before (h + 1) xs f' h (omega arith)
        ∙ rw (==_refl h) refl in
      ap (λ t. t ∷ read_bytes k s p.state (i + 1) (length xs))
        (some-eq (k.read8 s p.state i) x held)
      ∙ ap (λ t. x ∷ t)
          (read_bytes-overlay s p base (h + 1) (i + 1) xs f' here is al (omega arith) (omega arith)
            eq)

  read_memory_run :
      (st st1 : State S) (a n h : ℕ) (p : ObjectPair) (value : List E)
      → a % object_size + n ≤ object_size
      → get_host_address mmu st.active a ty ≡ ok (some h)
      → lookup k st (object_base h) ≡ ok (st1, some p)
      → is_ram p ≡ true
      → read_bytes k st1.space p.state (a % object_size) n ≡ value
      → read_memory k mmu ty st a n ≡ ok (st1, some value)
  unfolding read_memory
  read_memory_run st st1 a n h p value fits at look is bytes =
      rw
        (
          le→leb (a % object_size + n) object_size fits,
          read_one_run k mmu ty st a n h st1 (some p) at look,
          is,
          bytes,
        )
        refl

  -- readMemory() of what writeMemory() has written returns it: for an expression, constant or not, of
  -- a size that the code takes, at an address that translates to RAM and within one object, for a
  -- coherent state, in a build where the stubs do not stop a run.
  pub read_memory-write_memory :
      (fuel : ℕ) (st : State S) (a h : ℕ) (value : List E) (e : E)
      → IsCoherent k st
      → HostBounded mmu
      → a < 2 ^ 64
      → get_host_address mmu st.active a ty ≡ ok (some h)
      → ram_byte k st.space h ≡ some e
      → IsSize (length value)
      → a % object_size + length value ≤ object_size
      → (st1 : State S) × (st2 : State S) × (write_memory k mmu ty false (suc fuel) st a value
          ≡ ok (st1, true))
        × (read_memory k mmu ty st1 a (length value) ≡ ok (st2, some value))
  read_memory-write_memory fuel st a h value e v bounded low at byte sized fits =
      let (s', c', run, has) =
        write_memory-Has k mmu ty fuel st a h value e v bounded low at byte sized fits in
      let (page, top) = get_host_address-mod mmu st.active bounded ty a h low at in
      let st1 = record st { space = s'; memcache = c' } in
      let (e1, byte1) = overlay-some h value (ram_byte k st.space) h e byte in
      let (p, f, is, pa, z) =
        ram_object k s' h e1 (ap (λ (g : ℕ → Option E). g h) has.bytes ∙ byte1) in
      let (c2, look, good) = lookup-IsCoherent k st1 (object_base h) has.coherent (omega arith) in
      let place : object_base h + a % object_size ≡ h = omega (arith, page) in
      (
        st1,
        record st { space = s'; memcache = c2 },
        run,
        read_memory_run st1 (record st { space = s'; memcache = c2 }) a (length value) h p value
            fits at (look ∙ ap (λ o. ok (record st { space = s'; memcache = c2 }, o)) f) is
            (read_bytes-overlay s' p (object_base h) h (a % object_size) value (ram_byte k st.space)
              f is (omega arith) place fits has.bytes),
      )
