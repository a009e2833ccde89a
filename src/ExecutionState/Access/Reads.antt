-- ===== src/ExecutionState/Access/Reads.antt =====
-- readMemory() through the cache against readMemory8() byte by byte.
use s2e.Common.{
  ℕ, zero, suc, ◌+◌, ◌-◌, ◌%◌, ◌^◌, ◌≤◌, ◌<◌, ◌≡◌, refl, ap, ◌∙◌, true, List, [], ◌∷◌, Option, none,
  some, arith, leb, leb→le, Fault, Result, ok, fault, assertion, ◌>>=◌, ◌⊎◌, Bool-cases, inl, inr,
}
use s2e.ExecutionState.Klee.{ObjectPair, Klee}
use s2e.ExecutionState.Memory.{
  Cache, State, object_size, object_base, is_ram, ram, read_bytes, lookup, AddressType, Mmu,
  get_host_address,
}
use s2e.ExecutionState.Memory.Coherence.{IsCoherent, lookup-IsCoherent}
use s2e.ExecutionState.Access.{read_memory8, read_each, read_one, read_memory}
use s2e.ExecutionState.Access.Translate.{HostBounded, get_host_address_next, get_host_address-mod}

-- What an address translates to: a failed assertion, no address, or one.
translations :
    (r : Result (Option ℕ))
    → ((f : Fault) × (r ≡ fault f)) ⊎ ((r ≡ ok none) ⊎ ((h : ℕ) × (r ≡ ok (some h))))
translations (fault f) = inl (f, refl)
translations (ok none) = inr (inl refl)
translations (ok (some h)) = inr (inr (h, refl))

module _ {S E : Type 0} (k : Klee S E) (mmu : Mmu) (ty : AddressType) (st : State S) where
  read8_run :
      (a h : ℕ) (r : Result (Option E))
      → get_host_address mmu st.active a ty ≡ ok (some h)
      → (ram (k.find_object st.space (object_base h)) >>= λ p.
          ok (some (k.read8 st.space p.state (h % object_size))))
        ≡ r
      → read_memory8 k mmu ty st a ≡ r
  unfolding read_memory8
  read8_run a h r at run = rw at run

  read_each_step :
      (a n : ℕ) (e : E) (es : List E)
      → a + 1 < 2 ^ 64
      → read_memory8 k mmu ty st a ≡ ok (some e)
      → read_each k mmu ty st (a + 1) n ≡ ok (some es)
      → read_each k mmu ty st a (suc n) ≡ ok (some (e ∷ es))
  unfolding read_each
  read_each_step a n e es low here rest =
      let after : (a + 1) % 2 ^ 64 ≡ a + 1 = omega arith in rw (here, after, rest) refl

  module _ (bounded : HostBounded mmu) (p : ObjectPair) (is : is_ram p ≡ true) (base : ℕ)
      (f : k.find_object st.space base ≡ some p) where
    read8_object :
        (a h : ℕ)
        → a < 2 ^ 64
        → get_host_address mmu st.active a ty ≡ ok (some h)
        → object_base h ≡ base
        → read_memory8 k mmu ty st a ≡ ok (some (k.read8 st.space p.state (a % object_size)))
    read8_object a h low at same =
        let (place, top) = get_host_address-mod mmu st.active bounded ty a h low at in
        let inside : h % object_size ≡ a % object_size = omega (arith, place) in
        read8_run a h (ok (some (k.read8 st.space p.state (a % object_size)))) at
          (rw (same, f, is, inside) refl)

    -- The bytes of an access to one object, one by one.
    read_each_object :
        (n a h : ℕ)
        → a + n < 2 ^ 64 - 1
        → a % object_size + n ≤ object_size
        → get_host_address mmu st.active a ty ≡ ok (some h)
        → object_base h ≡ base
        → read_each k mmu ty st a n ≡ ok (some (read_bytes k st.space p.state (a % object_size) n))
    unfolding read_each read_bytes
    read_each_object zero a h low fits at same = refl
    read_each_object (suc zero) a h low fits at same =
        read_each_step a 0 (k.read8 st.space p.state (a % object_size)) [] (omega arith)
          (read8_object a h (omega arith) at same) refl
    read_each_object (suc (suc n)) a h low fits at same =
        let (place, top) = get_host_address-mod mmu st.active bounded ty a h (omega arith) at in
        let after : (a + 1) % object_size ≡ a % object_size + 1 = omega arith in
        read_each_step a (suc n) (k.read8 st.space p.state (a % object_size))
          (read_bytes k st.space p.state (a % object_size + 1) (suc n)) (omega arith)
          (read8_object a h (omega arith) at same)
          (read_each_object (suc n) (a + 1) (h + 1) (omega arith) (omega arith)
              (get_host_address_next mmu st.active bounded ty a h at (omega arith) (omega arith))
              (omega (arith, same, place))
            ∙ ap (λ i. ok (some (read_bytes k st.space p.state i (suc n)))) after)

  pub read_one_run :
      (a n h : ℕ) (st1 : State S) (op : Option ObjectPair)
      → get_host_address mmu st.active a ty ≡ ok (some h)
      → lookup k st (object_base h) ≡ ok (st1, op)
      → read_one k mmu ty st a n
        ≡ (ram op >>= λ p. ok (st1, some (read_bytes k st1.space p.state (a % object_size) n)))
  unfolding read_one
  read_one_run a n h st1 op at look = rw (at, look) refl

  read_each_run :
      (a n h : ℕ) (f : Fault)
      → get_host_address mmu st.active a ty ≡ ok (some h)
      → ram (k.find_object st.space (object_base h)) ≡ fault f
      → read_each k mmu ty st a (suc n) ≡ fault f
  unfolding read_each read_memory8
  read_each_run a n h f at stops = rw (at, stops) refl

  -- What readMemory() is about, for an access to one object.
  abbrev pub SameAsBytes : ℕ → ℕ → Result (State S × Option (List E)) → Type 0
  SameAsBytes a n r =
      (c' : Cache) × (r
        ≡ (read_each k mmu ty st a n >>= λ bytes. ok (record st { memcache = c' }, bytes)))
      × IsCoherent k (record st { memcache = c' })

  module _ (v : IsCoherent k st) (bounded : HostBounded mmu) where
    ram_cases :
        (o : Option ObjectPair)
        → (ram o ≡ fault assertion) ⊎ ((p : ObjectPair) × (o ≡ some p) × (is_ram p ≡ true))
    ram_cases none = inl refl
    ram_cases (some p) = elim (Bool-cases (is_ram p)) [
      | inl e ↦ inr (p, refl, e)
      | inr e ↦ inl (rw e refl)
    ]

    read_one_at :
        (a n h : ℕ)
        → a + suc n < 2 ^ 64 - 1
        → a % object_size + suc n ≤ object_size
        → get_host_address mmu st.active a ty ≡ ok (some h)
        → SameAsBytes a (suc n) (read_one k mmu ty st a (suc n))
    read_one_at a n h low fits at =
        let here = k.find_object st.space (object_base h) in
        let (c1, look, v1) = lookup-IsCoherent k st (object_base h) v (omega arith) in
        let run = read_one_run a (suc n) h (record st { memcache = c1 }) here at look in
        (
          c1,
          run ∙ elim (ram_cases here) [
            | inl stops ↦ rw (stops, read_each_run a n h assertion at stops) refl
            | inr (p, f, is) ↦
                rw
                  (
                    f,
                    is,
                    read_each_object bounded p is (object_base h) f (suc n) a h low fits at refl,
                  )
                  refl
          ],
          v1,
        )

    read_one-SameAsBytes :
        (a n : ℕ)
        → a + suc n < 2 ^ 64 - 1
        → a % object_size + suc n ≤ object_size
        → SameAsBytes a (suc n) (read_one k mmu ty st a (suc n))
    unfolding read_one read_each read_memory8
    read_one-SameAsBytes a n low fits = elim (translations (get_host_address mmu st.active a ty)) [
      | inl (f, e) ↦ (st.memcache, rw e refl, v)
      | inr (inl e) ↦ (st.memcache, rw e refl, v)
      | inr (inr (h, e)) ↦ read_one_at a n h low fits e
    ]

    -- readMemory() of one byte or more, through a coherent cache and below the end of the address
    -- space, does what reading the bytes one by one with readMemory8() in the address space does, for
    -- every type of address, within an object and across objects: it returns the same bytes, fails to
    -- translate where one of them does, and fails an assertion where one of them does. The cache is
    -- coherent afterwards, and nothing else changes.
    pub read_memory-SameAsBytes :
        (a n : ℕ) → 0 < n → a + n < 2 ^ 64 - 1 → SameAsBytes a n (read_memory k mmu ty st a n)
    unfolding read_memory
    read_memory-SameAsBytes a zero some_bytes low = absurd (omega arith)
    read_memory-SameAsBytes a (suc n) some_bytes low =
        elim (Bool-cases (leb (a % object_size + suc n) object_size)) [
          | inl one ↦
              let (c', run, good) =
                read_one-SameAsBytes a n low (leb→le (a % object_size + suc n) object_size one) in
              (c', rw one run, good)
          | inr more ↦ (st.memcache, rw more refl, v)
        ]
