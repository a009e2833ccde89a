-- ===== src/ExecutionState/Memory/Copy.antt =====
-- getWriteable() and addressSpaceChange(): a copy of an object state takes its place in the address
-- space and in the memory cache.
use s2e.Common.{
  ℕ, ◌/◌, ◌%◌, ◌≡◌, ◌≢◌, refl, sym, ap, ◌∙◌, true, false, ◌&&◌, Option, none, some, ◌==◌, ==_iff,
  ==_refl, ==_ne, ne_of_==, if◌then◌else◌, ok, fault, assertion, some-eq, Bool-cases, Option-cases,
  inl, inr,
}
use s2e.MemoryCache.{pool_get}
use s2e.MemoryCache.Pool.{covers, pool_get-put, pool_get_total, pool_get_uncovered}
use s2e.ExecutionState.Klee.{ObjectPair, Klee}
use s2e.ExecutionState.Memory.{object_size, Cache, State, object_base, is_ram, get_writeable}
use s2e.ExecutionState.Memory.Coherence.{IsCoherent, Stored-cached}

module _ {S E : Type 0} (k : Klee S E) where
  -- What the RAM object at a host address holds there.
  abbrev pub ram_byte : S → ℕ → Option E
  ram_byte s h = elim (k.find_object s (object_base h)) [
    | none ↦ none
    | some p ↦ if is_ram p then some (k.read8 s p.state (h % object_size)) else none
  ]

  -- getWriteable() of a RAM object, where the stubs do not stop a run.
  pub record Owns (st : State S) (p : ObjectPair) (s' : S) (c' : Cache) (o : ℕ) : Type 0 where
    pub run : get_writeable k false st p ≡ ok (record st { space = s'; memcache = c' }, o)
    pub coherent : IsCoherent k (record st { space = s'; memcache = c' })
    pub found : k.find_object s' p.address ≡ some (record p { state = o })
    pub bytes : (h : ℕ) → ram_byte s' h ≡ ram_byte st.space h

  module _ (st : State S) (p : ObjectPair) (v : IsCoherent k st)
      (here : k.find_object st.space p.address ≡ some p) (small : p.size ≡ object_size)
      (al : p.address % object_size ≡ 0) where
    module _ (s' : S) (o : ℕ) (copied : k.own st.space p ≡ some (s', o)) where
      found_after :
          (a : ℕ)
          → k.find_object s' a
            ≡ (if p.address == a then some (record p { state = o }) else k.find_object st.space a)
      found_after = k.find-own st.space p s' o here copied

      bytes_after : (h : ℕ) → ram_byte s' h ≡ ram_byte st.space h
      bytes_after h = elim (Bool-cases (p.address == object_base h)) [
        | inl e ↦
            let eq = (==_iff p.address (object_base h)).0 e in
            rw
              (
                found_after (object_base h),
                ram_byte,
                e,
                sym eq,
                here,
                k.read8-own st.space p s' o here copied (h % object_size),
              )
              refl
        | inr e ↦ elim (Option-cases (k.find_object st.space (object_base h))) [
          | inl f ↦ rw (found_after (object_base h), ram_byte, e, f) refl
          | inr (q, f) ↦
              rw (found_after (object_base h), ram_byte, e, f)
                (ap (λ t. if is_ram q then some t else none)
                  (k.read8-own_other st.space p s' o here copied (object_base h) q (h % object_size)
                    f (λ t. ne_of_== p.address (object_base h) e (sym t))))
        ]
      ]

      -- The copy is bound in the place of the old object state.
      moved : ObjectPair
      moved = record p { state = o }

      other_after :
          (a : ℕ) (q : ObjectPair)
          → (p.address == a) ≡ false
          → k.find_object st.space a ≡ some q
          → k.find_object s' a ≡ some q
      other_after a q ne f = rw (found_after a, ne) f

      cpu_after :
          (a : ℕ) (q : ObjectPair)
          → k.find_object s' a ≡ some q
          → q.size ≡ object_size
          → (a ≢ st.registers.address) × (a ≢ st.system.address)
      cpu_after a q f z = elim (Bool-cases (p.address == a)) [
        | inl e ↦
            let (r, t) = v.cpu_not_ram p.address p here small in
            let eq = (==_iff p.address a).0 e in ((λ h. r (eq ∙ h)), (λ h. t (eq ∙ h)))
        | inr e ↦ v.cpu_not_ram a q (rw (found_after a, e) at f) z
      ]

      not_cpu :
          ((p.address == st.registers.address) ≡ false) × ((p.address == st.system.address) ≡ false)
      not_cpu =
          let (r, t) = v.cpu_not_ram p.address p here small in
          (==_ne p.address st.registers.address r, ==_ne p.address st.system.address t)

      own_uncached :
          pool_get none st.memcache p.address ≡ ok none
          → (get_writeable k false st p ≡ ok (record st { space = s' }, o))
            × IsCoherent k (record st { space = s' })
      unfolding get_writeable
      own_uncached e = (
        rw (copied, get_writeable, not_cpu.0, not_cpu.1, e) refl,
        record {
          aligned = v.aligned;
          cached = λ a q m g.
              other_after a q (==_ne p.address a (λ h. cc (ap (pool_get none st.memcache) h, e, g)))
                (v.cached a q m g);
          cpu_not_ram = cpu_after;
        },
      )

      apart :
          (a : ℕ)
          → pool_get none st.memcache p.address ≡ ok (some p)
          → (covers st.memcache p.address && p.address / 128 == a / 128) ≡ false
          → (p.address == a) ≡ false
      apart a e f = elim (Bool-cases (covers st.memcache p.address)) [
        | inl c ↦
            ==_ne p.address a
              (λ h. cc (rw c at f, (==_iff (p.address / 128) (a / 128)).1 (ap (λ n. n / 128) h)))
        | inr c ↦ cc (pool_get_uncovered none st.memcache p.address c, e)
      ]

      own_cached :
          pool_get none st.memcache p.address ≡ ok (some p)
          → (c' : Cache) × (get_writeable k false st p
              ≡ ok (record st { space = s'; memcache = c' }, o))
            × IsCoherent k (record st { space = s'; memcache = c' })
      unfolding get_writeable moved
      own_cached e =
          let (c', put, al', reads) =
            pool_get-put none p.address (some moved) st.memcache v.aligned in
          (
            c',
            rw (copied, get_writeable, not_cpu.0, not_cpu.1, e, put) refl,
            record {
              aligned = al';
              cached =
                  Stored-cached k s' p.address (some moved) st.memcache c' al reads
                    (λ q h. found_after p.address ∙ rw (==_refl p.address) h)
                    (λ a q f m g. other_after a q (apart a e f) (v.cached a q m g));
              cpu_not_ram = cpu_after;
            },
          )

    -- getWriteable() of a RAM object of a coherent state, in a build where the stubs do not stop a
    -- run: the object state that it returns is the one that is bound from then on, no byte of RAM
    -- changes, and the cache is coherent again with the copy in place of the old object state.
    pub get_writeable-Owns : (s' : S) × (c' : Cache) × (o : ℕ) × Owns st p s' c' o
    unfolding get_writeable
    get_writeable-Owns = elim (Option-cases (k.own st.space p)) [
      | inl e ↦ (
        st.space,
        st.memcache,
        p.state,
        record { run = rw (e, get_writeable) refl; coherent = v; found = here; bytes = λ h. refl },
      )
      | inr ((s', o), e) ↦
          let found : k.find_object s' p.address ≡ some (record p { state = o }) =
            found_after s' o e p.address ∙ rw (==_refl p.address) refl in
          let (x, run) = pool_get_total none st.memcache p.address v.aligned in
          elim (Option-cases x) [
            | inl n ↦
                let (go, good) = own_uncached s' o e (run ∙ ap ok n) in
                (
                  s',
                  st.memcache,
                  o,
                  record { run = go; coherent = good; found = found; bytes = bytes_after s' o e },
                )
            | inr (q, n) ↦
                let same : q ≡ p =
                  some-eq q p (sym (v.cached p.address q al (run ∙ ap ok n)) ∙ here) in
                let (c', go, good) =
                  own_cached s' o e (run ∙ ap ok n ∙ ap (λ t. ok (some t)) same) in
                (
                  s',
                  c',
                  o,
                  record { run = go; coherent = good; found = found; bytes = bytes_after s' o e },
                )
          ]
    ]

  -- Where the stubs stop a run, getWriteable() of a RAM object that the state does not own does.
  pub get_writeable_stops :
      (st : State S) (p : ObjectPair) (s' : S) (o : ℕ)
      → p.size ≡ object_size
      → k.own st.space p ≡ some (s', o)
      → get_writeable k true st p ≡ fault assertion
  unfolding get_writeable
  get_writeable_stops st p s' o z e = rw (e, get_writeable, z) refl
