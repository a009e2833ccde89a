-- ===== src/ExecutionState/Memory/Coherence.antt =====
-- The memory cache agrees with the address space, through look-ups.
use s2e.Common.{
  ℕ, ◌/◌, ◌%◌, ◌≡◌, ◌≢◌, refl, sym, ap, ◌∙◌, Bool, true, false, ◌&&◌, Option, none, some, arith,
  ◌==◌, ==_iff, ok, ok-eq, Bool-cases, Option-cases, inl, inr,
}
use s2e.MemoryCache.{pool_get}
use s2e.MemoryCache.Pool.{AllAligned, Stored, covers, pool_get-put, pool_get_total}
use s2e.ExecutionState.Klee.{ObjectPair, Klee}
use s2e.ExecutionState.Memory.{object_size, Cache, State, lookup}

and-elim : (a b : Bool) → (a && b) ≡ true → (a ≡ true) × (b ≡ true)
and-elim true b h = (refl, h)
and-elim false b h = cc

module _ {S E : Type 0} (k : Klee S E) where
  -- Every object that the cache has is the one that the address space has, and RAM objects are not
  -- those of the CPU.
  pub record IsCoherent (st : State S) : Type 0 where
    pub aligned : AllAligned none st.memcache
    pub cached :
        (a : ℕ) (p : ObjectPair)
        → a % object_size ≡ 0
        → pool_get none st.memcache a ≡ ok (some p)
        → k.find_object st.space a ≡ some p
    pub cpu_not_ram :
        (a : ℕ) (p : ObjectPair)
        → k.find_object st.space a ≡ some p
        → p.size ≡ object_size
        → (a ≢ st.registers.address) × (a ≢ st.system.address)

  -- A coherent cache after a put() of what the address space has at an object's address.
  pub Stored-cached :
      (s : S) (page : ℕ) (o : Option ObjectPair) (c c' : Cache)
      → page % object_size ≡ 0
      → Stored none c c' page o
      → ((p : ObjectPair) → o ≡ some p → k.find_object s page ≡ some p)
      → ((a : ℕ) (p : ObjectPair)
          → (covers c page && page / 128 == a / 128) ≡ false
          → a % object_size ≡ 0
          → pool_get none c a ≡ ok (some p)
          → k.find_object s a ≡ some p)
      → (a : ℕ) (p : ObjectPair) → a % object_size ≡ 0
      → pool_get none c' a ≡ ok (some p)
      → k.find_object s a ≡ some p
  Stored-cached s page o c c' al reads here rest a p m g =
      let seen = sym (reads a) ∙ g in
      elim (Bool-cases (covers c page && page / 128 == a / 128)) [
        | inl t ↦
            let same =
              (==_iff (page / 128) (a / 128)).0
                (and-elim (covers c page) (page / 128 == a / 128) t).1 in
            let eq : page ≡ a = omega (arith, same) in
            sym (ap (k.find_object s) eq) ∙ here p (ok-eq o (some p) (rw t at seen))
        | inr f ↦ rest a p f m (rw f at seen)
      ]

  -- A look-up of an object's address in a coherent state fails no assertion and returns what the
  -- address space has there, whether the cache has it or not; the cache stays coherent, and nothing
  -- else changes.
  pub lookup-IsCoherent :
      (st : State S) (page : ℕ)
      → IsCoherent st
      → page % object_size ≡ 0
      → (c : Cache) × (lookup k st page
          ≡ ok (record st { memcache = c }, k.find_object st.space page))
        × IsCoherent (record st { memcache = c })
  unfolding lookup
  lookup-IsCoherent st page v al =
      let (o, run) = pool_get_total none st.memcache page v.aligned in
      elim (Option-cases o) [
        | inr (p, e) ↦
            let run' : pool_get none st.memcache page ≡ ok (some p) = run ∙ ap ok e in
            (st.memcache, rw (run', v.cached page p al run') refl, v)
        | inl e ↦
            let here = k.find_object st.space page in
            let (c, put, al', reads) = pool_get-put none page here st.memcache v.aligned in
            (
              c,
              rw (run, e, put) refl,
              record {
                aligned = al';
                cached =
                    Stored-cached st.space page here st.memcache c al reads (λ p h. h)
                      (λ a p f. v.cached a p);
                cpu_not_ram = v.cpu_not_ram;
              },
            )
      ]
