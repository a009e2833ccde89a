-- ===== src/MemoryCache/Order.antt =====
-- The order that registerPool() keeps.
use s2e.Common.{
  ℕ, ◌%◌, ◌≤◌, ◌≡◌, inl, inr, refl, ap, List, [], ◌∷◌, ◌++◌, arith, ltb, ltb→lt, ok, Bool-cases,
}
use s2e.MemoryCache.{MemoryCache, init, insert, register_pool}

module _ {ℓ} {A : Type ℓ} where
  -- No cache of the pool is larger than `n`, and no cache is larger than one before it.
  abbrev pub Below : ℕ → List (MemoryCache A) → Type 0
  Below n [] = Unit {0}
  Below n (c ∷ cs) = (c.size ≤ n) × Below n cs

  abbrev pub Sorted : List (MemoryCache A) → Type 0
  Sorted [] = Unit {0}
  Sorted (c ∷ cs) = Below c.size cs × Sorted cs

  -- The caches in front of the new one are at least as large, and those behind it are smaller.
  abbrev pub AtLeast : ℕ → List (MemoryCache A) → Type 0
  AtLeast n [] = Unit {0}
  AtLeast n (c ∷ cs) = (n ≤ c.size) × AtLeast n cs

  Below-mono : (m n : ℕ) (cs : List (MemoryCache A)) → m ≤ n → Below m cs → Below n cs
  Below-mono m n [] l b = tt
  Below-mono m n (c ∷ cs) l b = (omega (arith, b.0), Below-mono m n cs l b.1)

  -- The new cache stands between those at least as large and the smaller ones.
  abbrev pub Placed : MemoryCache A → List (MemoryCache A) → List (MemoryCache A) → Type ℓ
  Placed mc cs cs' =
      (front : List (MemoryCache A)) × (back : List (MemoryCache A)) × (cs ≡ front ++ back)
      × (cs' ≡ front ++ (mc ∷ back))
      × AtLeast mc.size front
      × Below mc.size back

  insert-Placed :
      (mc : MemoryCache A) (cs : List (MemoryCache A)) → Sorted cs → Placed mc cs (insert mc cs)
  unfolding insert
  insert-Placed mc [] s = ([], [], refl, refl, tt, tt)
  insert-Placed mc (c ∷ cs) s = elim (Bool-cases (ltb c.size mc.size)) [
    | inl e ↦ (
      [],
      c ∷ cs,
      refl,
      rw e refl,
      tt,
      (
        omega (arith, ltb→lt c.size mc.size e),
        Below-mono c.size mc.size cs (omega (arith, ltb→lt c.size mc.size e)) s.0,
      ),
    )
    | inr e ↦
        let (front, back, split, at, more, less) = insert-Placed mc cs s.1 in
        (
          c ∷ front,
          back,
          ap (λ t. c ∷ t) split,
          rw e (ap (λ t. c ∷ t) at),
          (ground (arith, e), more),
          less,
        )
  ]

  insert-Below :
      (mc : MemoryCache A) (n : ℕ) (cs : List (MemoryCache A))
      → mc.size ≤ n
      → Below n cs
      → Below n (insert mc cs)
  unfolding insert
  insert-Below mc n [] l b = (l, tt)
  insert-Below mc n (c ∷ cs) l b = elim (Bool-cases (ltb c.size mc.size)) [
    | inl e ↦ rw e (l, b)
    | inr e ↦ rw e (b.0, insert-Below mc n cs l b.1)
  ]

  insert-Sorted :
      (mc : MemoryCache A) (cs : List (MemoryCache A)) → Sorted cs → Sorted (insert mc cs)
  unfolding insert
  insert-Sorted mc [] s = (tt, tt)
  insert-Sorted mc (c ∷ cs) s = elim (Bool-cases (ltb c.size mc.size)) [
    | inl e ↦ rw e (
      (
        omega (arith, ltb→lt c.size mc.size e),
        Below-mono c.size mc.size cs (omega (arith, ltb→lt c.size mc.size e)) s.0,
      ),
      s,
    )
    | inr e ↦ rw e (insert-Below mc c.size cs (ground (arith, e)) s.0, insert-Sorted mc cs s.1)
  ]

  -- registerPool() of a page-aligned range keeps a pool sorted by decreasing size: it puts a new
  -- cache behind those that are at least as large, and leaves the others in their order.
  pub register_pool-Sorted :
      (cs : List (MemoryCache A)) (start size : ℕ)
      → Sorted cs
      → start % 4096 ≡ 0
      → (cs' : List (MemoryCache A)) × (register_pool cs start size ≡ ok cs')
        × Sorted cs'
        × Placed (init start size) cs cs'
  unfolding register_pool
  register_pool-Sorted cs start size s aligned = (
    insert (init start size) cs,
    rw aligned refl,
    insert-Sorted (init start size) cs s,
    insert-Placed (init start size) cs s,
  )
