-- ===== src/MemoryCache/Lookup.antt =====
-- A cache seen as a function from the three indices to values: get() and getArray() read it.
use s2e.Common.{
  ℕ, ◌+◌, ◌^◌, ◌<◌, ◌≡◌, ◌⊎◌, refl, ap, ◌∙◌, true, List, Option, none, some, arith, length, get_or,
  replicate, ok, get_elem?-eq-get_or, get_or-replicate, Option-cases, inl, inr,
}
use s2e.MemoryCache.{
  MemoryCache, SecondLevel, ThirdLevel, page_count, offset, index1, index2, index3, at, contains,
  second_level, third_level, get, get_array,
}

pub at-ok {ℓ} :
    {A : Type ℓ} (xs : List A) (i : ℕ) (d : A) → i < length xs → at xs i ≡ ok (get_or xs i d)
at-ok xs i d h = rw (at, get_elem?-eq-get_or xs i d h)

module _ {ℓ} {A : Type ℓ} (empty : A) where
  -- The second and third level under the indices, or a new one where there is none.
  abbrev pub level2_at : MemoryCache A → ℕ → SecondLevel A
  level2_at c i = second_level (get_or c.level1 i none)

  abbrev pub level3_at : MemoryCache A → ℕ → ℕ → ThirdLevel A
  level3_at c i j = third_level empty (get_or (level2_at c i) j none)

  abbrev pub look : MemoryCache A → ℕ → A
  look c off = get_or (level3_at c (index1 off) (index2 off)) (index3 off) empty

  pub record IsValid (c : MemoryCache A) : Type ℓ where
    pub range : c.start + c.size < 2 ^ 64
    pub width1 : length c.level1 ≡ page_count c.size
    pub width2 : (i : ℕ) → length (level2_at c i) ≡ 256
    pub width3 : (i j : ℕ) → length (level3_at c i j) ≡ 32
    pub count : c.pagecount ≡ length c.level1

  module _ (c : MemoryCache A) (addr : ℕ) (v : IsValid c) (inside : contains c addr ≡ true) where
    abbrev i1 : ℕ
    i1 = index1 (offset c.start addr)

    abbrev i2 : ℕ
    i2 = index2 (offset c.start addr)

    abbrev i3 : ℕ
    i3 = index3 (offset c.start addr)

    pub offset-lt : offset c.start addr < c.size
    offset-lt = ground (arith, v.range)

    pub index1-lt : i1 < length c.level1
    index1-lt = ground (arith, offset-lt, v.width1)

    pub index2-lt : (i : ℕ) → i2 < length (level2_at c i)
    index2-lt i = omega (arith, v.width2 i)

    pub index3-lt : (i j : ℕ) → i3 < length (level3_at c i j)
    index3-lt i j = omega (arith, v.width3 i j)

    fresh2 : get_or {A = Option (ThirdLevel A)} (replicate 256 none) i2 none ≡ none
    fresh2 = get_or-replicate 256 i2 none none (omega arith)

    fresh3 : get_or (replicate 32 empty) i3 empty ≡ empty
    fresh3 = get_or-replicate 32 i3 empty empty (omega arith)

    -- get() of an address that the cache contains reads the value under the address's indices.
    pub get-look : get empty c addr ≡ ok (look c (offset c.start addr))
    unfolding get
    get-look = elim (Option-cases (get_or c.level1 i1 none)) [
      | inl e ↦ rw (at-ok c.level1 i1 none index1-lt, e) (rw (fresh2, fresh3))
      | inr (l2, e) ↦
          let wide2 : i2 < length l2 = rw e at (index2-lt i1) in
          elim (Option-cases (get_or l2 i2 none)) [
            | inl e' ↦
                rw (at-ok c.level1 i1 none index1-lt, e, at-ok l2 i2 none wide2, e') (rw fresh3)
            | inr (l3, e') ↦
                let wide3 : i3 < length l3 = rw (e, e') at (index3-lt i1 i2) in
                rw (at-ok c.level1 i1 none index1-lt, e, at-ok l2 i2 none wide2, e')
                  (at-ok l3 i3 empty wide3)
          ]
    ]

    -- For an address that the cache contains, getArray() and get() agree: if there is an array, get()
    -- reads it at the index of the address's object, and if there is none, get() returns `T()`.
    pub get_array-get :
        (get_array c addr ≡ ok none) × (get empty c addr ≡ ok empty)
        ⊎ ((level3 : ThirdLevel A) × (get_array c addr ≡ ok (some level3))
            × (length level3 ≡ 32)
            × (get empty c addr ≡ ok (get_or level3 i3 empty)))
    unfolding get_array
    get_array-get = elim (Option-cases (get_or c.level1 i1 none)) [
      | inl e ↦ inl (
        rw (at-ok c.level1 i1 none index1-lt, e) refl,
        get-look ∙ ap ok (rw e (rw (fresh2, fresh3))),
      )
      | inr (l2, e) ↦
          let wide2 : i2 < length l2 = rw e at (index2-lt i1) in
          elim (Option-cases (get_or l2 i2 none)) [
            | inl e' ↦ inl (
              rw (at-ok c.level1 i1 none index1-lt, e, at-ok l2 i2 none wide2, e') refl,
              get-look ∙ ap ok (rw (e, e') (rw fresh3)),
            )
            | inr (l3, e') ↦ inr (
              l3,
              rw (at-ok c.level1 i1 none index1-lt, e, at-ok l2 i2 none wide2, e') refl,
              rw (e, e') at (v.width3 i1 i2),
              get-look ∙ ap ok (rw (e, e') refl),
            )
          ]
    ]
