-- ===== src/MemoryCache/Update.antt =====
-- put() against the lookup.
use s2e.Common.{
  ℕ, ◌/◌, ◌<◌, ◌≡◌, ◌≢◌, refl, sym, ap, ◌∙◌, true, none, some, arith, length, get_or, set, ◌==◌,
  ==_iff, ne_of_==, Bool-cases, if◌then◌else◌, ok, length-set, get_or-set_self, get_or-set_ne, inl,
  inr, lt→ltb,
}
use s2e.MemoryCache.{
  MemoryCache, SecondLevel, ThirdLevel, offset, index1, index2, index3, contains, second_level,
  third_level, get, put,
}
use s2e.MemoryCache.Lookup.{
  IsValid, level2_at, level3_at, look, at-ok, index1-lt, index2-lt, get-look,
}

module _ {ℓ} {A : Type ℓ} (empty : A) (c : MemoryCache A) where
  -- The cache with another value under three indices.
  abbrev new3 : ℕ → ℕ → ℕ → A → ThirdLevel A
  new3 i j k x = set (level3_at empty c i j) k x

  abbrev new2 : ℕ → ℕ → ℕ → A → SecondLevel A
  new2 i j k x = set (level2_at empty c i) j (some (new3 i j k x))

  abbrev changed : ℕ → ℕ → ℕ → A → MemoryCache A
  changed i j k x = record c { level1 = set c.level1 i (some (new2 i j k x)) }

  -- The cache after put().
  abbrev pub updated : ℕ → A → MemoryCache A
  updated addr x =
      changed (index1 (offset c.start addr)) (index2 (offset c.start addr))
        (index3 (offset c.start addr)) x

module _ {ℓ} {A : Type ℓ} (empty : A) (c : MemoryCache A) (v : IsValid empty c) where
  module _ (i j k : ℕ) (x : A) (l1 : i < length c.level1) (l2 : j < 256) (l3 : k < 32) where
    abbrev after : MemoryCache A
    after = changed empty c i j k x

    level2_same : level2_at empty after i ≡ new2 empty c i j k x
    level2_same = ap second_level (get_or-set_self c.level1 i (some (new2 empty c i j k x)) none l1)

    level2_other : (i' : ℕ) → i ≢ i' → level2_at empty after i' ≡ level2_at empty c i'
    level2_other i' ne =
        ap second_level (get_or-set_ne c.level1 i i' (some (new2 empty c i j k x)) none ne)

    level3_same : level3_at empty after i j ≡ new3 empty c i j k x
    level3_same =
        ap (λ n. third_level empty (get_or n j none)) level2_same
        ∙ ap (third_level empty) (
            get_or-set_self (level2_at empty c i) j (some (new3 empty c i j k x)) none
              (rw (v.width2 i) l2))

    level3_beside : (j' : ℕ) → j ≢ j' → level3_at empty after i j' ≡ level3_at empty c i j'
    level3_beside j' ne =
        ap (λ n. third_level empty (get_or n j' none)) level2_same
        ∙ ap (third_level empty)
            (get_or-set_ne (level2_at empty c i) j j' (some (new3 empty c i j k x)) none ne)

    level3_other : (i' j' : ℕ) → i ≢ i' → level3_at empty after i' j' ≡ level3_at empty c i' j'
    level3_other i' j' ne = ap (λ n. third_level empty (get_or n j' none)) (level2_other i' ne)

    after_width2 : (i' : ℕ) → length (level2_at empty after i') ≡ 256
    after_width2 i' = elim (Bool-cases (i == i')) [
      | inl e ↦
          ap (λ n. length (level2_at empty after n)) (sym ((==_iff i i').0 e))
          ∙ ap length level2_same
          ∙ length-set (level2_at empty c i) j (some (new3 empty c i j k x))
          ∙ v.width2 i
      | inr e ↦ ap length (level2_other i' (ne_of_== i i' e)) ∙ v.width2 i'
    ]

    after_width3 : (i' j' : ℕ) → length (level3_at empty after i' j') ≡ 32
    after_width3 i' j' = elim (Bool-cases (i == i')) [
      | inl e ↦ elim (Bool-cases (j == j')) [
        | inl f ↦
            ap (λ n. length (level3_at empty after n j')) (sym ((==_iff i i').0 e))
            ∙ ap (λ n. length (level3_at empty after i n)) (sym ((==_iff j j').0 f))
            ∙ ap length level3_same
            ∙ length-set (level3_at empty c i j) k x
            ∙ v.width3 i j
        | inr f ↦
            ap (λ n. length (level3_at empty after n j')) (sym ((==_iff i i').0 e))
            ∙ ap length (level3_beside j' (ne_of_== j j' f))
            ∙ v.width3 i j'
      ]
      | inr e ↦ ap length (level3_other i' j' (ne_of_== i i' e)) ∙ v.width3 i' j'
    ]

    after-IsValid : IsValid empty after
    after-IsValid = record {
      range = v.range;
      width1 = length-set c.level1 i (some (new2 empty c i j k x)) ∙ v.width1;
      width2 = after_width2;
      width3 = after_width3;
      count = v.count ∙ sym (length-set c.level1 i (some (new2 empty c i j k x)));
    }

    look_same :
        (off : ℕ) → i ≡ index1 off → j ≡ index2 off → k ≡ index3 off → look empty after off ≡ x
    look_same off e f g =
        ap (λ n. get_or (level3_at empty after n (index2 off)) (index3 off) empty) (sym e)
        ∙ ap (λ n. get_or (level3_at empty after i n) (index3 off) empty) (sym f)
        ∙ ap (λ n. get_or (level3_at empty after i j) n empty) (sym g)
        ∙ ap (λ l. get_or l k empty) level3_same
        ∙ get_or-set_self (level3_at empty c i j) k x empty (rw (v.width3 i j) l3)

    look_other :
        (off : ℕ)
        → ((i ≡ index1 off) × (j ≡ index2 off) × (k ≡ index3 off) → ⊥)
        → look empty after off ≡ look empty c off
    look_other off ne = elim (Bool-cases (i == index1 off)) [
      | inl e ↦
          let e1 : i ≡ index1 off = (==_iff i (index1 off)).0 e in
          elim (Bool-cases (j == index2 off)) [
            | inl f ↦
                let f1 : j ≡ index2 off = (==_iff j (index2 off)).0 f in
                ap (λ n. get_or (level3_at empty after n (index2 off)) (index3 off) empty) (sym e1)
                ∙ ap (λ n. get_or (level3_at empty after i n) (index3 off) empty) (sym f1)
                ∙ ap (λ l. get_or l (index3 off) empty) level3_same
                ∙ get_or-set_ne (level3_at empty c i j) k (index3 off) x empty (λ g. ne (e1, f1, g))
                ∙ ap (λ n. get_or (level3_at empty c i n) (index3 off) empty) f1
                ∙ ap (λ n. get_or (level3_at empty c n (index2 off)) (index3 off) empty) e1
            | inr f ↦
                ap (λ n. get_or (level3_at empty after n (index2 off)) (index3 off) empty) (sym e1)
                ∙ ap (λ l. get_or l (index3 off) empty)
                    (level3_beside (index2 off) (ne_of_== j (index2 off) f))
                ∙ ap (λ n. get_or (level3_at empty c n (index2 off)) (index3 off) empty) e1
          ]
      | inr e ↦
          ap (λ l. get_or l (index3 off) empty)
            (level3_other (index1 off) (index2 off) (ne_of_== i (index1 off) e))
    ]

  module _ (addr : ℕ) (x : A) (inside : contains c addr ≡ true) where
    put_run : put empty c addr x ≡ ok (updated empty c addr x)
    unfolding put
    put_run = rw (
      at-ok c.level1 (index1 (offset c.start addr)) none (index1-lt empty c addr v inside),
      at-ok (level2_at empty c (index1 (offset c.start addr))) (index2 (offset c.start addr)) none
          (index2-lt empty c addr v inside (index1 (offset c.start addr))),
      lt→ltb (index3 (offset c.start addr)) 32 (omega arith),
    )

    updated-IsValid : IsValid empty (updated empty c addr x)
    updated-IsValid =
        after-IsValid (index1 (offset c.start addr)) (index2 (offset c.start addr))
          (index3 (offset c.start addr)) x (index1-lt empty c addr v inside) (omega arith)
          (omega arith)

    get_after :
        (b : ℕ)
        → contains c b ≡ true
        → get empty (updated empty c addr x) b
          ≡ (if offset c.start addr / 128 == offset c.start b / 128 then ok x else get empty c b)
    get_after b h = elim (Bool-cases (offset c.start addr / 128 == offset c.start b / 128)) [
      | inl e ↦
          let same : offset c.start addr / 128 ≡ offset c.start b / 128 = (==_iff _ _).0 e in
          rw e (
            get-look empty (updated empty c addr x) b updated-IsValid h
            ∙ ap ok (
                look_same (index1 (offset c.start addr)) (index2 (offset c.start addr))
                  (index3 (offset c.start addr)) x (index1-lt empty c addr v inside) (omega arith)
                  (omega arith) (offset c.start b) (omega arith) (omega arith) (omega arith)))
      | inr e ↦
          let ne = ne_of_== (offset c.start addr / 128) (offset c.start b / 128) e in
          rw e (
            get-look empty (updated empty c addr x) b updated-IsValid h
            ∙ ap ok (
                look_other (index1 (offset c.start addr)) (index2 (offset c.start addr))
                  (index3 (offset c.start addr)) x (index1-lt empty c addr v inside) (omega arith)
                  (omega arith) (offset c.start b) (λ (f, g, k). ne (omega arith)))
            ∙ sym (get-look empty c b v h))
    ]

    -- put() of an address that the cache contains fails no assertion and stays within its arrays; the
    -- cache stays well-formed. get() of a contained address of the same object then returns the new
    -- value, and get() of any other contained address what it returned before.
    pub get-put :
        (c' : MemoryCache A) × (put empty c addr x ≡ ok c')
        × IsValid empty c'
        × (c'.start ≡ c.start)
        × (c'.size ≡ c.size)
        × ((b : ℕ)
            → contains c b ≡ true
            → get empty c' b ≡ (
                if offset c.start addr / 128 == offset c.start b / 128
                then ok x
                else get empty c b))
    get-put = (updated empty c addr x, put_run, updated-IsValid, refl, refl, get_after)
