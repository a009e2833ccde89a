-- ===== src/MemoryCache/Pool.antt =====
-- The pool's put() against its get().
use s2e.Common.{
  ℕ, ◌+◌, ◌-◌, ◌%◌, ◌/◌, ◌^◌, ◌≤◌, ◌<◌, ◌≡◌, inl, inr, refl, sym, ap, ◌∙◌, Bool, true, false, ◌&&◌,
  ◌||◌, List, [], ◌∷◌, arith, ◌==◌, ==_iff, ==_ne, ne_of_==, if◌then◌else◌, ok, Bool-cases,
}
use s2e.MemoryCache.{MemoryCache, init, page_count, offset, contains, get, pool_put, pool_get}
use s2e.MemoryCache.Lookup.{IsValid, look, get-look}
use s2e.MemoryCache.Reset.{init-IsBlank}
use s2e.MemoryCache.Update.{get-put}

-- Some cache of the pool contains the address.
abbrev pub covers {ℓ} : {A : Type ℓ} → List (MemoryCache A) → ℕ → Bool
covers [] addr = false
covers (c ∷ cs) addr = contains c addr || covers cs addr

module _ {ℓ} {A : Type ℓ} (empty : A) where
  -- A well-formed cache of a range of whole objects that starts at a page.
  pub record IsAligned (c : MemoryCache A) : Type ℓ where
    pub valid : IsValid empty c
    pub aligned : c.start % 4096 ≡ 0
    pub whole : c.size % 128 ≡ 0

  abbrev pub AllAligned : List (MemoryCache A) → Type ℓ
  AllAligned [] = Unit
  AllAligned (c ∷ cs) = IsAligned c × AllAligned cs

  contains_object :
      (c : MemoryCache A) (a b : ℕ)
      → IsAligned c
      → a / 128 ≡ b / 128
      → contains c a ≡ true
      → contains c b ≡ true
  contains_object c a b v e h = ground (arith, v.valid.range, v.aligned, v.whole)

  contains-le :
      (c : MemoryCache A) (a : ℕ) → IsAligned c → contains c a ≡ true → (c.start ≤ a) × (a < 2 ^ 64)
  contains-le c a v h = (ground (arith, v.valid.range), ground (arith, v.valid.range))

  offset_lem :
      (c : MemoryCache A) (a : ℕ)
      → IsAligned c
      → contains c a ≡ true
      → offset c.start a ≡ a - c.start
  offset_lem c a v h = let (l, m) = contains-le c a v h in omega arith

  same_object :
      (c : MemoryCache A) (a b : ℕ)
      → IsAligned c
      → contains c a ≡ true
      → contains c b ≡ true
      → (offset c.start a / 128 == offset c.start b / 128) ≡ (a / 128 == b / 128)
  same_object c a b v h g =
      let (la, ma) = contains-le c a v h in
      let (lb, mb) = contains-le c b v g in
      let ea = offset_lem c a v h in
      let eb = offset_lem c b v g in
      elim (Bool-cases (a / 128 == b / 128)) [
        | inl e ↦
            (==_iff (offset c.start a / 128) (offset c.start b / 128)).1
              (omega (arith, (==_iff (a / 128) (b / 128)).0 e, v.aligned))
            ∙ sym e
        | inr e ↦
            ==_ne (offset c.start a / 128) (offset c.start b / 128)
              (λ f. ne_of_== (a / 128) (b / 128) e (omega (arith, v.aligned)))
            ∙ sym e
      ]

  apart_object :
      (c : MemoryCache A) (a b : ℕ)
      → IsAligned c
      → contains c a ≡ true
      → contains c b ≡ false
      → (a / 128 == b / 128) ≡ false
  apart_object c a b v h g = ==_ne (a / 128) (b / 128) (λ e. cc (contains_object c a b v e h, g))

  before_object :
      (c : MemoryCache A) (a b : ℕ)
      → IsAligned c
      → contains c a ≡ false
      → contains c b ≡ true
      → (a / 128 == b / 128) ≡ false
  before_object c a b v h g =
      ==_ne (a / 128) (b / 128) (λ e. cc (contains_object c b a v (sym e) g, h))

  and-false : (b : Bool) → (b && false) ≡ false
  and-false true = refl
  and-false false = refl

  -- What a get() of the pool sees after a put() at `a`.
  abbrev pub Stored : List (MemoryCache A) → List (MemoryCache A) → ℕ → A → Type ℓ
  Stored cs cs' a x =
      (b : ℕ)
      → pool_get empty cs' b
        ≡ (if covers cs a && a / 128 == b / 128 then ok x else pool_get empty cs b)

  module _ (a : ℕ) (x : A) where
    put_here :
        (c : MemoryCache A) (cs : List (MemoryCache A))
        → IsAligned c
        → AllAligned cs
        → contains c a ≡ true
        → (cs' : List (MemoryCache A)) × (pool_put empty (c ∷ cs) a x ≡ ok cs')
          × AllAligned cs'
          × Stored (c ∷ cs) cs' a x
    unfolding pool_put pool_get
    put_here c cs v vs h =
        let (c', run, valid, same_start, same_size, reads) = get-put empty c v.valid a x h in
        (
          c' ∷ cs,
          rw (h, run),
          (
            record {
              valid = valid;
              aligned = rw same_start v.aligned;
              whole = rw same_size v.whole;
            },
            vs,
          ),
          λ b. elim (Bool-cases (contains c b)) [
            | inl g ↦
                rw (h, same_start, same_size, g)
                  (reads b g
                    ∙ ap (λ t. if t then ok x else get empty c b) (same_object c a b v h g))
            | inr g ↦ rw (h, same_start, same_size, g, apart_object c a b v h g)
          ],
        )

    -- put() into a pool of whole, page-aligned ranges fails no assertion. If a cache of the pool
    -- contains the address, get() of an address of the same object returns the new value from then
    -- on; get() of any other address, and every get() if no cache contains the address, returns what
    -- it returned before.
    pub pool_get-put :
        (cs : List (MemoryCache A))
        → AllAligned cs
        → (cs' : List (MemoryCache A)) × (pool_put empty cs a x ≡ ok cs')
          × AllAligned cs'
          × Stored cs cs' a x
    unfolding pool_put pool_get
    pool_get-put [] v = ([], refl, tt, λ b. refl)
    pool_get-put (c ∷ cs) v = elim (Bool-cases (contains c a)) [
      | inl h ↦ put_here c cs v.0 v.1 h
      | inr h ↦
          let (cs', run, vs, reads) = pool_get-put cs v.1 in
          (
            c ∷ cs',
            rw (h, run),
            (v.0, vs),
            λ b. elim (Bool-cases (contains c b)) [
              | inl g ↦ rw (h, g, before_object c a b v.0 h g, and-false (covers cs a))
              | inr g ↦ rw (h, g) (reads b)
            ],
          )
    ]

  -- A look-up in a pool of well-formed caches fails no assertion.
  pub pool_get_total :
      (cs : List (MemoryCache A)) (a : ℕ) → AllAligned cs → (x : A) × (pool_get empty cs a ≡ ok x)
  unfolding pool_get
  pool_get_total [] a v = (empty, refl)
  pool_get_total (c ∷ cs) a v = elim (Bool-cases (contains c a)) [
    | inl e ↦ (look empty c (offset c.start a), rw e (get-look empty c a v.0.valid e))
    | inr e ↦ let (x, run) = pool_get_total cs a v.1 in (x, rw e run)
  ]

  pub pool_get_uncovered :
      (cs : List (MemoryCache A)) (a : ℕ) → covers cs a ≡ false → pool_get empty cs a ≡ ok empty
  unfolding pool_get
  pool_get_uncovered [] a h = refl
  pool_get_uncovered (c ∷ cs) a h = elim (Bool-cases (contains c a)) [
    | inl e ↦ cc (rw e at h)
    | inr e ↦ rw e (pool_get_uncovered cs a (rw e at h))
  ]

  -- A pool of one new cache, of a page-aligned range of whole objects.
  module _ (start size : ℕ) (range : start + size < 2 ^ 64) (small : page_count size < 2 ^ 32) where
    pub init-AllAligned : start % 4096 ≡ 0 → size % 128 ≡ 0 → AllAligned (init start size ∷ [])
    unfolding init
    init-AllAligned a w = (
      record { valid = (init-IsBlank empty start size range small).valid; aligned = a; whole = w },
      tt,
    )

    pub pool_get-init : (a : ℕ) → pool_get empty (init start size ∷ []) a ≡ ok empty
    unfolding pool_get
    pool_get-init a = elim (Bool-cases (contains {A = A} (init start size) a)) [
      | inl e ↦ rw e ((init-IsBlank empty start size range small).blank a e)
      | inr e ↦ rw e
    ]
