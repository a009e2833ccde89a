-- ===== src/MemoryCache.antt =====
-- MemoryCache and MemoryCachePool of include/s2e/MemoryCache.h: values of a type `T` for the objects
-- of ranges of host memory, in arrays of three levels that are made where they are first needed.
-- The parameters are those of S2EMemoryCache in include/s2e/S2EExecutionState.h, with QEMU's pages
-- of 4 KB. A null pointer is `none`.
pub mod Lookup
pub mod Update
pub mod Reset
pub mod Order
pub mod Pool
mod Tests
use s2e.Common.{
  ℕ, ◌+◌, ◌-◌, ◌*◌, ◌/◌, ◌%◌, ◌^◌, Bool, true, false, ◌&&◌, List, [], ◌∷◌, Option, none, some,
  get_elem?, set, replicate, ltb, leb, ◌==◌, if◌then◌else◌, out_of_bounds, Result, ok, fault, ◌>>=◌,
  ◌>>◌, check,
}

-- OBJSIZE_BITS, PAGESIZE_BITS and SUPERPAGESIZE_BITS
abbrev pub obj_bits : ℕ
obj_bits = 7

abbrev pub page_bits : ℕ
page_bits = 12

abbrev pub superpage_bits : ℕ
superpage_bits = 20

abbrev pub ThirdLevel {ℓ} : Type ℓ → Type ℓ
ThirdLevel A = List A

abbrev pub SecondLevel {ℓ} : Type ℓ → Type ℓ
SecondLevel A = List (Option (ThirdLevel A))

pub record MemoryCache {ℓ} (A : Type ℓ) : Type ℓ where
  pub level1 : List (Option (SecondLevel A))
  pub start : ℕ
  pub size : ℕ
  pub pagecount : ℕ

-- offset, and the three indices that put(), get() and getArray() compute from it.
abbrev pub offset : ℕ → ℕ → ℕ
offset start addr = (addr + 2 ^ 64 - start) % 2 ^ 64

abbrev pub index1 : ℕ → ℕ
index1 off = off / 2 ^ superpage_bits

abbrev pub index2 : ℕ → ℕ
index2 off = off % 2 ^ superpage_bits / 2 ^ page_bits

abbrev pub index3 : ℕ → ℕ
index3 off = off / 2 ^ obj_bits % 2 ^ (page_bits - obj_bits)

-- The element of an array, within its bounds.
abbrev pub at {ℓ} : {A : Type ℓ} → List A → ℕ → Result A
at xs i = elim (get_elem? xs i) [ none ↦ fault out_of_bounds | some x ↦ ok x ]

-- resize(): the number of super pages.
abbrev pub page_count : ℕ → ℕ
page_count size = size / 2 ^ superpage_bits + (if size % 2 ^ superpage_bits == 0 then 0 else 1)

module _ {ℓ} {A : Type ℓ} where
  -- MemoryCache(hostAddrStart, size)
  pub init : ℕ → ℕ → MemoryCache A
  init start size = record {
    level1 = replicate (page_count size) none;
    start = start;
    size = size;
    pagecount = page_count size % 2 ^ 32;
  }

  -- The copy constructor: an empty cache of the same range.
  pub copy : MemoryCache A → MemoryCache A
  copy one = init one.start one.size

  -- contains(hostAddress)
  abbrev pub contains : MemoryCache A → ℕ → Bool
  contains c addr = leb c.start addr && ltb addr ((c.start + c.size) % 2 ^ 64)

  -- The loop of flushCache().
  flush_from : List (Option (SecondLevel A)) → ℕ → List (Option (SecondLevel A))
  flush_from [] n = []
  flush_from (slot ∷ slots) n =
      let rest = flush_from slots (n - 1) in if n == 0 then slot ∷ slots else none ∷ rest

  -- flushCache()
  pub flush : MemoryCache A → MemoryCache A
  unfolding flush_from
  flush c = record c { level1 = flush_from c.level1 c.pagecount }

  -- SecondLevel()
  abbrev pub second_level : Option (SecondLevel A) → SecondLevel A
  second_level none = replicate (2 ^ (superpage_bits - page_bits)) none
  second_level (some l) = l

  -- getArray(hostAddress)
  pub get_array : MemoryCache A → ℕ → Result (Option (ThirdLevel A))
  get_array c addr = do
    let off = offset c.start addr
    slot ← at c.level1 (index1 off)
    elim slot [ none ↦ ok none | some level2 ↦ at level2 (index2 off) ]

  -- `empty` is the value of `T()`.
  module _ (empty : A) where
    -- ThirdLevel()
    abbrev pub third_level : Option (ThirdLevel A) → ThirdLevel A
    third_level none = replicate (2 ^ (page_bits - obj_bits)) empty
    third_level (some l) = l

    -- put(hostAddress, obj)
    pub put : MemoryCache A → ℕ → A → Result (MemoryCache A)
    put c addr obj = do
      let off = offset c.start addr
      slot ← at c.level1 (index1 off)
      let level2 = second_level slot
      ptr ← at level2 (index2 off)
      let level3 = third_level ptr
      check (ltb (index3 off) (2 ^ (page_bits - obj_bits)))
      ok (record c {
        level1 =
            set c.level1 (index1 off)
              (some (set level2 (index2 off) (some (set level3 (index3 off) obj))));
      })

    -- get(hostAddress)
    pub get : MemoryCache A → ℕ → Result A
    get c addr = do
      let off = offset c.start addr
      slot ← at c.level1 (index1 off)
      elim slot [
        | none ↦ ok empty
        | some level2 ↦ do
          ptr ← at level2 (index2 off)
          elim ptr [ none ↦ ok empty | some level3 ↦ at level3 (index3 off) ]
      ]

-- MemoryCachePool: the caches, by decreasing size.
module _ {ℓ} {A : Type ℓ} where
  -- The copy constructor of the pool.
  pub copy_pool : List (MemoryCache A) → List (MemoryCache A)
  copy_pool [] = []
  copy_pool (c ∷ cs) = copy c ∷ copy_pool cs

  -- The place that registerPool() looks for.
  pub insert : MemoryCache A → List (MemoryCache A) → List (MemoryCache A)
  insert mc [] = mc ∷ []
  insert mc (c ∷ cs) = if ltb c.size mc.size then mc ∷ c ∷ cs else c ∷ insert mc cs

  -- registerPool(hostAddrStart, size)
  pub register_pool : List (MemoryCache A) → ℕ → ℕ → Result (List (MemoryCache A))
  unfolding insert
  register_pool cs start size = do
    check (start % 2 ^ page_bits == 0)
    ok (insert (init start size) cs)

  -- The pool's getArray(hostAddress).
  pub pool_get_array : List (MemoryCache A) → ℕ → Result (Option (ThirdLevel A))
  pool_get_array [] addr = ok none
  pool_get_array (c ∷ cs) addr =
      if contains c addr then get_array c addr else pool_get_array cs addr

  module _ (empty : A) where
    -- The pool's put(hostAddress, obj).
    pub pool_put : List (MemoryCache A) → ℕ → A → Result (List (MemoryCache A))
    pool_put [] addr obj = ok []
    pool_put (c ∷ cs) addr obj =
        let rest = pool_put cs addr obj in
        if contains c addr
        then (do c' ← put empty c addr obj; ok (c' ∷ cs))
        else (do cs' ← rest; ok (c ∷ cs'))

    -- The pool's get(hostAddress).
    pub pool_get : List (MemoryCache A) → ℕ → Result A
    pool_get [] addr = ok empty
    pool_get (c ∷ cs) addr = if contains c addr then get empty c addr else pool_get cs addr
