-- ===== src/MemoryCache/Reset.antt =====
-- The constructors and flushCache(): a cache without values.
use s2e.Common.{
  ℕ, zero, suc, ◌+◌, ◌-◌, ◌%◌, ◌^◌, ◌<◌, ◌≡◌, refl, sym, ap, ◌∙◌, true, List, [], ◌∷◌, Option, none,
  arith, length, get_or, replicate, ok, get_or-replicate, length-replicate, ==_ne,
}
use s2e.MemoryCache.{
  MemoryCache, SecondLevel, page_count, offset, index1, index2, index3, init, contains,
  second_level, third_level, flush, flush_from, get,
}
use s2e.MemoryCache.Lookup.{IsValid, level2_at, level3_at, get-look}

module _ {ℓ} {A : Type ℓ} (empty : A) where
  -- A well-formed cache that gives `T()` for every address.
  pub record IsBlank (c : MemoryCache A) : Type ℓ where
    pub valid : IsValid empty c
    pub blank : (addr : ℕ) → contains c addr ≡ true → get empty c addr ≡ ok empty

  none_at {κ} : {V : Type κ} (n i : ℕ) → get_or {A = Option V} (replicate n none) i none ≡ none
  none_at zero i = refl
  none_at (suc n) zero = refl
  none_at (suc n) (suc i) = none_at n i

  module _ (start size n count : ℕ) (range : start + size < 2 ^ 64) (width : n ≡ page_count size)
      (small : count ≡ n) where
    abbrev bare : MemoryCache A
    bare = record { level1 = replicate n none; start = start; size = size; pagecount = count }

    bare_level2 : (i : ℕ) → level2_at empty bare i ≡ replicate 256 none
    bare_level2 i = ap second_level (none_at n i)

    bare_level3 : (i j : ℕ) → level3_at empty bare i j ≡ replicate 32 empty
    bare_level3 i j =
        ap (λ l. third_level empty (get_or l j none)) (bare_level2 i)
        ∙ ap (third_level empty) (none_at 256 j)

    bare-IsValid : IsValid empty bare
    bare-IsValid = record {
      range = range;
      width1 = length-replicate n none ∙ width;
      width2 = λ i. ap length (bare_level2 i);
      width3 = λ i j. ap length (bare_level3 i j);
      count = small ∙ sym (length-replicate n none);
    }

    bare-IsBlank : IsBlank bare
    bare-IsBlank = record {
      valid = bare-IsValid;
      blank = λ addr h.
          get-look empty bare addr bare-IsValid h
          ∙ ap ok (
              ap (λ l. get_or l (index3 (offset start addr)) empty)
                (bare_level3 (index1 (offset start addr)) (index2 (offset start addr)))
              ∙ get_or-replicate 32 (index3 (offset start addr)) empty empty (omega arith));
    }

  -- A new cache of a range that does not wrap round and has less than 2^32 super pages is well-formed
  -- and gives `T()` for every address.
  pub init-IsBlank :
      (start size : ℕ)
      → start + size < 2 ^ 64
      → page_count size < 2 ^ 32
      → IsBlank (init start size)
  unfolding init
  init-IsBlank start size range small =
      bare-IsBlank start size (page_count size) (page_count size % 2 ^ 32) range refl (omega arith)

  flush_all :
      (slots : List (Option (SecondLevel A))) (n : ℕ)
      → n ≡ length slots
      → flush_from slots n ≡ replicate (length slots) none
  unfolding flush_from
  flush_all [] n e = refl
  flush_all (slot ∷ slots) zero e = absurd (omega arith)
  flush_all (slot ∷ slots) (suc n) e =
      rw (==_ne (suc n) 0 (omega arith))
        (ap (λ t. none ∷ t) (flush_all slots (suc n - 1) (omega arith)))

  -- After flushCache(), a well-formed cache is still well-formed, and gives `T()` for every address.
  pub flush-IsBlank : (c : MemoryCache A) → IsValid empty c → IsBlank (flush c)
  unfolding flush
  flush-IsBlank c v =
      rw (flush_all c.level1 c.pagecount v.count)
        (bare-IsBlank c.start c.size (length c.level1) c.pagecount v.range v.width1 v.count)
