-- ===== src/Slab/BlockHdr/Count.antt =====
-- alloc(b) and free(b) of a block header: they change bit `b` alone and keep `freeCount` equal to
-- the number of free blocks.
use s2e.Common.{
  ℕ, ◌+◌, ◌-◌, ◌/◌, ◌%◌, ◌^◌, ◌<◌, ◌≡◌, refl, ap, ◌∙◌, sym, Bool, true, false, [], suc, arith,
  length, get_or, set, take, replicate, count_set, lt→ltb, ok, get_elem?-eq-get_or, get_or-take,
  take-set, length-set, length-take, count_set-set-false, count_set-set-true, count_set-le,
  take-replicate, count_set-replicate,
}
use s2e.Slab.BlockHdr.{BlockHdr, init, is_free, alloc, free, put_bit, word_at}
use s2e.Slab.BlockHdr.Bits.{flat, AllWide, length-flat, get_or-flat, flat-put_bit, put_bit-AllWide}

-- A header of a page with `n` blocks.
pub record IsHdr (n : ℕ) (h : BlockHdr) : Type 0 where
  pub words : length h.mask ≡ 8
  pub wide : AllWide h.mask
  pub small : n < 512
  pub counted : h.free_count ≡ count_set (take n (flat h.mask))

module _ (n : ℕ) (h : BlockHdr) (b : ℕ) (v : IsHdr n h) (in_page : b < n) where
  bit_lem : get_or (get_or h.mask (b / 64) []) (b % 64) false ≡ get_or (flat h.mask) b false
  bit_lem =
      sym (get_or-flat h.mask (b / 64) (b % 64) v.wide (omega arith))
      ∙ ap (λ k. get_or (flat h.mask) k false) (omega arith)

  in_words : b / 64 < length h.mask
  in_words = omega (arith, v.words, v.small)

  is_free-ok : is_free h b ≡ ok (get_or (flat h.mask) b false)
  unfolding is_free
  is_free-ok =
      rw (is_free, word_at, get_elem?-eq-get_or h.mask (b / 64) [] in_words) (ap ok bit_lem)

  flat-put : (x : Bool) → flat (put_bit h.mask (b / 64) (b % 64) x) ≡ set (flat h.mask) b x
  flat-put x =
      flat-put_bit h.mask (b / 64) (b % 64) x v.wide (omega arith)
      ∙ ap (λ k. set (flat h.mask) k x) (omega arith)

  -- The bits and the counter of a header after block `b` was put to `x`.
  pub record Puts (x : Bool) (h' : BlockHdr) : Type 0 where
    pub bits : flat h'.mask ≡ set (flat h.mask) b x
    pub signature : h'.signature ≡ h.signature
    pub valid : IsHdr n h'

  -- What the header's alloc(b) promises for a free block.
  pub alloc-Puts :
      get_or (flat h.mask) b false ≡ true
      → (h' : BlockHdr) × (alloc h b ≡ ok h') × Puts false h' × (h.free_count ≡ suc h'.free_count)
  unfolding alloc
  alloc-Puts set_bit =
      let held : get_or (take n (flat h.mask)) b false ≡ true =
        get_or-take n b (flat h.mask) false in_page ∙ set_bit in
      let down = count_set-set-false (take n (flat h.mask)) b held in
      let counts : h.free_count ≡ suc (count_set (set (take n (flat h.mask)) b false)) =
        v.counted ∙ down in
      (
        record h { mask = put_bit h.mask (b / 64) (b % 64) false; free_count = h.free_count - 1 },
        rw (lt→ltb 0 h.free_count (omega arith), is_free-ok, set_bit),
        record {
          bits = flat-put false;
          signature = refl;
          valid = record {
            words = length-set h.mask (b / 64) _ ∙ v.words;
            wide = put_bit-AllWide h.mask (b / 64) (b % 64) false v.wide;
            small = v.small;
            counted = rw (flat-put false, take-set n b (flat h.mask) false) (omega arith);
          };
        },
        omega arith,
      )

  -- What the header's free(b) promises for a block in use.
  pub free-Puts :
      get_or (flat h.mask) b false ≡ false
      → (h' : BlockHdr) × (free h b ≡ ok h') × Puts true h' × (h'.free_count ≡ suc h.free_count)
  unfolding free
  free-Puts clear_bit =
      let held : get_or (take n (flat h.mask)) b false ≡ false =
        get_or-take n b (flat h.mask) false in_page ∙ clear_bit in
      let size : length (take n (flat h.mask)) ≡ n =
        length-take n (flat h.mask) (omega (arith, length-flat h.mask v.wide, v.words, v.small)) in
      let up = count_set-set-true (take n (flat h.mask)) b (omega arith) held in
      let most = count_set-le (set (take n (flat h.mask)) b true) in
      let same = length-set (take n (flat h.mask)) b true in
      let step : (h.free_count + 1) % 2 ^ 32 ≡ suc h.free_count =
        omega (arith, v.counted, v.small) in
      (
        record h {
          mask = put_bit h.mask (b / 64) (b % 64) true;
          free_count = (h.free_count + 1) % 2 ^ 32;
        },
        rw (is_free-ok, clear_bit),
        record {
          bits = flat-put true;
          signature = refl;
          valid = record {
            words = length-set h.mask (b / 64) _ ∙ v.words;
            wide = put_bit-AllWide h.mask (b / 64) (b % 64) true v.wide;
            small = v.small;
            counted =
                rw (flat-put true, take-set n b (flat h.mask) true)
                  (step ∙ ap suc v.counted ∙ sym up);
          };
        },
        step,
      )

-- A header that init() has set up is well-formed, and each of its blocks is free.
pub init-IsHdr :
    (n : ℕ) (h : BlockHdr)
    → n < 512
    → IsHdr n (init h n) × (flat (init h n).mask ≡ replicate 512 true)
unfolding init
init-IsHdr n h small = (
  record { words = refl; wide = omega arith; small = small; counted = sym (all_free n small) },
  refl,
)
  where
    all_free : (n : ℕ) → n < 512 → count_set (take n (replicate 512 true)) ≡ n
    all_free n l = rw (take-replicate n 512 true (omega arith)) (count_set-replicate n)
