-- ===== src/Slab/BlockHdr/FindFree.antt =====
-- findFree() against the plain search for the first set bit.
use s2e.Common.{
  ℕ, zero, suc, ◌+◌, ◌-◌, ◌*◌, ◌/◌, ◌%◌, ◌<◌, ◌≡◌, refl, ap, ◌∙◌, sym, Bool, true, false, List, [],
  ◌∷◌, ◌++◌, some, arith, length, get_or, take, count_set, ltb, ◌==◌, if◌then◌else◌, Bool-cases,
  lt→ltb, inl, inr, ok,
}
use s2e.Slab.Bitmap.{Word, is_zero, BitScan}
use s2e.Slab.Bitmap.Laws.{is_zero_of_get, scan_total}
use s2e.Slab.BlockHdr.{BlockHdr, word_bits, find_free_loop, find_free}
use s2e.Slab.BlockHdr.Bits.{flat, AllWide, get_or-append_left, get_or-append_right}

-- Bit `k` is the lowest one that is set.
pub record IsFirst (bits : List Bool) (k : ℕ) : Type 0 where
  pub is_set : get_or bits k false ≡ true
  pub lowest : (j : ℕ) → j < k → get_or bits j false ≡ false

pub IsFirst-of_count :
    (n : ℕ) (bits : List Bool) → 0 < count_set (take n bits) → (k : ℕ) × (k < n) × IsFirst bits k
IsFirst-of_count zero bits h = absurd (omega arith)
IsFirst-of_count (suc n) [] h = absurd (omega arith)
IsFirst-of_count (suc n) (true ∷ bs) h =
    (0, omega arith, record { is_set = refl; lowest = λ j l. absurd (omega arith) })
IsFirst-of_count (suc n) (false ∷ bs) h =
    let (k, l, f) = IsFirst-of_count n bs h in
    (suc k, omega arith, record { is_set = f.is_set; lowest = below bs k f.lowest })
  where
    below :
        (bs : List Bool) (k : ℕ)
        → ((j : ℕ) → j < k → get_or bs j false ≡ false)
        → (j : ℕ) → j < suc k
        → get_or (false ∷ bs) j false ≡ false
    below bs k f zero l = refl
    below bs k f (suc j) l = f j (omega arith)

is_zero_of_all : (w : Word) → ((j : ℕ) → j < length w → get_or w j false ≡ false) → is_zero w ≡ true
is_zero_of_all [] f = refl
is_zero_of_all (true ∷ bs) f = absurd (cc (f 0 (omega arith)))
is_zero_of_all (false ∷ bs) f = is_zero_of_all bs (λ j l. f (suc j) (omega arith))

module _ (B : BitScan) where
  -- The scan of one word that holds the first set bit.
  scan_first : (w : Word) (k : ℕ) → IsFirst w k → B.scan w ≡ some k
  scan_first w k f =
      let (i, e) = scan_total B w (is_zero_of_get w k f.is_set) in
      let same : i ≡ k =
        ground (arith, B.scan_set w i e, B.scan_lowest w i k e, f.lowest i, f.is_set) in
      rw (← same) e

  -- The first set bit lies in the first word, or in the words behind it.
  IsFirst-left :
      (w : Word) (bs : List Bool) (k : ℕ) → k < length w → IsFirst (w ++ bs) k → IsFirst w k
  IsFirst-left w bs k h f = record {
    is_set = sym (get_or-append_left w bs k false h) ∙ f.is_set;
    lowest = λ j l. sym (get_or-append_left w bs j false (omega arith)) ∙ f.lowest j l;
  }

  IsFirst-right :
      (w : Word) (bs : List Bool) (k : ℕ) → IsFirst (w ++ bs) (length w + k) → IsFirst bs k
  IsFirst-right w bs k f = record {
    is_set = sym (get_or-append_right w bs k false) ∙ f.is_set;
    lowest = λ j l. sym (get_or-append_right w bs j false) ∙ f.lowest (length w + j) (omega arith);
  }

  first_right_zero :
      (w : Word) (bs : List Bool) (k : ℕ) → IsFirst (w ++ bs) (length w + k) → is_zero w ≡ true
  first_right_zero w bs k f =
      is_zero_of_all w (λ j l. sym (get_or-append_left w bs j false l) ∙ f.lowest j (omega arith))

  loop_finds :
      (ws : List Word) (i c k : ℕ)
      → AllWide ws
      → IsFirst (flat ws) k
      → i + k / 64 < c
      → find_free_loop B ws i c ≡ ok (k + i * word_bits)
  unfolding find_free_loop
  loop_finds [] i c k a f h = cc (f.is_set)
  loop_finds (w ∷ ws) i c k a f h = elim (Bool-cases (ltb k 64)) [
    | inl here ↦
        let g = IsFirst-left w (flat ws) k (ground (arith, a.0)) f in
        rw (is_zero_of_get w k g.is_set, scan_first w k g)
    | inr later ↦
        let split : k ≡ length w + (k - 64) = ground (arith, a.0) in
        let f' : IsFirst (w ++ flat ws) (length w + (k - 64)) = rw (← split) f in
        rw
          (
            first_right_zero w (flat ws) (k - 64) f',
            lt→ltb (i + 1) c (ground arith),
            loop_finds ws (i + 1) c (k - 64) a.1 (IsFirst-right w (flat ws) (k - 64) f')
                (ground arith),
          )
          (ground (arith, a.0))
  ]

  -- With a free block among the first `n`, findFree(n) fails no assertion, reads no word out of the
  -- array and returns the lowest free block.
  pub find_free-IsFirst :
      (h : BlockHdr) (n : ℕ)
      → AllWide h.mask
      → 0 < h.free_count
      → 0 < count_set (take n (flat h.mask))
      → (k : ℕ) × (find_free B h n ≡ ok k) × (k < n) × IsFirst (flat h.mask) k
  unfolding find_free
  find_free-IsFirst h n a c m =
      let (k, l, f) = IsFirst-of_count n (flat h.mask) m in
      (
        k,
        rw (lt→ltb 0 h.free_count c)
            (loop_finds h.mask 0 _ k a f (rounds k l) ∙ ap ok (omega arith)),
        l,
        f,
      )
    where
      rounds : (k : ℕ) → k < n → 0 + k / 64 < (if n % 64 == 0 then n / 64 else n / 64 + 1)
      rounds k l = ground arith
