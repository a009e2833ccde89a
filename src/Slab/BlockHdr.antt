-- ===== src/Slab/BlockHdr.antt =====
-- BlockAllocatorHdr of include/s2e/Slab.h: the header of a page of blocks. `mask` is an array of
-- eight 64-bit words with a bit for each block, set where the block is free. The `link` field is
-- modelled by the page lists of BlockAllocator; the header is 128 bytes long.
pub mod Bits
pub mod FindFree
pub mod Count
use s2e.Common.{
  ℕ, ◌+◌, ◌-◌, ◌*◌, ◌/◌, ◌%◌, ◌^◌, Bool, true, false, not, List, [], ◌∷◌, none, some, get_elem?,
  get_or, set, replicate, ltb, ◌==◌, if◌then◌else◌, assertion, out_of_bounds, Result, ok, fault,
  ◌>>=◌, ◌>>◌, check,
}
use s2e.Slab.Bitmap.{Word, all_ones, is_zero, BitScan}

pub record BlockHdr : Type 0 where
  pub signature : ℕ
  pub free_count : ℕ
  pub mask : List Word

-- sizeof(BlockAllocatorHdr)
abbrev pub hdr_size : ℕ
hdr_size = 128

-- sizeof(mask[0]) * 8
abbrev pub word_bits : ℕ
word_bits = 64

-- init(a, count)
unfoldable pub init : BlockHdr → ℕ → BlockHdr
init h count = record h { free_count = count; mask = replicate 8 all_ones }

-- mask[d]
abbrev pub word_at : List Word → ℕ → Result Word
word_at mask d = elim (get_elem? mask d) [ none ↦ fault out_of_bounds | some w ↦ ok w ]

-- isFree(b)
pub is_free : BlockHdr → ℕ → Result Bool
is_free h b = do w ← word_at h.mask (b / word_bits); ok (get_or w (b % word_bits) false)

-- mask[d] with bit r put to a value.
abbrev pub put_bit : List Word → ℕ → ℕ → Bool → List Word
put_bit mask d r x = set mask d (set (get_or mask d []) r x)

-- alloc(b)
pub alloc : BlockHdr → ℕ → Result BlockHdr
unfolding is_free
alloc h b = do
  check (ltb 0 h.free_count)
  free ← is_free h b
  check free
  ok (record h {
    mask = put_bit h.mask (b / word_bits) (b % word_bits) false;
    free_count = h.free_count - 1;
  })

-- free(b)
unfoldable pub free : BlockHdr → ℕ → Result BlockHdr
unfolding is_free
free h b = do
  is_set ← is_free h b
  check (not is_set)
  ok (record h {
    mask = put_bit h.mask (b / word_bits) (b % word_bits) true;
    free_count = (h.free_count + 1) % 2 ^ 32;
  })

module _ (B : BitScan) where
  -- The loop of findFree(): the words from `mask[i]` on.
  find_free_loop : List Word → ℕ → ℕ → Result ℕ
  find_free_loop [] i c = fault out_of_bounds
  find_free_loop (w ∷ ws) i c =
      let next = if ltb (i + 1) c then find_free_loop ws (i + 1) c else fault assertion in
      if is_zero w
      then next
      else elim (B.scan w) [ none ↦ fault assertion | some index ↦ ok (index + i * word_bits) ]

  -- findFree(maxBlocks)
  pub find_free : BlockHdr → ℕ → Result ℕ
  unfolding find_free_loop
  find_free h max_blocks = do
    check (ltb 0 h.free_count)
    find_free_loop h.mask 0
        (if max_blocks % word_bits == 0 then max_blocks / word_bits else max_blocks / word_bits + 1)
