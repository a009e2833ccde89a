-- ===== src/Slab/SlabAllocator/RoundTrip.antt =====
-- SlabAllocator::alloc() and free() together.
use s2e.Common.{
  List, [], ◌∷◌, subst, some-eq, ok-eq, lt→ltb, ℕ, ◌+◌, ◌-◌, ◌*◌, ◌/◌, ◌%◌, ◌^◌, ◌≤◌, ◌<◌, ◌≡◌, ◌≢◌,
  ◌∙◌, ap, sym, refl, some, arith, length, get_elem?, set, get_or, ==_ne, get_elem?-set_self,
  get_elem?-lt, get_elem?_total, true, false, ok, le→leb, le→ltb, get_or-set_self,
}
use s2e.Slab.Bitmap.{BitScan}
use s2e.Slab.Bitmap.Laws.{get_or-lt}
use s2e.Slab.PageAllocator.{PageAllocator, page_size, belongs_to_us}
use s2e.Slab.BlockHdr.{hdr_size}
use s2e.Slab.BlockHdr.Bits.{flat}
use s2e.Slab.BlockAllocator
use s2e.Slab.BlockAllocator.{BlockAllocator, World, Memory, block_hdr_signature, first_page}
use s2e.Slab.BlockAllocator.Pages.{AllPages}
use s2e.Slab.BlockAllocator.Alloc.{Took}
use s2e.Slab.BlockAllocator.Expand.{alloc-Took}
use s2e.Slab.BlockAllocator.Free.{Gave, free-Gave, address_lem, restored}
use s2e.Slab.SlabAllocator.{SlabAllocator, log, alloc, free, free_in, get_slab, slab_at, is_valid}
use s2e.Slab.SlabAllocator.Invariant.{IsSlot, IsValid, set-IsValid}

-- What an allocation from a slot with a free block amounts to.
pub record Served (s s' : SlabAllocator) (i p k addr : ℕ) (ba ba' : BlockAllocator) : Type 0 where
  pub slot : get_elem? s.bas i ≡ some ba
  pub slot' : get_elem? s'.bas i ≡ some ba'
  pub pages : s'.world.pages ≡ s.world.pages
  pub range : (s'.min_po2 ≡ s.min_po2) × (s'.max_po2 ≡ s.max_po2)
  pub address : addr ≡ p + hdr_size + k * ba.block_size
  pub took : Took ba ba' s.world.memory s'.world.memory p k
  pub valid : IsValid s'

module _ (B : BitScan) (s : SlabAllocator) (size os_region : ℕ) (v : IsValid s)
    (classed : log size ≢ 0) (lo : s.min_po2 ≤ log size) (hi : log size < s.max_po2) where
  abbrev slot : ℕ
  slot = log size - s.min_po2

  in_slots : slot < length s.bas
  in_slots = omega (arith, v.filled, v.ordered)

  alloc_run :
      (ba ba' : BlockAllocator) (w : World) (addr : ℕ)
      → get_elem? s.bas slot ≡ some ba
      → BlockAllocator.alloc B ba s.world os_region ≡ ok (ba', w, addr)
      → alloc B s size os_region ≡ ok (record s { bas = set s.bas slot ba'; world = w }, addr)
  unfolding alloc
  alloc_run ba ba' w addr at run = rw (
    ==_ne (log size) 0 classed,
    le→ltb (log size) s.min_po2 lo,
    le→ltb s.max_po2 (log size) (omega (arith, hi)),
    slab_at,
    at,
    run,
  )

  -- alloc(size) of a well-formed slab, for a size whose class the slab has and that is below its last
  -- class, for which the array has no slot, and where the slot counts a free block, fails no assertion:
  -- it returns a block of 2^log(size) bytes of a page of that slot, and the slab stays well-formed.
  pub alloc-Served :
      ((ba : BlockAllocator) → get_elem? s.bas slot ≡ some ba → ba.free_blocks_count ≢ 0)
      → (s' : SlabAllocator) × (addr : ℕ) × (p : ℕ) × (k : ℕ) × (ba : BlockAllocator)
        × (ba' : BlockAllocator) × (alloc B s size os_region ≡ ok (s', addr))
        × (ba.block_size ≡ 2 ^ log size)
        × Served s s' slot p k addr ba ba'
  alloc-Served stocked =
      let (ba, at) = get_elem?_total s.bas slot in_slots in
      let old = v.each slot ba at in
      let (p, k, ba', mem', run, took) =
        alloc-Took B ba s.world os_region old.valid (stocked ba at) in
      let w' : World = record s.world { memory = mem' } in
      (
        record s { bas = set s.bas slot ba'; world = w' },
        p + hdr_size + k * ba.block_size,
        p,
        k,
        ba,
        ba',
        alloc_run ba ba' w' (p + hdr_size + k * ba.block_size) at run,
        old.size ∙ ap (λ e. 2 ^ e) (omega arith),
        record {
          slot = at;
          slot' = get_elem?-set_self s.bas slot ba' in_slots;
          pages = refl;
          range = (refl, refl);
          address = refl;
          took = took;
          valid =
              set-IsValid s slot ba ba' w' p v at
                (record {
                  valid = took.valid;
                  signed = took.same_shape.2 ∙ old.signed;
                  size = took.same_shape.0 ∙ old.size;
                })
                took.signed took.others;
        },
      )

module _ (s : SlabAllocator) (i p k addr : ℕ) (ba : BlockAllocator) (v : IsValid s)
    (at : get_elem? s.bas i ≡ some ba) (aligned : p % page_size ≡ 0) (high : p + page_size ≤ 2 ^ 64)
    (signed : (s.world.memory p).signature ≡ block_hdr_signature + ba.magic)
    (in_page : k < ba.blocks_per_page) (address : addr ≡ p + hdr_size + k * ba.block_size) where
  base : addr / page_size * page_size ≡ p
  base =
      let b = (v.each i ba at).valid in
      rw address
        (address_lem p k ba.blocks_per_page ba.block_size aligned high b.size_pos in_page
          b.few_blocks b.fits).0

  magic_lem : ba.magic ≡ s.min_po2 + i
  magic_lem = (v.each i ba at).signed

  in_range : s.min_po2 + i < s.max_po2
  in_range = omega (arith, get_elem?-lt s.bas i ba at, v.filled, v.ordered)

  -- getSlab() finds the slot that a block's page was signed for.
  pub get_slab_lem : get_slab s addr ≡ ok (some i)
  unfolding get_slab
  get_slab_lem =
      let sig : (s.world.memory (addr / page_size * page_size)).signature
          ≡ block_hdr_signature + (s.min_po2 + i) =
        ap (λ q. (s.world.memory q).signature) base
        ∙ signed
        ∙ ap (λ m. block_hdr_signature + m) magic_lem in
      let low : (block_hdr_signature + (s.min_po2 + i)) % 256 ≡ s.min_po2 + i =
        omega (arith, in_range, v.small) in
      let index : s.min_po2 + i - s.min_po2 ≡ i = omega arith in
      let high_part : (block_hdr_signature + (s.min_po2 + i)) / 256 * 256 ≡ block_hdr_signature =
        omega (arith, in_range, v.small) in
      rw
        (
          sig,
          high_part,
          low,
          le→leb (s.min_po2 + i) s.max_po2 (omega (arith, in_range)),
          le→leb s.min_po2 (s.min_po2 + i) (omega arith),
          index,
          lt→ltb i (length s.bas) (get_elem?-lt s.bas i ba at),
        )
        refl

-- After an allocation, isValid() of the block's address holds, and free() of it gives it back.
free-Served :
    (s s' : SlabAllocator) (i p k addr : ℕ) (ba ba' : BlockAllocator)
    → Served s s' i p k addr ba ba'
    → belongs_to_us s'.world.pages addr ≡ true
    → (is_valid s' addr ≡ ok true)
      × ((s'' : SlabAllocator) × (free s' addr ≡ ok (s'', true))
          × IsValid s''
          × ((q : ℕ) → flat (s''.world.memory q).mask ≡ flat (s.world.memory q).mask))
unfolding free free_in is_valid
free-Served s s' i p k addr ba ba' r ours =
    let took = r.took in
    let signed : (s'.world.memory p).signature ≡ block_hdr_signature + ba'.magic =
      took.signature ∙ took.signed ∙ ap (λ m. block_hdr_signature + m) (sym took.same_shape.2) in
    let in_page : k < ba'.blocks_per_page = rw took.same_shape.1 took.in_page in
    let address : addr ≡ p + hdr_size + k * ba'.block_size =
      r.address ∙ ap (λ z. p + hdr_size + k * z) (sym took.same_shape.0) in
    let found =
      get_slab_lem s' i p k addr ba' r.valid r.slot' took.aligned took.high signed in_page
        address in
    let used : get_or (flat (s'.world.memory p).mask) k false ≡ false = rw took.bits (
      get_or-set_self (flat (s.world.memory p).mask) k false false
        (get_or-lt (flat (s.world.memory p).mask) k took.first.is_set)) in
    let (ba'', mem'', run, gave) = free-Gave ba' s'.world p k took.valid in_page used took.held in
    let w'' : World = record s'.world { memory = mem'' } in
    (
      rw found,
      (
        record s' { bas = set s'.bas i ba''; world = w'' },
        rw (found, free_in, ours, slab_at, r.slot', address, run),
        set-IsValid s' i ba' ba'' w'' p r.valid r.slot' (reslot gave) signed gave.others,
        restored ba ba' ba'' s.world.memory s'.world.memory mem'' p k took gave,
      ),
    )
  where
    reslot :
        {ba'' : BlockAllocator} {mem'' : Memory}
        → Gave ba' ba'' s'.world.memory mem'' p k
        → IsSlot s'.min_po2 i ba'' mem''
    reslot g = record {
      valid = g.valid;
      signed = g.same_shape.2 ∙ (r.valid.each i ba' r.slot').signed;
      size = g.same_shape.0 ∙ (r.valid.each i ba' r.slot').size;
    }

-- Every address of a page is in one of the page allocator's regions.
abbrev pub Ours : PageAllocator → ℕ → Type 0
Ours pages q = (addr : ℕ) → addr / page_size * page_size ≡ q → belongs_to_us pages addr ≡ true

-- The pages with a free block come from the page allocator.
abbrev pub OwnsPages : PageAllocator → BlockAllocator → Type 0
OwnsPages pages ba = AllPages (Ours pages) ba.free_pages × AllPages (Ours pages) ba.totally_free

first_page-Ours :
    (pages : PageAllocator) (fp tf : List ℕ) (p : ℕ)
    → AllPages (Ours pages) fp
    → AllPages (Ours pages) tf
    → first_page fp tf ≡ ok p
    → Ours pages p
unfolding first_page
first_page-Ours pages (q ∷ fp) tf p a b e = subst (Ours pages) (ok-eq q p e) a.0
first_page-Ours pages [] (q ∷ tf) p a b e = subst (Ours pages) (ok-eq q p e) b.0
first_page-Ours pages [] [] p a b e = cc

module _ (B : BitScan) (s : SlabAllocator) (size os_region : ℕ) (v : IsValid s)
    (classed : log size ≢ 0) (lo : s.min_po2 ≤ log size) (hi : log size < s.max_po2) where
  -- A block that alloc(size) returned is valid, and can be given back: for a well-formed slab, a size
  -- whose class the slab has and that is below its last class, and a slot that counts a free block and
  -- whose pages with a free block are the page allocator's, alloc(size) returns an address, isValid()
  -- of it holds, free() of it fails no assertion and returns true, and then the slab is well-formed and
  -- every page has the same free blocks as before the two calls.
  pub is_valid-free-alloc :
      (ba : BlockAllocator)
      → get_elem? s.bas (log size - s.min_po2) ≡ some ba
      → ba.free_blocks_count ≢ 0
      → OwnsPages s.world.pages ba
      → (s' : SlabAllocator) × (addr : ℕ) × (s'' : SlabAllocator) × (alloc B s size os_region
          ≡ ok (s', addr))
        × (is_valid s' addr ≡ ok true)
        × (free s' addr ≡ ok (s'', true))
        × IsValid s''
        × ((q : ℕ) → flat (s''.world.memory q).mask ≡ flat (s.world.memory q).mask)
  is_valid-free-alloc ba at stocked owns =
      let (s', addr, p, k, b, b', run, z, served) =
        alloc-Served B s size os_region v classed lo hi (λ b e.
          subst (λ (b : BlockAllocator). b.free_blocks_count ≢ 0) (some-eq ba b (sym at ∙ e))
            stocked) in
      let same : ba ≡ b = some-eq ba b (sym at ∙ served.slot) in
      let owned : OwnsPages s.world.pages b = subst (OwnsPages s.world.pages) same owns in
      let page =
        first_page-Ours s.world.pages b.free_pages b.totally_free p owned.0 owned.1
          served.took.chosen in
      let home : addr / page_size * page_size ≡ p =
        base s (log size - s.min_po2) p k addr b v served.slot served.took.aligned served.took.high
          served.took.signed served.took.in_page served.address in
      let ours : belongs_to_us s'.world.pages addr ≡ true =
        ap (λ g. belongs_to_us g addr) served.pages ∙ page addr home in
      let (valid, (s'', back, v'', masks)) =
        free-Served s s' (log size - s.min_po2) p k addr b b' served ours in
      (s', addr, s'', run, valid, back, v'', masks)
