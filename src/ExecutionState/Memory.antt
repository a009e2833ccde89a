-- ===== src/ExecutionState/Memory.antt =====
-- Guest memory in S2EExecutionState: translation of addresses, the memory cache before the address
-- space, readMemory(), writeMemory() and the accesses from concrete code.
pub mod Coherence
pub mod Copy
use s2e.Common.{
  ℕ, zero, suc, ◌+◌, ◌-◌, ◌*◌, ◌/◌, ◌%◌, ◌^◌, Bool, true, false, not, ◌&&◌, ◌||◌, List, [], ◌∷◌,
  ◌++◌, Option, none, some, length, take, drop, leb, ltb, ◌==◌, if◌then◌else◌, Result, ok, fault,
  assertion, out_of_bounds, ◌>>=◌, ◌>>◌, check,
}
use s2e.MemoryCache.{MemoryCache, pool_get, pool_put}
use s2e.ExecutionState.Klee.{ObjectPair, Klee}

-- S2E_RAM_OBJECT_SIZE, and `address & S2E_RAM_OBJECT_MASK`
abbrev pub object_size : ℕ
object_size = 128

abbrev pub object_base : ℕ → ℕ
object_base a = a / object_size * object_size

-- TARGET_PAGE_SIZE
abbrev pub page_size : ℕ
page_size = 4096

abbrev pub Cache : Type 0
Cache = List (MemoryCache (Option ObjectPair))

-- The members that memory accesses use: the address space, m_memcache, the two CPU objects, and the
-- flags. An absent object is `none` in the cache.
pub record State (S : Type 0) : Type 0 where
  pub space : S
  pub memcache : Cache
  pub registers : ObjectPair
  pub system : ObjectPair
  pub active : Bool

-- S2EExecutionState::AddressType
pub data AddressType : Type 0 where
  virtual_address physical_address host_address : AddressType

-- QEMU's page tables: the frame of cpu_get_phys_page_debug(), `none` for -1, and the host page of
-- s2e_get_host_address(), `none` for 0. Both are given and return numbers of pages.
pub record Mmu : Type 0 where
  pub phys_page : ℕ → Option ℕ
  pub host_page : ℕ → Option ℕ

-- An address of -1 means that there is none.
abbrev pub valid_address : ℕ → Option ℕ
valid_address a = if a == 2 ^ 64 - 1 then none else some a

-- getPhysicalAddress(virtualAddress) of an active state
unfoldable pub get_physical_address : Mmu → ℕ → Option ℕ
get_physical_address mmu a = elim (mmu.phys_page (a / page_size)) [
  | none ↦ none
  | some frame ↦ valid_address (frame * page_size + a % page_size)
]

-- getHostAddress(address, addressType)
unfoldable pub get_host_address : Mmu → Bool → ℕ → AddressType → Result (Option ℕ)
unfolding get_physical_address
get_host_address mmu active a host_address = ok (valid_address a)
get_host_address mmu active a physical_address = ok (elim (mmu.host_page (a / page_size)) [
  | none ↦ none
  | some page ↦ valid_address (page * page_size + a % page_size)
])
get_host_address mmu active a virtual_address = do
  check active
  ok (elim (get_physical_address mmu (a / page_size * page_size)) [
    | none ↦ none
    | some physical ↦ elim (mmu.host_page (physical / page_size)) [
      | none ↦ none
      | some page ↦ valid_address (page * page_size + a % page_size)
    ]
  ])

-- The assertions on a RAM object.
abbrev pub is_ram : ObjectPair → Bool
is_ram p = p.user_specified && p.size == object_size

abbrev pub ram : Option ObjectPair → Result ObjectPair
ram none = fault assertion
ram (some p) = do check (is_ram p); ok p

abbrev pub ram_at : ℕ → Option ObjectPair → Result ObjectPair
ram_at page none = fault assertion
ram_at page (some p) = do check (is_ram p && p.address == page); ok p

module _ {S E : Type 0} (k : Klee S E) where
  -- The n bytes of an object state from an offset on.
  unfoldable pub read_bytes : S → ℕ → ℕ → ℕ → List E
  read_bytes s o i zero = []
  read_bytes s o i (suc n) = k.read8 s o i ∷ read_bytes s o (i + 1) n

  unfoldable pub write_bytes : S → ℕ → ℕ → List E → S
  write_bytes s o i [] = s
  write_bytes s o i (b ∷ bs) = write_bytes (k.write8 s o i b) o (i + 1) bs

  unfoldable pub constants : List ℕ → List E
  constants [] = []
  constants (v ∷ vs) = k.byte v ∷ constants vs

  -- The look-up in front of most accesses: the cache, and the address space where it has nothing.
  pub lookup : State S → ℕ → Result (State S × Option ObjectPair)
  lookup st page = do
    op ← pool_get none st.memcache page
    elim op [
      | some p ↦ ok (st, some p)
      | none ↦ do
        c ← pool_put none st.memcache page (k.find_object st.space page)
        ok (record st { memcache = c }, k.find_object st.space page)
    ]

  -- The part of addressSpaceChange() that updates the references to the object.
  pub address_space_move : State S → ObjectPair → Result (State S)
  address_space_move st p =
      if p.address == st.registers.address
      then ok (record st { registers = record st.registers { state = p.state } })
      else if p.address == st.system.address
      then ok (record st { system = record st.system { state = p.state } })
      else (do
        op ← pool_get none st.memcache p.address
        elim op [
          | none ↦ ok st
          | some cached ↦ do
            c ← pool_put none st.memcache p.address (some (record cached { state = p.state }))
            ok (record st { memcache = c })
        ])

  -- `stop` says whether `assert(false && "J stubbed")` stops a run: it does not with NDEBUG.
  module _ (stop : Bool) where
    -- addressSpaceChange(mo, oldState, newState), with an old state
    pub address_space_change : State S → ObjectPair → Result (State S)
    unfolding address_space_move
    address_space_change st p = do
      check (not (stop && p.size == object_size))
      address_space_move st p

    -- addressSpace.getWriteable(mo, os), which calls addressSpaceChange() on the copy it binds
    pub get_writeable : State S → ObjectPair → Result (State S × ℕ)
    unfolding address_space_change
    get_writeable st p = elim (k.own st.space p) [
      | none ↦ ok (st, p.state)
      | some (s, o) ↦ do
        st' ← address_space_change (record st { space = s }) (record p { state = o })
        ok (st', o)
    ]
