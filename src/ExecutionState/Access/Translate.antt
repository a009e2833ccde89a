-- ===== src/ExecutionState/Access/Translate.antt =====
-- Translation keeps the place within a page, so that the bytes of a page stay next to each other.
use s2e.Common.{
  ℕ, ◌+◌, ◌-◌, ◌*◌, ◌/◌, ◌%◌, ◌^◌, ◌<◌, ◌≡◌, ◌≢◌, refl, sym, ap, ◌∙◌, Bool, true, false, Option,
  none, some, arith, ok, ok-eq, some-eq, Option-cases, inl, inr, check, ◌>>◌,
}
use s2e.ExecutionState.Memory.{
  page_size, AddressType, virtual_address, physical_address, host_address, Mmu, valid_address,
  get_physical_address, get_host_address,
}

-- No page of host memory is the last one of the address space.
abbrev pub HostBounded : Mmu → Type 0
HostBounded mmu = (x p : ℕ) → mmu.host_page x ≡ some p → p + 1 < 2 ^ 52

valid_lem : (a : ℕ) → a < 2 ^ 64 - 1 → valid_address a ≡ some a
valid_lem a h = ground arith

-- The address of a frame is never -1.
valid_lem_frame : (f : ℕ) → valid_address (f * page_size) ≡ some (f * page_size)
valid_lem_frame f = ground arith

module _ (mmu : Mmu) (active : Bool) (bounded : HostBounded mmu) where
  -- The host address at an offset of a physical page.
  abbrev in_page : ℕ → ℕ → Option ℕ
  in_page page i = elim (mmu.host_page page) [ none ↦ none | some p ↦ some (p * page_size + i) ]

  in_page-valid :
      (page i : ℕ)
      → i < page_size
      → (elim (mmu.host_page page) [ none ↦ none | some p ↦ valid_address (p * page_size + i) ])
        ≡ in_page page i
  in_page-valid page i lt = elim (Option-cases (mmu.host_page page)) [
    | inl e ↦ rw (e, in_page) refl
    | inr (p, e) ↦ rw (e, in_page) (valid_lem (p * page_size + i) (omega (arith, bounded page p e)))
  ]

  physical_lem :
      (a : ℕ)
      → get_host_address mmu active a physical_address
        ≡ ok (in_page (a / page_size) (a % page_size))
  unfolding get_host_address
  physical_lem a = ap ok (in_page-valid (a / page_size) (a % page_size) (omega arith))

  -- The frame of a virtual page, where there is one.
  abbrev in_frame : Option ℕ → ℕ → Option ℕ
  in_frame none i = none
  in_frame (some frame) i = in_page frame i

  -- The physical address of a page's start.
  page_start :
      (a : ℕ)
      → get_physical_address mmu (a / page_size * page_size)
        ≡ (elim (mmu.phys_page (a / page_size)) [ none ↦ none | some f ↦ some (f * page_size) ])
  unfolding get_physical_address
  page_start a =
      let page : a / page_size * page_size / page_size ≡ a / page_size = omega arith in
      elim (Option-cases (mmu.phys_page (a / page_size))) [
        | inl e ↦ rw (page, get_physical_address, e) refl
        | inr (f, e) ↦
            let at : f * page_size + a / page_size * page_size % page_size ≡ f * page_size =
              omega arith in
            rw (page, get_physical_address, e) (ap valid_address at ∙ valid_lem_frame f)
      ]

  virtual_lem :
      (a : ℕ)
      → get_host_address mmu active a virtual_address
        ≡ (check active >> ok (in_frame (mmu.phys_page (a / page_size)) (a % page_size)))
  unfolding get_host_address
  virtual_lem a = elim (Option-cases (mmu.phys_page (a / page_size))) [
    | inl e ↦ rw (page_start a, e) refl
    | inr (f, e) ↦
        let back : f * page_size / page_size ≡ f = omega arith in
        rw (page_start a, e, back)
          (ap (λ o. check active >> ok o) (in_page-valid f (a % page_size) (omega arith)))
  ]

  in_page_next : (page i h : ℕ) → in_page page i ≡ some h → in_page page (i + 1) ≡ some (h + 1)
  in_page_next page i h e = elim (Option-cases (mmu.host_page page)) [
    | inl n ↦ cc (rw (n, in_page) at e)
    | inr (p, n) ↦
        let at : p * page_size + i ≡ h = some-eq (p * page_size + i) h (rw (n, in_page) at e) in
        rw (n, in_page) (ap some (omega (arith, at)))
  ]

  in_page-mod :
      (page i h : ℕ) → i < page_size → in_page page i ≡ some h → (h % page_size ≡ i) × (h < 2 ^ 64)
  in_page-mod page i h lt e = elim (Option-cases (mmu.host_page page)) [
    | inl n ↦ cc (rw (n, in_page) at e)
    | inr (p, n) ↦
        let at : p * page_size + i ≡ h = some-eq (p * page_size + i) h (rw (n, in_page) at e) in
        (omega (arith, at), omega (arith, at, bounded page p n))
  ]

  in_frame_next :
      (o : Option ℕ) (i h : ℕ) → in_frame o i ≡ some h → in_frame o (i + 1) ≡ some (h + 1)
  in_frame_next none i h e = cc
  in_frame_next (some f) i h e = in_page_next f i h e

  in_frame-mod :
      (o : Option ℕ) (i h : ℕ)
      → i < page_size
      → in_frame o i ≡ some h
      → (h % page_size ≡ i) × (h < 2 ^ 64)
  in_frame-mod none i h lt e = cc
  in_frame-mod (some f) i h lt e = in_page-mod f i h lt e

  checked :
      (b : Bool) (o : Option ℕ) (h : ℕ)
      → (check b >> ok o) ≡ ok (some h)
      → (b ≡ true) × (o ≡ some h)
  checked true o h e = (refl, ok-eq o (some h) e)
  checked false o h e = cc

  valid_inv : (a h : ℕ) → valid_address a ≡ some h → (a ≡ h) × (a ≢ 2 ^ 64 - 1)
  valid_inv a h e = ground arith

  host_lem : (a : ℕ) → get_host_address mmu active a host_address ≡ ok (valid_address a)
  unfolding get_host_address
  host_lem a = refl

  -- Where a byte has a host address and is not the last of its page, the next byte has the next one.
  pub get_host_address_next :
      (ty : AddressType) (a h : ℕ)
      → get_host_address mmu active a ty ≡ ok (some h)
      → a % page_size + 1 < page_size
      → a + 1 < 2 ^ 64 - 1
      → get_host_address mmu active (a + 1) ty ≡ ok (some (h + 1))
  get_host_address_next host_address a h e inside low =
      let (at, ne) = valid_inv a h (ok-eq (valid_address a) (some h) (sym (host_lem a) ∙ e)) in
      host_lem (a + 1) ∙ ap ok (valid_lem (a + 1) low ∙ ap (λ n. some (n + 1)) at)
  get_host_address_next physical_address a h e inside low =
      let at =
        ok-eq (in_page (a / page_size) (a % page_size)) (some h) (sym (physical_lem a) ∙ e) in
      let page : (a + 1) / page_size ≡ a / page_size = omega arith in
      let place : (a + 1) % page_size ≡ a % page_size + 1 = omega arith in
      physical_lem (a + 1)
      ∙ rw (page, place) (ap ok (in_page_next (a / page_size) (a % page_size) h at))
  get_host_address_next virtual_address a h e inside low =
      let (on, at) =
        checked active (in_frame (mmu.phys_page (a / page_size)) (a % page_size)) h
          (sym (virtual_lem a) ∙ e) in
      let page : (a + 1) / page_size ≡ a / page_size = omega arith in
      let place : (a + 1) % page_size ≡ a % page_size + 1 = omega arith in
      virtual_lem (a + 1)
      ∙ rw (on, page, place)
          (ap ok (in_frame_next (mmu.phys_page (a / page_size)) (a % page_size) h at))

  -- The host address has the place in its page that the address has.
  pub get_host_address-mod :
      (ty : AddressType) (a h : ℕ)
      → a < 2 ^ 64
      → get_host_address mmu active a ty ≡ ok (some h)
      → (h % page_size ≡ a % page_size) × (h < 2 ^ 64)
  get_host_address-mod host_address a h lt e =
      let (at, ne) = valid_inv a h (ok-eq (valid_address a) (some h) (sym (host_lem a) ∙ e)) in
      (omega (arith, at), omega (arith, at))
  get_host_address-mod physical_address a h lt e =
      in_page-mod (a / page_size) (a % page_size) h (omega arith)
        (ok-eq (in_page (a / page_size) (a % page_size)) (some h) (sym (physical_lem a) ∙ e))
  get_host_address-mod virtual_address a h lt e =
      let (on, at) =
        checked active (in_frame (mmu.phys_page (a / page_size)) (a % page_size)) h
          (sym (virtual_lem a) ∙ e) in
      in_frame-mod (mmu.phys_page (a / page_size)) (a % page_size) h (omega arith) at
