-- ===== src/ExecutionState/Registers/System.antt =====
-- The part of CPUArchState that is never symbolic, in an active state and in another one.
use s2e.Common.{
  ℕ, ◌+◌, ◌-◌, ◌%◌, ◌≤◌, ◌≡◌, refl, sym, ap, ◌∙◌, Bool, true, false, ◌&&◌, ◌||◌, List, [], ◌∷◌,
  length, take, length-take, arith, leb, leb→le, ◌==◌, ==_iff, if◌then◌else◌, Bool-cases, inl, inr,
  ◌⊎◌, Result, ok, ok-eq, check, ◌>>◌, subst,
}
use s2e.ExecutionState.Registers.{
  Cpu, bytes_at, put_bytes, min_bytes, masked, read_cpu_state, write_cpu_state,
}
use s2e.ExecutionState.Registers.Bytes.{Apart, bytes_at-put_bytes, put_bytes-Apart}

if-ok : {A : Type 0} (b : Bool) (x y : A) → (if b then ok x else ok y) ≡ ok (if b then x else y)
if-ok true x y = refl
if-ok false x y = refl

masked-masked : (width : ℕ) (bs : List ℕ) → masked width (masked width bs) ≡ masked width bs
masked-masked width [] = refl
masked-masked width (b ∷ bs) = elim (Bool-cases (width == 1)) [
  | inl t ↦
      let twice : b % 2 % 2 ≡ b % 2 = omega arith in
      subst (λ w. masked w (masked w (b ∷ bs)) ≡ masked w (b ∷ bs)) (sym ((==_iff width 1).0 t))
        (ap (λ v. v ∷ []) twice)
  | inr f ↦ let same : masked width (b ∷ bs) ≡ b ∷ bs = rw f refl in ap (masked width) same
]

length-masked :
    (width : ℕ) (bs : List ℕ)
    → length bs ≡ min_bytes width
    → length (masked width bs) ≡ min_bytes width
length-masked width [] h = h
length-masked width (b ∷ bs) h = elim (Bool-cases (width == 1)) [
  | inl t ↦ rw t (omega (arith, (==_iff width 1).0 t))
  | inr f ↦ rw f h
]

width_fits : ℕ → Bool
width_fits width = (width == 1 || width % 8 == 0) && leb width 64

module _ (limit total : ℕ) where
  -- The three assertions of an access.
  asserted : {A : Type 0} → ℕ → ℕ → Result A → Result A
  asserted i width run =
      check (width_fits width)
      >> (check (leb limit i) >> (check (leb (i + min_bytes width) total) >> run))

  Asserted : ℕ → ℕ → Type 0
  Asserted i width =
      (width_fits width ≡ true) × (leb limit i ≡ true) × (leb (i + min_bytes width) total ≡ true)

  asserted-ok :
      {A : Type 0} (i width : ℕ) (run : Result A) → Asserted i width → asserted i width run ≡ run
  unfolding asserted Asserted
  asserted-ok i width run (w, l, t) = rw (w, l, t) refl

  ok-asserted :
      {A : Type 0} (i width : ℕ) (run : Result A) (a : A)
      → asserted i width run ≡ ok a
      → Asserted i width × (run ≡ ok a)
  unfolding asserted Asserted
  ok-asserted i width run a h = elim (Bool-cases (width_fits width)) [
    | inr f ↦ cc (rw f at h)
    | inl w ↦ elim (Bool-cases (leb limit i)) [
      | inr f ↦ cc (rw (w, f) at h)
      | inl l ↦ elim (Bool-cases (leb (i + min_bytes width) total)) [
        | inr f ↦ cc (rw (w, l, f) at h)
        | inl t ↦ ((w, l, t), rw (w, l, t) at h)
      ]
    ]
  ]

  asserted-eq :
      {A : Type 0} (i width : ℕ) (a b : A)
      → (limit ≤ i → a ≡ b)
      → asserted i width (ok a) ≡ asserted i width (ok b)
  unfolding asserted
  asserted-eq i width a b h = elim (Bool-cases (leb limit i)) [
    | inl t ↦ ap (λ v. asserted i width (ok v)) (h (leb→le limit i t))
    | inr f ↦ rw f refl
  ]

module _ {O : Type 0} (limit total : ℕ) where
  -- What an access reads.
  bytes_of : Cpu O → ℕ → ℕ → List ℕ
  bytes_of c i n = if c.active then bytes_at c.memory i n else bytes_at c.system_store (i - limit) n

  read_lem :
      (c : Cpu O) (i width : ℕ)
      → read_cpu_state limit total c i width
        ≡ asserted limit total i width (ok (masked width (bytes_of c i (min_bytes width))))
  unfolding read_cpu_state asserted bytes_of width_fits
  read_lem c i width = refl

  stored : Cpu O → ℕ → List ℕ → Cpu O
  stored c i bytes =
      if c.active
      then record c { memory = put_bytes c.memory i bytes }
      else record c { system_store = put_bytes c.system_store (i - limit) bytes }

  write_lem :
      (c : Cpu O) (i : ℕ) (value : List ℕ) (width : ℕ)
      → write_cpu_state limit total c i value width
        ≡ asserted limit total i width
            (ok (stored c i (masked width (take (min_bytes width) value))))
  unfolding write_cpu_state asserted stored width_fits
  write_lem c i value width = ap (asserted limit total i width) (if-ok c.active _ _)

  -- What a state has after a write.
  abbrev pub Stored : Cpu O → Cpu O → ℕ → List ℕ → ℕ → Type 0
  Stored c c' i value width =
      (read_cpu_state limit total c' i width ≡ ok (masked width (take (min_bytes width) value)))
      × ((j w : ℕ)
          → Apart i (min_bytes width) j (min_bytes w)
          → read_cpu_state limit total c' j w ≡ read_cpu_state limit total c j w)
      × (c'.registers ≡ c.registers)
      × ((c.active ≡ true) × (c'.system_store ≡ c.system_store)
          ⊎ (c.active ≡ false) × (c'.memory ≡ c.memory))

  bytes_of-stored :
      (c : Cpu O) (i : ℕ) (bytes : List ℕ) → bytes_of (stored c i bytes) i (length bytes) ≡ bytes
  unfolding bytes_of stored
  bytes_of-stored c i bytes = elim (Bool-cases c.active) [
    | inl t ↦ rw t (bytes_at-put_bytes c.memory i bytes)
    | inr f ↦ rw f (bytes_at-put_bytes c.system_store (i - limit) bytes)
  ]

  bytes_of-stored-Apart :
      (c : Cpu O) (i : ℕ) (bytes : List ℕ) (j n : ℕ)
      → limit ≤ i
      → limit ≤ j
      → Apart i (length bytes) j n
      → bytes_of (stored c i bytes) j n ≡ bytes_of c j n
  unfolding bytes_of stored
  bytes_of-stored-Apart c i bytes j n li lj out = elim (Bool-cases c.active) [
    | inl t ↦ rw t (put_bytes-Apart c.memory i bytes j n out)
    | inr f ↦ rw f (
        put_bytes-Apart c.system_store (i - limit) bytes (j - limit) n (elim out [
          | inl a ↦ inl (omega (arith, a, li, lj))
          | inr a ↦ inr (omega (arith, a, li, lj))
        ]))
  ]

  stored_rest :
      (c : Cpu O) (i : ℕ) (bytes : List ℕ)
      → ((stored c i bytes).registers ≡ c.registers)
        × ((c.active ≡ true) × ((stored c i bytes).system_store ≡ c.system_store)
            ⊎ (c.active ≡ false) × ((stored c i bytes).memory ≡ c.memory))
  unfolding stored
  stored_rest c i bytes = elim (Bool-cases c.active) [
    | inl t ↦ rw t (refl, inl (refl, refl))
    | inr f ↦ rw f (refl, inr (refl, refl))
  ]

  -- readCpuState() after writeCpuState() of a value of enough bytes, in an active state and in one
  -- that is not: it returns the bytes written, of which a width of one bit keeps the lowest bit; what
  -- does not overlap them and the registers stay; and a state that is not active leaves the CPU alone,
  -- as an active one leaves the copy in the state.
  pub read_cpu_state-write_cpu_state :
      (c : Cpu O) (i : ℕ) (value : List ℕ) (width : ℕ) (c' : Cpu O)
      → write_cpu_state limit total c i value width ≡ ok c'
      → min_bytes width ≤ length value
      → Stored c c' i value width
  unfolding Asserted
  read_cpu_state-write_cpu_state c i value width c' h le =
      let bytes = masked width (take (min_bytes width) value) in
      let len : length bytes ≡ min_bytes width =
        length-masked width (take (min_bytes width) value)
          (length-take (min_bytes width) value le) in
      let (fits, run) =
        ok-asserted limit total i width (ok (stored c i bytes)) c'
          (sym (write_lem c i value width) ∙ h) in
      let d = stored c i bytes in
      subst (λ d. Stored c d i value width) (ok-eq d c' run)
        (
          read_lem d i width
              ∙ asserted-ok limit total i width (ok (masked width (bytes_of d i (min_bytes width))))
                  fits
              ∙ ap (λ n. ok (masked width (bytes_of d i n))) (sym len)
              ∙ ap (λ b. ok (masked width b)) (bytes_of-stored c i bytes)
              ∙ ap ok (masked-masked width (take (min_bytes width) value)),
          λ j w out.
              read_lem d j w
              ∙ asserted-eq limit total j w (masked w (bytes_of d j (min_bytes w)))
                  (masked w (bytes_of c j (min_bytes w)))
                  (λ lj. ap (masked w) (
                    bytes_of-stored-Apart c i bytes j (min_bytes w) (leb→le limit i fits.1) lj
                      (subst (λ l. Apart i l j (min_bytes w)) (sym len) out)))
              ∙ sym (read_lem c j w),
          (stored_rest c i bytes).0,
          (stored_rest c i bytes).1,
        )
