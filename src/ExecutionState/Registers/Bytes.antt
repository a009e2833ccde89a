-- ===== src/ExecutionState/Registers/Bytes.antt =====
-- Runs of bytes in CPUArchState and in the object of the registers.
use s2e.Common.{
  ℕ, zero, suc, ◌+◌, ◌≤◌, ◌<◌, ◌≡◌, refl, sym, ap, ◌∙◌, true, false, List, [], ◌∷◌, some, length,
  arith, ◌==◌, ==_refl, ==_ne, if◌then◌else◌, Bool-cases, Option-cases, some-eq, inl, inr, ◌⊎◌,
}
use s2e.ExecutionState.Registers.{
  Object, bytes_at, put_bytes, constants, constant_bytes, is_concrete, write,
}

-- The places of one run are before or after those of another.
abbrev pub Apart : ℕ → ℕ → ℕ → ℕ → Type 0
Apart i n j m = (j + m ≤ i) ⊎ (i + n ≤ j)

pub bytes_at_eq {ℓ} :
    {A : Type ℓ} (f g : ℕ → A) (i n : ℕ)
    → ((j : ℕ) → i ≤ j → j < i + n → f j ≡ g j)
    → bytes_at f i n ≡ bytes_at g i n
unfolding bytes_at
bytes_at_eq f g i zero h = refl
bytes_at_eq f g i (suc n) h = cc (
  h i (omega arith) (omega arith),
  bytes_at_eq f g (i + 1) n (λ j a b. h j (omega (arith, a)) (omega (arith, b))),
)

-- A byte that is not in the run.
abbrev Outside : ℕ → ℕ → ℕ → Type 0
Outside i n j = (j < i) ⊎ (i + n ≤ j)

pub put_bytes_other :
    (m : ℕ → ℕ) (i : ℕ) (bs : List ℕ) (j : ℕ) → Outside i (length bs) j → put_bytes m i bs j ≡ m j
unfolding put_bytes
put_bytes_other m i [] j o = refl
put_bytes_other m i (b ∷ bs) j o =
    let ne : (i == j) ≡ false =
      ==_ne i j (λ h. elim o [ inl a ↦ omega (arith, h, a) | inr a ↦ omega (arith, h, a) ]) in
    rw ne (
      put_bytes_other m (i + 1) bs j
        (elim o [ inl a ↦ inl (omega (arith, a)) | inr a ↦ inr (omega (arith, a)) ]))

pub bytes_at-put_bytes :
    (m : ℕ → ℕ) (i : ℕ) (bs : List ℕ) → bytes_at (put_bytes m i bs) i (length bs) ≡ bs
unfolding bytes_at put_bytes
bytes_at-put_bytes m i [] = refl
bytes_at-put_bytes m i (b ∷ bs) =
    let later : bytes_at (put_bytes m i (b ∷ bs)) (i + 1) (length bs)
        ≡ bytes_at (put_bytes m (i + 1) bs) (i + 1) (length bs) =
      bytes_at_eq (put_bytes m i (b ∷ bs)) (put_bytes m (i + 1) bs) (i + 1) (length bs)
        (λ j a l. rw (==_ne i j (λ h. omega (arith, h, a))) refl) in
    let now : (if i == i then b else put_bytes m (i + 1) bs i) ≡ b = rw (==_refl i) refl in
    cc (now, later, bytes_at-put_bytes m (i + 1) bs)

pub put_bytes-Apart :
    (m : ℕ → ℕ) (i : ℕ) (bs : List ℕ) (j n : ℕ)
    → Apart i (length bs) j n
    → bytes_at (put_bytes m i bs) j n ≡ bytes_at m j n
put_bytes-Apart m i bs j n o = bytes_at_eq (put_bytes m i bs) m j n (λ x a b.
    put_bytes_other m i bs x
      (elim o [ inl h ↦ inl (omega (arith, a, b, h)) | inr h ↦ inr (omega (arith, a, b, h)) ]))

module _ {O E : Type 0} (k : Object O E) where
  -- What a write does not reach stays.
  pub write_other :
      (o : O) (i : ℕ) (es : List E) (j : ℕ)
      → Outside i (length es) j
      → (k.read8 (write k o i es) j ≡ k.read8 o j)
        × (k.is_concrete8 (write k o i es) j ≡ k.is_concrete8 o j)
  unfolding write
  write_other o i [] j out = (refl, refl)
  write_other o i (e ∷ es) j out =
      let ne : (i == j) ≡ false =
        ==_ne i j (λ h. elim out [ inl a ↦ omega (arith, h, a) | inr a ↦ omega (arith, h, a) ]) in
      let (bytes, marks) =
        write_other (k.write8 o i e) (i + 1) es j
          (elim out [ inl a ↦ inl (omega (arith, a)) | inr a ↦ inr (omega (arith, a)) ]) in
      (
        bytes ∙ k.read8-write8 o i e j ∙ rw ne refl,
        marks ∙ k.is_concrete8-write8 o i e j ∙ rw ne refl,
      )

  -- What it reaches has the bytes of the expression.
  pub bytes_at-write :
      (o : O) (i : ℕ) (es : List E) → bytes_at (k.read8 (write k o i es)) i (length es) ≡ es
  unfolding bytes_at write
  bytes_at-write o i [] = refl
  bytes_at-write o i (e ∷ es) =
      let first : k.read8 (write k (k.write8 o i e) (i + 1) es) i ≡ e =
        (write_other (k.write8 o i e) (i + 1) es i (inl (omega arith))).0
        ∙ k.read8-write8 o i e i
        ∙ rw (==_refl i) refl in
      cc (first, bytes_at-write (k.write8 o i e) (i + 1) es)

  pub write-Apart :
      (o : O) (i : ℕ) (es : List E) (j n : ℕ)
      → Apart i (length es) j n
      → bytes_at (k.read8 (write k o i es)) j n ≡ bytes_at (k.read8 o) j n
  write-Apart o i es j n out = bytes_at_eq (k.read8 (write k o i es)) (k.read8 o) j n (λ x a b.
      (write_other o i es x (elim out [
        | inl h ↦ inl (omega (arith, a, b, h))
        | inr h ↦ inr (omega (arith, a, b, h))
      ])).0)

  pub is_concrete_eq :
      (o o' : O) (i n : ℕ)
      → ((j : ℕ) → i ≤ j → j < i + n → k.is_concrete8 o j ≡ k.is_concrete8 o' j)
      → is_concrete k o i n ≡ is_concrete k o' i n
  unfolding is_concrete
  is_concrete_eq o o' i zero h = refl
  is_concrete_eq o o' i (suc n) h = cc (
    h i (omega arith) (omega arith),
    is_concrete_eq o o' (i + 1) n (λ j a b. h j (omega (arith, a)) (omega (arith, b))),
  )

  -- A run that is concrete has the bytes of the concrete store.
  pub bytes_at_concrete :
      (o : O) (i n : ℕ)
      → is_concrete k o i n ≡ true
      → bytes_at (k.read8 o) i n ≡ constants k (bytes_at (k.concrete_store o) i n)
  unfolding bytes_at is_concrete
  bytes_at_concrete o i zero c = refl
  bytes_at_concrete o i (suc n) c = elim (Bool-cases (k.is_concrete8 o i)) [
    | inl t ↦ cc (k.read8_concrete o i t, bytes_at_concrete o (i + 1) n (rw t at c))
    | inr f ↦ cc (rw f at c)
  ]

  constant_first :
      (e : E) (es : List E) (bs : List ℕ)
      → constant_bytes k (e ∷ es) ≡ some bs
      → (v : ℕ) × (vs : List ℕ) × (k.constant e ≡ some v)
        × (constant_bytes k es ≡ some vs)
        × (v ∷ vs ≡ bs)
  constant_first e es bs h = elim (Option-cases (k.constant e)) [
    | inl n ↦ cc (rw (constant_bytes, n) at h)
    | inr (v, f) ↦ elim (Option-cases (constant_bytes k es)) [
      | inl n ↦ cc (rw (constant_bytes, f, n) at h)
      | inr (vs, g) ↦ (v, vs, f, g, some-eq (v ∷ vs) bs (rw (constant_bytes, f, g) at h))
    ]
  ]

  -- The bytes of a constant make it up.
  pub constants-constant_bytes :
      (es : List E) (bs : List ℕ)
      → constant_bytes k es ≡ some bs
      → (constants k bs ≡ es) × (length bs ≡ length es)
  constants-constant_bytes [] bs h =
      let nil = some-eq [] bs h in (ap (constants k) (sym nil), ap length (sym nil))
  constants-constant_bytes (e ∷ es) bs h =
      let (v, vs, f, g, eq) = constant_first e es bs h in
      let (same, len) = constants-constant_bytes es vs g in
      (
        ap (constants k) (sym eq) ∙ cc (k.byte-constant e v f, same),
        ap length (sym eq) ∙ ap suc len,
      )

  -- A constant makes the run concrete.
  pub is_concrete-write :
      (o : O) (i : ℕ) (es : List E) (bs : List ℕ)
      → constant_bytes k es ≡ some bs
      → is_concrete k (write k o i es) i (length es) ≡ true
  unfolding is_concrete write
  is_concrete-write o i [] bs h = refl
  is_concrete-write o i (e ∷ es) bs h =
      let (v, vs, f, g, eq) = constant_first e es bs h in
      let now : k.is_concrete8 (write k (k.write8 o i e) (i + 1) es) i ≡ true =
        (write_other (k.write8 o i e) (i + 1) es i (inl (omega arith))).1
        ∙ k.is_concrete8-write8 o i e i
        ∙ rw (==_refl i, f) refl in
      rw (now, is_concrete-write (k.write8 o i e) (i + 1) es vs g) refl
