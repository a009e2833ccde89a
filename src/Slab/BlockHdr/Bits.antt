-- ===== src/Slab/BlockHdr/Bits.antt =====
-- The mask of a block header read as one sequence of bits: bit `b` of it is bit `b % 64` of word
-- `b / 64`.
use s2e.Common.{
  ℕ, zero, suc, ◌+◌, ◌*◌, ◌<◌, ◌≡◌, refl, ap, ◌∙◌, sym, Bool, false, List, [], ◌∷◌, ◌++◌, arith,
  length, get_or, set, length-append, length-set,
}
use s2e.Slab.Bitmap.{Word}
use s2e.Slab.BlockHdr.{put_bit}

abbrev pub flat : List Word → List Bool
flat [] = []
flat (w ∷ ws) = w ++ flat ws

-- Every word has 64 bits.
abbrev pub AllWide : List Word → Type 0
AllWide [] = Unit {0}
AllWide (w ∷ ws) = (length w ≡ 64) × AllWide ws

module _ {ℓ} {A : Type ℓ} where
  pub get_or-append_left :
      (xs ys : List A) (i : ℕ) (d : A) → i < length xs → get_or (xs ++ ys) i d ≡ get_or xs i d
  get_or-append_left [] ys i d h = absurd (omega arith)
  get_or-append_left (x ∷ xs) ys zero d h = refl
  get_or-append_left (x ∷ xs) ys (suc i) d h = get_or-append_left xs ys i d (omega arith)

  pub get_or-append_right :
      (xs ys : List A) (i : ℕ) (d : A) → get_or (xs ++ ys) (length xs + i) d ≡ get_or ys i d
  get_or-append_right [] ys i d = ap (λ k. get_or ys k d) (omega arith)
  get_or-append_right (x ∷ xs) ys i d =
      let e : suc (length xs) + i ≡ suc (length xs + i) = omega arith in
      rw e (get_or-append_right xs ys i d)

  pub set-append_left :
      (xs ys : List A) (i : ℕ) (v : A) → i < length xs → set (xs ++ ys) i v ≡ set xs i v ++ ys
  set-append_left [] ys i v h = absurd (omega arith)
  set-append_left (x ∷ xs) ys zero v h = refl
  set-append_left (x ∷ xs) ys (suc i) v h =
      ap (λ t. x ∷ t) (set-append_left xs ys i v (omega arith))

  pub set-append_right :
      (xs ys : List A) (i : ℕ) (v : A) → set (xs ++ ys) (length xs + i) v ≡ xs ++ set ys i v
  set-append_right [] ys i v = ap (λ k. set ys k v) (omega arith)
  set-append_right (x ∷ xs) ys i v =
      let e : suc (length xs) + i ≡ suc (length xs + i) = omega arith in
      rw e (ap (λ t. x ∷ t) (set-append_right xs ys i v))

pub length-flat : (ws : List Word) → AllWide ws → length (flat ws) ≡ length ws * 64
length-flat [] a = refl
length-flat (w ∷ ws) a = omega (arith, length-append w (flat ws), length-flat ws a.1, a.0)

pub get_or-flat :
    (ws : List Word) (d r : ℕ)
    → AllWide ws
    → r < 64
    → get_or (flat ws) (d * 64 + r) false ≡ get_or (get_or ws d []) r false
get_or-flat [] d r a h = refl
get_or-flat (w ∷ ws) zero r a h =
    let e : 0 * 64 + r ≡ r = omega arith in
    rw e (get_or-append_left w (flat ws) r false (omega (arith, a.0)))
get_or-flat (w ∷ ws) (suc d) r a h =
    let e : suc d * 64 + r ≡ length w + (d * 64 + r) = omega (arith, a.0) in
    rw e (get_or-append_right w (flat ws) (d * 64 + r) false ∙ get_or-flat ws d r a.1 h)

pub flat-put_bit :
    (ws : List Word) (d r : ℕ) (x : Bool)
    → AllWide ws
    → r < 64
    → flat (put_bit ws d r x) ≡ set (flat ws) (d * 64 + r) x
flat-put_bit [] d r x a h = refl
flat-put_bit (w ∷ ws) zero r x a h =
    let e : 0 * 64 + r ≡ r = omega arith in
    rw e (sym (set-append_left w (flat ws) r x (omega (arith, a.0))))
flat-put_bit (w ∷ ws) (suc d) r x a h =
    let e : suc d * 64 + r ≡ length w + (d * 64 + r) = omega (arith, a.0) in
    rw e (
      ap (◌++◌ w) (flat-put_bit ws d r x a.1 h) ∙ sym (set-append_right w (flat ws) (d * 64 + r) x))

pub put_bit-AllWide :
    (ws : List Word) (d r : ℕ) (x : Bool) → AllWide ws → AllWide (put_bit ws d r x)
put_bit-AllWide [] d r x a = tt
put_bit-AllWide (w ∷ ws) zero r x a = (length-set w r x ∙ a.0, a.1)
put_bit-AllWide (w ∷ ws) (suc d) r x a = (a.0, put_bit-AllWide ws d r x a.1)
