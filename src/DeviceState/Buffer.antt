-- ===== src/DeviceState/Buffer.antt =====
-- Pieces of the snapshot's bytes.
use s2e.Common.{
  append-nil, ℕ, zero, suc, ◌+◌, ◌-◌, ◌≤◌, ◌≡◌, refl, sym, ap, ◌∙◌, List, [], ◌∷◌, ◌++◌, arith,
  length, take, drop, replicate, length-append, ok, le→leb,
}
use s2e.DeviceState.{write_at}

-- The buffers one after the other, and the calls that write them so.
abbrev pub joined : List (List ℕ) → List ℕ
joined [] = []
joined (buf ∷ bufs) = buf ++ joined bufs

abbrev pub calls_from : ℕ → List (List ℕ) → List (ℕ × List ℕ)
calls_from pos [] = []
calls_from pos (buf ∷ bufs) = (pos, buf) ∷ calls_from (pos + length buf) bufs

module _ {ℓ} {A : Type ℓ} where
  pub take-append : (xs ys : List A) → take (length xs) (xs ++ ys) ≡ xs
  take-append [] ys = refl
  take-append (x ∷ xs) ys = ap (λ t. x ∷ t) (take-append xs ys)

  pub drop-append : (xs ys : List A) (n : ℕ) → drop (length xs + n) (xs ++ ys) ≡ drop n ys
  drop-append [] ys n = ap (λ k. drop k ys) (omega arith)
  drop-append (x ∷ xs) ys n =
      let e : suc (length xs) + n ≡ suc (length xs + n) = omega arith in rw e (drop-append xs ys n)

  pub drop_exact : (xs ys : List A) → drop (length xs) (xs ++ ys) ≡ ys
  drop_exact [] ys = refl
  drop_exact (x ∷ xs) ys = drop_exact xs ys

  pub take-length : (xs : List A) → take (length xs) xs ≡ xs
  take-length xs = ap (take (length xs)) (sym (append-nil xs)) ∙ take-append xs []

  pub drop-length : (xs : List A) → drop (length xs) xs ≡ []
  drop-length [] = refl
  drop-length (x ∷ xs) = drop-length xs

  drop_nil : (n : ℕ) → drop {A = A} n [] ≡ []
  drop_nil zero = refl
  drop_nil (suc n) = refl

  take_nil : (n : ℕ) → take {A = A} n [] ≡ []
  take_nil zero = refl
  take_nil (suc n) = refl

  pub take_all : (xs : List A) (n : ℕ) → take (length xs + n) xs ≡ xs
  take_all [] n = take_nil (length {A = A} [] + n)
  take_all (x ∷ xs) n =
      let e : suc (length xs) + n ≡ suc (length xs + n) = omega arith in
      rw e (ap (λ t. x ∷ t) (take_all xs n))

  pub take-split : (m n : ℕ) (xs : List A) → take (m + n) xs ≡ take m xs ++ take n (drop m xs)
  take-split zero n xs = ap (λ k. take k xs) {x = zero + n} {y = n} (omega arith)
  take-split (suc m) n [] = take_nil (suc m + n) ∙ sym (take_nil n)
  take-split (suc m) n (x ∷ xs) =
      let e : suc m + n ≡ suc (m + n) = omega arith in rw e (ap (λ t. x ∷ t) (take-split m n xs))

  pub drop-replicate : (n : ℕ) (a : A) → drop n (replicate n a) ≡ []
  drop-replicate zero a = refl
  drop-replicate (suc n) a = drop-replicate n a

  pub drop-drop : (m n : ℕ) (xs : List A) → drop n (drop m xs) ≡ drop (m + n) xs
  drop-drop zero n xs = ap (λ k. drop k xs) {y = zero + n} (omega arith)
  drop-drop (suc m) n [] = drop_nil n ∙ sym (drop_nil (suc m + n))
  drop-drop (suc m) n (x ∷ xs) =
      let e : suc m + n ≡ suc (m + n) = omega arith in rw e (drop-drop m n xs)

  pub length-drop : (n : ℕ) (xs : List A) → length (drop n xs) ≡ length xs - n
  length-drop zero xs = omega arith
  length-drop (suc n) [] = omega arith
  length-drop (suc n) (x ∷ xs) = omega (arith, length-drop n xs)

pub write_at-append :
    (front back buf : List ℕ)
    → length buf ≤ length back
    → write_at (front ++ back) (length front) buf ≡ ok (front ++ (buf ++ drop (length buf) back))
unfolding write_at
write_at-append front back buf h = rw (
  le→leb (length front + length buf) (length (front ++ back))
      (omega (arith, length-append front back)),
  take-append front back,
  drop-append front back (length buf),
)
