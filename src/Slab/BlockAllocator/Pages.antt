-- ===== src/Slab/BlockAllocator/Pages.antt =====
-- The page lists of a block allocator: distinct entries, and entries that a change of memory at
-- another page leaves alone.
use s2e.Common.{ℕ, ◌+◌, ◌≡◌, ◌≢◌, refl, sym, ap, List, [], ◌∷◌, ◌++◌, arith, ==_refl, ==_ne}
use s2e.Slab.BlockHdr.{BlockHdr}
use s2e.Slab.BlockAllocator.{Memory, write, remove}

abbrev pub AllPages : (ℕ → Type 0) → List ℕ → Type 0
AllPages P [] = Unit {0}
AllPages P (p ∷ ps) = P p × AllPages P ps

abbrev pub Absent : ℕ → List ℕ → Type 0
Absent p [] = Unit {0}
Absent p (q ∷ qs) = (p ≢ q) × Absent p qs

abbrev pub Distinct : List ℕ → Type 0
Distinct [] = Unit {0}
Distinct (p ∷ ps) = Absent p ps × Distinct ps

-- The free blocks of the pages, by their headers' counters.
abbrev pub sum_free : Memory → List ℕ → ℕ
sum_free mem [] = 0
sum_free mem (p ∷ ps) = (mem p).free_count + sum_free mem ps

pub remove-Absent_id : (p : ℕ) (ps : List ℕ) → Absent p ps → remove p ps ≡ ps
unfolding remove
remove-Absent_id p [] a = refl
remove-Absent_id p (q ∷ qs) a = rw (==_ne p q a.0) (ap (λ t. q ∷ t) (remove-Absent_id p qs a.1))

pub remove-head : (p : ℕ) (ps : List ℕ) → remove p (p ∷ ps) ≡ ps
unfolding remove
remove-head p ps = rw (==_refl p)

pub Absent-of : (P : ℕ → Type 0) (p : ℕ) (ps : List ℕ) → (P p → ⊥) → AllPages P ps → Absent p ps
Absent-of P p [] n a = tt
Absent-of P p (q ∷ qs) n a = (λ e. n (rw e a.0), Absent-of P p qs n a.1)

-- A property of the pages that a change at `p` keeps for every other page.
pub AllPages-off :
    (P Q : ℕ → Type 0) (p : ℕ) (ps : List ℕ)
    → ((q : ℕ) → p ≢ q → P q → Q q)
    → Absent p ps
    → AllPages P ps
    → AllPages Q ps
AllPages-off P Q p [] f n a = tt
AllPages-off P Q p (q ∷ qs) f n a = (f q n.0 a.0, AllPages-off P Q p qs f n.1 a.1)

pub AllPages-append :
    (P : ℕ → Type 0) (ps qs : List ℕ) → AllPages P ps → AllPages P qs → AllPages P (ps ++ qs)
AllPages-append P [] qs a b = b
AllPages-append P (p ∷ ps) qs a b = (a.0, AllPages-append P ps qs a.1 b)

pub Distinct-append : (ps : List ℕ) (p : ℕ) → Distinct ps → Absent p ps → Distinct (ps ++ (p ∷ []))
Distinct-append [] p d a = (tt, tt)
Distinct-append (q ∷ qs) p d a =
    (absent qs q p d.0 (λ e. a.0 (sym e)), Distinct-append qs p d.1 a.1)
  where
    absent : (qs : List ℕ) (q p : ℕ) → Absent q qs → q ≢ p → Absent q (qs ++ (p ∷ []))
    absent [] q p a n = (n, tt)
    absent (r ∷ rs) q p a n = (a.0, absent rs q p a.1 n)

pub sum_free-off :
    (mem : Memory) (p : ℕ) (h : BlockHdr) (ps : List ℕ)
    → Absent p ps
    → sum_free (write mem p h) ps ≡ sum_free mem ps
sum_free-off mem p h [] a = refl
sum_free-off mem p h (q ∷ qs) a =
    rw (==_ne p q a.0) (ap (λ t. (mem q).free_count + t) (sum_free-off mem p h qs a.1))

pub sum_free-full :
    (mem : Memory) (n : ℕ) (ps : List ℕ)
    → AllPages (λ p. (mem p).free_count ≡ 0) ps
    → sum_free mem ps ≡ 0
sum_free-full mem n [] a = refl
sum_free-full mem n (p ∷ ps) a = omega (arith, a.0, sum_free-full mem n ps a.1)
