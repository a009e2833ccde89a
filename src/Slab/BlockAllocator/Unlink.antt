-- ===== src/Slab/BlockAllocator/Unlink.antt =====
-- A page leaves the middle of a list.
use s2e.Common.{
  ℕ, suc, ◌+◌, ◌≡◌, ◌⊎◌, inl, inr, sym, List, [], ◌∷◌, arith, length, ◌==◌, ==_iff, Bool-cases,
  ne_of_==, subst,
}
use s2e.Slab.BlockAllocator.{Memory, BlockAllocator, remove}
use s2e.Slab.BlockAllocator.Pages.{AllPages, Absent, Distinct, sum_free}

-- The list holds the page.
abbrev pub Holds : ℕ → List ℕ → Type 0
Holds p [] = ⊥
Holds p (q ∷ qs) = (p ≡ q) ⊎ Holds p qs

-- The page is in one of the lists of pages with a block in use.
abbrev pub InUse : ℕ → BlockAllocator → Type 0
InUse p ba = Holds p ba.free_pages ⊎ Holds p ba.busy_pages

module _ (p : ℕ) where
  pub AllPages-Holds : (P : ℕ → Type 0) (ps : List ℕ) → Holds p ps → AllPages P ps → P p
  AllPages-Holds P [] h a = absurd h
  AllPages-Holds P (q ∷ qs) (inl e) a = rw e a.0
  AllPages-Holds P (q ∷ qs) (inr h) a = AllPages-Holds P qs h a.1

  pub Absent-remove : (r : ℕ) (ps : List ℕ) → Absent r ps → Absent r (remove p ps)
  unfolding remove
  Absent-remove r [] a = tt
  Absent-remove r (q ∷ qs) a = ground (arith, Absent-remove r qs a.1)

  pub Distinct-remove : (ps : List ℕ) → Distinct ps → Distinct (remove p ps)
  unfolding remove
  Distinct-remove [] d = tt
  Distinct-remove (q ∷ qs) d = ground (arith, Distinct-remove qs d.1, Absent-remove q qs d.0)

  pub remove-Absent : (ps : List ℕ) → Distinct ps → Absent p (remove p ps)
  unfolding remove
  remove-Absent [] d = tt
  remove-Absent (q ∷ qs) d = elim (Bool-cases (p == q)) [
    | inl here ↦
        let same : p ≡ q = (==_iff p q).0 here in rw here (subst (λ x. Absent x qs) (sym same) d.0)
    | inr other ↦ rw other (ne_of_== p q other, remove-Absent qs d.1)
  ]

  pub AllPages-remove : (P : ℕ → Type 0) (ps : List ℕ) → AllPages P ps → AllPages P (remove p ps)
  unfolding remove
  AllPages-remove P [] a = tt
  AllPages-remove P (q ∷ qs) a = ground (arith, AllPages-remove P qs a.1)

  pub length-remove : (ps : List ℕ) → Holds p ps → length ps ≡ suc (length (remove p ps))
  unfolding remove
  length-remove [] h = absurd h
  length-remove (q ∷ qs) h = ground (arith, length-remove qs)

  pub sum_free-remove :
      (mem : Memory) (ps : List ℕ)
      → Holds p ps
      → sum_free mem ps ≡ (mem p).free_count + sum_free mem (remove p ps)
  unfolding remove
  sum_free-remove mem [] h = absurd h
  sum_free-remove mem (q ∷ qs) h = elim (Bool-cases (p == q)) [
    | inl here ↦ let same : p ≡ q = (==_iff p q).0 here in rw (here, same)
    | inr other ↦ ground (arith, sum_free-remove mem qs)
  ]
