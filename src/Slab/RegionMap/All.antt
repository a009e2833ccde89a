-- ===== src/Slab/RegionMap/All.antt =====
-- A predicate on every region of a container and its value, under the operations of the containers.
use s2e.Common.{
  ℕ, ◌+◌, ◌*◌, ◌^◌, ◌≤◌, ◌≡◌, inr, List, [], ◌∷◌, some, arith, ◌==◌, inl, Bool-cases, ==_iff,
}
use s2e.Slab.RegionMap.{region_size, assign, erase, at_base}
use s2e.Slab.RegionMap.Laws.{Apart, Clear, at_base-bound}

module _ {V : Type 0} where
  abbrev pub All : (ℕ → V → Type 0) → List (ℕ × V) → Type 0
  All P [] = Unit {0}
  All P ((r, v) ∷ m) = P r v × All P m

  pub All-at :
      (P : ℕ → V → Type 0) (r : ℕ) (v : V) (m : List (ℕ × V))
      → All P m
      → at_base r m ≡ some v
      → P r v
  All-at P r v [] a e = cc
  All-at P r v ((s, w) ∷ m) a e = elim (Bool-cases (s == r)) [
    | inl hit ↦
        let same : w ≡ v = ground arith in
        let here : s ≡ r = (==_iff s r).0 hit in rw (← same, ← here) a.0
    | inr miss ↦ All-at P r v m a.1 (rw miss at e)
  ]

  pub All-mono :
      (P Q : ℕ → V → Type 0) (m : List (ℕ × V))
      → ((r : ℕ) (v : V) → P r v → Q r v)
      → All P m
      → All Q m
  All-mono P Q [] f a = tt
  All-mono P Q ((r, v) ∷ m) f a = (f r v a.0, All-mono P Q m f a.1)

  pub All-erase : (P : ℕ → V → Type 0) (key : ℕ) (m : List (ℕ × V)) → All P m → All P (erase key m)
  unfolding erase
  All-erase P key [] a = tt
  All-erase P key ((s, x) ∷ m) a = ground (arith, All-erase P key m a.1)

  pub All-assign_new :
      (P : ℕ → V → Type 0) (lo key : ℕ) (v : V) (m : List (ℕ × V))
      → Apart lo m
      → Clear key m
      → key + 2 * region_size ≤ 2 ^ 64
      → P key v
      → All P m
      → All P (assign key v m)
  unfolding assign
  All-assign_new P lo key v [] d c h p a = (p, tt)
  All-assign_new P lo key v ((s, x) ∷ m) d c h p a =
      ground (arith, All-assign_new P (s + region_size) key v m d.2 c.1 h p a.1)

  pub All-assign_old :
      (P : ℕ → V → Type 0) (lo key : ℕ) (v w : V) (m : List (ℕ × V))
      → Apart lo m
      → at_base key m ≡ some w
      → P key v
      → All P m
      → All P (assign key v m)
  unfolding assign
  All-assign_old P lo key v w [] d e p a = cc
  All-assign_old P lo key v w ((s, x) ∷ m) d e p a = ground (
    arith,
    All-assign_old P (s + region_size) key v w m d.2,
    at_base-bound (s + region_size) key w m d.2,
  )
