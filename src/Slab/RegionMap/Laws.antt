-- ===== src/Slab/RegionMap/Laws.antt =====
-- The containers of regions that do not overlap: `RegCmp` orders these strictly, and each
-- operation acts on the one region that it names.
use s2e.Common.{
  ℕ, ◌+◌, ◌*◌, ◌^◌, ◌≤◌, ◌<◌, ◌≡◌, refl, ◌⊎◌, inr, List, [], ◌∷◌, none, some, arith, ◌==◌,
  if◌then◌else◌,
}
use s2e.Slab.RegionMap.{region_size, find, assign, erase, at_base}

-- Two regions do not overlap.
abbrev pub Beside : ℕ → ℕ → Type 0
Beside a b = (a + region_size ≤ b) ⊎ (b + region_size ≤ a)

pub Beside-symm : (a b : ℕ) → Beside a b → Beside b a
Beside-symm a b h = ground arith

module _ {V : Type 0} where
  -- The regions lie from `lo` on, one after the other, and `RegCmp` does not wrap within them.
  abbrev pub Apart : ℕ → List (ℕ × V) → Type 0
  Apart lo [] = Unit {0}
  Apart lo ((r, v) ∷ m) = (lo ≤ r) × (r + 2 * region_size ≤ 2 ^ 64) × Apart (r + region_size) m

  -- No region of the container overlaps the one at `key`.
  abbrev pub Clear : ℕ → List (ℕ × V) → Type 0
  Clear key [] = Unit {0}
  Clear key ((r, v) ∷ m) = Beside r key × Clear key m

  pub Apart-mono : (lo hi : ℕ) (m : List (ℕ × V)) → lo ≤ hi → Apart hi m → Apart lo m
  Apart-mono lo hi [] h a = tt
  Apart-mono lo hi ((r, v) ∷ m) h a = (omega arith, a.1, a.2)

  pub Apart-Clear :
      (lo key : ℕ) (m : List (ℕ × V)) → key + region_size ≤ lo → Apart lo m → Clear key m
  Apart-Clear lo key [] h a = tt
  Apart-Clear lo key ((r, v) ∷ m) h a =
      (inr (omega arith), Apart-Clear (r + region_size) key m (omega arith) a.2)

  pub at_base-bound :
      (lo r : ℕ) (v : V) (m : List (ℕ × V))
      → Apart lo m
      → at_base r m ≡ some v
      → (lo ≤ r) × (r + 2 * region_size ≤ 2 ^ 64)
  at_base-bound lo r v [] a e = cc
  at_base-bound lo r v ((s, w) ∷ m) a e = ground (arith, at_base-bound (s + region_size) r v m a.2)

  pub at_base_of_Clear :
      (key r : ℕ) (v : V) (m : List (ℕ × V)) → Clear key m → at_base r m ≡ some v → Beside r key
  at_base_of_Clear key r v [] c e = cc
  at_base_of_Clear key r v ((s, w) ∷ m) c e = ground (arith, at_base_of_Clear key r v m c.1)

  pub at_base-Clear : (key : ℕ) (m : List (ℕ × V)) → Clear key m → at_base key m ≡ none
  at_base-Clear key [] c = refl
  at_base-Clear key ((s, w) ∷ m) c = ground (arith, at_base-Clear key m c.1)

  -- A key within a region of the container finds that region.
  pub find_within :
      (lo k r : ℕ) (v : V) (m : List (ℕ × V))
      → Apart lo m
      → at_base r m ≡ some v
      → r ≤ k
      → k < r + region_size
      → find k m ≡ some (r, v)
  unfolding find
  find_within lo k r v [] a e p q = cc
  find_within lo k r v ((s, w) ∷ m) a e p q =
      ground (
        arith,
        find_within (s + region_size) k r v m a.2,
        at_base-bound (s + region_size) r v m a.2,
      )

  -- A key that lies a region's size from every region finds none.
  pub find-Clear :
      (lo k : ℕ) (m : List (ℕ × V))
      → Apart lo m
      → k + region_size < 2 ^ 64
      → Clear k m
      → find k m ≡ none
  unfolding find
  find-Clear lo k [] a h c = refl
  find-Clear lo k ((s, w) ∷ m) a h c = ground (arith, find-Clear (s + region_size) k m a.2 h c.1)

  -- A key inside a region that the container lacks finds the region right above it.
  pub find_neighbour :
      (lo k b : ℕ) (v : V) (m : List (ℕ × V))
      → Apart lo m
      → Clear b m
      → b < k
      → k < b + region_size
      → at_base (b + region_size) m ≡ some v
      → find k m ≡ some (b + region_size, v)
  unfolding find
  find_neighbour lo k b v [] a c p q e = cc
  find_neighbour lo k b v ((s, w) ∷ m) a c p q e = ground (
    arith,
    find_neighbour (s + region_size) k b v m a.2 c.1 p q,
    at_base-bound (s + region_size) (b + region_size) v m a.2,
  )

  pub at_base-assign_new :
      (lo key q : ℕ) (v : V) (m : List (ℕ × V))
      → Apart lo m
      → Clear key m
      → key + 2 * region_size ≤ 2 ^ 64
      → at_base q (assign key v m) ≡ (if key == q then some v else at_base q m)
  unfolding assign
  at_base-assign_new lo key q v [] a c h = refl
  at_base-assign_new lo key q v ((s, w) ∷ m) a c h =
      ground (arith, at_base-assign_new (s + region_size) key q v m a.2 c.1 h)

  pub at_base-assign_old :
      (lo key q : ℕ) (v w : V) (m : List (ℕ × V))
      → Apart lo m
      → at_base key m ≡ some w
      → at_base q (assign key v m) ≡ (if key == q then some v else at_base q m)
  unfolding assign
  at_base-assign_old lo key q v w [] a e = cc
  at_base-assign_old lo key q v w ((s, x) ∷ m) a e = ground (
    arith,
    at_base-assign_old (s + region_size) key q v w m a.2,
    at_base-bound (s + region_size) key w m a.2,
  )

  pub at_base-erase :
      (lo key q : ℕ) (w : V) (m : List (ℕ × V))
      → Apart lo m
      → at_base key m ≡ some w
      → at_base q (erase key m) ≡ (if key == q then none else at_base q m)
  unfolding erase
  at_base-erase lo key q w [] a e = cc
  at_base-erase lo key q w ((s, x) ∷ m) a e = ground (
    arith,
    at_base-erase (s + region_size) key q w m a.2,
    at_base-bound (s + region_size) key w m a.2,
    at_base-Clear s m (Apart-Clear (s + region_size) s m (omega arith) a.2),
  )

  pub assign-Apart_new :
      (lo key : ℕ) (v : V) (m : List (ℕ × V))
      → Apart lo m
      → Clear key m
      → lo ≤ key
      → key + 2 * region_size ≤ 2 ^ 64
      → Apart lo (assign key v m)
  unfolding assign
  assign-Apart_new lo key v [] a c l h = omega arith
  assign-Apart_new lo key v ((s, w) ∷ m) a c l h =
      ground (arith, assign-Apart_new (s + region_size) key v m a.2 c.1)

  pub assign-Apart_old :
      (lo key : ℕ) (v w : V) (m : List (ℕ × V))
      → Apart lo m
      → at_base key m ≡ some w
      → Apart lo (assign key v m)
  unfolding assign
  assign-Apart_old lo key v w [] a e = cc
  assign-Apart_old lo key v w ((s, x) ∷ m) a e = ground (
    arith,
    assign-Apart_old (s + region_size) key v w m a.2,
    at_base-bound (s + region_size) key w m a.2,
  )

  pub erase-Apart : (lo key : ℕ) (m : List (ℕ × V)) → Apart lo m → Apart lo (erase key m)
  unfolding erase
  erase-Apart lo key [] a = tt
  erase-Apart lo key ((s, x) ∷ m) a = ground (
    arith,
    erase-Apart (s + region_size) key m a.2,
    Apart-mono lo (s + region_size) m (omega arith) a.2,
  )

  pub assign-Clear :
      (k key : ℕ) (v : V) (m : List (ℕ × V)) → Clear k m → Beside key k → Clear k (assign key v m)
  unfolding assign
  assign-Clear k key v [] c b = (b, tt)
  assign-Clear k key v ((s, x) ∷ m) c b = ground (arith, assign-Clear k key v m c.1 b)

  pub erase-Clear : (k key : ℕ) (m : List (ℕ × V)) → Clear k m → Clear k (erase key m)
  unfolding erase
  erase-Clear k key [] c = tt
  erase-Clear k key ((s, x) ∷ m) c = ground (arith, erase-Clear k key m c.1)

  pub erase-head :
      (lo r : ℕ) (v : V) (m : List (ℕ × V)) → Apart lo ((r, v) ∷ m) → erase r ((r, v) ∷ m) ≡ m
  unfolding erase
  erase-head lo r v m a = ground arith

  pub assign-nil : (key : ℕ) (v : V) → assign key v [] ≡ (key, v) ∷ []
  unfolding assign
  assign-nil key v = refl

  -- Without the region at `key` the others lie beside it.
  pub erase-Clear_self :
      (lo key : ℕ) (w : V) (m : List (ℕ × V))
      → Apart lo m
      → at_base key m ≡ some w
      → Clear key (erase key m)
  unfolding erase
  erase-Clear_self lo key w [] a e = cc
  erase-Clear_self lo key w ((s, x) ∷ m) a e = ground (
    arith,
    erase-Clear_self (s + region_size) key w m a.2,
    at_base-bound (s + region_size) key w m a.2,
    Apart-Clear (s + region_size) key m,
  )
