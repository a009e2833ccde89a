-- ===== src/Instance/Processes/Invariant.antt =====
-- The invariant of the processes, and the lists of the indices that wait for a slot.
use s2e.Common.{
  ℕ, ◌+◌, ◌≤◌, ◌<◌, ◌≡◌, ◌≢◌, sym, true, List, [], ◌∷◌, ◌++◌, some, arith, length, get_elem?,
  Misses, Distinct,
}
use s2e.Instance.Processes.{free, System}
use s2e.Instance.Processes.Slots.{used, Agree}

-- The indices that wait for a slot are below a number.
abbrev pub Below : ℕ → List ℕ → Type 0
Below n [] = Unit {0}
Below n (x ∷ xs) = (x < n) × Below n xs

pub Below-remove :
    (n x : ℕ) (front back : List ℕ)
    → Below n (front ++ (x ∷ back))
    → Below n (front ++ back) × (x < n)
Below-remove n x [] back b = (b.1, b.0)
Below-remove n x (y ∷ front) back b =
    let (rest, lt) = Below-remove n x front back b.1 in ((b.0, rest), lt)

pub Misses-remove :
    (i x : ℕ) (front back : List ℕ)
    → Misses i (front ++ (x ∷ back))
    → Misses i (front ++ back) × (i ≢ x)
Misses-remove i x [] back m = (m.1, m.0)
Misses-remove i x (y ∷ front) back m =
    let (rest, ne) = Misses-remove i x front back m.1 in ((m.0, rest), ne)

pub Distinct-remove :
    (x : ℕ) (front back : List ℕ)
    → Distinct (front ++ (x ∷ back))
    → Distinct (front ++ back) × Misses x (front ++ back)
Distinct-remove x [] back d = (d.1, d.0)
Distinct-remove x (y ∷ front) back d =
    let (rest, m) = Distinct-remove x front back d.1 in
    let (my, ne) = Misses-remove y x front back d.0 in ((my, rest), ((λ e. ne (sym e)), m))

pub length-remove :
    (x : ℕ) (front back : List ℕ) → length (front ++ (x ∷ back)) ≡ length (front ++ back) + 1
length-remove x [] back = omega arith
length-remove x (y ∷ front) back = omega (arith, length-remove x front back)

pub Below-mono : (m n : ℕ) (xs : List ℕ) → m ≤ n → Below m xs → Below n xs
Below-mono m n [] le b = tt
Below-mono m n (x ∷ xs) le b = (omega (arith, b.0), Below-mono m n xs le b.1)

pub Misses-Below : (n : ℕ) (xs : List ℕ) → Below n xs → Misses n xs
Misses-Below n [] b = tt
Misses-Below n (x ∷ xs) b = ((λ e. omega (arith, e, b.0)), Misses-Below n xs b.1)

-- The number of processes counts the used slots and the children without one, within the limit; each
-- living process has the slot that it knows, with its index and pid; indices are given to one process.
pub record IsSound (max : ℕ) (s : System) : Type 0 where
  pub counted : s.shared.process_count ≡ used s.shared.slots + length s.forking
  pub room : s.shared.process_count ≤ max
  pub width : length s.shared.slots ≡ max
  pub agree : Agree s.shared.slots
  pub small : s.shared.last_file_id ≤ free
  pub waiting : Below s.shared.last_file_id s.forking
  pub apart : Distinct s.forking
  pub placed :
      (pid slot index : ℕ)
      → s.alive pid ≡ true
      → s.place pid ≡ some (slot, index)
      → (get_elem? s.shared.slots slot ≡ some (index, pid))
        × (index < s.shared.last_file_id)
        × Misses index s.forking
  pub indices :
      (p q n m index : ℕ)
      → s.alive p ≡ true
      → s.alive q ≡ true
      → s.place p ≡ some (n, index)
      → s.place q ≡ some (m, index)
      → p ≡ q
