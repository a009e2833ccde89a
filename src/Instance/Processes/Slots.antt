-- ===== src/Instance/Processes/Slots.antt =====
-- The slots: how many are used, and what claim(), close() and checkDeadProcesses() make of them.
use s2e.Common.{
  ℕ, zero, suc, ◌+◌, ◌<◌, ◌≡◌, ◌≢◌, refl, sym, ap, ◌∙◌, Bool, true, false, [], ◌∷◌, some, arith,
  length, get_elem?, set, ◌==◌, ==_iff, ==_ne, if◌then◌else◌, ok, Bool-cases, inl, inr, some-eq,
  get_elem?-set_ne,
}
use s2e.Instance.Processes.{Slots, free, claim, reap_slots}

abbrev pub used : Slots → ℕ
used [] = 0
used ((i, p) ∷ slots) = (if i == free then 0 else 1) + used slots

-- The two arrays agree on which slots are free.
abbrev pub Agree : Slots → Type 0
Agree [] = Unit {0}
Agree ((i, p) ∷ slots) = ((i == free) ≡ (p == free)) × Agree slots

pub record Claimed (index pid : ℕ) (slots : Slots) (n : ℕ) (slots' : Slots) : Type 0 where
  pub more : used slots' ≡ used slots + 1
  pub same_length : length slots' ≡ length slots
  pub here : get_elem? slots' n ≡ some (index, pid)
  pub others :
      (m i p : ℕ) → get_elem? slots m ≡ some (i, p) → i ≢ free → get_elem? slots' m ≡ some (i, p)
  pub agree : Agree slots → Agree slots'

get_elem?_behind :
    (x y : ℕ × ℕ) (slots : Slots) (m i p : ℕ)
    → get_elem? (x ∷ slots) m ≡ some (i, p)
    → (x ≡ (i, p) → ⊥)
    → get_elem? (y ∷ slots) m ≡ some (i, p)
get_elem?_behind x y slots zero i p g ne = absurd (ne (some-eq x (i, p) g))
get_elem?_behind x y slots (suc m) i p g ne = g

get_elem?_under :
    (x : ℕ × ℕ) (slots slots' : Slots) (m i p : ℕ)
    → ((m : ℕ) → get_elem? slots m ≡ some (i, p) → get_elem? slots' m ≡ some (i, p))
    → get_elem? (x ∷ slots) m ≡ some (i, p)
    → get_elem? (x ∷ slots') m ≡ some (i, p)
get_elem?_under x slots slots' zero i p f g = g
get_elem?_under x slots slots' (suc m) i p f g = f m g

pub claim-Claimed :
    (index pid : ℕ) (slots : Slots)
    → index < free
    → pid < free
    → used slots < length slots
    → (n : ℕ) × (slots' : Slots) × (claim index pid slots ≡ ok (n, slots'))
      × Claimed index pid slots n slots'
unfolding claim
claim-Claimed index pid [] a b room = absurd (omega arith)
claim-Claimed index pid ((i, p) ∷ slots) a b room = elim (Bool-cases (i == free)) [
  | inl e ↦ (
    0,
    (index, pid) ∷ slots,
    rw e refl,
    record {
      more = rw (e, ==_ne index free (λ h. omega (arith, h))) (omega arith);
      same_length = refl;
      here = refl;
      others = λ m j q g ne.
          get_elem?_behind (i, p) (index, pid) slots m j q g
            (λ h. ne (sym (ap (λ (t : ℕ × ℕ). t.0) h) ∙ (==_iff i free).0 e));
      agree = λ v. (
        rw (==_ne index free (λ h. omega (arith, h)), ==_ne pid free (λ h. omega (arith, h))) refl,
        v.1,
      );
    },
  )
  | inr e ↦
      let (n, slots', run, c) = claim-Claimed index pid slots a b (ground (arith, e)) in
      (
        n + 1,
        (i, p) ∷ slots',
        rw (e, run) refl,
        record {
          more = omega (arith, c.more);
          same_length = ap suc c.same_length;
          here = ap (get_elem? ((i, p) ∷ slots')) {y = suc n} (omega arith) ∙ c.here;
          others = λ m j q g ne.
              get_elem?_under (i, p) slots slots' m j q (λ m' g'. c.others m' j q g' ne) g;
          agree = λ v. (v.0, c.agree v.1);
        },
      )
]

-- close() of a used slot.
pub used-set :
    (slots : Slots) (n i p : ℕ)
    → get_elem? slots n ≡ some (i, p)
    → i ≢ free
    → used (set slots n (free, free)) + 1 ≡ used slots
used-set [] n i p g ne = cc
used-set ((j, q) ∷ slots) zero i p g ne =
    let same : j ≡ i = ap (λ (t : ℕ × ℕ). t.0) (some-eq (j, q) (i, p) g) in
    rw (==_ne j free (λ h. ne (sym same ∙ h))) (omega arith)
used-set ((j, q) ∷ slots) (suc n) i p g ne = omega (arith, used-set slots n i p g ne)

pub Agree-set : (slots : Slots) (n : ℕ) → Agree slots → Agree (set slots n (free, free))
Agree-set [] n v = tt
Agree-set ((j, q) ∷ slots) zero v = (refl, v.1)
Agree-set ((j, q) ∷ slots) (suc n) v = (v.0, Agree-set slots n v.1)

pub set_others :
    (slots : Slots) (n m i p : ℕ)
    → get_elem? slots m ≡ some (i, p)
    → n ≢ m
    → get_elem? (set slots n (free, free)) m ≡ some (i, p)
set_others slots n m i p g ne = get_elem?-set_ne slots n m (free, free) ne ∙ g

-- checkDeadProcesses() frees the slots of dead processes and no others, and counts them.
pub record Reaped (dead : ℕ → Bool) (slots slots' : Slots) (n : ℕ) : Type 0 where
  pub counted : used slots' + n ≡ used slots
  pub same_length : length slots' ≡ length slots
  pub agree : Agree slots'
  pub others :
      (m i p : ℕ)
      → get_elem? slots m ≡ some (i, p)
      → dead p ≡ false
      → get_elem? slots' m ≡ some (i, p)

reaped_head :
    (i p m j q : ℕ) (rest rest' : Slots) (dead : ℕ → Bool)
    → dead p ≡ true
    → dead q ≡ false
    → ((m : ℕ) → get_elem? rest m ≡ some (j, q) → get_elem? rest' m ≡ some (j, q))
    → get_elem? ((i, p) ∷ rest) m ≡ some (j, q)
    → get_elem? ((free, free) ∷ rest') m ≡ some (j, q)
reaped_head i p zero j q rest rest' dead d f h g =
    let same : p ≡ q = ap (λ (t : ℕ × ℕ). t.1) (some-eq (i, p) (j, q) g) in cc (ap dead same, d, f)
reaped_head i p (suc m) j q rest rest' dead d f h g = h m g

pub reap_slots-Reaped :
    (dead : ℕ → Bool) (slots : Slots)
    → Agree slots
    → (slots' : Slots) × (n : ℕ) × (reap_slots dead slots ≡ (slots', n))
      × Reaped dead slots slots' n
unfolding reap_slots
reap_slots-Reaped dead [] v = (
  [],
  0,
  refl,
  record { counted = omega arith; same_length = refl; agree = tt; others = λ m i p g f. g },
)
reap_slots-Reaped dead ((i, p) ∷ slots) v =
    let (slots', n, run, r) = reap_slots-Reaped dead slots v.1 in
    let kept : Reaped dead ((i, p) ∷ slots) ((i, p) ∷ slots') n = record {
      counted = omega (arith, r.counted);
      same_length = ap suc r.same_length;
      agree = (v.0, r.agree);
      others =
          λ m j q g f. get_elem?_under (i, p) slots slots' m j q (λ m' g'. r.others m' j q g' f) g;
    } in
    elim (Bool-cases (p == free)) [
      | inl e ↦ ((i, p) ∷ slots', n, rw (e, run) refl, kept)
      | inr e ↦ elim (Bool-cases (dead p)) [
        | inl d ↦ (
          (free, free) ∷ slots',
          n + 1,
          rw (e, d, run) refl,
          record {
            counted = rw (v.0, e) (omega (arith, r.counted));
            same_length = ap suc r.same_length;
            agree = (refl, r.agree);
            others = λ m j q g f.
                reaped_head i p m j q slots slots' dead d f (λ m' g'. r.others m' j q g' f) g;
          },
        )
        | inr d ↦ ((i, p) ∷ slots', n, rw (e, d, run) refl, kept)
      ]
    ]
