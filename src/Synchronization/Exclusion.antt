-- ===== src/Synchronization/Exclusion.antt =====
-- At most one process is inside.
use s2e.Common.{
  subst, ◌⊎◌, ℕ, suc, ◌+◌, ◌≡◌, ◌≢◌, refl, sym, ap, ◌∙◌, arith, ◌==◌, ==_iff, ==_refl, ==_ne,
  ne_of_==, Bool-cases, inl, inr,
}
use s2e.Synchronization.{
  Place, outside, waiting, trying, inside, Shared, move, init, Attempt, took, error, interrupted,
  would_block, invalid, acquire_round, try_round, after_acquire, after_try, Answer, gets, refuses,
  interrupts, rejects, Step, calls_acquire, calls_try, acquires, tries, release, Reachable, start,
  next,
}

-- The semaphore is 1 and no process is inside, or it is 0 and exactly one process is.
pub data IsSound (s : Shared) : Type 0 where
  free : s.lock ≡ 1 → ((p : ℕ) → s.place p ≢ inside) → IsSound s
  held :
      (p : ℕ) → s.lock ≡ 0 → s.place p ≡ inside → ((q : ℕ) → s.place q ≡ inside → p ≡ q) → IsSound s

-- A process that goes to a place is inside only if the place is, and the others stay where they are.
module _ (p : ℕ) (at : Place) (place : ℕ → Place) where
  move_self : move p at place p ≡ at
  move_self = rw (==_refl p)

  move-ne : (q : ℕ) → p ≢ q → move p at place q ≡ place q
  move-ne q ne = rw (==_ne p q ne)

  inside-move : at ≢ inside → (q : ℕ) → move p at place q ≡ inside → (p ≢ q) × (place q ≡ inside)
  inside-move there q e = elim (Bool-cases (p == q)) [
    | inl same ↦ absurd (there (rw same at e))
    | inr other ↦ (ne_of_== p q other, rw other at e)
  ]

-- A process outside the lock goes to another place outside it.
move_other :
    (s : Shared) (p : ℕ) (at : Place)
    → s.place p ≢ inside
    → at ≢ inside
    → IsSound s
    → IsSound (record s { place = move p at s.place })
move_other s p at here there (free l none_in) =
    free l (λ q e. none_in q (inside-move p at s.place there q e).1)
move_other s p at here there (held q l is only) =
    held q l (move-ne p at s.place q (λ e. here (ap s.place e ∙ is)) ∙ is)
      (λ r e. only r (inside-move p at s.place there r e).1)

-- A process goes inside, where the semaphore is not 0.
goes_in :
    (s : Shared) (p n : ℕ)
    → s.lock ≡ suc n
    → IsSound s
    → IsSound (record { lock = n; place = move p inside s.place })
goes_in s p n e (held q l is only) = absurd (omega arith)
goes_in s p n e (free l none_in) = held p (omega arith) (move_self p inside s.place) only
  where
    only : (q : ℕ) → move p inside s.place q ≡ inside → p ≡ q
    only q f = elim (Bool-cases (p == q)) [
      | inl same ↦ (==_iff p q).0 same
      | inr other ↦ absurd (none_in q (rw other at f))
    ]

-- The process inside leaves.
goes_out :
    (s : Shared) (p : ℕ)
    → s.place p ≡ inside
    → IsSound s
    → IsSound (record { lock = s.lock + 1; place = move p outside s.place })
goes_out s p is (free l none_in) = absurd (none_in p is)
goes_out s p is (held q l q_is only) = free (omega arith) (λ r e.
    let (ne, still) = inside-move p outside s.place (λ f. cc f) r e in
    ne (sym (only p is) ∙ only r still))

-- What an answer says of the semaphore.
Answer-cases :
    {l n : ℕ} {a : Attempt} → Answer l a n → ((a ≡ took) × (l ≡ suc n)) ⊎ ((a ≢ took) × (n ≡ l))
Answer-cases (gets n) = inl (refl, refl)
Answer-cases refuses = inr ((λ e. cc e), refl)
Answer-cases (interrupts n) = inr ((λ e. cc e), refl)
Answer-cases (rejects n) = inr ((λ e. cc e), refl)

-- A round gets inside only with the semaphore.
acquire_inside : (a : Attempt) → after_acquire (acquire_round a) ≡ inside → a ≡ took
unfolding after_acquire acquire_round
acquire_inside took e = refl
acquire_inside (error interrupted) e = cc e
acquire_inside (error would_block) e = cc e
acquire_inside (error invalid) e = cc e

try_inside : (a : Attempt) → after_try (try_round a) ≡ inside → a ≡ took
unfolding after_try try_round
try_inside took e = refl
try_inside (error interrupted) e = cc e
try_inside (error would_block) e = cc e
try_inside (error invalid) e = cc e

acquire_took : after_acquire (acquire_round took) ≡ inside
unfolding after_acquire acquire_round
acquire_took = refl

try_took : after_try (try_round took) ≡ inside
unfolding after_try try_round
try_took = refl

-- A round of a process that is not inside, which goes to a place that depends on the answer.
round-IsSound :
    (s : Shared) (p n : ℕ) (a : Attempt) (to : Attempt → Place)
    → s.place p ≢ inside
    → Answer s.lock a n
    → to took ≡ inside
    → (to a ≡ inside → a ≡ took)
    → IsSound s
    → IsSound (record { lock = n; place = move p (to a) s.place })
round-IsSound s p n a to here ans goes only v = elim (Answer-cases ans) [
  | inl (is, l) ↦
      subst (λ at. IsSound (record { lock = n; place = move p at s.place })) (sym (ap to is ∙ goes))
        (goes_in s p n l v)
  | inr (ne, l) ↦
      subst (λ m. IsSound (record { lock = m; place = move p (to a) s.place })) (sym l)
        (move_other s p (to a) here (λ e. ne (only e)) v)
]

step-IsSound : {s s' : Shared} → Step s s' → IsSound s → IsSound s'
step-IsSound (calls_acquire s p at) v = move_other s p waiting (λ e. cc (sym at ∙ e)) (λ f. cc f) v
step-IsSound (calls_try s p at) v = move_other s p trying (λ e. cc (sym at ∙ e)) (λ f. cc f) v
step-IsSound (acquires s p n a at ans) v =
    round-IsSound s p n a (λ a. after_acquire (acquire_round a)) (λ e. cc (sym at ∙ e)) ans
      acquire_took (acquire_inside a) v
step-IsSound (tries s p n a at ans) v =
    round-IsSound s p n a (λ a. after_try (try_round a)) (λ e. cc (sym at ∙ e)) ans try_took
      (try_inside a) v
step-IsSound (release s p at) v = goes_out s p at v

reachable-IsSound : {s : Shared} → Reachable s → IsSound s
unfolding init
reachable-IsSound start = free refl (λ p e. cc e)
reachable-IsSound (next before st) = step-IsSound st (reachable-IsSound before)

-- After any rounds of acquire() and tryAquire(), with interruptions and tries that fail among them, and
-- any releases by the process that holds the lock: of two processes that
-- have the buffer from acquire() or tryAquire() and did not release() it, one is the other, and as
-- long as there is such a process the semaphore is 0.
pub one_inside :
    (s : Shared) (p q : ℕ)
    → Reachable s
    → s.place p ≡ inside
    → ((s.place q ≡ inside → p ≡ q) × (s.lock ≡ 0))
one_inside s p q reach is = elim (reachable-IsSound reach) [
  | free l none_in ↦ absurd (none_in p is)
  | held r l r_is only ↦ ((λ e. sym (only p is) ∙ only q e), l)
]
