-- ===== src/Synchronization/Tests.antt =====
-- A run of two processes.
use s2e.Common.{ℕ, ◌≡◌, refl}
use s2e.Synchronization.{
  Place, outside, waiting, trying, inside, Shared, move, init, error, interrupted, took,
  acquire_round, try_round, after_acquire, after_try, gets, interrupts, calls_acquire, calls_try,
  acquires, tries, Reachable, start, next,
}
use s2e.Synchronization.Exclusion.{one_inside}

-- Process 4 has called tryAquire() and taken the lock, and process 5 has called acquire(), where
-- sem_wait() was interrupted.
abbrev called : ℕ → Place
called = move 4 trying (λ p. outside)

abbrev both : Shared
both = record { lock = 0; place = move 5 waiting (move 5 waiting (move 4 inside called)) }

both-Reachable : Reachable both
unfolding init try_round after_try acquire_round after_acquire
both-Reachable =
    next
      (next
        (next (next start (calls_try init 4 refl))
          (tries (record { lock = 1; place = called }) 4 0 took refl (gets 0)))
        (calls_acquire (record { lock = 0; place = move 4 inside called }) 5 refl))
      (acquires (record { lock = 0; place = move 5 waiting (move 4 inside called) }) 5 0
        (error interrupted) refl (interrupts 0))

abbrev four : ℕ
four = 4

one_inside_example : (both.place 5 ≡ inside → four ≡ 5) × (both.lock ≡ 0)
one_inside_example = one_inside both 4 5 both-Reachable refl
