-- ===== src/Synchronization.antt =====
-- S2ESynchronizedObjectInternal and AtomicFunctions of include/s2e/Synchronization.h and
-- src/s2e/Synchronization.cpp, in the part for POSIX semaphores: processes that share a buffer behind
-- a semaphore with the value 1. One step is one round of the loops around
-- sem_wait() and sem_trywait(), or a sem_post() that succeeds.
pub mod Exclusion
mod Tests
use s2e.Common.{
  ℕ, zero, suc, ◌+◌, ◌-◌, ◌%◌, ◌^◌, ◌≡◌, Bool, true, false, Option, none, some, ◌==◌, if◌then◌else◌,
  List, [], ◌∷◌, assertion, Result, ok, fault,
}

-- Where a process is: at nothing with the lock, in the loop of acquire() or of tryAquire(), at its work
-- under the lock, or stopped by an assertion.
pub data Place : Type 0 where
  outside waiting trying inside stopped : Place

pub record Shared : Type 0 where
  pub lock : ℕ
  pub place : ℕ → Place

abbrev pub move : ℕ → Place → (ℕ → Place) → ℕ → Place
move p at place q = if p == q then at else place q

-- The constructor: sem_init() with the value 1; no process uses the object.
pub init : Shared
init = record { lock = 1; place = λ p. outside }

-- The errors of the calls: EINTR, EAGAIN, and those that acquire() asserts not to meet.
pub data Errno : Type 0 where
  interrupted would_block invalid : Errno

-- What one call of sem_wait() comes to: it took the semaphore, or an error.
pub data Attempt : Type 0 where
  took : Attempt
  error : Errno → Attempt

-- One round of acquire()'s loop: whether the loop is over.
pub acquire_round : Attempt → Result Bool
acquire_round took = ok true
acquire_round (error interrupted) = ok false
acquire_round (error would_block) = ok false
acquire_round (error invalid) = fault assertion

-- One round of tryAquire()'s loop: over with the buffer, over with NULL, or once more.
pub try_round : Attempt → Option Bool
try_round took = some true
try_round (error would_block) = some false
try_round (error interrupted) = none
try_round (error invalid) = none

-- Where a round leaves the process.
pub after_acquire : Result Bool → Place
after_acquire (ok true) = inside
after_acquire (ok false) = waiting
after_acquire (fault _) = stopped

pub after_try : Option Bool → Place
after_try (some true) = inside
after_try (some false) = outside
after_try none = trying

-- The answers of sem_wait() and sem_trywait(), with the semaphore before and after: it is taken only where
-- it is not 0, would_block is for 0, and an error leaves it alone.
pub data Answer : ℕ → Attempt → ℕ → Type 0 where
  gets : (n : ℕ) → Answer (suc n) took n
  refuses : Answer 0 (error would_block) 0
  interrupts : (n : ℕ) → Answer n (error interrupted) n
  rejects : (n : ℕ) → Answer n (error invalid) n

-- The steps of the processes.
pub data Step : Shared → Shared → Type 0 where
  -- A process calls acquire() or tryAquire().
  calls_acquire :
      (s : Shared) (p : ℕ)
      → s.place p ≡ outside
      → Step s (record s { place = move p waiting s.place })
  calls_try :
      (s : Shared) (p : ℕ)
      → s.place p ≡ outside
      → Step s (record s { place = move p trying s.place })
  -- One round of acquire(), and one of tryAquire().
  acquires :
      (s : Shared) (p n : ℕ) (a : Attempt)
      → s.place p ≡ waiting
      → Answer s.lock a n
      → Step s (record { lock = n; place = move p (after_acquire (acquire_round a)) s.place })
  tries :
      (s : Shared) (p n : ℕ) (a : Attempt)
      → s.place p ≡ trying
      → Answer s.lock a n
      → Step s (record { lock = n; place = move p (after_try (try_round a)) s.place })
  -- The process that holds the lock calls release().
  release :
      (s : Shared) (p : ℕ)
      → s.place p ≡ inside
      → Step s (record { lock = s.lock + 1; place = move p outside s.place })

-- Any number of steps from the initial state.
pub data Reachable : Shared → Type 0 where
  start : Reachable init
  next : {s s' : Shared} → Reachable s → Step s s' → Reachable s'
