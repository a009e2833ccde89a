-- ===== src/Instance/Processes.antt =====
-- The processes of S2E: S2EShared of include/s2e/S2E.h, which they share behind m_sync, and the parts of
-- S2E::S2E(), ~S2E(), fork(), checkDeadProcesses() and the state numbers in src/s2e/S2E.cpp that work on
-- it. A slot holds processIds[i] and processPids[i]; the slots are the first m_maxProcesses ones, which
-- alone are used. A step is one section between m_sync.acquire() and m_sync.release().
pub mod Slots
pub mod Invariant
pub mod Forking
pub mod Ending
pub mod Safety
mod Tests
use s2e.Common.{
  ℕ, ◌+◌, ◌-◌, ◌^◌, ◌<◌, ◌≡◌, ◌≢◌, Bool, true, false, ◌&&◌, List, [], ◌∷◌, ◌++◌, Option, none, some,
  get_elem?, set, replicate, ltb, leb, ◌==◌, if◌then◌else◌, Result, ok, fault, assertion,
  out_of_bounds, ◌>>=◌, ◌>>◌, check,
}

-- S2E_MAX_PROCESSES
abbrev pub max_processes : ℕ
max_processes = 48

-- (unsigned) -1
abbrev pub free : ℕ
free = 2 ^ 32 - 1

abbrev pub Slots : Type 0
Slots = List (ℕ × ℕ)

pub record Shared : Type 0 where
  pub process_count : ℕ
  pub last_file_id : ℕ
  pub last_state_id : ℕ
  pub slots : Slots

-- S2EShared(), and the part of S2E() that fills it: the process with this pid takes slot 0. A number of
-- processes below 1 or above S2E_MAX_PROCESSES ends the program.
pub init : ℕ → ℕ → Option Shared
init max pid =
    if leb 1 max && leb max max_processes
    then some (record {
      process_count = 1;
      last_file_id = 1;
      last_state_id = 0;
      slots = set (replicate max (free, free)) 0 (0, pid);
    })
    else none

-- The first section of fork(): a place for the child and its index, or -1.
pub reserve : ℕ → Shared → Option (ℕ × Shared)
reserve max sh =
    if sh.process_count == max
    then none
    else some (
      sh.last_file_id,
      record sh { last_file_id = sh.last_file_id + 1; process_count = sh.process_count + 1 },
    )

-- The section of fork() where ::fork() has failed.
pub give_up : Shared → Shared
give_up sh = record sh { process_count = sh.process_count - 1 }

-- The loop of fork() in the child: the first free slot, which the assertion expects to be there.
pub claim : ℕ → ℕ → Slots → Result (ℕ × Slots)
claim index pid [] = fault assertion
claim index pid ((i, p) ∷ slots) =
    let rest = (do (n, slots') ← claim index pid slots; ok (n + 1, (i, p) ∷ slots')) in
    if i == free then ok (0, (index, pid) ∷ slots) else rest

-- The section of ~S2E(): the process of this slot and index is gone.
pub close : ℕ → ℕ → Shared → Result Shared
close slot index sh = elim (get_elem? sh.slots slot) [
  | none ↦ fault out_of_bounds
  | some (i, p) ↦ do
    check (i == index)
    ok (record sh { slots = set sh.slots slot (free, free); process_count = sh.process_count - 1 })
]

-- The loop of checkDeadProcesses(): the slots, and the number of processes that are found dead.
-- `dead` is whether `kill -0` fails for a pid.
pub reap_slots : (ℕ → Bool) → Slots → Slots × ℕ
reap_slots dead [] = ([], 0)
reap_slots dead ((i, p) ∷ slots) =
    let (rest, n) = reap_slots dead slots in
    if p == free
    then ((i, p) ∷ rest, n)
    else if dead p
    then ((free, free) ∷ rest, n + 1)
    else ((i, p) ∷ rest, n)

-- checkDeadProcesses(), with the result: the loop has a variable `ret` of its own, which hides the one that
-- is returned.
pub check_dead : (ℕ → Bool) → Shared → Shared × Bool
unfolding reap_slots
check_dead dead sh =
    let (slots, n) = reap_slots dead sh.slots in
    (record sh { slots = slots; process_count = sh.process_count - n }, false)

-- fetchAndIncrementStateId()
pub fetch_state_id : Shared → ℕ × Shared
fetch_state_id sh = (sh.last_state_id, record sh { last_state_id = sh.last_state_id + 1 })

-- fetchNextStateId(), getCurrentProcessCount() and getProcessIndexForId(id)
pub fetch_next_state_id : Shared → ℕ
fetch_next_state_id sh = sh.last_state_id

pub current_process_count : Shared → ℕ
current_process_count sh = sh.process_count

pub process_index : ℕ → ℕ → Shared → Result ℕ
process_index max id sh = do
  check (ltb id max)
  elim (get_elem? sh.slots id) [ none ↦ fault out_of_bounds | some (i, p) ↦ ok i ]

-- All processes: what they share, the indices of the children that fork() has reserved but that have no
-- slot yet, m_currentProcessId and m_currentProcessIndex of each process by its pid, and whether it lives.
pub record System : Type 0 where
  pub shared : Shared
  pub forking : List ℕ
  pub place : ℕ → Option (ℕ × ℕ)
  pub alive : ℕ → Bool

abbrev pub put {ℓ} : {A : Type ℓ} → ℕ → A → (ℕ → A) → ℕ → A
put p a f q = if p == q then a else f q

-- The steps, for m_maxProcesses. The indices stay below (unsigned) -1, and a new process has a pid that
-- no living process has.
pub data Step (max : ℕ) : System → System → Type 0 where
  forks :
      (s : System) (index : ℕ) (sh : Shared)
      → reserve max s.shared ≡ some (index, sh)
      → index < free
      → Step max s (record s { shared = sh; forking = index ∷ s.forking })
  fails :
      (s : System) (front back : List ℕ) (index : ℕ)
      → s.forking ≡ front ++ (index ∷ back)
      → Step max s (record s { shared = give_up s.shared; forking = front ++ back })
  starts :
      (s : System) (front back : List ℕ) (index pid slot : ℕ) (slots : Slots)
      → s.forking ≡ front ++ (index ∷ back)
      → s.alive pid ≡ false
      → pid < free
      → claim index pid s.shared.slots ≡ ok (slot, slots)
      → Step max s (record s {
        shared = record s.shared { slots = slots };
        forking = front ++ back;
        place = put pid (some (slot, index)) s.place;
        alive = put pid true s.alive;
      })
  ends :
      (s : System) (pid slot index : ℕ) (sh : Shared)
      → s.alive pid ≡ true
      → s.place pid ≡ some (slot, index)
      → close slot index s.shared ≡ ok sh
      → Step max s (record s { shared = sh; alive = put pid false s.alive })
  crashes : (s : System) (pid : ℕ) → Step max s (record s { alive = put pid false s.alive })
  checks :
      (s : System) (dead : ℕ → Bool)
      → ((pid : ℕ) → s.alive pid ≡ true → dead pid ≡ false)
      → Step max s (record s { shared = (check_dead dead s.shared).0 })
  numbers : (s : System) → Step max s (record s { shared = (fetch_state_id s.shared).1 })

-- Any number of steps after S2E() of the first process.
pub data Reachable (max : ℕ) : System → Type 0 where
  start :
      (pid : ℕ) (sh : Shared)
      → pid < free
      → init max pid ≡ some sh
      → Reachable max (record {
        shared = sh;
        forking = [];
        place = put pid (some (0, 0)) (λ q. none);
        alive = put pid true (λ q. false);
      })
  next : {s s' : System} → Reachable max s → Step max s s' → Reachable max s'
