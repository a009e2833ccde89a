-- ===== src/Instance/Processes/Tests.antt =====
-- Runs of three processes.
use s2e.Common.{
  ℕ, ◌+◌, ◌≤◌, ◌≡◌, ◌≢◌, refl, arith, true, false, [], ◌∷◌, none, some, length, ok, fault,
  assertion, if◌then◌else◌, ◌==◌,
}
use s2e.Instance.Processes.{
  process_index, free, Slots, Shared, init, reserve, claim, close, check_dead, System, put, forks,
  starts, Reachable, start, next,
}
use s2e.Instance.Processes.Slots.{used, Claimed}
use s2e.Instance.Processes.Safety.{claim_succeeds, own_places, count_bounds, fork_possible}

two_many_run : (init 0 70 ≡ none) × (init 49 70 ≡ none)
unfolding init
two_many_run = (refl, refl)

full_run : claim 5 71 ((0, 70) ∷ []) ≡ fault assertion
unfolding claim
full_run = refl

dead_run :
    (check_dead
      (λ p. if p == 71 then true else false)
      (record {
        process_count = 2;
        last_file_id = 2;
        last_state_id = 0;
        slots = (0, 70) ∷ (1, 71) ∷ [];
      })).0.slots
    ≡ (0, 70) ∷ (free, free) ∷ []
unfolding check_dead
dead_run = refl

abbrev begin : Shared
begin = record {
  process_count = 1;
  last_file_id = 1;
  last_state_id = 0;
  slots = (0, 70) ∷ (free, free) ∷ [];
}

-- A first process with pid 70, of two.
abbrev alone : System
alone = record {
  shared = begin;
  forking = [];
  place = put 70 (some (0, 0)) (λ q. none);
  alive = put 70 true (λ q. false);
}

alone-Reachable : Reachable 2 alone
unfolding init
alone-Reachable = start 70 begin (omega arith) refl

-- It has called fork(), and the child has no slot yet.
abbrev between : System
between = record alone {
  shared = record begin { process_count = 2; last_file_id = 2 };
  forking = 1 ∷ [];
}

between-Reachable : Reachable 2 between
unfolding reserve
between-Reachable =
    next alone-Reachable
      (forks alone 1 (record begin { process_count = 2; last_file_id = 2 }) refl (omega arith))

-- The child runs.
abbrev both : System
both = record {
  shared = record begin { process_count = 2; last_file_id = 2; slots = (0, 70) ∷ (1, 71) ∷ [] };
  forking = [];
  place = put 71 (some (1, 1)) alone.place;
  alive = put 71 true alone.alive;
}

both-Reachable : Reachable 2 both
unfolding claim
both-Reachable =
    next between-Reachable
      (starts between [] [] 1 71 1 ((0, 70) ∷ (1, 71) ∷ []) refl refl (omega arith) refl)

claim_succeeds_example :
    (slot : ℕ) × (slots : Slots) × (claim 1 71 begin.slots ≡ ok (slot, slots))
    × Claimed 1 71 begin.slots slot slots
claim_succeeds_example = claim_succeeds 2 [] [] 1 71 between-Reachable refl (omega arith)

own_places_example :
    (◌≢◌ {A = ℕ} 0 1)
    × (◌≢◌ {A = ℕ} 0 1)
    × (process_index 2 0 both.shared ≡ ok 0)
    × ((sh : Shared) × (close 0 0 both.shared ≡ ok sh))
own_places_example = own_places 2 70 71 0 1 0 1 both-Reachable refl refl (omega arith) refl refl

count_bounds_example : (2 ≡ used both.shared.slots + length both.forking) × (2 ≤ 2)
count_bounds_example = count_bounds 2 both-Reachable

fork_possible_example :
    (sh : Shared) × (sh' : Shared) × (close 1 1 both.shared ≡ ok sh)
    × (reserve 2 sh ≡ some (2, sh'))
    × (sh'.process_count ≡ 2)
fork_possible_example = fork_possible 2 71 1 1 both-Reachable refl refl
