-- ===== src/Instance/Processes/Safety.antt =====
-- What holds of the processes after any number of steps, in any order.
use s2e.Common.{
  get_elem?-lt, lt→ltb, ℕ, zero, suc, ◌+◌, ◌-◌, ◌≤◌, ◌<◌, ◌≡◌, ◌≢◌, refl, sym, ap, ◌∙◌, subst, Bool,
  true, false, ◌&&◌, List, [], ◌∷◌, ◌++◌, Option, none, some, arith, length, get_elem?, set,
  replicate, leb, leb→le, ==_ne, ok, ok-eq, some-eq, length-replicate, Bool-cases, inl, inr,
}
use s2e.Instance.Processes.{
  process_index, max_processes, free, Slots, Shared, init, reserve, claim, close, System, put, Step,
  forks, fails, starts, ends, crashes, checks, numbers, Reachable, start, next,
}
use s2e.Instance.Processes.Slots.{used, used-set, Agree, Claimed, claim-Claimed}
use s2e.Instance.Processes.Invariant.{Below, Below-remove, IsSound}
use s2e.Instance.Processes.Forking.{forks-IsSound, fails-IsSound, has_room, starts-IsSound}
use s2e.Instance.Processes.Ending.{
  close_run, ends-IsSound, crashes-IsSound, checks-IsSound, numbers-IsSound,
}

and-elim : (a b : Bool) → (a && b) ≡ true → (a ≡ true) × (b ≡ true)
and-elim true b h = (refl, h)
and-elim false b h = cc

used-replicate : (n : ℕ) → used (replicate n (free, free)) ≡ 0
used-replicate zero = refl
used-replicate (suc n) = omega (arith, used-replicate n)

Agree-replicate : (n : ℕ) → Agree (replicate n (free, free))
Agree-replicate zero = tt
Agree-replicate (suc n) = (refl, Agree-replicate n)

module _ (max : ℕ) where
  -- The processes where S2E() of the first one has just filled the shared object.
  first : (pid : ℕ) (slots : Slots) → System
  first pid slots = record {
    shared = record { process_count = 1; last_file_id = 1; last_state_id = 0; slots = slots };
    forking = [];
    place = put pid (some (0, 0)) (λ q. none);
    alive = put pid true (λ q. false);
  }

  only_first : (pid p : ℕ) → put pid true (λ q. false) p ≡ true → pid ≡ p
  only_first pid p a = ground arith

  first_place :
      (pid p n i : ℕ)
      → put {A = Option (ℕ × ℕ)} pid (some (0, 0)) (λ q. none) p ≡ some (n, i)
      → (0 ≡ n) × (0 ≡ i)
  first_place pid p n i e = ground arith

  first-IsSound :
      (n pid : ℕ)
      → pid < free
      → max ≡ suc n
      → IsSound max (first pid ((0, pid) ∷ replicate n (free, free)))
  unfolding first
  first-IsSound n pid low e = record {
    counted = omega (arith, used-replicate n);
    room = omega arith;
    width = ap suc (length-replicate n (free, free)) ∙ sym e;
    agree = (sym (==_ne pid free (λ h. omega (arith, h))), Agree-replicate n);
    small = omega arith;
    waiting = tt;
    apart = tt;
    placed = λ p m i a g.
        let (zm, zi) = first_place pid p m i g in
        (
          subst (λ k. get_elem? {A = ℕ × ℕ} ((0, pid) ∷ replicate n (free, free)) k ≡ some (i, p))
              zm (ap some (λ j. (zi j, only_first pid p a j))),
          omega (arith, zi),
          tt,
        );
    indices = λ p q m k i a b g h. sym (only_first pid p a) ∙ only_first pid q b;
  }

  start-IsSound :
      (pid : ℕ) (sh : Shared)
      → pid < free
      → init max pid ≡ some sh
      → IsSound max (record {
        shared = sh;
        forking = [];
        place = put pid (some (0, 0)) (λ q. none);
        alive = put pid true (λ q. false);
      })
  unfolding init first
  start-IsSound pid sh low e = elim (Bool-cases (leb 1 max && leb max max_processes)) [
    | inl t ↦
        let one : 1 ≤ max = leb→le 1 max (and-elim (leb 1 max) (leb max max_processes) t).0 in
        let n = max - 1 in
        let size : max ≡ suc n = omega arith in
        let filled : Shared = (first pid (set (replicate max (free, free)) 0 (0, pid))).shared in
        let eq : filled ≡ sh = some-eq filled sh (rw (init, t) at e) in
        subst (λ sh. IsSound max (record (first pid []) { shared = sh })) eq
          (subst (λ m. IsSound max (first pid (set (replicate m (free, free)) 0 (0, pid))))
            (sym size) (first-IsSound n pid low size))
    | inr f ↦ cc (rw (init, f) at e)
  ]

  claims :
      (s : System) (v : IsSound max s) (front back : List ℕ) (index pid : ℕ)
      → s.forking ≡ front ++ (index ∷ back)
      → pid < free
      → (slot : ℕ) × (slots : Slots) × (claim index pid s.shared.slots ≡ ok (slot, slots))
        × Claimed index pid s.shared.slots slot slots
  claims s v front back index pid split low =
      let given =
        Below-remove s.shared.last_file_id index front back
          (subst (Below s.shared.last_file_id) split v.waiting) in
      claim-Claimed index pid s.shared.slots (omega (arith, given.1, v.small)) low
        (has_room max s v front back index split)

  claimed :
      (s : System) (v : IsSound max s) (front back : List ℕ) (index pid slot : ℕ) (slots : Slots)
      → s.forking ≡ front ++ (index ∷ back)
      → pid < free
      → claim index pid s.shared.slots ≡ ok (slot, slots)
      → Claimed index pid s.shared.slots slot slots
  claimed s v front back index pid slot slots split low run =
      let (n, slots', run', c) = claims s v front back index pid split low in
      let eq = ok-eq (n, slots') (slot, slots) (sym run' ∙ run) in
      subst (λ (t : ℕ × Slots). Claimed index pid s.shared.slots t.0 t.1) eq c

  step-IsSound : {s s' : System} → Step max s s' → IsSound max s → IsSound max s'
  step-IsSound (forks s index sh e low) v = forks-IsSound max s v index sh e low
  step-IsSound (fails s front back index split) v = fails-IsSound max s v front back index split
  step-IsSound (starts s front back index pid slot slots split new low run) v =
      starts-IsSound max s v front back index split pid slot slots new
        (claimed s v front back index pid slot slots split low run)
  step-IsSound (ends s pid slot index sh on at run) v =
      ends-IsSound max s v pid slot index on at sh run
  step-IsSound (crashes s pid) v = crashes-IsSound max s v pid
  step-IsSound (checks s dead right) v = checks-IsSound max s v dead right
  step-IsSound (numbers s) v = numbers-IsSound max s v

  pub reachable-IsSound : {s : System} → Reachable max s → IsSound max s
  reachable-IsSound (start pid sh low e) = start-IsSound pid sh low e
  reachable-IsSound (next before st) = step-IsSound st (reachable-IsSound before)

  -- After any steps of the processes, failed forks, crashes and checks for dead processes among them,
  -- the child of a fork() that has reserved its place finds a free slot: the assertion in fork() holds,
  -- and from then on the slot has the child's index and pid, while the other used slots stay.
  pub claim_succeeds :
      {s : System} (front back : List ℕ) (index pid : ℕ)
      → Reachable max s
      → s.forking ≡ front ++ (index ∷ back)
      → pid < free
      → (slot : ℕ) × (slots : Slots) × (claim index pid s.shared.slots ≡ ok (slot, slots))
        × Claimed index pid s.shared.slots slot slots
  claim_succeeds {s} front back index pid reach split low =
      claims s (reachable-IsSound reach) front back index pid split low

  process_index_run :
      (s : System) (p n i : ℕ)
      → length s.shared.slots ≡ max
      → get_elem? s.shared.slots n ≡ some (i, p)
      → process_index max n s.shared ≡ ok i
  unfolding process_index
  process_index_run s p n i w g =
      rw (lt→ltb n max (omega (arith, w, get_elem?-lt s.shared.slots n (i, p) g)), g) refl

  -- After any steps, two living processes have different slots and different indices, so that they
  -- write to different output directories; getProcessIndexForId() finds the index of each under its
  -- slot, and the assertion of ~S2E() holds for each.
  pub own_places :
      {s : System} (p q n m i j : ℕ)
      → Reachable max s
      → s.alive p ≡ true
      → s.alive q ≡ true
      → p ≢ q
      → s.place p ≡ some (n, i)
      → s.place q ≡ some (m, j)
      → (n ≢ m)
        × (i ≢ j)
        × (process_index max n s.shared ≡ ok i)
        × ((sh : Shared) × (close n i s.shared ≡ ok sh))
  own_places {s} p q n m i j reach a b ne e f =
      let v = reachable-IsSound reach in
      (
        λ h. ne (
            ap (λ (t : ℕ × ℕ). t.1)
              (some-eq (i, p) (j, q)
                (sym (v.placed p n i a e).0
                  ∙ ap (get_elem? s.shared.slots) h
                  ∙ (v.placed q m j b f).0))),
        λ h. ne (v.indices p q n m i a b e (f ∙ ap some (λ t. (m, sym h t)))),
        process_index_run s p n i v.width (v.placed p n i a e).0,
        (_, close_run max s v p n i a e),
      )

  -- After any steps, the number of processes is the number of used slots and of children without one,
  -- and is at most the limit: no more than m_maxProcesses processes run.
  pub count_bounds :
      {s : System}
      → Reachable max s
      → (s.shared.process_count ≡ used s.shared.slots + length s.forking)
        × (s.shared.process_count ≤ max)
  count_bounds reach = let v = reachable-IsSound reach in (v.counted, v.room)

  counts :
      {s : System} (v : IsSound max s) (p n i : ℕ)
      → s.alive p ≡ true
      → s.place p ≡ some (n, i)
      → 0 < s.shared.process_count
  counts {s} v p n i a e =
      let (g, lt, m) = v.placed p n i a e in
      omega (arith, v.counted, used-set s.shared.slots n i p g (λ h. omega (arith, h, lt, v.small)))

  -- After any steps and the orderly end of a process, fork() is possible: it reserves the next
  -- index, and the number of processes is then what it was before the end.
  pub fork_possible :
      {s : System} (p n i : ℕ)
      → Reachable max s
      → s.alive p ≡ true
      → s.place p ≡ some (n, i)
      → (sh : Shared) × (sh' : Shared) × (close n i s.shared ≡ ok sh)
        × (reserve max sh ≡ some (s.shared.last_file_id, sh'))
        × (sh'.process_count ≡ s.shared.process_count)
  unfolding reserve
  fork_possible {s} p n i reach a e =
      let v = reachable-IsSound reach in
      let full =
        ==_ne (s.shared.process_count - 1) max
          (λ h. omega (arith, h, v.room, counts v p n i a e)) in
      let sh : Shared = record s.shared {
        slots = set s.shared.slots n (free, free);
        process_count = s.shared.process_count - 1;
      } in
      let sh' : Shared = record sh {
        last_file_id = s.shared.last_file_id + 1;
        process_count = s.shared.process_count - 1 + 1;
      } in
      let run : reserve max sh ≡ some (s.shared.last_file_id, sh') = rw (full, reserve) refl in
      (sh, sh', close_run max s v p n i a e, run, omega (arith, counts v p n i a e))
