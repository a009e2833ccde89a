-- ===== src/Instance/Processes/Ending.antt =====
-- The steps at the end of a process keep the invariant: ~S2E(), a crash, checkDeadProcesses().
use s2e.Common.{
  ℕ, ◌-◌, ◌≡◌, ◌≢◌, refl, sym, ap, ◌∙◌, Bool, true, false, some, arith, get_elem?, set, ◌==◌,
  ==_refl, ne_of_==, ok, ok-eq, some-eq, length-set, Bool-cases, inl, inr, subst,
}
use s2e.Instance.Processes.{free, Shared, close, check_dead, fetch_state_id, System, put}
use s2e.Instance.Processes.Slots.{used-set, Agree-set, set_others, reap_slots-Reaped}
use s2e.Instance.Processes.Invariant.{IsSound}

lives : (pid p : ℕ) (f : ℕ → Bool) → put pid false f p ≡ true → (f p ≡ true) × (pid ≢ p)
lives pid p f a = elim (Bool-cases (pid == p)) [
  | inl t ↦ cc (rw t at a)
  | inr n ↦ (rw n at a, ne_of_== pid p n)
]

module _ (max : ℕ) (s : System) (v : IsSound max s) where
  pub crashes-IsSound : (pid : ℕ) → IsSound max (record s { alive = put pid false s.alive })
  crashes-IsSound pid = record {
    counted = v.counted;
    room = v.room;
    width = v.width;
    agree = v.agree;
    small = v.small;
    waiting = v.waiting;
    apart = v.apart;
    placed = λ p n i a e. v.placed p n i (lives pid p s.alive a).0 e;
    indices = λ p q n m i a b e f.
        v.indices p q n m i (lives pid p s.alive a).0 (lives pid q s.alive b).0 e f;
  }

  -- A process that ends in an orderly way has its slot.
  module _ (pid slot index : ℕ) (on : s.alive pid ≡ true)
      (at : s.place pid ≡ some (slot, index)) where
    closed : Shared
    closed = record s.shared {
      slots = set s.shared.slots slot (free, free);
      process_count = s.shared.process_count - 1;
    }

    own_slot : get_elem? s.shared.slots slot ≡ some (index, pid)
    own_slot = (v.placed pid slot index on at).0

    used_slot : index ≢ free
    used_slot h = omega (arith, h, (v.placed pid slot index on at).1, v.small)

    pub close_run :
        close slot index s.shared
        ≡ ok (record s.shared {
          slots = set s.shared.slots slot (free, free);
          process_count = s.shared.process_count - 1;
        })
    unfolding close
    close_run = rw (own_slot, close, ==_refl index) refl

    closed-IsSound : IsSound max (record s { shared = closed; alive = put pid false s.alive })
    unfolding closed
    closed-IsSound = record {
      counted = omega (arith, v.counted, used-set s.shared.slots slot index pid own_slot used_slot);
      room = omega (arith, v.room);
      width = length-set s.shared.slots slot (free, free) ∙ v.width;
      agree = Agree-set s.shared.slots slot v.agree;
      small = v.small;
      waiting = v.waiting;
      apart = v.apart;
      placed = λ p n i a e.
          let (old, ne) = lives pid p s.alive a in
          let (g, lt, m) = v.placed p n i old e in
          (
            set_others s.shared.slots slot n i p g (λ h. ne (
                ap (λ (t : ℕ × ℕ). t.1)
                  (some-eq (index, pid) (i, p)
                    (sym own_slot ∙ ap (get_elem? s.shared.slots) h ∙ g)))),
            lt,
            m,
          );
      indices = λ p q n m i a b e f.
          v.indices p q n m i (lives pid p s.alive a).0 (lives pid q s.alive b).0 e f;
    }

    pub ends-IsSound :
        (sh : Shared)
        → close slot index s.shared ≡ ok sh
        → IsSound max (record s { shared = sh; alive = put pid false s.alive })
    unfolding closed
    ends-IsSound sh run =
        subst (λ t. IsSound max (record s { shared = t; alive = put pid false s.alive }))
          (ok-eq closed sh (sym close_run ∙ run)) closed-IsSound

  pub checks-IsSound :
      (dead : ℕ → Bool)
      → ((pid : ℕ) → s.alive pid ≡ true → dead pid ≡ false)
      → IsSound max (record s { shared = (check_dead dead s.shared).0 })
  unfolding check_dead
  checks-IsSound dead right =
      let (slots, n, run, r) = reap_slots-Reaped dead s.shared.slots v.agree in
      rw run (record {
        counted = omega (arith, v.counted, r.counted);
        room = omega (arith, v.room);
        width = r.same_length ∙ v.width;
        agree = r.agree;
        small = v.small;
        waiting = v.waiting;
        apart = v.apart;
        placed = λ p n i a e.
            let (g, lt, m) = v.placed p n i a e in (r.others n i p g (right p a), lt, m);
        indices = v.indices;
      })

  pub numbers-IsSound : IsSound max (record s { shared = (fetch_state_id s.shared).1 })
  unfolding fetch_state_id
  numbers-IsSound = record {
    counted = v.counted;
    room = v.room;
    width = v.width;
    agree = v.agree;
    small = v.small;
    waiting = v.waiting;
    apart = v.apart;
    placed = v.placed;
    indices = v.indices;
  }
