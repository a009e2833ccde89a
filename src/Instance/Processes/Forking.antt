-- ===== src/Instance/Processes/Forking.antt =====
-- The steps of fork() keep the invariant.
use s2e.Common.{
  Misses, Distinct, ℕ, ◌+◌, ◌<◌, ◌≡◌, ◌≢◌, sym, ap, ◌∙◌, true, false, List, ◌∷◌, ◌++◌, some, arith,
  length, get_elem?, ◌==◌, ==_iff, ne_of_==, some-eq, Bool-cases, inl, inr, ◌⊎◌, subst,
}
use s2e.Instance.Processes.{free, Slots, Shared, reserve, give_up, System, put}
use s2e.Instance.Processes.Slots.{used, Claimed}
use s2e.Instance.Processes.Invariant.{
  Below, Below-remove, Misses-remove, Distinct-remove, length-remove, Below-mono, Misses-Below,
  IsSound,
}

module _ (max : ℕ) (s : System) (v : IsSound max s) where
  reserved :
      s.shared.last_file_id < free
      → (s.shared.process_count == max) ≡ false
      → IsSound max (record s {
        shared = record s.shared {
          last_file_id = s.shared.last_file_id + 1;
          process_count = s.shared.process_count + 1;
        };
        forking = s.shared.last_file_id ∷ s.forking;
      })
  reserved low more = record {
    counted = omega (arith, v.counted);
    room = omega (arith, v.room, ne_of_== s.shared.process_count max more);
    width = v.width;
    agree = v.agree;
    small = omega arith;
    waiting = (
      omega arith,
      Below-mono s.shared.last_file_id (s.shared.last_file_id + 1) s.forking (omega arith)
          v.waiting,
    );
    apart = (Misses-Below s.shared.last_file_id s.forking v.waiting, v.apart);
    placed = λ p n i a e.
        let (g, lt, m) = v.placed p n i a e in
        (g, omega (arith, lt), ((λ h. omega (arith, lt, h)), m));
    indices = v.indices;
  }

  pub forks-IsSound :
      (index : ℕ) (sh : Shared)
      → reserve max s.shared ≡ some (index, sh)
      → index < free
      → IsSound max (record s { shared = sh; forking = index ∷ s.forking })
  unfolding reserve
  forks-IsSound index sh e low = elim (Bool-cases (s.shared.process_count == max)) [
    | inl full ↦ cc (rw (reserve, full) at e)
    | inr more ↦
        let given : ℕ × Shared = (
          s.shared.last_file_id,
          record s.shared {
            last_file_id = s.shared.last_file_id + 1;
            process_count = s.shared.process_count + 1;
          },
        ) in
        let eq : given ≡ (index, sh) = some-eq given (index, sh) (rw (reserve, more) at e) in
        subst
          (λ (t : ℕ × Shared). IsSound max (record s { shared = t.1; forking = t.0 ∷ s.forking }))
          eq (reserved (subst (λ n. n < free) (sym (ap (λ (t : ℕ × Shared). t.0) eq)) low) more)
  ]

  module _ (front back : List ℕ) (index : ℕ) (split : s.forking ≡ front ++ (index ∷ back)) where
    others_wait : Below s.shared.last_file_id (front ++ back) × (index < s.shared.last_file_id)
    others_wait =
        Below-remove s.shared.last_file_id index front back
          (subst (Below s.shared.last_file_id) split v.waiting)

    others_apart : Distinct (front ++ back) × Misses index (front ++ back)
    others_apart = Distinct-remove index front back (subst Distinct split v.apart)

    others_missed : (i : ℕ) → Misses i s.forking → Misses i (front ++ back) × (i ≢ index)
    others_missed i m = Misses-remove i index front back (subst (Misses i) split m)

    one_less : length s.forking ≡ length (front ++ back) + 1
    one_less = ap length split ∙ length-remove index front back

    pub fails-IsSound :
        IsSound max (record s { shared = give_up s.shared; forking = front ++ back })
    unfolding give_up
    fails-IsSound = record {
      counted = omega (arith, v.counted, one_less);
      room = omega (arith, v.room);
      width = v.width;
      agree = v.agree;
      small = v.small;
      waiting = others_wait.0;
      apart = others_apart.0;
      placed = λ p n i a e. let (g, lt, m) = v.placed p n i a e in (g, lt, (others_missed i m).0);
      indices = v.indices;
    }

    -- There is a free slot for the child.
    pub has_room : used s.shared.slots < length s.shared.slots
    has_room = omega (arith, v.counted, v.room, v.width, one_less)

    module _ (pid slot : ℕ) (slots : Slots) (new : s.alive pid ≡ false)
        (c : Claimed index pid s.shared.slots slot slots) where
      -- A living process of the new state is the child or was there before.
      was_or_child :
          (p n i : ℕ)
          → put pid true s.alive p ≡ true
          → put pid (some (slot, index)) s.place p ≡ some (n, i)
          → ((pid ≡ p) × (slot ≡ n) × (index ≡ i))
            ⊎ ((s.alive p ≡ true) × (s.place p ≡ some (n, i)))
      was_or_child p n i a e = elim (Bool-cases (pid == p)) [
        | inl t ↦
            let eq = some-eq (slot, index) (n, i) (rw t at e) in
            inl ((==_iff pid p).0 t, ap (λ (t : ℕ × ℕ). t.0) eq, ap (λ (t : ℕ × ℕ). t.1) eq)
        | inr f ↦ inr (rw f at a, rw f at e)
      ]

      pub starts-IsSound : IsSound max (record s {
        shared = record s.shared { slots = slots };
        forking = front ++ back;
        place = put pid (some (slot, index)) s.place;
        alive = put pid true s.alive;
      })
      starts-IsSound = record {
        counted = omega (arith, v.counted, c.more, one_less);
        room = v.room;
        width = c.same_length ∙ v.width;
        agree = c.agree v.agree;
        small = v.small;
        waiting = others_wait.0;
        apart = others_apart.0;
        placed = λ p n i a e. elim (was_or_child p n i a e) [
          | inl (same, at, num) ↦ (
            subst (λ t. get_elem? slots t ≡ some (i, p)) at
                (c.here ∙ ap some (λ j. (num j, same j))),
            subst (λ t. t < s.shared.last_file_id) num others_wait.1,
            subst (λ t. Misses t (front ++ back)) num others_apart.1,
          )
          | inr (old, at) ↦
              let (g, lt, m) = v.placed p n i old at in
              (c.others n i p g (λ h. omega (arith, h, lt, v.small)), lt, (others_missed i m).0)
        ];
        indices = λ p q n m i a b e f. elim (was_or_child p n i a e) [
          | inl (same, at, num) ↦ elim (was_or_child q m i b f) [
            | inl (same', at', num') ↦ sym same ∙ same'
            | inr (old, here) ↦ absurd ((others_missed i (v.placed q m i old here).2).1 (sym num))
          ]
          | inr (old, here) ↦ elim (was_or_child q m i b f) [
            | inl (same', at', num') ↦
                absurd ((others_missed i (v.placed p n i old here).2).1 (sym num'))
            | inr (old', here') ↦ v.indices p q n m i old old' here here'
          ]
        ];
      }
