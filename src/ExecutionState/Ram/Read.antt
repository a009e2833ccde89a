-- ===== src/ExecutionState/Ram/Read.antt =====
-- readRamConcrete() of concrete bytes, and after writeRamConcrete().
use s2e.Common.{
  ℕ, zero, suc, ◌+◌, ◌-◌, ◌*◌, ◌%◌, ◌^◌, ◌≤◌, ◌<◌, ◌≡◌, refl, sym, ap, ◌∙◌, Bool, true, false, List,
  [], ◌∷◌, ◌++◌, Option, some, arith, length, take, drop, leb, leb→le, leb→lt, ◌==◌, ==_iff,
  if◌then◌else◌, length-take, length-drop, ok, some-eq, Bool-cases, inl, inr, ==_refl, subst,
}
use s2e.ExecutionState.Klee.{ObjectPair, Klee}
use s2e.ExecutionState.Memory.{Cache, State, object_size, object_base, is_ram, constants, lookup}
use s2e.ExecutionState.Memory.Coherence.{IsCoherent, lookup-IsCoherent}
use s2e.ExecutionState.Memory.Copy.{ram_byte}
use s2e.ExecutionState.Ram.{write_ram, read_object, read_ram}
use s2e.ExecutionState.Ram.Overlay.{overlay, overlay_before}
use s2e.ExecutionState.Ram.Write.{HasRam, ram_object, write_ram-Wrote}

module _ {S E : Type 0} (k : Klee S E) where
  -- RAM holds these concrete bytes from a host address on.
  abbrev pub Holds : S → ℕ → List ℕ → Type 0
  Holds s h [] = Unit {0}
  Holds s h (v ∷ vs) =
      ((e : E) × (ram_byte k s h ≡ some e) × (k.constant e ≡ some v)) × Holds s (h + 1) vs

  -- So does an object state.
  abbrev ObjectHolds : S → ℕ → ℕ → List ℕ → Type 0
  ObjectHolds s o i [] = Unit {0}
  ObjectHolds s o i (v ∷ vs) = (k.constant (k.read8 s o i) ≡ some v) × ObjectHolds s o (i + 1) vs

  pub overlay-Holds :
      (s : S) (h : ℕ) (buf : List ℕ) (f : ℕ → Option E)
      → ram_byte k s ≡ overlay h (constants k buf) f
      → Holds s h buf
  unfolding constants
  overlay-Holds s h [] f eq = tt
  overlay-Holds s h (v ∷ vs) f eq =
      let f' : ℕ → Option E = λ x. if h == x then some (k.byte v) else f x in
      let here : ram_byte k s h ≡ some (k.byte v) =
        ap (λ (g : ℕ → Option E). g h) eq
        ∙ overlay_before (h + 1) (constants k vs) f' h (omega arith)
        ∙ rw (==_refl h) refl in
      ((k.byte v, here, k.constant-byte v), overlay-Holds s (h + 1) vs f' eq)

  Holds-take : (s : S) (n h : ℕ) (buf : List ℕ) → Holds s h buf → Holds s h (take n buf)
  Holds-take s zero h buf v = tt
  Holds-take s (suc n) h [] v = tt
  Holds-take s (suc n) h (b ∷ bs) v = (v.0, Holds-take s n (h + 1) bs v.1)

  Holds-drop : (s : S) (n h : ℕ) (buf : List ℕ) → Holds s h buf → Holds s (h + n) (drop n buf)
  Holds-drop s zero h buf v = subst (λ m. Holds s m buf) (omega arith) v
  Holds-drop s (suc n) h [] v = tt
  Holds-drop s (suc n) h (b ∷ bs) v =
      subst (λ m. Holds s m (drop n bs)) (omega arith) (Holds-drop s n (h + 1) bs v.1)

  take-drop : (n : ℕ) (buf : List ℕ) → take n buf ++ drop n buf ≡ buf
  take-drop zero buf = refl
  take-drop (suc n) [] = refl
  take-drop (suc n) (b ∷ bs) = ap (λ t. b ∷ t) (take-drop n bs)

  Holds-object :
      (s : S) (base h : ℕ) (buf : List ℕ) (p : ObjectPair)
      → k.find_object s base ≡ some p
      → is_ram p ≡ true
      → base % object_size ≡ 0
      → base ≤ h
      → h + length buf ≤ base + object_size
      → Holds s h buf
      → ObjectHolds s p.state (h - base) buf
  Holds-object s base h [] p f is al lo hi v = tt
  Holds-object s base h (b ∷ bs) p f is al lo hi v =
      let (e, byte, value) = v.0 in
      let same : object_base h ≡ base = omega arith in
      let read : ram_byte k s h ≡ some (k.read8 s p.state (h % object_size)) =
        rw (ap (k.find_object s) same ∙ f, ram_byte, is) refl in
      let at : h - base ≡ h % object_size = omega arith in
      (
        ap k.constant (
              ap (k.read8 s p.state) at
              ∙ some-eq (k.read8 s p.state (h % object_size)) e (sym read ∙ byte))
            ∙ value,
        subst (λ m. ObjectHolds s p.state m bs) (omega arith)
            (Holds-object s base (h + 1) bs p f is al (omega arith) (omega arith) v.1),
      )

  -- The runs, step by step.
  module _ (stop : Bool) where
    read_object_run :
        (st : State S) (p : ObjectPair) (o : ℕ) (mine : Bool) (i : ℕ) (buf : List ℕ)
        → ObjectHolds st.space o i buf
        → read_object k stop st p o mine i (length buf) ≡ ok (st, buf)
    unfolding read_object
    read_object_run st p o mine i [] v = refl
    read_object_run st p o mine i (b ∷ bs) v =
        rw (v.0, read_object_run st p o mine (i + 1) bs v.1) refl

    module _ (fuel : ℕ) (st : State S) (host size : ℕ) (act : st.active ≡ true) where
      read_ram_one :
          (st1 st' : State S) (op : Option ObjectPair) (p : ObjectPair) (buf : List ℕ)
          → leb (host % object_size + size) object_size ≡ true
          → lookup k st (object_base host) ≡ ok (st1, op)
          → op ≡ some p
          → is_ram p ≡ true
          → p.address ≡ object_base host
          → read_object k stop st1 p p.state false (host % object_size) size ≡ ok (st', buf)
          → read_ram k stop (suc fuel) st host size ≡ ok (st', buf)
      unfolding read_ram
      read_ram_one st1 st' op p buf one look f is at run =
          let here = (==_iff p.address (object_base host)).1 at in
          rw (act, one, look, f, is, here) run

      read_ram_more :
          (n size1 size2 : ℕ) (st1 st2 : State S) (buf1 buf2 buf : List ℕ)
          → n ≡ object_size - host % object_size
          → size1 ≡ n
          → size - n ≡ size2
          → buf1 ++ buf2 ≡ buf
          → leb (host % object_size + size) object_size ≡ false
          → host + n < 2 ^ 64
          → read_ram k stop fuel st host size1 ≡ ok (st1, buf1)
          → read_ram k stop fuel st1 (host + n) size2 ≡ ok (st2, buf2)
          → read_ram k stop (suc fuel) st host size ≡ ok (st2, buf)
      unfolding read_ram
      read_ram_more n size1 size2 st1 st2 buf1 buf2 buf part one two join more low run rest =
          let next : (host + n) % 2 ^ 64 ≡ host + n = omega arith in
          rw (act, more, ← part, ← one, run, one, next, two, rest, join) refl

    -- readRamConcrete() of RAM that holds concrete bytes, in an active state with a coherent cache and
    -- with fuel for the objects that they lie in, returns these bytes, whether the stubs stop a run
    -- or not: nothing changes but the cache, which is coherent again.
    pub read_ram-Holds :
        (fuel : ℕ) (st : State S) (host : ℕ) (buf : List ℕ)
        → st.active ≡ true
        → IsCoherent k st
        → Holds st.space host buf
        → 0 < length buf
        → host + length buf < 2 ^ 64
        → host % object_size + length buf ≤ object_size * fuel
        → (c' : Cache) × (read_ram k stop fuel st host (length buf)
            ≡ ok (record st { memcache = c' }, buf))
          × IsCoherent k (record st { memcache = c' })
    read_ram-Holds zero st host buf act v holds some_bytes low fits = absurd (omega arith)
    read_ram-Holds (suc fuel) st host [] act v holds some_bytes low fits = absurd (omega arith)
    read_ram-Holds (suc fuel) st host (b ∷ bs) act v holds some_bytes low fits =
        elim (Bool-cases (leb (host % object_size + length (b ∷ bs)) object_size)) [
          | inl one ↦
              let (e, byte, value) = holds.0 in
              let (p, f, is, at, z) = ram_object k st.space host e byte in
              let (c1, look, v1) = lookup-IsCoherent k st (object_base host) v (omega arith) in
              let fit = leb→le (host % object_size + length (b ∷ bs)) object_size one in
              let inside =
                Holds-object st.space (object_base host) host (b ∷ bs) p f is (omega arith)
                  (omega arith) (omega (arith, fit)) holds in
              (
                c1,
                read_ram_one fuel st host (length (b ∷ bs)) act (record st { memcache = c1 })
                    (record st { memcache = c1 }) (k.find_object st.space (object_base host)) p
                    (b ∷ bs) one look f is at
                    (read_object_run (record st { memcache = c1 }) p p.state false
                      (host % object_size) (b ∷ bs)
                      (subst (λ m. ObjectHolds st.space p.state m (b ∷ bs)) (omega arith) inside)),
                v1,
              )
          | inr more ↦
              let buf = b ∷ bs in
              let n = object_size - host % object_size in
              let over = leb→lt (host % object_size + length buf) object_size more in
              let taken : length (take n buf) ≡ n = length-take n buf (omega (arith, over)) in
              let left : length (drop n buf) + n ≡ length buf =
                length-drop n buf (omega (arith, over)) in
              let (c1, run1, v1) =
                read_ram-Holds fuel st host (take n buf) act v
                  (Holds-take st.space n host buf holds) (omega (arith, taken))
                  (omega (arith, taken, over)) (omega (arith, taken, over)) in
              let (c2, run2, v2) =
                read_ram-Holds fuel (record st { memcache = c1 }) (host + n) (drop n buf) act v1
                  (Holds-drop st.space n host buf holds) (omega (arith, left, over))
                  (omega (arith, left, over)) (omega (arith, left, over)) in
              (
                c2,
                read_ram_more fuel st host (length buf) act n (length (take n buf))
                    (length (drop n buf)) (record st { memcache = c1 })
                    (record st { memcache = c2 }) (take n buf) (drop n buf) buf refl taken
                    (omega (arith, left)) (take-drop n buf) more (omega (arith, over)) run1 run2,
                v2,
              )
        ]

  -- readRamConcrete() of what writeRamConcrete() has written returns the buffer, for a buffer that
  -- is not empty and RAM that is there, in an active state with a coherent cache, with fuel for the
  -- objects that the buffer reaches and in a build where the stubs do not stop a run; both fail no
  -- assertion.
  pub read_ram-write_ram :
      (fuel : ℕ) (st : State S) (host : ℕ) (buf : List ℕ)
      → st.active ≡ true
      → IsCoherent k st
      → HasRam k st.space host (length buf)
      → 0 < length buf
      → host + length buf < 2 ^ 64
      → host % object_size + length buf ≤ object_size * fuel
      → (st1 : State S) × (st2 : State S) × (write_ram k false fuel st host buf ≡ ok st1)
        × (read_ram k false fuel st1 host (length buf) ≡ ok (st2, buf))
        × (st2.space ≡ st1.space)
  read_ram-write_ram fuel st host buf act v has some_bytes low fits =
      let (s', c', run, wrote) = write_ram-Wrote k fuel st host buf act v has some_bytes low fits in
      let (c2, again, v2) =
        read_ram-Holds false fuel (record st { space = s'; memcache = c' }) host buf act
          wrote.coherent (overlay-Holds s' host buf (ram_byte k st.space) wrote.bytes) some_bytes
          low fits in
      (
        record st { space = s'; memcache = c' },
        record st { space = s'; memcache = c2 },
        run,
        again,
        refl,
      )
