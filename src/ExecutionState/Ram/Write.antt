-- ===== src/ExecutionState/Ram/Write.antt =====
-- What writeRamConcrete() makes of RAM.
use s2e.Common.{
  ℕ, zero, suc, ◌+◌, ◌-◌, ◌*◌, ◌%◌, ◌^◌, ◌≤◌, ◌<◌, ◌≡◌, refl, sym, ap, ◌∙◌, Bool, true, false, ◌&&◌,
  List, [], ◌∷◌, ◌++◌, Option, some, arith, length, take, drop, leb, leb→le, leb→lt, ◌==◌, ==_iff,
  if◌then◌else◌, length-take, length-drop, ok, Bool-cases, Option-cases, inl, inr,
}
use mathlib.Core.Path.{fun_ext}
use s2e.ExecutionState.Klee.{ObjectPair, Klee}
use s2e.ExecutionState.Memory.{
  Cache, State, object_size, object_base, is_ram, constants, write_bytes, lookup, get_writeable,
}
use s2e.ExecutionState.Memory.Coherence.{IsCoherent, lookup-IsCoherent}
use s2e.ExecutionState.Memory.Copy.{ram_byte, get_writeable-Owns}
use s2e.ExecutionState.Ram.{write_object, write_ram}
use s2e.ExecutionState.Ram.Overlay.{overlay, overlay-append, ram_byte-write_bytes}

and-elim : (a b : Bool) → (a && b) ≡ true → (a ≡ true) × (b ≡ true)
and-elim true b h = (refl, h)
and-elim false b h = cc

module _ {E : Type 0} where
  pub overlay-some :
      (h : ℕ) (bs : List E) (f : ℕ → Option E) (x : ℕ) (e : E)
      → f x ≡ some e
      → (e' : E) × (overlay h bs f x ≡ some e')
  overlay-some h [] f x e eq = (e, eq)
  overlay-some h (b ∷ bs) f x e eq = elim (Bool-cases (h == x)) [
    | inl t ↦ overlay-some (h + 1) bs (λ x. if h == x then some b else f x) x b (rw t refl)
    | inr n ↦ overlay-some (h + 1) bs (λ x. if h == x then some b else f x) x e (rw n eq)
  ]

pub base_offset : (host : ℕ) → object_base host + host % object_size ≡ host
base_offset host = omega arith

module _ {S E : Type 0} (k : Klee S E) where
  -- There is RAM at the host addresses from `h` on.
  abbrev pub HasRam : S → ℕ → ℕ → Type 0
  HasRam s h n = (i : ℕ) → i < n → (e : E) × (ram_byte k s (h + i) ≡ some e)

  pub ram_object :
      (s : S) (x : ℕ) (e : E)
      → ram_byte k s x ≡ some e
      → (p : ObjectPair) × (k.find_object s (object_base x) ≡ some p)
        × (is_ram p ≡ true)
        × (p.address ≡ object_base x)
        × (p.size ≡ object_size)
  ram_object s x e h = elim (Option-cases (k.find_object s (object_base x))) [
    | inl n ↦ cc (rw (n, ram_byte) at h)
    | inr (p, f) ↦ elim (Bool-cases (is_ram p)) [
      | inl t ↦ (
        p,
        f,
        t,
        k.found_address s (object_base x) p f,
        (==_iff p.size object_size).0 (and-elim p.user_specified (p.size == object_size) t).1,
      )
      | inr n ↦ cc (rw (f, ram_byte, n) at h)
    ]
  ]

  length-constants : (buf : List ℕ) → length (constants k buf) ≡ length buf
  unfolding constants
  length-constants [] = refl
  length-constants (b ∷ bs) = ap suc (length-constants bs)

  constants-take-drop :
      (n : ℕ) (buf : List ℕ)
      → constants k (take n buf) ++ constants k (drop n buf) ≡ constants k buf
  unfolding constants
  constants-take-drop zero buf = refl
  constants-take-drop (suc n) [] = refl
  constants-take-drop (suc n) (b ∷ bs) = ap (λ t. k.byte b ∷ t) (constants-take-drop n bs)

  pub IsCoherent-space :
      (st : State S) (s : S) (c : Cache)
      → IsCoherent k st
      → st.memcache ≡ c
      → ((x : ℕ) → k.find_object s x ≡ k.find_object st.space x)
      → IsCoherent k (record st { space = s })
  IsCoherent-space st s c v eq same = record {
    aligned = v.aligned;
    cached = λ a p m g. same a ∙ v.cached a p m g;
    cpu_not_ram = λ a p f z. v.cpu_not_ram a p (sym (same a) ∙ f) z;
  }

  -- The state after a write: RAM has the bytes of the buffer from the host address on and is the
  -- same elsewhere, and the cache is coherent.
  pub record Wrote (st : State S) (host : ℕ) (buf : List ℕ) (s' : S) (c' : Cache) : Type 0 where
    pub coherent : IsCoherent k (record st { space = s'; memcache = c' })
    pub bytes : ram_byte k s' ≡ overlay host (constants k buf) (ram_byte k st.space)

  -- The runs of the two functions, step by step.
  write_object_run :
      (st st1 st2 : State S) (host : ℕ) (buf : List ℕ) (op : Option ObjectPair) (p : ObjectPair)
      (o : ℕ)
      → lookup k st (object_base host) ≡ ok (st1, op)
      → op ≡ some p
      → is_ram p ≡ true
      → p.address ≡ object_base host
      → get_writeable k false st1 p ≡ ok (st2, o)
      → write_object k false st host buf
        ≡ ok (record st2 {
          space = write_bytes k st2.space o (host % object_size) (constants k buf);
        })
  unfolding write_object
  write_object_run st st1 st2 host buf op p o look f is at own =
      let here = (==_iff p.address (object_base host)).1 at in rw (look, f, is, here, own) refl

  module _ (fuel : ℕ) (st : State S) (host : ℕ) (buf : List ℕ) (act : st.active ≡ true) where
    write_ram_one :
        (st' : State S)
        → leb (host % object_size + length buf) object_size ≡ true
        → write_object k false st host buf ≡ ok st'
        → write_ram k false (suc fuel) st host buf ≡ ok st'
    unfolding write_ram
    write_ram_one st' one run = rw (act, one) run

    write_ram_more :
        (n : ℕ) (st1 st' : State S)
        → n ≡ object_size - host % object_size
        → leb (host % object_size + length buf) object_size ≡ false
        → host + n < 2 ^ 64
        → write_ram k false fuel st host (take n buf) ≡ ok st1
        → write_ram k false fuel st1 (host + n) (drop n buf) ≡ ok st'
        → write_ram k false (suc fuel) st host buf ≡ ok st'
    unfolding write_ram
    write_ram_more n st1 st' size more low run rest =
        let next : (host + n) % 2 ^ 64 ≡ host + n = omega arith in
        rw (act, more, ← size, run, next) rest

  write_object-Wrote :
      (st : State S) (host : ℕ) (buf : List ℕ)
      → IsCoherent k st
      → HasRam st.space host 1
      → host % object_size + length buf ≤ object_size
      → (s' : S) × (c' : Cache) × (write_object k false st host buf
          ≡ ok (record st { space = s'; memcache = c' }))
        × Wrote st host buf s' c'
  write_object-Wrote st host buf v has fits =
      let (e, byte) = has 0 (omega arith) in
      let byte' : ram_byte k st.space host ≡ some e =
        ap (ram_byte k st.space) (omega arith) ∙ byte in
      let (p, f, is, at, z) = ram_object st.space host e byte' in
      let (c1, look, v1) = lookup-IsCoherent k st (object_base host) v (omega arith) in
      let (s2, c2, o, owns) =
        get_writeable-Owns k (record st { memcache = c1 }) p v1 (ap (k.find_object st.space) at ∙ f)
          z (omega (arith, at)) in
      let (bytes, found) =
        ram_byte-write_bytes k (object_base host) (record p { state = o }) is (omega arith) s2
          (host % object_size) (constants k buf) (ap (k.find_object s2) (sym at) ∙ owns.found)
          (omega (arith, length-constants buf)) in
      (
        write_bytes k s2 o (host % object_size) (constants k buf),
        c2,
        write_object_run st (record st { memcache = c1 }) (record st { space = s2; memcache = c2 })
            host buf (k.find_object st.space (object_base host)) p o look f is at owns.run,
        record {
          coherent =
              IsCoherent-space (record st { space = s2; memcache = c2 }) _ c2 owns.coherent refl
                found;
          bytes =
              bytes
              ∙ ap (λ n. overlay n (constants k buf) (ram_byte k s2)) (base_offset host)
              ∙ ap (overlay host (constants k buf)) (fun_ext owns.bytes);
        },
      )

  -- The rest of the buffer after the bytes that fit into the first object.
  overlay-take-drop :
      (host n : ℕ) (buf : List ℕ) (f : ℕ → Option E)
      → n ≤ length buf
      → overlay (host + n) (constants k (drop n buf)) (overlay host (constants k (take n buf)) f)
        ≡ overlay host (constants k buf) f
  overlay-take-drop host n buf f le =
      ap
        (λ m.
          overlay (host + m) (constants k (drop n buf)) (overlay host (constants k (take n buf)) f))
        (sym (length-constants (take n buf) ∙ length-take n buf le))
      ∙ sym (overlay-append host (constants k (take n buf)) (constants k (drop n buf)) f)
      ∙ ap (λ l. overlay host l f) (constants-take-drop n buf)

  -- writeRamConcrete() of a buffer that is not empty, to RAM that is there, in an active state with a
  -- coherent cache, with fuel for the objects that the buffer reaches and in a build where the stubs
  -- do not stop a run: it fails no assertion, RAM holds the bytes of the buffer from the host address
  -- on and is the same elsewhere, also where the buffer lies in several objects and where the state
  -- has to copy them first, and the cache is coherent again.
  pub write_ram-Wrote :
      (fuel : ℕ) (st : State S) (host : ℕ) (buf : List ℕ)
      → st.active ≡ true
      → IsCoherent k st
      → HasRam st.space host (length buf)
      → 0 < length buf
      → host + length buf < 2 ^ 64
      → host % object_size + length buf ≤ object_size * fuel
      → (s' : S) × (c' : Cache) × (write_ram k false fuel st host buf
          ≡ ok (record st { space = s'; memcache = c' }))
        × Wrote st host buf s' c'
  write_ram-Wrote zero st host buf act v has some_bytes low fits = absurd (omega arith)
  write_ram-Wrote (suc fuel) st host buf act v has some_bytes low fits =
      elim (Bool-cases (leb (host % object_size + length buf) object_size)) [
        | inl one ↦
            let (s', c', run, wrote) =
              write_object-Wrote st host buf v (λ i lt. has i (omega arith))
                (leb→le (host % object_size + length buf) object_size one) in
            (
              s',
              c',
              write_ram_one fuel st host buf act (record st { space = s'; memcache = c' }) one run,
              wrote,
            )
        | inr more ↦
            let n = object_size - host % object_size in
            let over = leb→lt (host % object_size + length buf) object_size more in
            let taken : length (take n buf) ≡ n = length-take n buf (omega (arith, over)) in
            let left : length (drop n buf) + n ≡ length buf =
              length-drop n buf (omega (arith, over)) in
            let (s1, c1, run1, wrote1) =
              write_ram-Wrote fuel st host (take n buf) act v
                (λ i lt. has i (omega (arith, taken, over))) (omega (arith, taken))
                (omega (arith, taken, over)) (omega (arith, taken, over)) in
            let (s2, c2, run2, wrote2) =
              write_ram-Wrote fuel (record st { space = s1; memcache = c1 }) (host + n) (drop n buf)
                act wrote1.coherent
                (λ i lt.
                  let (e, byte) = has (n + i) (omega (arith, left, over)) in
                  let (e', byte') =
                    overlay-some host (constants k (take n buf)) (ram_byte k st.space)
                      (host + n + i) e (ap (ram_byte k st.space) (omega arith) ∙ byte) in
                  (e', ap (λ (f : ℕ → Option E). f (host + n + i)) wrote1.bytes ∙ byte'))
                (omega (arith, left, over)) (omega (arith, left, over))
                (omega (arith, left, over)) in
            (
              s2,
              c2,
              write_ram_more fuel st host buf act n (record st { space = s1; memcache = c1 })
                  (record st { space = s2; memcache = c2 }) refl more (omega (arith, over)) run1
                  run2,
              record {
                coherent = wrote2.coherent;
                bytes =
                    wrote2.bytes
                    ∙ ap (overlay (host + n) (constants k (drop n buf))) wrote1.bytes
                    ∙ overlay-take-drop host n buf (ram_byte k st.space) (omega (arith, over));
              },
            )
      ]
