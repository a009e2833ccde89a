-- ===== src/ExecutionState/Ram/Overlay.antt =====
-- RAM as a function from host addresses to bytes, and what writes into an object make of it.
use s2e.Common.{
  ℕ, ◌+◌, ◌%◌, ◌≤◌, ◌<◌, ◌≡◌, ◌≢◌, refl, sym, ap, ◌∙◌, true, false, ◌&&◌, List, [], ◌∷◌, ◌++◌,
  Option, none, some, arith, length, ◌==◌, ==_iff, ==_refl, ==_ne, ne_of_==, if◌then◌else◌,
  Bool-cases, Option-cases, inl, inr,
}
use mathlib.Core.Path.{fun_ext}
use s2e.ExecutionState.Klee.{ObjectPair, Klee}
use s2e.ExecutionState.Memory.{object_size, object_base, is_ram, write_bytes}
use s2e.ExecutionState.Memory.Copy.{ram_byte}

module _ {E : Type 0} where
  -- The function with the values of a list from an address on.
  abbrev pub overlay : ℕ → List E → (ℕ → Option E) → ℕ → Option E
  overlay h [] f = f
  overlay h (b ∷ bs) f = overlay (h + 1) bs (λ x. if h == x then some b else f x)

  pub overlay-append :
      (h : ℕ) (bs cs : List E) (f : ℕ → Option E)
      → overlay h (bs ++ cs) f ≡ overlay (h + length bs) cs (overlay h bs f)
  overlay-append h [] cs f = ap (λ n. overlay n cs f) (omega arith)
  overlay-append h (b ∷ bs) cs f =
      let f' : ℕ → Option E = λ x. if h == x then some b else f x in
      overlay-append (h + 1) bs cs f' ∙ ap (λ n. overlay n cs (overlay (h + 1) bs f')) (omega arith)

  pub overlay_before :
      (h : ℕ) (bs : List E) (f : ℕ → Option E) (x : ℕ) → x < h → overlay h bs f x ≡ f x
  overlay_before h [] f x lt = refl
  overlay_before h (b ∷ bs) f x lt =
      overlay_before (h + 1) bs (λ x. if h == x then some b else f x) x (omega arith)
      ∙ rw (==_ne h x (λ e. omega (arith, e))) refl

module _ {S E : Type 0} (k : Klee S E) where
  pub ram_byte_found :
      (s : S) (x : ℕ) (q : ObjectPair)
      → k.find_object s (object_base x) ≡ some q
      → is_ram q ≡ true
      → ram_byte k s x ≡ some (k.read8 s q.state (x % object_size))
  ram_byte_found s x q f is = rw (f, ram_byte, is) refl

  module _ (base : ℕ) (p : ObjectPair) (is : is_ram p ≡ true) (al : base % object_size ≡ 0) where
    -- One byte of the object's state is written.
    module _ (s : S) (i : ℕ) (e : E) (here : k.find_object s base ≡ some p)
        (lt : i < object_size) where
      s' : S
      s' = k.write8 s p.state i e

      bound : (x : ℕ) → k.find_object s' x ≡ k.find_object s x
      unfolding s'
      bound x = k.find-write8 s p.state i e x

      write_inside :
          (x : ℕ)
          → base ≡ object_base x
          → ram_byte k s' x ≡ (if base + i == x then some e else ram_byte k s x)
      unfolding s'
      write_inside x same =
          let f : k.find_object s (object_base x) ≡ some p =
            ap (k.find_object s) (sym same) ∙ here in
          ram_byte_found s' x p (bound (object_base x) ∙ f) is
          ∙ ap some (k.read8-write8 s p.state i e p.state (x % object_size))
          ∙ elim (Bool-cases (base + i == x)) [
            | inl t ↦
                let eq = (==_iff (base + i) x).0 t in
                let at : (i == x % object_size) ≡ true =
                  (==_iff i (x % object_size)).1 (omega (arith, eq)) in
                rw (t, at, ==_refl p.state) refl
            | inr n ↦
                let ne = ne_of_== (base + i) x n in
                let at : (i == x % object_size) ≡ false =
                  ==_ne i (x % object_size) (λ h. ne (omega (arith, h, same))) in
                rw (n, at, ==_refl p.state) (sym (ram_byte_found s x p f is))
          ]

      write_outside :
          (x : ℕ)
          → base ≢ object_base x
          → ram_byte k s' x ≡ (if base + i == x then some e else ram_byte k s x)
      unfolding s'
      write_outside x ne =
          let at : (base + i == x) ≡ false =
            ==_ne (base + i) x (λ h. ne (omega (arith, h, al, lt))) in
          elim (Option-cases (k.find_object s (object_base x))) [
            | inl f ↦ rw (at, bound (object_base x), ram_byte, f) refl
            | inr (q, f) ↦
                let apart : (p.state == q.state) ≡ false =
                  ==_ne p.state q.state
                    (λ h. ne (k.found_apart s base (object_base x) p q here f h)) in
                rw (at, bound (object_base x), ram_byte, f)
                  (ap (λ t. if is_ram q then some t else none)
                    (k.read8-write8 s p.state i e q.state (x % object_size)
                      ∙ ap
                          (λ b.
                            if b && i == x % object_size
                            then e
                            else k.read8 s q.state (x % object_size))
                          apart))
          ]

      pub ram_byte-write8 :
          ram_byte k (k.write8 s p.state i e)
          ≡ (λ x. if base + i == x then some e else ram_byte k s x)
      unfolding s'
      ram_byte-write8 = fun_ext λ x. elim (Bool-cases (base == object_base x)) [
        | inl t ↦ write_inside x ((==_iff base (object_base x)).0 t)
        | inr n ↦ write_outside x (ne_of_== base (object_base x) n)
      ]

    -- A run of bytes that stays in the object lies over the RAM as it was.
    pub ram_byte-write_bytes :
        (s : S) (i : ℕ) (bs : List E)
        → k.find_object s base ≡ some p
        → i + length bs ≤ object_size
        → (ram_byte k (write_bytes k s p.state i bs) ≡ overlay (base + i) bs (ram_byte k s))
          × ((x : ℕ) → k.find_object (write_bytes k s p.state i bs) x ≡ k.find_object s x)
    unfolding write_bytes
    ram_byte-write_bytes s i [] here fits = (refl, λ x. refl)
    ram_byte-write_bytes s i (b ∷ bs) here fits =
        let next = k.write8 s p.state i b in
        let (bytes, found) =
          ram_byte-write_bytes next (i + 1) bs (k.find-write8 s p.state i b base ∙ here)
            (omega arith) in
        (
          bytes
              ∙ ap (overlay (base + (i + 1)) bs) (ram_byte-write8 s i b here (omega arith))
              ∙ ap (λ n. overlay n bs (λ x. if base + i == x then some b else ram_byte k s x))
                  (omega arith),
          λ x. found x ∙ k.find-write8 s p.state i b x,
        )
