-- ===== src/ExecutionState/Klee.antt =====
-- What S2EExecutionState asks of KLEE: its address space, the bytes of its object states and its
-- expressions. An expression of n bytes is the list of its bytes, the lowest first.
use s2e.Common.{ℕ, ◌≡◌, ◌≢◌, Bool, ◌&&◌, Option, some, ◌==◌, if◌then◌else◌}

-- klee::ObjectPair: a memory object and the identity of its object state.
pub record ObjectPair : Type 0 where
  pub address : ℕ
  pub size : ℕ
  pub user_specified : Bool
  pub shared_concrete : Bool
  pub state : ℕ

-- `S` holds the address space, the object states and the path constraints; `E` is the type of an
-- expression of one byte.
pub record Klee (S E : Type 0) : Type 0 where
  -- AddressSpace::findObject(address): the object that begins there.
  pub find_object : S → ℕ → Option ObjectPair
  -- ObjectState::read8(offset) and write8(offset, value)
  pub read8 : S → ℕ → ℕ → E
  pub write8 : S → ℕ → ℕ → E → S
  -- AddressSpace::getWriteable(): `none` where the state already owns the object state, else the
  -- copy that it makes and binds.
  pub own : S → ObjectPair → Option (S × ℕ)
  -- dyn_cast<ConstantExpr>, ConstantExpr::create
  pub constant : E → Option ℕ
  pub byte : ℕ → E
  -- S2EExecutor::toConstant(): picks a value and adds the constraint.
  pub to_constant : S → E → S × ℕ
  pub constant-byte : (v : ℕ) → constant (byte v) ≡ some v
  pub byte-constant : (e : E) (v : ℕ) → constant e ≡ some v → e ≡ byte v
  pub found_address : (s : S) (a : ℕ) (p : ObjectPair) → find_object s a ≡ some p → p.address ≡ a
  -- Two objects have two object states.
  pub found_apart :
      (s : S) (a b : ℕ) (p q : ObjectPair)
      → find_object s a ≡ some p
      → find_object s b ≡ some q
      → p.state ≡ q.state
      → a ≡ b
  pub find-write8 :
      (s : S) (o i : ℕ) (e : E) (a : ℕ) → find_object (write8 s o i e) a ≡ find_object s a
  pub read8-write8 :
      (s : S) (o i : ℕ) (e : E) (o' i' : ℕ)
      → read8 (write8 s o i e) o' i' ≡ (if o == o' && i == i' then e else read8 s o' i')
  pub find-own :
      (s : S) (p : ObjectPair) (s' : S) (o : ℕ)
      → find_object s p.address ≡ some p
      → own s p ≡ some (s', o)
      → (a : ℕ)
      → find_object s' a
        ≡ (if p.address == a then some (record p { state = o }) else find_object s a)
  pub read8-own :
      (s : S) (p : ObjectPair) (s' : S) (o : ℕ)
      → find_object s p.address ≡ some p
      → own s p ≡ some (s', o)
      → (i : ℕ) → read8 s' o i ≡ read8 s p.state i
  pub read8-own_other :
      (s : S) (p : ObjectPair) (s' : S) (o : ℕ)
      → find_object s p.address ≡ some p
      → own s p ≡ some (s', o)
      → (a : ℕ) (q : ObjectPair) (i : ℕ) → find_object s a ≡ some q
      → a ≢ p.address
      → read8 s' q.state i ≡ read8 s q.state i
  pub find-to_constant :
      (s : S) (e : E) (a : ℕ) → find_object (to_constant s e).0 a ≡ find_object s a
  pub read8-to_constant : (s : S) (e : E) (o i : ℕ) → read8 (to_constant s e).0 o i ≡ read8 s o i
