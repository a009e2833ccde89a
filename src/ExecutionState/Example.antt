-- ===== src/ExecutionState/Example.antt =====
-- A small KLEE for the runs: RAM everywhere, in objects that are shared until they are written.
use s2e.Common.{
  ℕ, ◌+◌, ◌%◌, ◌≡◌, ◌≢◌, refl, arith, Bool, true, false, ◌&&◌, Option, none, some, ◌==◌, [], ◌∷◌,
  if◌then◌else◌,
}
use s2e.MemoryCache.{MemoryCache, init}
use s2e.MemoryCache.Pool.{init-AllAligned, pool_get-init}
use s2e.ExecutionState.Klee.{ObjectPair, Klee}
use s2e.ExecutionState.Memory.{State}
use s2e.ExecutionState.Memory.Coherence.{IsCoherent}

pub data Byte : Type 0 where
  concrete : ℕ → Byte
  symbol : ℕ → Byte

pub record Heap : Type 0 where
  pub copied : ℕ → Bool
  pub cell : ℕ → ℕ → Byte

abbrev pub object : Bool → ℕ → ObjectPair
object mine a = record {
  address = a;
  size = 128;
  user_specified = true;
  shared_concrete = false;
  state = if mine then a + 1 else a;
}

abbrev pub find : Heap → ℕ → Option ObjectPair
find s a = if a % 128 == 0 then some (object (s.copied a) a) else none

abbrev pub write : Heap → ℕ → ℕ → Byte → Heap
write s o i e = record s { cell = λ o' i'. if o == o' && i == i' then e else s.cell o' i' }

abbrev pub copy : Heap → ObjectPair → Option (Heap × ℕ)
copy s p =
    if s.copied p.address
    then none
    else some (
      record {
        copied = λ x. if p.address == x then true else s.copied x;
        cell = λ o i. if p.address + 1 == o then s.cell p.state i else s.cell o i;
      },
      p.address + 1,
    )

abbrev pub value : Byte → Option ℕ
value (concrete v) = some v
value (symbol v) = none

abbrev pub pick : Byte → ℕ
pick (concrete v) = v
pick (symbol v) = v

pub byte-value : (e : Byte) (v : ℕ) → value e ≡ some v → e ≡ concrete v
byte-value (concrete w) v h = ground arith
byte-value (symbol w) v h = cc

pub found : (s : Heap) (a : ℕ) (p : ObjectPair) → find s a ≡ some p → p.address ≡ a
found s a p h = ground arith

pub apart :
    (s : Heap) (a b : ℕ) (p q : ObjectPair)
    → find s a ≡ some p
    → find s b ≡ some q
    → p.state ≡ q.state
    → a ≡ b
apart s a b p q f g e = ground arith

pub find-copy :
    (s : Heap) (p : ObjectPair) (s' : Heap) (o : ℕ)
    → find s p.address ≡ some p
    → copy s p ≡ some (s', o)
    → (a : ℕ) → find s' a ≡ (if p.address == a then some (record p { state = o }) else find s a)
find-copy s p s' o f c a = ground arith

pub cell-copy :
    (s : Heap) (p : ObjectPair) (s' : Heap) (o : ℕ)
    → find s p.address ≡ some p
    → copy s p ≡ some (s', o)
    → (i : ℕ) → s'.cell o i ≡ s.cell p.state i
cell-copy s p s' o f c i = ground arith

pub cell-copy_other :
    (s : Heap) (p : ObjectPair) (s' : Heap) (o : ℕ)
    → find s p.address ≡ some p
    → copy s p ≡ some (s', o)
    → (a : ℕ) (q : ObjectPair) (i : ℕ) → find s a ≡ some q
    → a ≢ p.address
    → s'.cell q.state i ≡ s.cell q.state i
cell-copy_other s p s' o f c a q i g ne = ground arith

abbrev pub engine : Klee Heap Byte
engine = record {
  find_object = find;
  read8 = λ s o i. s.cell o i;
  write8 = write;
  own = copy;
  constant = value;
  byte = concrete;
  to_constant = λ s e. (s, pick e);
  constant-byte = λ v. refl;
  byte-constant = byte-value;
  found_address = found;
  found_apart = apart;
  find-write8 = λ s o i e a. refl;
  read8-write8 = λ s o i e o' i'. refl;
  find-own = find-copy;
  read8-own = cell-copy;
  read8-own_other = cell-copy_other;
  find-to_constant = λ s e a. refl;
  read8-to_constant = λ s e o i. refl;
}

-- 64 KB of RAM from 64 KB on with an empty cache; every byte is 0.
abbrev pub memory : Heap
memory = record { copied = λ a. false; cell = λ o i. concrete 0 }

abbrev pub cpu : ℕ → ObjectPair
cpu a = record { address = a; size = 1; user_specified = false; shared_concrete = false; state = a }

abbrev pub empty_cache : MemoryCache (Option ObjectPair)
empty_cache = init 0x10000 0x10000

abbrev pub start : State Heap
start = record {
  space = memory;
  memcache = empty_cache ∷ [];
  registers = cpu 5;
  system = cpu 6;
  active = true;
}

cpu_apart : (a r : ℕ) (p : ObjectPair) → find memory a ≡ some p → p.size ≡ 128 → r % 128 ≢ 0 → a ≢ r
cpu_apart a r p f z n = ground arith

pub start-IsCoherent : IsCoherent engine start
start-IsCoherent = record {
  aligned =
      init-AllAligned none 0x10000 0x10000 (omega arith) (omega arith) (omega arith) (omega arith);
  cached = λ a p m g.
      cc (
        pool_get-init {A = Option ObjectPair} none 0x10000 0x10000 (omega arith) (omega arith) a,
        g,
      );
  cpu_not_ram = λ a p f z. (cpu_apart a 5 p f z (omega arith), cpu_apart a 6 p f z (omega arith));
}
