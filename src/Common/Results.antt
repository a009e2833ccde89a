-- ===== src/Common/Results.antt =====
-- What stops a run of the C++ code: a failed `assert`, an access out of bounds, a shift by the
-- width or more, an access through a null pointer, a use of what has been freed. A function that can stop so returns a `Result`.
use mathlib.Core.Path.{◌≡◌, refl}
use mathlib.Core.Bool.{Bool, true, false}

pub data Fault : Type 0 where
  assertion out_of_bounds bad_shift null_pointer use_after_free : Fault

pub data Result {ℓ} (A : Type ℓ) : Type ℓ where
  fault : Fault → Result A
  ok : A → Result A

pub ok-eq {ℓ} : {A : Type ℓ} (a b : A) → ok a ≡ ok b → a ≡ b
ok-eq a b h = cc

-- assert(b)
abbrev pub check : Bool → Result (Unit {0})
check b = elim b [ false ↦ fault assertion | true ↦ ok tt ]

-- One step after the other: a fault ends the run.
module _ {ℓ} {B : Type ℓ} where
  infixl 5 ◌>>◌
  abbrev pub ◌>>◌ : Result (Unit {0}) → Result B → Result B
  fault stop >> next = fault stop
  ok tt >> next = next

  module _ {κ} {A : Type κ} where
    infixl 5 ◌>>=◌
    abbrev pub ◌>>=◌ : Result A → (A → Result B) → Result B
    fault stop >>= next = fault stop
    ok value >>= next = next value

    -- A run that returns has returned from its first step.
    pub >>=-eq-ok :
        (run : Result A) (next : A → Result B) {b : B}
        → (run >>= next) ≡ ok b
        → (a : A) × (run ≡ ok a) × (next a ≡ ok b)
    >>=-eq-ok (fault stop) next h = cc
    >>=-eq-ok (ok value) next h = (value, refl, h)
