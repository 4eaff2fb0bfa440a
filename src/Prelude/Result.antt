-- ===== src/Prelude/Result.antt =====
-- Code that can stop: a failed `CHECK`, `DCHECK` or null pointer ends the process, so a run gives a
-- value or a fault. A `DCHECK` counts as a check, as in a debug build.
use mathlib.Core.Bool.{Bool, true, false}
use mathlib.Core.Option.{Option, none, some}
use nightcore.Prelude.Tests.{if◌then◌else◌}

pub data Fault : Type 0 where
  check_failed null_pointer out_of_bounds uncaught_exception : Fault

pub data Result {ℓ} (A : Type ℓ) : Type ℓ where
  ok : A → Result A
  err : Fault → Result A

infixl 5 ◌>>=◌ ◌>>◌
abbrev pub ◌>>=◌ {ℓ κ} :
    {Value : Type ℓ} {Next : Type κ} → Result Value → (Value → Result Next) → Result Next
ok value >>= next = next value
err fault >>= next = err fault

abbrev pub ◌>>◌ {ℓ} : {B : Type ℓ} → Result (Unit {0}) → Result B → Result B
m >> k = m >>= λ _. k

-- `CHECK` and `DCHECK`.
abbrev pub check : Bool → Result (Unit {0})
check true = ok tt
check false = err check_failed

-- A pointer that is followed.
abbrev pub deref {ℓ} : {A : Type ℓ} → Option A → Result A
deref none = err null_pointer
deref (some a) = ok a

-- There is a value, and it satisfies `P`.
abbrev pub Returns {ℓ} : {A : Type ℓ} → Result A → (A → Type 0) → Type 0
Returns (ok a) P = P a
Returns (err e) P = ⊥

pub >>=-Returns {ℓ κ} :
    {A : Type ℓ} {B : Type κ} (m : Result A) (f : A → Result B) (P : A → Type 0) (Q : B → Type 0)
    → Returns m P
    → ((a : A) → P a → Returns (f a) Q)
    → Returns (m >>= f) Q
>>=-Returns (ok a) f P Q h k = k a h
>>=-Returns (err e) f P Q h k = absurd h

pub Returns-map {ℓ} :
    {A : Type ℓ} (m : Result A) {P Q : A → Type 0}
    → Returns m P
    → ((a : A) → P a → Q a)
    → Returns m Q
Returns-map (ok a) h k = k a h
Returns-map (err e) h k = h

pub if-Returns {ℓ} :
    {A : Type ℓ} (b : Bool) (x y : Result A) (P : A → Type 0)
    → Returns x P
    → Returns y P
    → Returns (if b then x else y) P
if-Returns true x y P h k = h
if-Returns false x y P h k = k
