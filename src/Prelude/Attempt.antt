-- ===== src/Prelude/Attempt.antt =====
-- Code that gives up at the first failed step, with nothing but the failure to report.
use mathlib.Core.Path.{◌≡◌, refl, subst}
use mathlib.Core.Bool.{Bool, true, false}
use mathlib.Core.Option.{Option, none, some}
use nightcore.Prelude.Tests.{if◌then◌else◌}

infixl 5 ◌>>=◌ ◌>>◌
abbrev pub ◌>>=◌ {ℓ κ} :
    {Found : Type ℓ} {Next : Type κ} → Option Found → (Found → Option Next) → Option Next
none >>= later = none
some found >>= later = later found

abbrev pub ◌>>◌ {ℓ} : {Next : Type ℓ} → Option (Unit {0}) → Option Next → Option Next
m >> k = m >>= λ _. k

-- An early return on a failed test.
abbrev pub require : Bool → Option (Unit {0})
require true = some tt
require false = none

-- If there is a value, it satisfies `P`.
abbrev pub IfSome {ℓ} : {A : Type ℓ} → Option A → (A → Type 0) → Type 0
IfSome none P = Unit {0}
IfSome (some a) P = P a

pub >>=-IfSome {ℓ κ} :
    {A : Type ℓ} {B : Type κ} (m : Option A) (f : A → Option B) (Q : B → Type 0)
    → ((a : A) → m ≡ some a → IfSome (f a) Q)
    → IfSome (m >>= f) Q
>>=-IfSome none f Q k = tt
>>=-IfSome (some a) f Q k = k a refl

pub require-IfSome {ℓ} :
    {B : Type ℓ} (b : Bool) (f : Option B) (Q : B → Type 0)
    → (b ≡ true → IfSome f Q)
    → IfSome (require b >> f) Q
require-IfSome true f Q k = k refl
require-IfSome false f Q k = tt

pub if-IfSome {ℓ} :
    {B : Type ℓ} (b : Bool) (x y : Option B) (Q : B → Type 0)
    → (b ≡ true → IfSome x Q)
    → (b ≡ false → IfSome y Q)
    → IfSome (if b then x else y) Q
if-IfSome true x y Q h k = h refl
if-IfSome false x y Q h k = k refl

pub IfSome-elim {ℓ} :
    {A : Type ℓ} (m : Option A) (P : A → Type 0) (a : A) → IfSome m P → m ≡ some a → P a
IfSome-elim none P a h e = cc
IfSome-elim (some b) P a h e = subst (λ m. IfSome m P) e h
