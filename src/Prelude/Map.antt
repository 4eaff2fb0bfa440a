-- ===== src/Prelude/Map.antt =====
-- `absl::flat_hash_map` with numbers for keys, as an association list. `insert` is `m[k] = v`.
use Prim.Native.Nat.{ℕ, suc, ◌+◌, ◌≤◌}
use mathlib.Core.Path.{◌≡◌, refl}
use mathlib.Core.Bool.{Bool, true}
use mathlib.Core.List.{List, [], ◌∷◌}
use mathlib.Core.Option.{Option, none, some}
use native.Mathlib.Omega.{arith}
use nightcore.Prelude.Tests.{◌==◌, if◌then◌else◌, is_some}
use nightcore.Prelude.Lists.{length}

abbrev pub Map {ℓ} : Type ℓ → Type ℓ
Map V = List (ℕ × V)

module _ {ℓ} {V : Type ℓ} where
  unfoldable pub lookup : ℕ → Map V → Option V
  lookup k [] = none
  lookup k ((key, value) ∷ rest) = if key == k then some value else lookup k rest

  unfoldable pub insert : ℕ → V → Map V → Map V
  insert k v [] = (k, v) ∷ []
  insert k v ((key, value) ∷ rest) =
      if key == k then (k, v) ∷ rest else (key, value) ∷ insert k v rest

  unfoldable pub erase : ℕ → Map V → Map V
  erase k [] = []
  erase k ((j, w) ∷ m) = let rest = erase k m in if j == k then rest else (j, w) ∷ rest

  abbrev pub contains : ℕ → Map V → Bool
  contains k m = is_some (lookup k m)

  unfoldable pub size : Map V → ℕ
  size m = length m

  pub lookup-insert :
      (key probe : ℕ) (value : V) (entries : Map V)
      → lookup probe (insert key value entries)
        ≡ (if key == probe then some value else lookup probe entries)
  unfolding lookup insert
  lookup-insert key probe value [] = refl
  lookup-insert key probe value (entry ∷ rest) = ground (arith, lookup-insert key probe value rest)

  pub lookup-erase :
      (k j : ℕ) (m : Map V) → lookup j (erase k m) ≡ (if k == j then none else lookup j m)
  unfolding lookup erase
  lookup-erase k j [] = ground arith
  lookup-erase k j ((i, w) ∷ m) = ground (arith, lookup-erase k j m)

  pub size-erase-le : (k : ℕ) (m : Map V) → size (erase k m) ≤ size m
  unfolding size erase
  size-erase-le k [] = omega arith
  size-erase-le k ((i, w) ∷ m) = ground (arith, size-erase-le k m)

  pub size-insert-le : (k : ℕ) (v : V) (m : Map V) → size (insert k v m) ≤ size m + 1
  unfolding size insert
  size-insert-le k v [] = omega arith
  size-insert-le k v ((i, w) ∷ m) = ground (arith, size-insert-le k v m)

  -- A key that is there is at least one entry.
  pub size-erase-lt : (k : ℕ) (m : Map V) → contains k m ≡ true → suc (size (erase k m)) ≤ size m
  unfolding size erase lookup
  size-erase-lt k [] h = ground arith
  size-erase-lt k ((i, w) ∷ m) h = ground (arith, size-erase-lt k m, size-erase-le k m)
