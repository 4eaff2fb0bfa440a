-- ===== src/Prelude/Names.antt =====
-- Names, which are lists of bytes, and `std::unordered_map` with names for keys.
use Prim.Native.Nat.{ℕ}
use Prim.Native.Char.{code}
use Prim.Native.String.{String}
use mathlib.Core.Path.{◌≡◌, refl}
use mathlib.Core.Logic.{◌↔◌}
use mathlib.Core.Bool.{Bool, true, false, ◌&&◌}
use mathlib.Core.List.{List, [], ◌∷◌}
use mathlib.Core.Option.{Option, none, some}
use native.Mathlib.Omega.{arith}
use nightcore.Prelude.Tests.{◌==◌, if◌then◌else◌, is_some}

abbrev pub Name : Type 0
Name = List ℕ

unfoldable pub same_name : Name → Name → Bool
same_name [] [] = true
same_name [] (b ∷ m) = false
same_name (a ∷ n) [] = false
same_name (a ∷ n) (b ∷ m) = (a == b) && same_name n m

-- `StartsWith`: the first occurrence of the prefix is at the start.
unfoldable pub starts_with : Name → Name → Bool
starts_with text [] = true
starts_with [] (p ∷ prefix) = false
starts_with (t ∷ text) (p ∷ prefix) = (t == p) && starts_with text prefix

-- Every byte passes a test.
unfoldable pub all_bytes : (ℕ → Bool) → Name → Bool
all_bytes test [] = true
all_bytes test (b ∷ m) = test b && all_bytes test m

pub same_name_iff : (n m : Name) → (same_name n m ≡ true) ↔ (n ≡ m)
unfolding same_name
same_name_iff [] [] = ground arith
same_name_iff [] (b ∷ m) = ground arith
same_name_iff (a ∷ n) [] = ground arith
same_name_iff (a ∷ n) (b ∷ m) = ground (arith, same_name_iff n m)

abbrev pub NameMap {ℓ} : Type ℓ → Type ℓ
NameMap V = List (Name × V)

module _ {ℓ} {V : Type ℓ} where
  unfoldable pub find_name : Name → NameMap V → Option V
  find_name name [] = none
  find_name name ((first, value) ∷ others) =
      if same_name first name then some value else find_name name others

  -- `map[name] = value`.
  unfoldable pub put_name : Name → V → NameMap V → NameMap V
  put_name name value [] = (name, value) ∷ []
  put_name name value ((first, old) ∷ others) =
      if same_name first name
      then (name, value) ∷ others
      else (first, old) ∷ put_name name value others

  abbrev pub has_name : Name → NameMap V → Bool
  has_name name names = is_some (find_name name names)

  pub find_name-put_name :
      (name probe : Name) (value : V) (names : NameMap V)
      → find_name probe (put_name name value names)
        ≡ (if same_name name probe then some value else find_name probe names)
  unfolding find_name put_name
  find_name-put_name name probe value [] = refl
  find_name-put_name name probe value ((first, old) ∷ others) = ground (
    arith,
    find_name-put_name name probe value others,
    same_name_iff name probe,
    same_name_iff first name,
    same_name_iff first probe,
  )

-- The bytes of a literal.
abbrev pub bytes : String → Name
bytes String.[] = []
bytes (String.◌∷◌ c s) = code c ∷ bytes s
