-- ===== src/Utils/Pool/Lending.antt =====
-- src/utils/object_pool.h: no object is lent twice.
use nightcore.Prelude.{ℕ, ◌+◌, ◌≡◌, arith, ltb, List, [], ◌∷◌, ◌==◌, if◌then◌else◌}
use nightcore.Utils.Pool.{Pool, get, give_back, take_back}

-- How often an object is in a list.
abbrev pub count : ℕ → List ℕ → ℕ
count a [] = 0
count a (x ∷ xs) = (if x == a then 1 else 0) + count a xs

-- Each object of the pool is free or lent, once.
unfoldable pub IsLending : Pool → List ℕ → Type 0
IsLending p lent = (a : ℕ) → count a p.free_objs + count a lent ≡ (if ltb a p.objs then 1 else 0)

IsGiven : List ℕ → ℕ × Pool → Type 0
unfolding IsLending
IsGiven lent r = (count r.0 lent ≡ 0) × IsLending r.1 (r.0 ∷ lent)

take_back-IsGiven :
    (objs : ℕ) (free lent : List ℕ)
    → IsLending (record { objs = objs; free_objs = free }) lent
    → IsGiven lent (take_back objs free)
unfolding IsLending IsGiven
take_back-IsGiven objs [] lent h = (ground (arith, h objs), λ a. ground (arith, h a, h objs))
take_back-IsGiven objs (x ∷ xs) lent h = (ground (arith, h x), λ a. ground (arith, h a))

-- When each object of a pool is free or lent, and once only: Get gives an object that is not lent,
-- and then each object is free or lent, and once only, with that one lent.
pub get-IsLending :
    (p : Pool) (lent : List ℕ)
    → IsLending p lent
    → (count (get p).0 lent ≡ 0) × IsLending (get p).1 ((get p).0 ∷ lent)
unfolding get IsGiven
get-IsLending p lent h = take_back-IsGiven p.objs p.free_objs lent h

pub give_back-IsLending :
    (x : ℕ) (p : Pool) (lent : List ℕ) → IsLending p (x ∷ lent) → IsLending (give_back x p) lent
unfolding give_back IsLending
give_back-IsLending x p lent h a = omega (arith, h a)
