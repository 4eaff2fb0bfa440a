-- ===== src/Utils/Pool/Tests.antt =====
-- A pool of three objects, of which two are lent.
use nightcore.Prelude.{◌≡◌, refl, arith, [], ◌∷◌}
use nightcore.Utils.Pool.{Pool, get}
use nightcore.Utils.Pool.Lending.{IsLending, count, get-IsLending}

abbrev pool : Pool
pool = record { objs = 3; free_objs = 1 ∷ [] }

pool-IsLending : IsLending pool (2 ∷ 0 ∷ [])
unfolding IsLending
pool-IsLending a = ground arith

get-IsLending_example :
    (count (get pool).0 (2 ∷ 0 ∷ []) ≡ 0) × IsLending (get pool).1 ((get pool).0 ∷ 2 ∷ 0 ∷ [])
get-IsLending_example = get-IsLending pool (2 ∷ 0 ∷ []) pool-IsLending

grows : (get (get pool).1).0 ≡ 3
unfolding get
grows = refl
