-- ===== src/Utils/RankingBst/Tests.antt =====
-- Runs of the ranking tree on numbers.
use nightcore.Prelude.{ℕ, ◌≡◌, refl, arith, some, [], ◌∷◌, ltb}
use nightcore.Prelude.Result.{Returns}
use nightcore.Utils.RankingBst.{null, node, RankingBst, insert, get_kth_element}
use nightcore.Utils.RankingBst.Order.{
  IsOrder, IsValid, inorder, insert_sorted, insert_lem, get_kth_element_lem,
}

-- 3 at the root, 1 and 8 below it; a used node is in the pool.
abbrev tree : RankingBst ℕ
tree = record {
  root = node (node null null 1 1) (node null null 8 1) 3 3;
  node_pool = node null (node null null 7 1) 6 2 ∷ [];
}

ltb-IsOrder : IsOrder ltb
ltb-IsOrder = record { asym = λ x y h. ground arith; not_lt_trans = λ x y z h k. ground arith }

tree-IsValid : IsValid ltb tree
tree-IsValid = record {
  sized = ((tt, tt, refl), (tt, tt, refl), refl);
  sorted = ((refl, (refl, tt)), ((refl, tt), (tt, tt)));
  pool = (refl, tt);
}

insert_lem_example :
    Returns
      (insert ltb tree 3)
      (λ c. (inorder c.root ≡ insert_sorted ltb 3 (1 ∷ 3 ∷ 8 ∷ [])) × IsValid ltb c)
insert_lem_example = insert_lem ltb tree 3 ltb-IsOrder tree-IsValid

get_kth_element_lem_example : Returns (get_kth_element tree 2) (λ o. o ≡ some 8)
get_kth_element_lem_example = get_kth_element_lem ltb tree 2 tree-IsValid
