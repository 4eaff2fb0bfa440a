-- ===== src/Utils/RankingBst.antt =====
-- src/utils/bst.h: `RankingBST`, a search tree that knows the sizes of its subtrees. `lt` is the
-- `<` of the values. Nodes have no other owner, so a pointer to a node is the tree below it.
pub mod Order
mod Tests
use nightcore.Prelude.{
  ℕ, suc, ◌+◌, ◌-◌, Bool, true, false, ◌||◌, Option, none, some, List, [], ◌∷◌, ◌==◌, leb, ltb,
  if◌then◌else◌, replicate,
}
use nightcore.Prelude.Result.{Result, ok, err, ◌>>=◌, check_failed, null_pointer}

pub data Node (T : Type 0) : Type 0 where
  null : Node T
  node : Node T → Node T → T → ℕ → Node T

-- `node_pool` has the back of the vector first.
pub record RankingBst (T : Type 0) : Type 0 where
  pub root : Node T
  pub node_pool : List (Node T)

module _ {T : Type 0} where
  abbrev pub is_null : Node T → Bool
  is_null null = true
  is_null (node l r v s) = false

  -- A null pointer counts as an empty tree, as each test for null in the source has it.
  abbrev pub size_of : Node T → ℕ
  size_of null = 0
  size_of (node l r v s) = s

  -- The constructor; `junk` and `size` are what is in the nodes before they are used.
  unfoldable pub new_tree : ℕ → T → ℕ → RankingBst T
  new_tree initial junk size = record {
    root = null;
    node_pool = replicate initial (node null null junk size);
  }

  unfoldable pub clear : RankingBst T → RankingBst T
  clear b = record { root = null; node_pool = b.root ∷ b.node_pool }

  unfoldable pub size : RankingBst T → ℕ
  size b = size_of b.root

  abbrev pub push_child : Node T → List (Node T) → List (Node T)
  push_child child pool = if is_null child then pool else child ∷ pool

  -- A node of the pool gives its children to the pool first.
  unfoldable pub new_node : T → List (Node T) → Result (Node T × List (Node T))
  new_node value [] = ok (node null null value 1, [])
  new_node value (null ∷ pool) = err null_pointer
  new_node value (node l r v s ∷ pool) =
      ok (node null null value 1, push_child r (push_child l pool))

  unfoldable pub maintain : Node T → Node T → T → Node T
  maintain l r value = node l r value (1 + size_of l + size_of r)

  -- `value` is the value of `new`.
  unfoldable pub insert_internal : (T → T → Bool) → Node T → T → Node T → Node T
  unfolding maintain
  insert_internal lt null value new = new
  insert_internal lt (node l r current s) value new =
      let left = insert_internal lt l value new in
      let right = insert_internal lt r value new in
      if lt value current then maintain left r current else maintain l right current

  unfoldable pub insert : (T → T → Bool) → RankingBst T → T → Result (RankingBst T)
  insert lt b value = do
    (new, pool) ← new_node value b.node_pool
    ok (record { root = insert_internal lt b.root value new; node_pool = pool })

  unfoldable pub get_kth_element_internal : Node T → ℕ → Result T
  get_kth_element_internal null kth = err check_failed
  get_kth_element_internal (node l r value s) kth =
      let left = get_kth_element_internal l kth in
      let right = get_kth_element_internal r (kth - (size_of l + 1)) in
      if ltb kth (size_of l) then left else if kth == size_of l then ok value else right

  unfoldable pub get_kth_element : RankingBst T → ℕ → Result (Option T)
  get_kth_element b kth =
      if is_null b.root || leb (size_of b.root) kth
      then ok none
      else get_kth_element_internal b.root kth >>= λ value. ok (some value)
