-- ===== src/Gateway/Server/Balance.antt =====
-- src/gateway/server.cpp: `PickNextNode` under the flag for the least load.
use nightcore.Prelude.{
  ℕ, zero, suc, ◌+◌, ◌≤◌, ◌<◌, ◌≡◌, refl, sym, ap, ◌∙◌, arith, ◌⊎◌, inl, inr, true, false,
  Bool-cases, some, List, [], ◌∷◌, ltb, ltb→lt, length, get_elem?,
}
use nightcore.Prelude.Map.{Map}
use nightcore.Prelude.Result.{Returns}
use nightcore.Protocol.{FuncCall}
use nightcore.Gateway.Server.{Server, at, least_load, next_index, pick_next_node}

-- No node of the list has a load below `n`.
abbrev pub AllLoads : Map ℕ → ℕ → List ℕ → Type 0
AllLoads loads n [] = Unit {0}
AllLoads loads n (node ∷ nodes) = (n ≤ at node loads) × AllLoads loads n nodes

AllLoads-le :
    (loads : Map ℕ) (n m : ℕ) (nodes : List ℕ)
    → n ≤ m
    → AllLoads loads m nodes
    → AllLoads loads n nodes
AllLoads-le loads n m [] h a = tt
AllLoads-le loads n m (node ∷ nodes) h a =
    let (first, rest) = a in (omega arith, AllLoads-le loads n m nodes h a.1)

-- What the loop finds among `nodes`, whose first index is `i`, and the best node before them.
least_load_lem :
    (loads : Map ℕ) (nodes : List ℕ) (i idx best : ℕ)
    → ((least_load loads nodes i idx best ≡ idx) × AllLoads loads best nodes)
      ⊎ ((k node : ℕ) × (least_load loads nodes i idx best ≡ i + k)
          × (get_elem? nodes k ≡ some node)
          × (at node loads < best)
          × AllLoads loads (at node loads) nodes)
unfolding least_load
least_load_lem loads [] i idx best = inl (refl, tt)
least_load_lem loads (node ∷ nodes) i idx best = elim (Bool-cases (ltb (at node loads) best)) [
  | inl less ↦ elim (least_load_lem loads nodes (suc i) i (at node loads)) [
    | inl (it, above) ↦
        rw less (inr (0, node, it ∙ omega arith, refl, ltb→lt _ _ less, (omega arith, above)))
    | inr (k, other, it, there, lower, above) ↦
        let first = ltb→lt (at node loads) best less in
        rw less (inr (suc k, other, it ∙ omega arith, there, omega arith, (omega arith, above)))
  ]
  | inr more ↦ elim (least_load_lem loads nodes (suc i) idx best) [
    | inl (it, above) ↦ rw more (inl (it, (ground arith, above)))
    | inr (k, other, it, there, lower, above) ↦
        rw more (inr (suc k, other, it ∙ omega arith, there, lower, (ground arith, above)))
  ]
]

AllLoads-get :
    (loads : Map ℕ) (n : ℕ) (nodes : List ℕ) (j node : ℕ)
    → AllLoads loads n nodes
    → get_elem? nodes j ≡ some node
    → n ≤ at node loads
AllLoads-get loads n [] j node a h = cc h
AllLoads-get loads n (x ∷ nodes) zero node a h = ground (arith, a.0)
AllLoads-get loads n (x ∷ nodes) (suc j) node a h = AllLoads-get loads n nodes j node a.1 h

one_more : (k : ℕ) → 1 + k ≡ suc k
one_more k = omega arith

-- The index that the loop finds for a list of nodes is that of a node with the least load.
pub least_load_best :
    (loads : Map ℕ) (first : ℕ) (nodes : List ℕ)
    → (node : ℕ) × (get_elem? (first ∷ nodes) (least_load loads nodes 1 0 (at first loads))
        ≡ some node)
      × AllLoads loads (at node loads) (first ∷ nodes)
least_load_best loads first nodes = elim (least_load_lem loads nodes 1 0 (at first loads)) [
  | inl (it, above) ↦ (first, ap (get_elem? (first ∷ nodes)) it, (omega arith, above))
  | inr (k, node, it, there, lower, above) ↦
      (node, ap (get_elem? (first ∷ nodes)) (it ∙ one_more k) ∙ there, (omega arith, above))
]

next_index-least :
    (s : Server) (c : FuncCall) (first : ℕ) (nodes : List ℕ)
    → s.flags.lb_per_fn_round_robin ≡ false
    → s.flags.lb_pick_least_load ≡ true
    → s.connected_nodes ≡ first ∷ nodes
    → (next_index s c).0
      ≡ least_load s.inflight_requests_per_node nodes 1 0 (at first s.inflight_requests_per_node)
unfolding next_index
next_index-least s c first nodes round least e = simp (round, least, e)

-- With the flag for the least load, and not the one for round robin, and at least one node,
-- PickNextNode returns a connected node, and no connected node has fewer requests in flight.
pub pick_next_node-least :
    (s : Server) (c : FuncCall)
    → s.flags.lb_per_fn_round_robin ≡ false
    → s.flags.lb_pick_least_load ≡ true
    → 0 < length s.connected_nodes
    → Returns (pick_next_node s c) (λ r.
      (j : ℕ) × (get_elem? s.connected_nodes j ≡ some r.0)
      × ((k node : ℕ)
          → get_elem? s.connected_nodes k ≡ some node
          → at r.0 s.inflight_requests_per_node ≤ at node s.inflight_requests_per_node))
unfolding pick_next_node
pick_next_node-least s c round least some_node = go s.connected_nodes refl
  where
    go :
        (nodes : List ℕ)
        → s.connected_nodes ≡ nodes
        → Returns (pick_next_node s c) (λ r.
          (j : ℕ) × (get_elem? s.connected_nodes j ≡ some r.0)
          × ((k node : ℕ)
              → get_elem? s.connected_nodes k ≡ some node
              → at r.0 s.inflight_requests_per_node ≤ at node s.inflight_requests_per_node))
    go [] e = absurd (omega (arith, ap length e))
    go (first ∷ nodes) e =
        let (node, there, above) = least_load_best s.inflight_requests_per_node first nodes in
        let found : get_elem? s.connected_nodes (next_index s c).0 ≡ some node =
          ap (λ l. get_elem? l (next_index s c).0) e
          ∙ ap (get_elem? (first ∷ nodes)) (next_index-least s c first nodes round least e)
          ∙ there in
        rw (found, pick_next_node)
          (
            (next_index s c).0,
            found,
            (λ k other h.
                AllLoads-get s.inflight_requests_per_node (at node s.inflight_requests_per_node)
                  (first ∷ nodes) k other above (ap (λ l. get_elem? l k) (sym e) ∙ h)),
          )
