-- ===== src/Gateway/Server/Pick.antt =====
-- src/gateway/server.cpp: `PickNextNode` finds a node under each of the flags.
use nightcore.Prelude.{
  ℕ, suc, ◌<◌, ◌≡◌, refl, arith, inl, inr, Bool-cases, Option-cases, some, List, [], ◌∷◌, ◌==◌,
  length, get_elem?, get_elem?-lt, ◌%◌,
}
use native.Mathlib.Nat.{mod-lt}
use nightcore.Prelude.Map.{Map, lookup, lookup-insert}
use nightcore.Prelude.Result.{Returns}
use nightcore.Protocol.{FuncCall}
use nightcore.Gateway.Server.{Server, at, least_load, next_index, pick_next_node}
use nightcore.Gateway.Server.Balance.{least_load_best}

-- A node can be picked: there is one, the turns point to nodes, and draws stay below their limit.
pub record IsReady (s : Server) : Type 0 where
  pub nodes : 0 < length s.connected_nodes
  pub turns : (f n : ℕ) → lookup f s.next_dispatch_node_idx ≡ some n → n < length s.connected_nodes
  pub draws : (i n : ℕ) → 0 < n → s.draw i n < n

-- The parts that picking a node leaves as they are.
pub record SameCalls (s s' : Server) : Type 0 where
  pub ready : IsReady s'
  pub running : s'.running_func_calls ≡ s.running_func_calls
  pub limit : s'.max_running_requests ≡ s.max_running_requests

at-lt : (s : Server) (f : ℕ) → IsReady s → at f s.next_dispatch_node_idx < length s.connected_nodes
at-lt s f r = elim (Option-cases (lookup f s.next_dispatch_node_idx)) [
  | inl absent ↦ rw (absent, at) r.nodes
  | inr (n, there) ↦ rw (there, at) (r.turns f n there)
]

least-get :
    (loads : Map ℕ) (nodes : List ℕ)
    → 0 < length nodes
    → (node : ℕ) × (get_elem? nodes
          (elim nodes [ [] ↦ 0 | first ∷ more ↦ least_load loads more 1 0 (at first loads) ])
        ≡ some node)
least-get loads [] h = absurd (omega arith)
least-get loads (first ∷ more) h =
    let (node, there, above) = least_load_best loads first more in (node, there)

-- The index that is picked is that of a node.
next_index_lem :
    (s : Server) (c : FuncCall)
    → IsReady s
    → ((node : ℕ) × (get_elem? s.connected_nodes (next_index s c).0 ≡ some node))
      × SameCalls s (next_index s c).1
unfolding next_index
next_index_lem s c r = elim (Bool-cases s.flags.lb_per_fn_round_robin) [
  | inl round ↦ simp (round) (
    get_elem?-lt s.connected_nodes _ (at-lt s c.func_id r),
    record {
      ready = record {
        nodes = r.nodes;
        turns = λ f n h.
            let next = suc (at c.func_id s.next_dispatch_node_idx) % length s.connected_nodes in
            let made = lookup-insert c.func_id f next s.next_dispatch_node_idx in
            let below = mod-lt (suc (at c.func_id s.next_dispatch_node_idx)) r.nodes in
            elim (Bool-cases (c.func_id == f)) [
              | inl same ↦ ground (arith, below)
              | inr other ↦ r.turns f n (ground arith)
            ];
        draws = r.draws;
      };
      running = refl;
      limit = refl;
    },
  )
  | inr not_round ↦ elim (Bool-cases s.flags.lb_pick_least_load) [
    | inl least ↦
        simp (not_round, least)
          (
            least-get s.inflight_requests_per_node s.connected_nodes r.nodes,
            record { ready = r; running = refl; limit = refl },
          )
    | inr random ↦
        simp (not_round, random)
          (
            get_elem?-lt s.connected_nodes _ (r.draws s.draws (length s.connected_nodes) r.nodes),
            record {
              ready = record { nodes = r.nodes; turns = r.turns; draws = r.draws };
              running = refl;
              limit = refl;
            },
          )
  ]
]

pub pick_next_node_lem :
    (s : Server) (c : FuncCall) → IsReady s → Returns (pick_next_node s c) (λ r. SameCalls s r.1)
unfolding pick_next_node
pick_next_node_lem s c r =
    let ((node, there), same) = next_index_lem s c r in
    rw (there, pick_next_node)
      (record {
        ready = record {
          nodes = same.ready.nodes;
          turns = same.ready.turns;
          draws = same.ready.draws;
        };
        running = same.running;
        limit = same.limit;
      })
