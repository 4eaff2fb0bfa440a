-- ===== src/Gateway/Server/Bounds.antt =====
-- src/gateway/server.cpp: the limit of the running calls.
use nightcore.Prelude.{
  ℕ, ◌≤◌, ◌<◌, ◌≡◌, refl, ap, ◌∙◌, arith, ◌⊎◌, inl, inr, Bool, true, false, ◌&&◌, ◌||◌, Bool-cases,
  Option, none, some, List, [], ◌==◌, ==_iff, ltb→lt, leb, ltb, length,
}
use nightcore.Prelude.Int.{ℤ}
use nightcore.Prelude.Map.{
  Map, lookup, insert, erase, contains, size, size-erase-le, size-insert-le, lookup-insert,
}
use nightcore.Prelude.Result.{ok, Returns, >>=-Returns, ◌>>=◌}
use nightcore.Protocol.{FuncCall, full_call_id}
use nightcore.Protocol.Gateway.{
  GatewayMessage, get_func_call_from_message, is_func_call_complete_message,
  is_func_call_failed_message,
}
use nightcore.Gateway.Server.{
  Server, FuncCallState, Action, pick_next_node, dispatch_func_call, overloaded,
  on_new_func_call_common, run_next, serve_pending, finish_running, on_recv_engine_message,
}
use nightcore.Gateway.Server.Pick.{IsReady, pick_next_node_lem}

-- The limit is off, or at most so many calls run.
abbrev pub IsBounded : Server → Type 0
IsBounded s = (s.max_running_requests ≡ 0) ⊎ (size s.running_func_calls ≤ s.max_running_requests)

-- Between two events: the limit holds, the turns point to nodes, and calls run only if there is a
-- node.
pub record IsSound (s : Server) : Type 0 where
  pub bounded : IsBounded s
  pub turns : (f n : ℕ) → lookup f s.next_dispatch_node_idx ≡ some n → n < length s.connected_nodes
  pub draws : (i n : ℕ) → 0 < n → s.draw i n < n
  pub serving :
      (id : ℕ) (state : FuncCallState)
      → lookup id s.running_func_calls ≡ some state
      → 0 < length s.connected_nodes

IsBounded-by :
    (s t : Server)
    → t.max_running_requests ≡ s.max_running_requests
    → size t.running_func_calls ≤ size s.running_func_calls
    → IsBounded s
    → IsBounded t
IsBounded-by s t e le (inl off) = inl (e ∙ off)
IsBounded-by s t e le (inr b) = inr (omega (arith, e))

-- Sending a call that runs: it still runs, or it is finished.
dispatch_func_call_lem :
    (reachable : ℕ → Bool) (s : Server) (connection_id context node : ℕ) (c : FuncCall)
    → IsReady s
    → IsBounded s
    → contains (full_call_id c) s.running_func_calls ≡ true
    → Returns (dispatch_func_call reachable s connection_id context c node) (λ r. IsSound r.0)
unfolding dispatch_func_call
dispatch_func_call_lem reachable s connection_id context node c r b runs =
    elim (Bool-cases (reachable node)) [
      | inl yes_reached ↦ rw yes_reached (record {
        bounded = b;
        turns = r.turns;
        draws = r.draws;
        serving = λ id state h. r.nodes;
      })
      | inr not_reached ↦
          rw (not_reached, runs)
            (record {
              bounded =
                  IsBounded-by s
                    (record s { running_func_calls = erase (full_call_id c) s.running_func_calls })
                    refl (size-erase-le (full_call_id c) s.running_func_calls) b;
              turns = r.turns;
              draws = r.draws;
              serving = λ id state h. r.nodes;
            })
    ]

-- A call starts to run and is sent, while there is room for one.
start_lem :
    (reachable : ℕ → Bool) (s : Server) (connection_id context : ℕ) (c : FuncCall)
    → IsReady s
    → IsBounded s
    → contains (full_call_id c) s.running_func_calls ≡ true
    → Returns {A = Server × List Action}
        (pick_next_node s c >>= λ r. dispatch_func_call reachable r.1 connection_id context c r.0)
        (λ r. IsSound r.0)
start_lem reachable s connection_id context c r b runs =
    >>=-Returns (pick_next_node s c) _ _ _ (pick_next_node_lem s c r) (λ x same.
      dispatch_func_call_lem reachable x.1 connection_id context x.0 c same.ready
        (elim b [
          | inl off ↦ inl (same.limit ∙ off)
          | inr le ↦ inr (rw (same.limit, same.running) le)
        ])
        (ap (contains (full_call_id c)) same.running ∙ runs))

contains-insert : {V : Type 0} (k : ℕ) (v : V) (m : Map V) → contains k (insert k v m) ≡ true
contains-insert k v m = rw (lookup-insert k k v m, (==_iff k k).1 refl) refl

-- Room for one more call.
HasRoom : Server → Type 0
HasRoom s = (s.max_running_requests ≡ 0) ⊎ (size s.running_func_calls < s.max_running_requests)

room_for :
    (limit : ℕ) (running : Map FuncCallState) (id : ℕ) (state : FuncCallState)
    → (limit ≡ 0) ⊎ (size running < limit)
    → (limit ≡ 0) ⊎ (size (insert id state running) ≤ limit)
room_for limit running id state (inl off) = inl off
room_for limit running id state (inr lt) =
    let grown = size-insert-le id state running in inr (omega arith)

not_overloaded :
    (limit used : ℕ) → (ltb 0 limit && leb limit used) ≡ false → (limit ≡ 0) ⊎ (used < limit)
not_overloaded limit used h = elim (Bool-cases (limit == 0)) [
  | inl off ↦ inl ((==_iff limit 0).0 off)
  | inr on ↦ inr (ground arith)
]

-- A new call on a sound gateway server: OnNewFuncCallCommon returns, and keeps the server sound,
-- so that no more calls run than the limit allows.
pub on_new_func_call_common-IsSound :
    (reachable : ℕ → Bool) (s : Server) (reading : ℤ) (connection_id context : ℕ) (c : FuncCall)
    → IsSound s
    → Returns
        (on_new_func_call_common reachable s reading connection_id context c)
        (λ r. IsSound r.0)
unfolding on_new_func_call_common
on_new_func_call_common-IsSound reachable s reading connection_id context c h =
    elim (Bool-cases (length s.connected_nodes == 0)) [
      | inl none_there ↦
          rw (none_there)
            (record { bounded = h.bounded; turns = h.turns; draws = h.draws; serving = h.serving })
      | inr some_there ↦ elim (Bool-cases (overloaded s)) [
        | inl full ↦
            rw (some_there, full)
              (record {
                bounded = h.bounded;
                turns = h.turns;
                draws = h.draws;
                serving = h.serving;
              })
        | inr free ↦
            rw (some_there, free)
              (start_lem reachable _ connection_id context c
                (record { nodes = ground arith; turns = h.turns; draws = h.draws })
                (room_for s.max_running_requests s.running_func_calls (full_call_id c) _
                  (not_overloaded _ _ free))
                (contains-insert (full_call_id c) _ s.running_func_calls))
      ]
    ]

serve_pending_room :
    (s : Server) {state : FuncCallState} → (serve_pending s).0 ≡ some state → HasRoom s
unfolding serve_pending HasRoom
serve_pending_room s h = elim (Bool-cases (s.max_running_requests == 0)) [
  | inl off ↦ inl ((==_iff s.max_running_requests 0).0 off)
  | inr on ↦ elim (Bool-cases (ltb (size s.running_func_calls) s.max_running_requests)) [
    | inl room ↦ inr (ltb→lt _ _ room)
    | inr full ↦ cc (rw (on, full) at h)
  ]
]

-- The next call starts, if the queue gave one, which it does only if there is room.
run_next_lem :
    (reachable : ℕ → Bool) (s : Server) (current : ℤ) (next : Option FuncCallState)
    → IsReady s
    → IsBounded s
    → ((state : FuncCallState) → next ≡ some state → HasRoom s)
    → Returns (run_next reachable s current next) (λ r. IsSound r.0)
unfolding run_next HasRoom
run_next_lem reachable s current none r b room = record {
  bounded = b;
  turns = r.turns;
  draws = r.draws;
  serving = λ id state h. r.nodes;
}
run_next_lem reachable s current (some state) r b room =
    start_lem reachable _ state.connection_id state.context state.func_call
      (record { nodes = r.nodes; turns = r.turns; draws = r.draws })
      (room_for s.max_running_requests s.running_func_calls (full_call_id state.func_call) _
        (room state refl))
      (contains-insert (full_call_id state.func_call) _ s.running_func_calls)

finish_running_lem :
    (reachable : ℕ → Bool) (s : Server) (current : ℤ) (node : ℕ) (m : GatewayMessage) (c : FuncCall)
    (state : FuncCallState) (payload : List ℕ)
    → IsSound s
    → lookup (full_call_id c) s.running_func_calls ≡ some state
    → Returns (finish_running reachable s current node m c state payload) (λ r. IsSound r.0)
unfolding finish_running HasRoom
finish_running_lem reachable s current node m c state payload h there =
    let left = record s {
      discarded_func_calls = erase (full_call_id c) s.discarded_func_calls;
      running_func_calls = erase (full_call_id c) s.running_func_calls;
    } in
    >>=-Returns (run_next reachable _ current (serve_pending left).0) _ _ _
      (run_next_lem reachable _ current (serve_pending left).0
        (record {
          nodes = h.serving (full_call_id c) state there;
          turns = h.turns;
          draws = h.draws;
        })
        (IsBounded-by s left refl (size-erase-le (full_call_id c) s.running_func_calls) h.bounded)
        (λ next e. serve_pending_room left e))
      (λ r sound. sound)

get_func_call_lem :
    (m : GatewayMessage)
    → (is_func_call_complete_message m || is_func_call_failed_message m) ≡ true
    → Returns (get_func_call_from_message m) (λ c. Unit {0})
unfolding get_func_call_from_message
get_func_call_lem m h = elim (Bool-cases (is_func_call_complete_message m)) [
  | inl complete ↦ ground (arith, complete)
  | inr other ↦ ground (arith, other, h)
]

-- A message of an engine to a sound gateway server: OnRecvEngineMessage returns, and keeps the
-- server sound, so that no more calls run than the limit allows.
pub on_recv_engine_message-IsSound :
    (reachable : ℕ → Bool) (s : Server) (current : ℤ) (node : ℕ) (m : GatewayMessage)
    (payload : List ℕ)
    → IsSound s
    → Returns (on_recv_engine_message reachable s current node m payload) (λ r. IsSound r.0)
unfolding on_recv_engine_message
on_recv_engine_message-IsSound reachable s current node m payload h =
    elim (Bool-cases (is_func_call_complete_message m || is_func_call_failed_message m)) [
      | inr other ↦ rw other h
      | inl ended ↦ rw ended (
          >>=-Returns (get_func_call_from_message m) _ _ _ (get_func_call_lem m ended)
            (λ c _. by_call c (lookup (full_call_id c) s.running_func_calls) refl))
    ]
  where
    by_call :
        (c : FuncCall) (o : Option FuncCallState)
        → lookup (full_call_id c) s.running_func_calls ≡ o
        → Returns {A = Server × List Action}
            (elim o [
              | none ↦ ok (s, [])
              | some state ↦ finish_running reachable s current node m c state payload
            ])
            (λ r. IsSound r.0)
    by_call c none e = h
    by_call c (some state) e = finish_running_lem reachable s current node m c state payload h e
