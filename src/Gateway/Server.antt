-- ===== src/Gateway/Server.antt =====
-- src/gateway/server.cpp: how `Server` gives calls to nodes. What happens outside the lock, to
-- connections and engines, is a list of actions. Collectors that only report, with the time stamps per
-- function that only they use, and log lines are left out.
pub mod Balance
pub mod Pick
pub mod Bounds
mod Front
mod Tests
use nightcore.Prelude.{
  ℕ, suc, ◌+◌, ◌-◌, ◌*◌, ◌%◌, ◌^◌, Bool, true, false, not, ◌&&◌, ◌||◌, Option, none, some, List, [],
  ◌∷◌, ◌++◌, ◌==◌, leb, ltb, if◌then◌else◌, length, get_elem?, is_some,
}
use nightcore.Prelude.Int.{ℤ, pos, leb_ℤ, ◌+ℤ◌}
use nightcore.Prelude.Map.{Map, lookup, insert, erase, contains, size}
use nightcore.Prelude.Result.{Result, ok, err, ◌>>=◌, ◌>>◌, check, deref, out_of_bounds}
use nightcore.Protocol.{FuncCall, full_call_id}
use nightcore.Protocol.Gateway.{
  GatewayMessage, get_func_call_from_message, is_func_call_complete_message,
  is_func_call_failed_message,
}

-- `FuncCallContext::Status`.
pub data Status : Type 0 where
  created success failed no_node not_found : Status

-- `context` stands for the pointer to the call's context.
pub record FuncCallState : Type 0 where
  pub func_call : FuncCall
  pub connection_id : ℕ
  pub context : ℕ
  pub recv_timestamp : ℤ
  pub dispatch_timestamp : ℤ

-- The load-balancing flags, and the limit of running requests per node.
pub record Flags : Type 0 where
  pub lb_per_fn_round_robin : Bool
  pub lb_pick_least_load : Bool
  pub max_running_requests : ℕ

-- Sets are maps to the unit. `draw i n` is the i-th random index below n, and `draws` counts them.
pub record Server : Type 0 where
  pub flags : Flags
  pub draw : ℕ → ℕ → ℕ
  pub draws : ℕ
  pub max_running_requests : ℕ
  pub connected_node_set : Map (Unit {0})
  pub connected_nodes : List ℕ
  pub next_dispatch_node_idx : Map ℕ
  pub inflight_requests_per_node : Map ℕ
  pub running_func_calls : Map FuncCallState
  pub pending_func_calls : List FuncCallState
  pub discarded_func_calls : Map (Unit {0})
  pub connections : Map (Unit {0})
  pub last_request_timestamp : ℤ

-- A call is sent to an engine, or it is finished on its connection with a status and an output.
pub data Action : Type 0 where
  dispatch : ℕ → FuncCall → ℕ → Action
  finish : ℕ → ℕ → Status → List ℕ → Action

-- `map[key]` of a map to numbers, whose missing entries are 0.
abbrev pub at : ℕ → Map ℕ → ℕ
at key map = elim (lookup key map) [ none ↦ 0 | some n ↦ n ]

-- The loop for the least load: `idx` is the best so far, among the nodes before index `i`.
unfoldable pub least_load : Map ℕ → List ℕ → ℕ → ℕ → ℕ → ℕ
least_load loads [] i idx best = idx
least_load loads (node ∷ nodes) i idx best =
    let other = least_load loads nodes (suc i) i (at node loads) in
    let same = least_load loads nodes (suc i) idx best in
    if ltb (at node loads) best then other else same

-- The index of the next node, and the server after a draw or a turn.
unfoldable pub next_index : Server → FuncCall → ℕ × Server
unfolding least_load
next_index s c =
    if s.flags.lb_per_fn_round_robin
    then (
      at c.func_id s.next_dispatch_node_idx,
      record s {
        next_dispatch_node_idx =
            insert c.func_id
              (suc (at c.func_id s.next_dispatch_node_idx) % length s.connected_nodes)
              s.next_dispatch_node_idx;
      },
    )
    else if s.flags.lb_pick_least_load
    then (
      elim s.connected_nodes [
        | [] ↦ 0
        | first ∷ nodes ↦
            least_load s.inflight_requests_per_node nodes 1 0
              (at first s.inflight_requests_per_node)
      ],
      s,
    )
    else (s.draw s.draws (length s.connected_nodes), record s { draws = suc s.draws })

-- One more request in flight on the node; a `size_t` wraps.
unfoldable pub count_up : Map ℕ → ℕ → Map ℕ
count_up loads node = insert node (suc (at node loads) % 2 ^ 64) loads

unfoldable pub count_down : Map ℕ → ℕ → Map ℕ
count_down loads node = insert node ((at node loads + 2 ^ 64 - 1) % 2 ^ 64) loads

unfoldable pub pick_next_node : Server → FuncCall → Result (ℕ × Server)
pick_next_node s c =
    let picked = next_index s c in
    elim (get_elem? s.connected_nodes picked.0) [
      | none ↦ err out_of_bounds
      | some node ↦ ok (
        node,
        record (picked.1) {
          inflight_requests_per_node = count_up s.inflight_requests_per_node node;
        },
      )
    ]

-- `reachable` tells whether `PickConnection` finds a connection to the node's engine.
unfoldable pub dispatch_func_call :
    (ℕ → Bool) → Server → ℕ → ℕ → FuncCall → ℕ → Result (Server × List Action)
dispatch_func_call reachable s connection_id context c node =
    if reachable node then ok (s, dispatch node c context ∷ []) else do
      check (contains (full_call_id c) s.running_func_calls)
      ok (
        record s { running_func_calls = erase (full_call_id c) s.running_func_calls },
        finish connection_id context not_found [] ∷ [],
      )

-- The time of a request, which is later than that of the last one.
abbrev pub request_time : Server → ℤ → ℤ
request_time s reading =
    if leb_ℤ reading s.last_request_timestamp then s.last_request_timestamp +ℤ pos 1 else reading

-- The test that keeps a new call waiting.
abbrev pub overloaded : Server → Bool
overloaded s =
    ltb 0 s.max_running_requests && leb s.max_running_requests (size s.running_func_calls)

unfoldable pub on_new_func_call_common :
    (ℕ → Bool) → Server → ℤ → ℕ → ℕ → FuncCall → Result (Server × List Action)
on_new_func_call_common reachable s reading connection_id context c =
    let current = request_time s reading in
    let timed = record s { last_request_timestamp = current } in
    let state : FuncCallState = record {
      func_call = c;
      connection_id = connection_id;
      context = context;
      recv_timestamp = current;
      dispatch_timestamp = pos 0;
    } in
    if length s.connected_nodes == 0
    then ok (timed, finish connection_id context no_node [] ∷ [])
    else if overloaded s
    then ok (record timed { pending_func_calls = s.pending_func_calls ++ state ∷ [] }, [])
    else do
      let running = record timed {
        running_func_calls =
            insert (full_call_id c) (record state { dispatch_timestamp = current })
              s.running_func_calls;
      }
      (node, picked) ← pick_next_node running c
      dispatch_func_call reachable picked connection_id context c node

unfoldable pub discard_func_call : Server → FuncCall → Server
discard_func_call s c = record s {
  discarded_func_calls = insert (full_call_id c) tt s.discarded_func_calls;
}

-- The loop over the queue: the first call that was not discarded and whose connection is still open,
-- the queue behind it, and the discarded calls that were not met.
unfoldable pub next_pending :
    Map (Unit {0})
    → Map (Unit {0})
    → List FuncCallState
    → Option FuncCallState × List FuncCallState × Map (Unit {0})
next_pending connections discarded [] = (none, [], discarded)
next_pending connections discarded (state ∷ pending) =
    let id = full_call_id state.func_call in
    let dropped = next_pending connections (erase id discarded) pending in
    let closed = next_pending connections discarded pending in
    if contains id discarded
    then dropped
    else if contains state.connection_id connections
    then (some state, pending, discarded)
    else closed

-- The next call runs, if there is one.
unfoldable pub run_next :
    (ℕ → Bool) → Server → ℤ → Option FuncCallState → Result (Server × List Action)
run_next reachable s current none = ok (s, [])
run_next reachable s current (some state) = do
  let c = state.func_call
  let running = record s {
    running_func_calls =
        insert (full_call_id c) (record state { dispatch_timestamp = current })
          s.running_func_calls;
  }
  (node, picked) ← pick_next_node running c
  dispatch_func_call reachable picked state.connection_id state.context c node

-- The status and output of a call that has come back from an engine.
abbrev pub finished : GatewayMessage → FuncCallState → List ℕ → Action
finished m state payload =
    if is_func_call_complete_message m
    then finish state.connection_id state.context success payload
    else finish state.connection_id state.context failed []

-- The queue after a call has left: it is served if there is room.
unfoldable pub serve_pending : Server → Option FuncCallState × List FuncCallState × Map (Unit {0})
serve_pending s =
    if s.max_running_requests == 0 || ltb (size s.running_func_calls) s.max_running_requests
    then next_pending s.connections s.discarded_func_calls s.pending_func_calls
    else (none, s.pending_func_calls, s.discarded_func_calls)

unfoldable pub finish_running :
    (ℕ → Bool)
    → Server
    → ℤ
    → ℕ
    → GatewayMessage
    → FuncCall
    → FuncCallState
    → List ℕ
    → Result (Server × List Action)
finish_running reachable s current node m c state payload = do
  let id = full_call_id c
  let active =
      contains state.connection_id s.connections && not (contains id s.discarded_func_calls)
  let left = record s {
    discarded_func_calls = erase id s.discarded_func_calls;
    running_func_calls = erase id s.running_func_calls;
  }
  let served = serve_pending left
  let counted = record left {
    pending_func_calls = served.1;
    discarded_func_calls = served.2;
    inflight_requests_per_node = count_down s.inflight_requests_per_node node;
  }
  (s', actions) ← run_next reachable counted current served.0
  ok (s', (if active then finished m state payload ∷ actions else actions))

unfoldable pub on_recv_engine_message :
    (ℕ → Bool) → Server → ℤ → ℕ → GatewayMessage → List ℕ → Result (Server × List Action)
on_recv_engine_message reachable s current node m payload =
    if is_func_call_complete_message m || is_func_call_failed_message m
    then (do
      c ← get_func_call_from_message m
      elim (lookup (full_call_id c) s.running_func_calls) [
        | none ↦ ok (s, [])
        | some state ↦ finish_running reachable s current node m c state payload
      ])
    else ok (s, [])

-- The part of `OnEngineHandshake` that enters a new node.
unfoldable pub add_node : Server → ℕ → Server
add_node s node = if contains node s.connected_node_set then s else record s {
  connected_node_set = insert node tt s.connected_node_set;
  connected_nodes = s.connected_nodes ++ node ∷ [];
  max_running_requests = s.flags.max_running_requests * length (s.connected_nodes ++ node ∷ []);
}

-- The part of `OnConnectionClose` about the connections of callers.
unfoldable pub on_connection_close : Server → ℕ → Result Server
on_connection_close s connection_id = do
  check (contains connection_id s.connections)
  ok (record s { connections = erase connection_id s.connections })
