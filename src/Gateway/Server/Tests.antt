-- ===== src/Gateway/Server/Tests.antt =====
-- Runs of the gateway's server with two nodes, a limit of one call, and one call that waits.
use nightcore.Prelude.{
  ℕ, zero, suc, ◌≡◌, ◌≤◌, ◌↔◌, refl, arith, inr, true, false, some, [], ◌∷◌, get_elem?, ◌==◌,
}
use nightcore.Prelude.Int.{pos}
use nightcore.Prelude.Map.{lookup, size}
use nightcore.Prelude.Result.{Returns}
use nightcore.Protocol.{FuncCall, full_call_id}
use nightcore.Protocol.Gateway.{new_func_call_complete_gateway_message}
use nightcore.Prelude.Names.{
  Name, bytes, find_name, put_name, same_name, same_name_iff, starts_with, all_bytes,
}
use nightcore.Config.{Entry, FuncConfig, empty_config}
use nightcore.Config.Consistent.{IsConsistent, register-IsConsistent}
use nightcore.Config.Load.{register, validate_func_name}
use nightcore.Config.Methods.{IsMethodTable}
use nightcore.Gateway.Server.Front.{
  Front, Taken, on_new_grpc_func_call, on_new_grpc_func_call-Taken,
}
use nightcore.Gateway.Server.{
  Server, FuncCallState, at, pick_next_node, on_new_func_call_common, on_recv_engine_message,
}
use nightcore.Gateway.Server.Balance.{pick_next_node-least}
use nightcore.Gateway.Server.Bounds.{
  IsSound, on_new_func_call_common-IsSound, on_recv_engine_message-IsSound,
}

abbrev call : FuncCall
call = record { func_id = 7; method_id = 0; client_id = 0; call_id = 99; padding = 0 }

abbrev later : FuncCall
later = record { func_id = 7; method_id = 0; client_id = 0; call_id = 100; padding = 0 }

abbrev state : FuncCallState
state = record {
  func_call = call;
  connection_id = 1;
  context = 11;
  recv_timestamp = pos 900;
  dispatch_timestamp = pos 900;
}

abbrev waiting : FuncCallState
waiting = record state { func_call = later; context = 12; dispatch_timestamp = pos 0 }

abbrev server : Server
server = record {
  flags = record {
    lb_per_fn_round_robin = false;
    lb_pick_least_load = true;
    max_running_requests = 1;
  };
  draw = λ i n. 0;
  draws = 0;
  max_running_requests = 1;
  connected_node_set = (3, tt) ∷ (4, tt) ∷ [];
  connected_nodes = 3 ∷ 4 ∷ [];
  next_dispatch_node_idx = [];
  inflight_requests_per_node = (3, 1) ∷ [];
  running_func_calls = (full_call_id call, state) ∷ [];
  pending_func_calls = waiting ∷ [];
  discarded_func_calls = [];
  connections = (1, tt) ∷ [];
  last_request_timestamp = pos 950;
}

server-IsSound : IsSound server
unfolding lookup size
server-IsSound = record {
  bounded = inr (omega arith);
  turns = λ f n h. cc h;
  draws = λ i n h. h;
  serving = λ id s h. omega arith;
}

pick_next_node-least_example : Returns (pick_next_node server later) (λ r.
    (j : ℕ) × (get_elem? (3 ∷ 4 ∷ []) j ≡ some r.0)
    × ((k node : ℕ)
        → get_elem? (3 ∷ 4 ∷ []) k ≡ some node
        → at r.0 server.inflight_requests_per_node ≤ at node server.inflight_requests_per_node))
pick_next_node-least_example = pick_next_node-least server later refl refl (omega arith)

on_new_func_call_common-IsSound_example :
    Returns (on_new_func_call_common (λ node. true) server (pos 1000) 1 13 later) (λ r. IsSound r.0)
on_new_func_call_common-IsSound_example =
    on_new_func_call_common-IsSound (λ node. true) server (pos 1000) 1 13 later server-IsSound

on_recv_engine_message-IsSound_example :
    Returns
      (on_recv_engine_message
        (λ node. node == 4)
        server
        (pos 1000)
        3
        (new_func_call_complete_gateway_message call (pos 80))
        (5 ∷ 6 ∷ []))
      (λ r. IsSound r.0)
on_recv_engine_message-IsSound_example =
    on_recv_engine_message-IsSound (λ node. node == 4) server (pos 1000) 3
      (new_func_call_complete_gateway_message call (pos 80)) (5 ∷ 6 ∷ []) server-IsSound

abbrev service : Entry
service = record {
  func_name = bytes "grpc:a.B";
  func_id = 7;
  min_workers = pos 0;
  max_workers = pos 0;
  allow_http_get = false;
  qs_as_input = false;
  is_grpc_service = true;
  grpc_service_name = bytes "a.B";
  grpc_methods = bytes "G" ∷ [];
  grpc_method_ids = (bytes "G", 0) ∷ [];
}

service-ids :
    (name : Name) (i : ℕ)
    → (find_name name service.grpc_method_ids ≡ some i)
      ↔ (get_elem? service.grpc_methods i ≡ some name)
unfolding find_name
service-ids name zero = ground (arith, same_name_iff (bytes "G") name)
service-ids name (suc i) = ground (arith, same_name_iff (bytes "G") name)

service-IsMethodTable : IsMethodTable service
service-IsMethodTable = record { few = omega arith; ids = service-ids }

nothing-IsConsistent : IsConsistent empty_config
unfolding lookup find_name
nothing-IsConsistent = record { by_id = λ i e h. cc h; by_name = λ n e h. cc h }

abbrev config : FuncConfig
config = register empty_config service

config-IsConsistent : IsConsistent config
unfolding lookup find_name validate_func_name starts_with all_bytes
config-IsConsistent =
    register-IsConsistent empty_config service nothing-IsConsistent
      (refl, omega arith, omega arith, refl, refl, service-IsMethodTable)

abbrev front : Front
front = record { server = server; config = config; next_call_id = 100 }

on_new_grpc_func_call-Taken_example :
    Returns
      (on_new_grpc_func_call (λ node. true) front (pos 1000) 1 13 (bytes "grpc:a.B") (bytes "G"))
      (Taken (λ node. true) front (pos 1000) 1 13 (bytes "G") service)
on_new_grpc_func_call-Taken_example =
    on_new_grpc_func_call-Taken (λ node. true) front (pos 1000) 1 13 (bytes "grpc:a.B") (bytes "G")
      service 0 server-IsSound config-IsConsistent (unfold find_name put_name same_name in refl)
      refl (unfold find_name same_name in refl)
