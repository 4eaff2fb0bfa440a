-- ===== src/Worker/EventDriven/Tests.antt =====
-- A worker with one call that came in, and a function to call.
use nightcore.Prelude.{◌≡◌, refl, arith, true, false, none, some, [], ◌∷◌}
use nightcore.Prelude.Int.{pos}
use nightcore.Prelude.Map.{lookup}
use nightcore.Prelude.Names.{bytes, find_name, same_name}
use nightcore.Prelude.Result.{Returns, ok}
use nightcore.Config.{Entry}
use nightcore.Protocol.{FuncCall, full_call_id, new_func_call}
use nightcore.Protocol.Message.{
  Message, get_func_call_from_message, get_inline_data_from_message, first_bytes,
  new_func_call_complete_message,
}
use nightcore.Utils.Pool.{Pool}
use nightcore.Worker.EventDriven.{
  EventDrivenWorker, Outside, FuncWorkerState, IncomingFuncCallState, send, func_call_to_handle,
  get_associated_func_worker_state,
}
use nightcore.Worker.EventDriven.Calls.{on_func_execution_finished}
use nightcore.Worker.EventDriven.Completed.{made_and_reported, made_and_reported-IsCompleted}
use nightcore.Worker.EventDriven.Finished.{IsAnswered, IsSending, on_func_execution_finished_once}
use nightcore.Worker.EventDriven.Pipes.{completion}

abbrev foo : Entry
foo = record {
  func_name = bytes "Foo";
  func_id = 1;
  min_workers = pos 0;
  max_workers = pos 0;
  allow_http_get = false;
  qs_as_input = false;
  is_grpc_service = false;
  grpc_service_name = [];
  grpc_methods = [];
  grpc_method_ids = [];
}

abbrev outside : Outside
outside = record {
  system = record { shm_create = λ c. true; fifo_open = λ c. true; fifo_write = λ c n. some n };
  connect = some 5;
  open_input = λ c. 6;
  open_output = λ c. 7;
  fifo_create = λ c. true;
  fifo_open = λ c. some 8;
  send_message = λ fd m. true;
  now = λ n. pos n;
}

outside-IsSending : IsSending outside
outside-IsSending fd m = refl

abbrev state : IncomingFuncCallState
state = record {
  object = 0;
  func_call = record { func_id = 1; method_id = 0; client_id = 0; call_id = 0; padding = 0 };
  recv_client_id = 3;
  dispatch_delay = pos 2;
  start_timestamp = pos 0;
}

abbrev worker_state : FuncWorkerState
worker_state = record {
  client_id = 3;
  engine_sock_fd = 5;
  input_pipe_fd = 6;
  output_pipe_fd = 7;
  next_call_id = 4;
}

abbrev pool : Pool
pool = record { objs = 1; free_objs = [] }

abbrev worker : EventDrivenWorker
worker = record {
  use_fifo_for_nested_call = false;
  message_pipe_fd = 3;
  func_config = record {
    entries = foo ∷ [];
    entries_by_func_name = (bytes "Foo", foo) ∷ [];
    entries_by_func_id = (1, foo) ∷ [];
  };
  config_entry = foo;
  func_workers = (3, worker_state) ∷ [];
  func_worker_by_input_fd = (6, 3) ∷ [];
  incoming_func_call_pool = pool;
  incoming_func_calls = (1, state) ∷ [];
  outgoing_func_call_pool = record { objs = 0; free_objs = [] };
  outgoing_func_calls = [];
  outgoing_func_call_by_output_pipe_fd = [];
  shared = record { input_regions = []; output_regions = []; output_fifos = [] };
  readings = 0;
}

on_func_execution_finished_once_example :
    Returns (on_func_execution_finished outside worker 1 true (9 ∷ [])) (λ r.
      IsAnswered worker 1 7 0 r
      × (on_func_execution_finished outside r.0 1 false [] ≡ ok (r.0, [])))
unfolding lookup
on_func_execution_finished_once_example =
    on_func_execution_finished_once outside outside-IsSending worker 1 true (9 ∷ []) state
      worker_state refl refl false []

abbrev nested : FuncCall
nested = new_func_call 1 3 4

abbrev completed : Message
completed = record (new_func_call_complete_message nested (pos 5)) {
  payload_size = pos 2;
  inline_data = 8 ∷ 9 ∷ [];
}

made_and_reported-IsCompleted_example :
    Returns
      (made_and_reported outside worker 1 (bytes "Foo") (1 ∷ 2 ∷ []) worker_state completed)
      (λ r.
        (r.0 ≡ some (func_call_to_handle nested, true))
        × ((message : Message) × (get_func_call_from_message message ≡ ok nested)
            × (r.2 ≡ send 7 message ∷ completion nested (some (8 ∷ 9 ∷ [])) ∷ []))
        × (lookup (full_call_id nested) r.1.outgoing_func_calls ≡ none))
unfolding get_func_call_from_message get_inline_data_from_message first_bytes
    new_func_call_complete_message new_func_call
made_and_reported-IsCompleted_example =
    made_and_reported-IsCompleted outside outside-IsSending worker 1 worker_state refl
      (unfold get_associated_func_worker_state lookup in refl) (bytes "Foo") foo
      (unfold find_name same_name in refl) refl (1 ∷ 2 ∷ []) (omega arith) worker_state completed
      (some (8 ∷ 9 ∷ [])) (refl, refl, refl, refl)
