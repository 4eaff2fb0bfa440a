-- ===== src/Worker/FuncWorker/Tests.antt =====
-- A worker with a function that invokes another one and returns its output.
use nightcore.Prelude.{ℕ, true, false, some, List, [], ◌∷◌}
use nightcore.Prelude.Int.{pos, negsuc}
use nightcore.Prelude.Names.{bytes}
use nightcore.Config.{Entry}
use nightcore.Protocol.{FuncCall}
use nightcore.Protocol.Message.{Message, new_func_call_complete_message}
use nightcore.Utils.Pool.{empty_pool}
use nightcore.Worker.WorkerLib.{Shared, pipe_buf_size}
use nightcore.Worker.FuncWorker.{FuncWorker, Outside, Program, finish, append_output, invoke}

abbrev call : FuncCall
call = record { func_id = 7; method_id = 0; client_id = 0; call_id = 5; padding = 0 }

abbrev nested : FuncCall
nested = record { func_id = 8; method_id = 0; client_id = 3; call_id = 0; padding = 0 }

abbrev shared : Shared
shared = record { input_regions = []; output_regions = []; output_fifos = [] }

-- Replies say that the output is in shared memory.
abbrev in_shared_memory : Message
in_shared_memory = record (new_func_call_complete_message nested (pos 9)) {
  payload_size = negsuc 2000;
}

abbrev outside : Outside
outside = record {
  system = record { shm_create = λ c. true; fifo_open = λ c. true; fifo_write = λ c n. some n };
  fifo_create = λ c. true;
  fifo_open = λ c. true;
  fifo_poll = λ c. true;
  send_message = λ m. true;
  reply = λ m. some in_shared_memory;
  meanwhile = λ m s. s;
  now = λ n. pos n;
}

abbrev bar : Entry
bar = record {
  func_name = bytes "Bar";
  func_id = 8;
  min_workers = pos 0;
  max_workers = pos 0;
  allow_http_get = false;
  qs_as_input = false;
  is_grpc_service = false;
  grpc_service_name = [];
  grpc_methods = [];
  grpc_method_ids = [];
}

abbrev worker : FuncWorker
worker = record {
  client_id = 3;
  func_config = record {
    entries = bar ∷ [];
    entries_by_func_name = (bytes "Bar", bar) ∷ [];
    entries_by_func_id = (8, bar) ∷ [];
  };
  use_fifo_for_nested_call = true;
  invoke_func_resources = [];
  buffer_pool_for_pipes = record { buffer_size = pipe_buf_size; buffers = empty_pool };
  ongoing_invoke_func = false;
  func_output_buffer = [];
  next_call_id = 0;
  current_func_call_id = 0;
  shared = shared;
  sent = [];
  readings = 0;
}

abbrev func : List ℕ → Program
func input = invoke (bytes "Bar") input λ output. append_output (1 ∷ 2 ∷ []) (finish (pos 0))

abbrev without_pipes : FuncWorker
without_pipes = record worker { use_fifo_for_nested_call = false }
