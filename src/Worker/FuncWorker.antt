-- ===== src/Worker/FuncWorker.antt =====
-- src/worker/v1/func_worker.cpp: a worker that runs a function of a library, one call at a time. The
-- function is a tree of what it asks of its context; output and input buffers are their contents.
pub mod Invoke
pub mod Serve
mod Buffers
mod Answers
mod Stuck
mod Tests
use nightcore.Prelude.{
  ℕ, suc, ◌+◌, ◌/◌, ◌%◌, ◌^◌, Bool, true, false, not, Option, none, some, List, [], ◌∷◌, ◌++◌, leb,
  ◌==◌, if◌then◌else◌, length, is_some,
}
use nightcore.Prelude.Int.{ℤ, pos, neg_part, ◌-ℤ◌, eq_ℤ, ltb_ℤ, narrow32}
use nightcore.Prelude.Map.{lookup, insert, erase}
use nightcore.Prelude.Names.{Name}
use nightcore.Prelude.Result.{Result, ok, err, ◌>>=◌, ◌>>◌, check, check_failed}
use nightcore.Config.{FuncConfig, find_by_func_name}
use nightcore.Protocol.{FuncCall, full_call_id, new_func_call}
use nightcore.Protocol.Message.{
  Message, get_func_call_from_message, get_inline_data_from_message, is_dispatch_func_call_message,
  is_func_call_complete_message, is_func_call_failed_message, is_handshake_response_message,
  message_inline_data_size, new_func_call_failed_message, new_func_worker_handshake_message,
  set_dispatch_delay,
}
use nightcore.Utils.Pool.{BufferPool, get_buffer, give_back_buffer}
use nightcore.Worker.WorkerLib.{
  System, Shared, pipe_buf_size, set_fifo, func_call_finished, fifo_func_call_finished,
  prepare_new_func_call, get_func_call_input, fifo_get_func_call_output,
}

-- `sizeof(Message)`.
abbrev pub message_size : ℕ
message_size = 1024

-- What a function does with its context, ending in the value that it returns. An invocation goes on
-- with the output, or with none if it failed.
pub data Program : Type 0 where
  finish : ℤ → Program
  append_output : List ℕ → Program → Program
  invoke : Name → List ℕ → (Option (List ℕ) → Program) → Program

-- What the system and the rest of the node answer: whether a pipe for the output of a call can be
-- made, opened and read in time, whether a message can be sent, what comes back for an invocation
-- and what has been done to the shared memory and pipes by then, and the readings of the clock.
pub record Outside : Type 0 where
  pub system : System
  pub fifo_create : ℕ → Bool
  pub fifo_open : ℕ → Bool
  pub fifo_poll : ℕ → Bool
  pub send_message : Message → Bool
  pub reply : Message → Option Message
  pub meanwhile : Message → Shared → Shared
  pub now : ℕ → ℤ

-- What is kept for an output until its caller has finished: a region, or a buffer of the pool.
pub record InvokeFuncResource : Type 0 where
  pub func_call : FuncCall
  pub output_region : Bool
  pub pipe_buffer : Option ℕ

-- `sent` lists the messages to the engine, oldest first, `invoke_func_resources` has the last first,
-- and `readings` counts the readings of the clock.
pub record FuncWorker : Type 0 where
  pub client_id : ℕ
  pub func_config : FuncConfig
  pub use_fifo_for_nested_call : Bool
  pub invoke_func_resources : List InvokeFuncResource
  pub buffer_pool_for_pipes : BufferPool
  pub ongoing_invoke_func : Bool
  pub func_output_buffer : List ℕ
  pub next_call_id : ℕ
  pub current_func_call_id : ℕ
  pub shared : Shared
  pub sent : List Message
  pub readings : ℕ

-- A resource without a region or a buffer.
abbrev pub no_resource : FuncCall → InvokeFuncResource
no_resource c = record { func_call = c; output_region = false; pipe_buffer = none }

abbrev pub keep : FuncWorker → InvokeFuncResource → FuncWorker
keep w r = record w { invoke_func_resources = r ∷ w.invoke_func_resources }

abbrev pub erase_output : FuncCall → Shared → Shared
erase_output c s = record s { output_regions = erase (full_call_id c) s.output_regions }

abbrev pub erase_fifo : FuncCall → Shared → Shared
erase_fifo c s = record s { output_fifos = erase (full_call_id c) s.output_fifos }

abbrev pub erase_input : FuncCall → List ℕ → Shared → Shared
erase_input c input s =
    if leb (length input) message_inline_data_size
    then s
    else record s { input_regions = erase (full_call_id c) s.input_regions }

abbrev pub give_back_kept : Option ℕ → BufferPool → BufferPool
give_back_kept none pool = pool
give_back_kept (some x) pool = give_back_buffer x pool

-- Each buffer goes back, and each region goes.
unfoldable pub reclaim : List InvokeFuncResource → BufferPool → Shared → BufferPool × Shared
reclaim [] pool s = (pool, s)
reclaim (r ∷ rs) pool s =
    reclaim rs (give_back_kept r.pipe_buffer pool)
      (if r.output_region then erase_output r.func_call s else s)

unfoldable pub reclaim_invoke_func_resources : FuncWorker → FuncWorker
unfolding reclaim
reclaim_invoke_func_resources w =
    let (pool, s) = reclaim w.invoke_func_resources w.buffer_pool_for_pipes w.shared in
    record w { invoke_func_resources = []; buffer_pool_for_pipes = pool; shared = s }

module _ (o : Outside) where
  -- A message with its timestamp.
  unfoldable pub send : FuncWorker → Message → Result FuncWorker
  send w message = do
    let stamped = record message { send_timestamp = o.now w.readings }
    check (o.send_message stamped)
    ok (record w { sent = w.sent ++ stamped ∷ []; readings = suc w.readings })
