-- ===== src/Worker/EventDriven.antt =====
-- src/worker/event_driven_worker.cpp: a worker whose runtime watches file descriptors and runs several
-- calls at once. Objects of the pools stand for their addresses, and a pointer to a call or to the
-- state of a worker is its key in the table that owns it.
pub mod Calls
pub mod Pipes
mod Finished
mod Completed
mod Tests
use nightcore.Prelude.{
  ℕ, suc, ◌%◌, ◌^◌, Bool, Option, none, some, List, [], ◌∷◌, leb, if◌then◌else◌, length,
}
use nightcore.Prelude.Int.{ℤ}
use nightcore.Prelude.Map.{Map, lookup, insert, erase}
use nightcore.Prelude.Names.{Name}
use nightcore.Prelude.Result.{Result, ok, ◌>>=◌, ◌>>◌, check}
use nightcore.Config.{Entry, FuncConfig}
use nightcore.Protocol.{FuncCall, full_call_id}
use nightcore.Protocol.Message.{Message, message_inline_data_size}
use nightcore.Utils.Pool.{Pool}
use nightcore.Worker.WorkerLib.{System, Shared}

-- What the system answers: descriptors for the engine's socket and for pipes by the client id or the
-- id of the call, whether pipes can be made and messages sent, and the readings of the clock.
pub record Outside : Type 0 where
  pub system : System
  pub connect : Option ℕ
  pub open_input : ℕ → ℕ
  pub open_output : ℕ → ℕ
  pub fifo_create : ℕ → Bool
  pub fifo_open : ℕ → Option ℕ
  pub send_message : ℕ → Message → Bool
  pub now : ℕ → ℤ

pub record FuncWorkerState : Type 0 where
  pub client_id : ℕ
  pub engine_sock_fd : ℕ
  pub input_pipe_fd : ℕ
  pub output_pipe_fd : ℕ
  pub next_call_id : ℕ

pub record IncomingFuncCallState : Type 0 where
  pub object : ℕ
  pub func_call : FuncCall
  pub recv_client_id : ℕ
  pub dispatch_delay : ℤ
  pub start_timestamp : ℤ

-- `input` is what is in the input region, if the input is large.
pub record OutgoingFuncCallState : Type 0 where
  pub object : ℕ
  pub func_call : FuncCall
  pub input : List ℕ
  pub output_pipe_fd : Option ℕ

-- Descriptors, client ids and full call ids are the keys. `readings` counts the readings of the clock.
pub record EventDrivenWorker : Type 0 where
  pub use_fifo_for_nested_call : Bool
  pub message_pipe_fd : ℕ
  pub func_config : FuncConfig
  pub config_entry : Entry
  pub func_workers : Map FuncWorkerState
  pub func_worker_by_input_fd : Map ℕ
  pub incoming_func_call_pool : Pool
  pub incoming_func_calls : Map IncomingFuncCallState
  pub outgoing_func_call_pool : Pool
  pub outgoing_func_calls : Map OutgoingFuncCallState
  pub outgoing_func_call_by_output_pipe_fd : Map ℕ
  pub shared : Shared
  pub readings : ℕ

-- Callbacks of the runtime, and messages to the engine by their descriptor.
pub data Action : Type 0 where
  watch_fd_readable : ℕ → Action
  stop_watch_fd : ℕ → Action
  incoming_func_call : ℕ → Name → List ℕ → Action
  outgoing_func_call_complete : ℕ → Bool → List ℕ → Action
  send : ℕ → Message → Action

abbrev pub Step : Type 0
Step = Result (EventDrivenWorker × List Action)

-- A handle is the 64-bit word of the call.
abbrev pub func_call_to_handle : FuncCall → ℕ
func_call_to_handle c = full_call_id c

abbrev pub tick : EventDrivenWorker → EventDrivenWorker
tick w = record w { readings = suc w.readings }

-- The input region goes with the state that owns it.
abbrev pub erase_input : FuncCall → List ℕ → Shared → Shared
erase_input c input s =
    if leb (length input) message_inline_data_size
    then s
    else record s { input_regions = erase (full_call_id c) s.input_regions }

abbrev pub erase_fifo : FuncCall → Shared → Shared
erase_fifo c s = record s { output_fifos = erase (full_call_id c) s.output_fifos }

-- A message to the engine, with its timestamp.
unfoldable pub send_message : Outside → EventDrivenWorker → ℕ → Message → Step
send_message o w fd message = do
  let stamped = record message { send_timestamp = o.now w.readings }
  check (o.send_message fd stamped)
  ok (tick w, send fd stamped ∷ [])

-- The worker that received a call, if both are known.
unfoldable pub get_associated_func_worker_state : EventDrivenWorker → ℕ → Option FuncWorkerState
get_associated_func_worker_state w handle = elim (lookup handle w.incoming_func_calls) [
  | none ↦ none
  | some state ↦ lookup state.recv_client_id w.func_workers
]
