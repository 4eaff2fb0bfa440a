-- ===== src/Engine/Dispatcher/State.antt =====
-- src/engine/dispatcher.h: the members of `Dispatcher`, and its constructor.
use nightcore.Prelude.{ℕ, ◌-◌, ◌^◌, Option, List, [], if◌then◌else◌}
use nightcore.Prelude.Int.{ℤ, pos, negsuc, pos_part, ltb_ℤ}
use nightcore.Prelude.Map.{Map}
use nightcore.Prelude.Result.{Result, ok, ◌>>=◌, deref}
use nightcore.Protocol.{FuncCall}
use nightcore.Protocol.Message.{Message}
use nightcore.Config.{FuncConfig, find_by_func_id}
use nightcore.Engine.World.{FuncWorker}

-- `func_call_info` is a pointer into the tracer's store, `none` for null.
pub record PendingFuncCall : Type 0 where
  pub dispatch_func_call_message : Message
  pub func_call_info : Option ℕ

-- `idle_workers` has the back of the vector first, `pending_func_calls` the front of the queue.
pub record Dispatcher : Type 0 where
  pub func_id : ℕ
  pub min_workers : ℕ
  pub max_workers : ℕ
  pub workers : Map FuncWorker
  pub running_workers : Map FuncCall
  pub idle_workers : List ℕ
  pub requested_workers : Map ℤ
  pub last_request_worker_timestamp : ℤ
  pub pending_func_calls : List PendingFuncCall
  pub assigned_workers : Map ℕ

-- `std::numeric_limits<size_t>::max()`.
abbrev pub size_max : ℕ
size_max = 2 ^ 64 - 1

-- The constructor; the entry of the configuration must be there.
unfoldable pub new_dispatcher : FuncConfig → ℕ → Result Dispatcher
new_dispatcher config func_id = do
  entry ← deref (find_by_func_id config func_id)
  ok (record {
    func_id = func_id;
    min_workers = (if ltb_ℤ (pos 0) entry.min_workers then pos_part entry.min_workers else 0);
    max_workers =
        (if ltb_ℤ (pos 0) entry.max_workers then pos_part entry.max_workers else size_max);
    workers = [];
    running_workers = [];
    idle_workers = [];
    requested_workers = [];
    last_request_worker_timestamp = negsuc 0;
    pending_func_calls = [];
    assigned_workers = [];
  })
