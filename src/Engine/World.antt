-- ===== src/Engine/World.antt =====
-- The state that the parts of the engine share: src/engine/tracer.h, src/engine/worker_manager.h and
-- the members of src/engine/engine.h that the dispatchers reach.
use nightcore.Prelude.{Option, ℕ, suc, Bool, List, ◌∷◌}
use nightcore.Prelude.Int.{ℤ}
use nightcore.Prelude.Map.{Map}
use nightcore.Protocol.{FuncCall}
use nightcore.Protocol.Message.{Message}
use nightcore.Utils.Average.{Doubles, ExpMovingAvg, ExpMovingAvgExt}
use nightcore.Config.{FuncConfig}

pub data FuncCallState : Type 0 where
  invalid received dispatched completed failed : FuncCallState

pub record FuncCallInfo : Type 0 where
  pub state : FuncCallState
  pub func_call : FuncCall
  pub parent_func_call : FuncCall
  pub input_size : ℕ
  pub output_size : ℕ
  pub recv_timestamp : ℤ
  pub dispatch_timestamp : ℤ
  pub finish_timestamp : ℤ
  pub assigned_worker : ℕ
  pub processing_time : ℤ
  pub dispatch_delay : Option ℤ
  pub total_queuing_delay : ℤ

-- A worker process, by its ids and by the connection that its messages go to.
pub record FuncWorker : Type 0 where
  pub func_id : ℕ
  pub client_id : ℕ
  pub connection : ℕ

pub record WorkerManager : Type 0 where
  pub next_client_id : ℕ
  pub launcher_connections : Map ℕ
  pub func_workers : Map FuncWorker

module _ (D : Doubles) where
  pub record PerFuncStatistics : Type 0 where
    pub inflight_requests : ℤ
    pub last_request_timestamp : ℤ
    pub instant_rps_ema : ExpMovingAvgExt D
    pub running_delay_ema : ExpMovingAvg D
    pub processing_time_ema : ExpMovingAvg D
    pub processing_time2_ema : ExpMovingAvg D

  -- `store` has the objects that the pool gave out; a pointer is an index of it. No code returns an
  -- object to the pool, so `Get` makes a new one each time. `per_func_stats` has no entry for a null
  -- pointer.
  pub record Tracer : Type 0 where
    pub store : List FuncCallInfo
    pub func_call_infos : Map ℕ
    pub per_func_stats : Map PerFuncStatistics

  -- The command-line flags that the engine's code reads.
  pub record Flags : Type 0 where
    pub max_relative_queueing_delay : D.F
    pub concurrency_limit_coef : D.F
    pub expected_concurrency_coef : D.F
    pub min_worker_request_interval_ms : ℤ
    pub always_request_worker_if_possible : Bool
    pub disable_concurrency_limiter : Bool
    pub instant_rps_p_norm : D.F
    pub instant_rps_ema_alpha : D.F
    pub instant_rps_ema_tau_ms : D.F
    pub func_worker_use_engine_socket : Bool
    pub use_fifo_for_nested_call : Bool

  -- `clock i` is the i-th reading of `GetMonotonicMicroTimestamp`, `fifo_create c` what making the two
  -- named pipes of client `c` returns. `sent` lists what was written to connections, newest first.
  pub record World : Type 0 where
    pub flags : Flags
    pub config : FuncConfig
    pub clock : ℕ → ℤ
    pub reads : ℕ
    pub fifo_create : ℕ → Bool
    pub tracer : Tracer
    pub manager : WorkerManager
    pub discarded_func_calls : List FuncCall
    pub sent : List (ℕ × Message)

module _ {D : Doubles} where
  abbrev pub now : World D → ℤ
  now w = w.clock w.reads

  -- One reading of the clock.
  abbrev pub tick : World D → World D
  tick w = record w { reads = suc w.reads }

  -- `MessageConnection::WriteMessage`, as far as the engine sees it.
  abbrev pub write_message : World D → ℕ → Message → World D
  write_message w connection message = record w { sent = (connection, message) ∷ w.sent }

  -- `FuncWorker::SendMessage`.
  unfoldable pub send_message : World D → FuncWorker → Message → World D
  send_message w worker message =
      write_message (tick w) worker.connection (record message { send_timestamp = now w })
