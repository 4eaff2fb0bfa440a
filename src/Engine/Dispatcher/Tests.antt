-- ===== src/Engine/Dispatcher/Tests.antt =====
-- Runs of the dispatcher of function 7 with one worker: idle, busy with a call, or gone.
use nightcore.Prelude.{
  ℕ, ◌+◌, ◌-◌, ◌*◌, ◌/◌, ◌^◌, ◌≡◌, ◌≤◌, refl, arith, inr, true, false, some, [], ◌∷◌, ltb, leb,
  ◌==◌, is_some,
}
use nightcore.Prelude.Int.{pos, pos_part}
use nightcore.Prelude.Map.{lookup, contains}
use nightcore.Prelude.Result.{Returns}
use nightcore.Protocol.{FuncCall, full_call_id, invalid_func_call}
use nightcore.Protocol.Message.{new_dispatch_func_call_message, set_func_call_in_message}
use nightcore.Utils.Average.{Doubles}
use nightcore.Config.{empty_config}
use nightcore.Engine.World.{FuncWorker, Flags, World}
use nightcore.Engine.Tracer.{new_info, new_per_func_statistics, pointer_of}
use nightcore.Engine.Dispatcher.State.{Dispatcher, PendingFuncCall}
use nightcore.Engine.Dispatcher.Limits.{determine_concurrency_limit}
use nightcore.Engine.Dispatcher.Dispatch.{dispatch_pending_func_call, pick_idle_worker}
use nightcore.Engine.Dispatcher.Events.{
  on_new_func_call, on_func_call_completed, on_func_call_failed, on_func_worker_connected,
  on_func_worker_disconnected,
}
use nightcore.Engine.Dispatcher.Queue.{IsTraced}
use nightcore.Engine.Dispatcher.Queue.Drain.{Served, queue_test, dispatch_pending_func_call_lem}
use nightcore.Engine.Dispatcher.Invariant.{Inv}
use nightcore.Engine.Dispatcher.Completed.{Records, on_func_call_completed_swaps}
use nightcore.Engine.Dispatcher.Disconnect.{Leaks, on_func_worker_disconnected-Leaks}
use nightcore.Engine.Dispatcher.Idle.{CanSpawn, determine_concurrency_limit_lem}
use nightcore.Engine.Dispatcher.Idle.Pick.{PickResult, pick_idle_worker_lem}
use nightcore.Engine.Dispatcher.Sound.{Sound}
use nightcore.Engine.Dispatcher.Sound.Calls.{
  on_func_call_completed-Sound, on_func_call_failed-Sound, on_func_worker_connected-Sound,
  on_func_worker_disconnected-Sound,
}
use nightcore.Engine.Dispatcher.Sound.NewCall.{IsPlaced, on_new_func_call-Sound}

-- Whole numbers as a coarse instance of floating point.
abbrev pub whole : Doubles
whole = record {
  F = ℕ;
  scaled = λ n k. pos_part n / 10 ^ k;
  add = λ x y. x + y;
  sub = λ x y. x - y;
  mul = λ x y. x * y;
  div = λ x y. x / y;
  log = λ x. x;
  exp = λ x. x;
  pow = λ x y. x ^ y;
  lt = ltb;
  le = leb;
  eq = λ x y. x == y;
  round = λ x. x;
}

abbrev flags : Flags whole
flags = record {
  max_relative_queueing_delay = 0;
  concurrency_limit_coef = 1;
  expected_concurrency_coef = 1;
  min_worker_request_interval_ms = pos 200;
  always_request_worker_if_possible = false;
  disable_concurrency_limiter = false;
  instant_rps_p_norm = 1;
  instant_rps_ema_alpha = 0;
  instant_rps_ema_tau_ms = 0;
  func_worker_use_engine_socket = true;
  use_fifo_for_nested_call = false;
}

abbrev pub call : FuncCall
call = record { func_id = 7; method_id = 0; client_id = 0; call_id = 99; padding = 0 }

abbrev pub later : FuncCall
later = record { func_id = 7; method_id = 1; client_id = 0; call_id = 100; padding = 0 }

-- The tracer knows `call` and not `later`.
abbrev pub world : World whole
world = record {
  flags = flags;
  config = empty_config;
  clock = λ i. pos (1000 + 10 * i);
  reads = 0;
  fifo_create = λ c. true;
  tracer = record {
    store = new_info call invalid_func_call 4 (pos 900) ∷ [];
    func_call_infos = (full_call_id call, 0) ∷ [];
    per_func_stats = (7, new_per_func_statistics flags) ∷ [];
  };
  manager = record { next_client_id = 6; launcher_connections = (7, 70) ∷ []; func_workers = [] };
  discarded_func_calls = [];
  sent = [];
}

abbrev worker : FuncWorker
worker = record { func_id = 7; client_id = 5; connection = 50 }

abbrev empty : Dispatcher
empty = record {
  func_id = 7;
  min_workers = 1;
  max_workers = 4;
  workers = [];
  running_workers = [];
  idle_workers = [];
  requested_workers = (5, pos 800) ∷ [];
  last_request_worker_timestamp = pos 800;
  pending_func_calls = [];
  assigned_workers = [];
}

abbrev pending : PendingFuncCall
pending = record {
  dispatch_func_call_message = new_dispatch_func_call_message call;
  func_call_info = some 0;
}

-- No worker yet, and a call that waits for one.
abbrev waiting : Dispatcher
waiting = record empty { pending_func_calls = pending ∷ [] }

abbrev pub idle : Dispatcher
idle = record empty { workers = (5, worker) ∷ []; idle_workers = 5 ∷ []; requested_workers = [] }

abbrev busy : Dispatcher
busy = record empty {
  workers = (5, worker) ∷ [];
  running_workers = (5, call) ∷ [];
  assigned_workers = (full_call_id call, 5) ∷ [];
}

traced : IsTraced 7 world
unfolding lookup
traced = record { in_range = omega arith; has_stats = refl; pointers = λ id p h. ground arith }

pub can_spawn : CanSpawn world
can_spawn = record { id_left = omega arith; pipes = refl }

waiting-Sound : Sound waiting world
unfolding lookup new_dispatch_func_call_message set_func_call_in_message
waiting-Sound = record {
  tables = record { keyed = λ c k h. cc h; runs = λ id c h. cc h; counted = λ c k h. cc h };
  traced = traced;
  queue = (((refl, refl), omega arith), tt);
}

idle-Inv : Inv idle
unfolding lookup
idle-Inv = record {
  keyed = λ c k h. ground arith;
  runs = λ id c h. cc h;
  counted = λ c k h. ground arith;
}

pub idle-Sound : Sound idle world
idle-Sound = record { tables = idle-Inv; traced = traced; queue = tt }

busy-Sound : Sound busy world
unfolding lookup
busy-Sound = record {
  tables = record {
    keyed = λ c k h. ground arith;
    runs = λ id c h. inr (call, ground arith, ground arith);
    counted = λ c k h. ground arith;
  };
  traced = traced;
  queue = tt;
}

dispatch_pending_func_call_lem_example :
    Returns
      (dispatch_pending_func_call (record waiting { workers = (5, worker) ∷ [] }) world worker)
      (Served 7 world
        (queue_test world 7)
        (record waiting { workers = (5, worker) ∷ [] })
        5
        (pending ∷ []))
unfolding lookup
dispatch_pending_func_call_lem_example =
    dispatch_pending_func_call_lem (record waiting { workers = (5, worker) ∷ [] }) world worker
      traced waiting-Sound.queue refl refl

determine_concurrency_limit_lem_example :
    Returns (determine_concurrency_limit idle world) (λ n. (1 ≤ n) × (n ≤ 4))
determine_concurrency_limit_lem_example =
    determine_concurrency_limit_lem idle world traced (omega arith)

pick_idle_worker_lem_example :
    Returns (pick_idle_worker idle world) (λ r. PickResult idle world r.0 (r.1, r.2))
pick_idle_worker_lem_example =
    pick_idle_worker_lem idle world idle-Inv traced (omega arith) can_spawn

on_new_func_call-Sound_example :
    Returns
      (on_new_func_call idle world later invalid_func_call 3 (1 ∷ 2 ∷ 3 ∷ []) false)
      (λ r. (r.0 ≡ true) × Sound r.1 r.2 × IsPlaced idle later r.1)
unfolding lookup full_call_id
on_new_func_call-Sound_example =
    on_new_func_call-Sound idle world later invalid_func_call 3 (1 ∷ 2 ∷ 3 ∷ []) false idle-Sound
      refl (omega arith) (omega arith) refl (omega arith) can_spawn

on_func_call_completed-Sound_example :
    Returns
      (on_func_call_completed busy world call (pos 40) (pos 5) 8)
      (λ r. (r.0 ≡ is_some (pointer_of world call)) × Sound r.1 r.2)
on_func_call_completed-Sound_example =
    on_func_call_completed-Sound busy world call (pos 40) (pos 5) 8 busy-Sound refl

on_func_call_failed-Sound_example :
    Returns
      (on_func_call_failed busy world call (pos 5))
      (λ r. (r.0 ≡ is_some (pointer_of world call)) × Sound r.1 r.2)
on_func_call_failed-Sound_example =
    on_func_call_failed-Sound busy world call (pos 5) busy-Sound refl

on_func_worker_connected-Sound_example :
    Returns (on_func_worker_connected waiting world worker) (λ r. (r.0 ≡ true) × Sound r.1 r.2)
unfolding lookup
on_func_worker_connected-Sound_example =
    on_func_worker_connected-Sound waiting world worker waiting-Sound refl refl refl

on_func_worker_disconnected-Sound_example :
    Returns
      (on_func_worker_disconnected busy worker)
      (λ r. Sound r world × (contains 5 r.workers ≡ false))
unfolding lookup
on_func_worker_disconnected-Sound_example =
    on_func_worker_disconnected-Sound busy world worker busy-Sound refl refl

on_func_worker_disconnected-Leaks_example : Returns (on_func_worker_disconnected busy worker) (λ d.
    Returns (on_func_call_completed d world call (pos 40) (pos 5) 8) (Leaks 5 call)
    × Returns (on_func_call_failed d world call (pos 5)) (Leaks 5 call))
unfolding lookup full_call_id
on_func_worker_disconnected-Leaks_example =
    on_func_worker_disconnected-Leaks busy world worker call 0 (pos 40) (pos 5) 8 busy-Sound refl
      refl refl refl refl

on_func_call_completed_swaps_example :
    Returns
      (on_func_call_completed busy world call (pos 40) (pos 5) 8)
      (λ r. Records r.2 0 (pos 5) (pos 40) 8)
unfolding lookup full_call_id
on_func_call_completed_swaps_example =
    on_func_call_completed_swaps busy world call (pos 40) (pos 5) 8 0 busy-Sound refl refl refl
