-- ===== src/Engine/Dispatcher/Events.antt =====
-- src/engine/dispatcher.cpp: what the engine calls, one event each.
use nightcore.Prelude.{
  ℕ, Bool, true, false, not, none, some, List, [], ◌∷◌, ◌++◌, ◌==◌, if◌then◌else◌,
}
use nightcore.Prelude.Int.{ℤ, pos, ◌-ℤ◌, narrow32}
use nightcore.Prelude.Map.{lookup, insert, erase, contains}
use nightcore.Prelude.Result.{Result, ok, ◌>>=◌, ◌>>◌, check}
use nightcore.Protocol.{FuncCall, full_call_id}
use nightcore.Protocol.Message.{Message, new_dispatch_func_call_message, set_inline_data_in_message}
use nightcore.Utils.Average.{Doubles}
use nightcore.Engine.World.{FuncWorker, World, tick}
use nightcore.Engine.Tracer
use nightcore.Engine.Tracer.{discard_func_call_info}
use nightcore.Engine.Dispatcher.State.{Dispatcher, PendingFuncCall}
use nightcore.Engine.Dispatcher.Dispatch.{
  push_idle, set_pending, dispatch_func_call, dispatch_pending_func_call, func_worker_finished,
  pick_idle_worker,
}

-- The worker is known, and no longer waited for.
unfoldable pub add_worker : Dispatcher → FuncWorker → Dispatcher
add_worker d worker = record d {
  workers = insert worker.client_id worker d.workers;
  requested_workers = erase worker.client_id d.requested_workers;
}

unfoldable pub forget_call : Dispatcher → FuncCall → Dispatcher
forget_call d c = record d { assigned_workers = erase (full_call_id c) d.assigned_workers }

-- The message of a new call, with its input inside or in shared memory.
unfoldable pub dispatch_message : FuncCall → ℕ → List ℕ → Bool → Result Message
dispatch_message c input_size inline_input shm_input =
    if shm_input
    then ok (record (new_dispatch_func_call_message c) {
      payload_size = pos 0 -ℤ narrow32 (pos input_size);
    })
    else set_inline_data_in_message (new_dispatch_func_call_message c) inline_input

unfoldable pub on_func_worker_disconnected : Dispatcher → FuncWorker → Result Dispatcher
on_func_worker_disconnected d worker = do
  check (d.func_id == worker.func_id)
  check (contains worker.client_id d.workers)
  ok (record d { workers = erase worker.client_id d.workers })

module _ {D : Doubles} where
  unfoldable pub on_func_worker_connected :
      Dispatcher → World D → FuncWorker → Result (Bool × Dispatcher × World D)
  on_func_worker_connected d w worker = do
    check (d.func_id == worker.func_id)
    check (not (contains worker.client_id d.workers))
    let w' = (if contains worker.client_id d.requested_workers then tick w else w)
    (dispatched, d', w'') ← dispatch_pending_func_call (add_worker d worker) w' worker
    ok (true, (if dispatched then d' else push_idle d' worker.client_id), w'')

  unfoldable pub on_new_func_call :
      Dispatcher
      → World D
      → FuncCall
      → FuncCall
      → ℕ
      → List ℕ
      → Bool
      → Result (Bool × Dispatcher × World D)
  on_new_func_call d w c parent input_size inline_input shm_input = do
    check (d.func_id == c.func_id)
    message ← dispatch_message c input_size inline_input shm_input
    (info, w1) ← Tracer.on_new_func_call w c parent input_size
    (idle_worker, d2, w2) ← pick_idle_worker d w1
    elim idle_worker [
      | some worker ↦ do (d3, w3) ← dispatch_func_call d2 w2 worker message; ok (true, d3, w3)
      | none ↦ do
        let queued : PendingFuncCall = record {
          dispatch_func_call_message = message;
          func_call_info = info;
        }
        ok (true, set_pending d2 (d2.pending_func_calls ++ queued ∷ []), w2)
    ]

  -- The common end of the next two: the worker of the call takes another, or is idle.
  unfoldable pub release_worker :
      Dispatcher → World D → FuncCall → Result (Bool × Dispatcher × World D)
  release_worker d w c = elim (lookup (full_call_id c) d.assigned_workers) [
    | none ↦ ok (true, d, w)
    | some client_id ↦ elim (lookup client_id d.workers) [
      | none ↦ ok (true, forget_call d c, w)
      | some worker ↦ do (d', w') ← func_worker_finished d w worker; ok (true, forget_call d' c, w')
    ]
  ]

  -- The two times go to the tracer in the other order, as in the source.
  unfoldable pub on_func_call_completed :
      Dispatcher → World D → FuncCall → ℤ → ℤ → ℕ → Result (Bool × Dispatcher × World D)
  unfolding release_worker
  on_func_call_completed d w c time delay output_size = do
    check (d.func_id == c.func_id)
    (info, w1) ← Tracer.on_func_call_completed w c delay time output_size
    elim info [
      | none ↦ ok (false, d, w1)
      | some pointer ↦ release_worker d (discard_func_call_info w1 c) c
    ]

  unfoldable pub on_func_call_failed :
      Dispatcher → World D → FuncCall → ℤ → Result (Bool × Dispatcher × World D)
  unfolding release_worker
  on_func_call_failed d w c delay = do
    check (d.func_id == c.func_id)
    (info, w1) ← Tracer.on_func_call_failed w c delay
    elim info [
      | none ↦ ok (false, d, w1)
      | some pointer ↦ release_worker d (discard_func_call_info w1 c) c
    ]
