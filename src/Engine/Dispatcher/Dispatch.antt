-- ===== src/Engine/Dispatcher/Dispatch.antt =====
-- src/engine/dispatcher.cpp: giving a call to a worker, now or from the queue.
use nightcore.Prelude.{
  ℕ, Bool, true, false, not, ◌||◌, Option, none, some, List, [], ◌∷◌, ◌++◌, ◌==◌, leb,
  if◌then◌else◌,
}
use nightcore.Prelude.Int.{ℤ, ◌-ℤ◌}
use nightcore.Prelude.Map.{lookup, insert, erase, contains, size}
use nightcore.Prelude.Result.{Result, ok, ◌>>=◌, ◌>>◌, check, deref}
use nightcore.Protocol.{FuncCall, full_call_id}
use nightcore.Protocol.Message.{Message, get_func_call_from_message}
use nightcore.Utils.Average.{Doubles, of_ℤ, of_ℕ}
use nightcore.Engine.World.{FuncWorker, FuncCallInfo, Flags, World, now, tick, send_message}
use nightcore.Engine.Tracer.{
  info_at, on_func_call_dispatched, discard_func_call_info, get_average_processing_time,
}
use nightcore.Engine.Dispatcher.State.{Dispatcher, PendingFuncCall}
use nightcore.Engine.Dispatcher.Limits.{determine_concurrency_limit, may_request_new_func_worker}

-- The dispatcher after a call is given to a worker.
unfoldable pub assign : Dispatcher → ℕ → FuncCall → Dispatcher
assign d client_id c = record d {
  assigned_workers = insert (full_call_id c) client_id d.assigned_workers;
  running_workers = insert client_id c d.running_workers;
}

unfoldable pub push_idle : Dispatcher → ℕ → Dispatcher
push_idle d client_id = record d { idle_workers = client_id ∷ d.idle_workers }

abbrev pub set_pending : Dispatcher → List PendingFuncCall → Dispatcher
set_pending d pending = record d { pending_func_calls = pending }

abbrev pub set_idle : Dispatcher → List ℕ → Dispatcher
set_idle d idle = record d { idle_workers = idle }

-- A worker of the idle list that can take a call: it is connected and does not run one.
unfoldable pub usable : Dispatcher → ℕ → Option FuncWorker
usable d client_id =
    if contains client_id d.running_workers then none else lookup client_id d.workers

module _ {D : Doubles} where
  unfoldable pub dispatch_func_call :
      Dispatcher → World D → FuncWorker → Message → Result (Dispatcher × World D)
  dispatch_func_call d w worker message = do
    check (contains worker.client_id d.workers)
    check (not (contains worker.client_id d.running_workers))
    c ← get_func_call_from_message message
    (info, w') ← on_func_call_dispatched w c worker
    ok (assign d worker.client_id c, send_message w' worker message)

  -- `Engine::DiscardFuncCall`, and the tracer's record of the call.
  unfoldable pub discard_func_call : World D → FuncCall → World D
  discard_func_call w c =
      let w' = record w { discarded_func_calls = w.discarded_func_calls ++ c ∷ [] } in
      discard_func_call_info w' c

  -- Whether a queued call may still run: it is external, or it has not waited too long.
  unfoldable pub still_wanted : Flags D → D.F → ℤ → FuncCall → Bool
  still_wanted flags average delay c =
      c.client_id == 0
      || (D.eq flags.max_relative_queueing_delay (of_ℕ D 0)
          || D.le (of_ℤ D delay) (D.mul flags.max_relative_queueing_delay average))

  -- The tracer's object that a queued call points to.
  unfoldable pub info_of : World D → PendingFuncCall → Result FuncCallInfo
  info_of w p = do pointer ← deref p.func_call_info; deref (info_at w pointer)

  -- The loop over the queue, whose rounds end with the first call that is still wanted.
  unfoldable pub pending_loop :
      List PendingFuncCall
      → Dispatcher
      → World D
      → FuncWorker
      → D.F
      → ℤ
      → Result (Bool × Dispatcher × World D)
  pending_loop [] d w worker average current = ok (false, set_pending d [], w)
  pending_loop (p ∷ more) d w worker average current = do
    info ← info_of w p
    c ← get_func_call_from_message p.dispatch_func_call_message
    let rest = pending_loop more d (discard_func_call w c) worker average current
    let run = (do
      (d', w') ← dispatch_func_call (set_pending d more) w worker p.dispatch_func_call_message
      ok (true, d', w'))
    if still_wanted w.flags average (current -ℤ info.recv_timestamp) c then run else rest

  -- The early return on an empty queue; otherwise the clock and the average are read once.
  unfoldable pub serve_queue :
      List PendingFuncCall
      → Dispatcher
      → World D
      → FuncWorker
      → Result (Bool × Dispatcher × World D)
  serve_queue [] d w worker = ok (false, d, w)
  serve_queue (p ∷ more) d w worker = do
    average ← get_average_processing_time w d.func_id
    pending_loop (p ∷ more) d (tick w) worker average (now w)

  unfoldable pub dispatch_pending_func_call :
      Dispatcher → World D → FuncWorker → Result (Bool × Dispatcher × World D)
  dispatch_pending_func_call d w worker = serve_queue d.pending_func_calls d w worker

  unfoldable pub func_worker_finished :
      Dispatcher → World D → FuncWorker → Result (Dispatcher × World D)
  func_worker_finished d w worker = do
    check (contains worker.client_id d.workers)
    check (contains worker.client_id d.running_workers)
    let free = record d { running_workers = erase worker.client_id d.running_workers }
    (dispatched, d', w') ← dispatch_pending_func_call free w worker
    ok ((if dispatched then d' else push_idle d' worker.client_id), w')

  -- The loop over the idle list, from its back.
  unfoldable pub idle_loop :
      List ℕ → Dispatcher → World D → Result (Option FuncWorker × Dispatcher × World D)
  unfolding usable
  idle_loop [] d w = do (d', w') ← may_request_new_func_worker (set_idle d []) w; ok (none, d', w')
  idle_loop (client_id ∷ more) d w =
      let rest = idle_loop more d w in
      elim (usable d client_id) [ some worker ↦ ok (some worker, set_idle d more, w) | none ↦ rest ]

  unfoldable pub pick_idle_worker :
      Dispatcher → World D → Result (Option FuncWorker × Dispatcher × World D)
  pick_idle_worker d w = do
    limit ← determine_concurrency_limit d w
    if leb limit (size d.running_workers) then ok (none, d, w) else idle_loop d.idle_workers d w
