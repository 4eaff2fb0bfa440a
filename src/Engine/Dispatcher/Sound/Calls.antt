-- ===== src/Engine/Dispatcher/Sound/Calls.antt =====
-- src/engine/dispatcher.cpp: the events of workers and calls on a sound dispatcher.
use nightcore.Prelude.{
  ℕ, ◌≡◌, refl, sym, ap, ◌∙◌, subst, arith, Bool, true, false, is_some, Option, none, some, ==_iff,
  if◌then◌else◌, length,
}
use nightcore.Prelude.Int.{ℤ}
use nightcore.Prelude.Map.{lookup, erase, contains, lookup-insert, lookup-erase}
use nightcore.Prelude.Result.{Result, ok, err, Returns, Returns-map, >>=-Returns, ◌>>=◌}
use nightcore.Protocol.{FuncCall}
use nightcore.Utils.Average.{Doubles}
use nightcore.Engine.World.{FuncWorker, World, tick}
use nightcore.Engine.Tracer
use nightcore.Engine.Tracer.{pointer_of, discard_func_call_info}
use nightcore.Engine.Dispatcher.State.{Dispatcher}
use nightcore.Engine.Dispatcher.Dispatch.{dispatch_pending_func_call}
use nightcore.Engine.Dispatcher.Events.{
  add_worker, release_worker, on_func_worker_connected, on_func_worker_disconnected,
  on_func_call_completed, on_func_call_failed,
}
use nightcore.Engine.Dispatcher.Queue.{AllPending, IsTraced, Keeps}
use nightcore.Engine.Dispatcher.Queue.Drain.{
  Served, queue_test, dispatch_pending_func_call_lem, IsTraced-erase,
}
use nightcore.Engine.Dispatcher.Invariant.{add_worker-Loose}
use nightcore.Engine.Dispatcher.Sound.{Sound, settle-Settled, Sound-make, release_worker_lem}
use nightcore.Engine.Dispatcher.Sound.Tracer.{
  on_func_call_completed-Keeps, on_func_call_failed-Keeps, tick-Keeps,
}

module _ {D : Doubles} where
  Sound-kept : {d : Dispatcher} {w w' : World D} → Sound d w → Keeps d.func_id w w' → Sound d w'
  Sound-kept s k = Sound-make s.tables k refl s.queue

  ticked-Keeps :
      (f : ℕ) (w : World D) (b : Bool) → IsTraced f w → Keeps f w (if b then tick w else w)
  ticked-Keeps f w true t = tick-Keeps f w t
  ticked-Keeps f w false t = record { traced = t; stored = refl; manager = refl }

  -- The tracer's end of a call, whichever it is, and then the worker.
  after_tracer :
      (d : Dispatcher) (w : World D) (c : FuncCall) (ended : Result (Option ℕ × World D))
      → Sound d w
      → d.func_id ≡ c.func_id
      → Returns ended (λ r. (r.0 ≡ pointer_of w c) × Keeps c.func_id w r.1)
      → Returns {A = Bool × Dispatcher × World D}
          (ended >>= λ r. elim r.0 [
            | none ↦ ok (false, d, r.1)
            | some pointer ↦ release_worker d (discard_func_call_info r.1 c) c
          ])
          (λ r. (r.0 ≡ is_some (pointer_of w c)) × Sound r.1 r.2)
  unfolding discard_func_call_info
  after_tracer d w c (err x) s e h = absurd h
  after_tracer d w c (ok (none, w')) s e h =
      (ap is_some h.0, Sound-kept s (subst (λ f. Keeps f w w') (sym e) h.1))
  after_tracer d w c (ok (some p, w')) s e h =
      let kept = Sound-kept s (subst (λ f. Keeps f w w') (sym e) h.1) in
      Returns-map (release_worker d (discard_func_call_info w' c) c)
        (release_worker_lem d (discard_func_call_info w' c) c (forgetting kept))
        (λ r v. (v.0 ∙ ap is_some h.0, v.1))
    where
      forgetting : Sound d w' → Sound d (discard_func_call_info w' c)
      forgetting k = record {
        tables = k.tables;
        traced = IsTraced-erase d.func_id w' c k.traced;
        queue = k.queue;
      }

  -- OnFuncCallCompleted for a call of the function of a sound dispatcher returns, with true
  -- exactly when the tracer knew the call, and keeps the dispatcher sound.
  pub on_func_call_completed-Sound :
      (d : Dispatcher) (w : World D) (c : FuncCall) (time delay : ℤ) (output_size : ℕ)
      → Sound d w
      → d.func_id ≡ c.func_id
      → Returns
          (on_func_call_completed d w c time delay output_size)
          (λ r. (r.0 ≡ is_some (pointer_of w c)) × Sound r.1 r.2)
  unfolding on_func_call_completed
  on_func_call_completed-Sound d w c time delay output_size s e =
      rw ((==_iff d.func_id c.func_id).1 e) (
        after_tracer d w c (Tracer.on_func_call_completed w c delay time output_size) s e (
          on_func_call_completed-Keeps w c delay time output_size
            (subst (λ f. IsTraced f w) e s.traced)))

  -- OnFuncCallFailed for a call of the function of a sound dispatcher returns, with true exactly
  -- when the tracer knew the call, and keeps the dispatcher sound.
  pub on_func_call_failed-Sound :
      (d : Dispatcher) (w : World D) (c : FuncCall) (delay : ℤ)
      → Sound d w
      → d.func_id ≡ c.func_id
      → Returns
          (on_func_call_failed d w c delay)
          (λ r. (r.0 ≡ is_some (pointer_of w c)) × Sound r.1 r.2)
  unfolding on_func_call_failed
  on_func_call_failed-Sound d w c delay s e = rw ((==_iff d.func_id c.func_id).1 e) (
      after_tracer d w c (Tracer.on_func_call_failed w c delay) s e
        (on_func_call_failed-Keeps w c delay (subst (λ f. IsTraced f w) e s.traced)))

  -- A worker of the function, with a client id that is neither connected nor running, connects to
  -- a sound dispatcher: OnFuncWorkerConnected returns true and keeps the dispatcher sound.
  pub on_func_worker_connected-Sound :
      (d : Dispatcher) (w : World D) (worker : FuncWorker)
      → Sound d w
      → d.func_id ≡ worker.func_id
      → contains worker.client_id d.workers ≡ false
      → contains worker.client_id d.running_workers ≡ false
      → Returns (on_func_worker_connected d w worker) (λ r. (r.0 ≡ true) × Sound r.1 r.2)
  unfolding on_func_worker_connected add_worker
  on_func_worker_connected-Sound d w worker s e new free =
      let w' = if contains worker.client_id d.requested_workers then tick w else w in
      let kept =
        ticked-Keeps d.func_id w (contains worker.client_id d.requested_workers) s.traced in
      let d' = add_worker d worker in
      let loose = add_worker-Loose d worker s.tables free in
      let queue =
        subst (λ n. AllPending d.func_id n d.pending_func_calls) (sym kept.stored) s.queue in
      rw ((==_iff d.func_id worker.func_id).1 e, new)
        (>>=-Returns (dispatch_pending_func_call d' w' worker) _
          (Served d.func_id w' (queue_test w' d.func_id) d' worker.client_id d.pending_func_calls) _
          (dispatch_pending_func_call_lem d' w' worker kept.traced queue
            (rw
              (
                lookup-insert worker.client_id worker.client_id worker d.workers,
                (==_iff worker.client_id worker.client_id).1 refl,
              )
              refl)
            free)
          (λ r v.
            let settled = settle-Settled (length w'.tracer.store) loose queue v.split in
            (refl, Sound-make settled.almost v.keeps settled.func settled.queue)))

  -- A connected worker of the function disconnects from a sound dispatcher:
  -- OnFuncWorkerDisconnected returns, forgets the worker and keeps the dispatcher sound.
  pub on_func_worker_disconnected-Sound :
      (d : Dispatcher) (w : World D) (worker : FuncWorker)
      → Sound d w
      → d.func_id ≡ worker.func_id
      → contains worker.client_id d.workers ≡ true
      → Returns
          (on_func_worker_disconnected d worker)
          (λ r. Sound r w × (contains worker.client_id r.workers ≡ false))
  unfolding on_func_worker_disconnected
  on_func_worker_disconnected-Sound d w worker s e there =
      rw ((==_iff d.func_id worker.func_id).1 e, there)
        (
          record {
            tables = record {
              keyed = λ c k h. s.tables.keyed c k (still c h);
              runs = s.tables.runs;
              counted = λ c k h. s.tables.counted c k (still c h);
            };
            traced = s.traced;
            queue = s.queue;
          },
          rw
              (
                lookup-erase worker.client_id worker.client_id d.workers,
                (==_iff worker.client_id worker.client_id).1 refl,
              )
              refl,
        )
    where
      still :
          (c : ℕ) {k : FuncWorker}
          → lookup c (erase worker.client_id d.workers) ≡ some k
          → lookup c d.workers ≡ some k
      still c h = let left = lookup-erase worker.client_id c d.workers in ground arith
