-- ===== src/Engine/Dispatcher/Sound.antt =====
-- src/engine/dispatcher.cpp: the events keep the dispatcher and its engine sound, and none of the
-- checks in them can fail.
pub mod Tracer
pub mod Calls
pub mod NewCall
use nightcore.Prelude.{
  ℕ, ◌≡◌, ◌≢◌, refl, sym, ap, ◌∙◌, subst, arith, inl, inr, Bool, true, false, Bool-cases,
  Option-cases, is_some, Option, none, some, List, [], ◌∷◌, ◌++◌, ◌==◌, ==_iff, if◌then◌else◌,
  length,
}
use nightcore.Prelude.Map.{lookup, insert, erase, contains, lookup-insert, lookup-erase}
use nightcore.Prelude.Result.{Result, ok, Returns, Returns-map, >>=-Returns, ◌>>=◌}
use nightcore.Protocol.{FuncCall, full_call_id}
use nightcore.Utils.Average.{Doubles}
use nightcore.Engine.World.{FuncWorker, World}
use nightcore.Engine.Dispatcher.State.{Dispatcher, PendingFuncCall}
use nightcore.Engine.Dispatcher.Dispatch.{
  assign, push_idle, set_pending, dispatch_pending_func_call, func_worker_finished,
}
use nightcore.Engine.Dispatcher.Events.{
  add_worker, forget_call, release_worker, on_func_worker_connected, on_func_worker_disconnected,
}
use nightcore.Engine.Dispatcher.Queue.{IsPending, AllPending, IsTraced, Keeps}
use nightcore.Engine.Dispatcher.Queue.Drain.{
  Splits, drained, ran, Served, queue_test, dispatch_pending_func_call_lem,
}
use nightcore.Engine.Dispatcher.Invariant.{
  Almost, Inv, Loose, assign-Almost, push_idle-Almost, set_pending-Loose, finish-Loose,
  forget_call-Inv,
}

-- The tables, the tracer and the queue of a dispatcher between two events.
pub record Sound {D : Doubles} (d : Dispatcher) (w : World D) : Type 0 where
  pub tables : Inv d
  pub traced : IsTraced d.func_id w
  pub queue : AllPending d.func_id (length w.tracer.store) d.pending_func_calls

-- The dispatcher after its queue was served for a worker: without a call the worker is idle.
abbrev pub settle : ℕ → Bool × Dispatcher → Dispatcher
settle client x = if x.0 then x.1 else push_idle x.1 client

-- What is left of the queue is still in order, and the function is the same.
pub record Settled (Old : ℕ → Type 0) (f n : ℕ) (d : Dispatcher) : Type 0 where
  pub almost : Almost Old d
  pub func : d.func_id ≡ f
  pub queue : AllPending f n d.pending_func_calls

AllPending-suffix :
    (f n : ℕ) (skipped left : List PendingFuncCall) (p : PendingFuncCall)
    → AllPending f n (skipped ++ p ∷ left)
    → AllPending f n left
AllPending-suffix f n [] left p h = h.1
AllPending-suffix f n (s ∷ skipped) left p h = AllPending-suffix f n skipped left p h.1

pub settle-Settled :
    {Old : ℕ → Type 0} {client : ℕ} {d : Dispatcher} {test : PendingFuncCall → Bool}
    {skipped : List PendingFuncCall} {x : Bool × Dispatcher} (n : ℕ)
    → Loose Old client d
    → AllPending d.func_id n d.pending_func_calls
    → Splits test d client d.pending_func_calls skipped x
    → Settled Old d.func_id n (settle client x)
unfolding push_idle assign
settle-Settled {Old} {client} {d} n l q (drained e k) =
    subst (λ y. Settled Old d.func_id n (settle client y)) (sym k)
      (record { almost = push_idle-Almost (set_pending-Loose [] l); func = refl; queue = tt })
settle-Settled {Old} {client} {d} {skipped = skipped} n l q (ran p left e wanted k) =
    subst (λ y. Settled Old d.func_id n (settle client y)) (sym k)
      (record {
        almost = assign-Almost _ (set_pending-Loose left l);
        func = refl;
        queue = AllPending-suffix d.func_id n skipped left p (subst (AllPending d.func_id n) e q);
      })

module _ {D : Doubles} where
  pub Sound-make :
      {f : ℕ} {d : Dispatcher} {w w' : World D}
      → Inv d
      → Keeps f w w'
      → d.func_id ≡ f
      → AllPending f (length w.tracer.store) d.pending_func_calls
      → Sound d w'
  Sound-make {f} {d} {w} {w'} v k e q = record {
    tables = v;
    traced = subst (λ g. IsTraced g w') (sym e) k.traced;
    queue =
        subst (λ g. AllPending g (length w'.tracer.store) d.pending_func_calls) (sym e)
          (subst (λ n. AllPending f n d.pending_func_calls) (sym k.stored) q);
  }

  -- `FuncWorkerFinished` returns when the worker is connected and is the one assigned to the call;
  -- the dispatcher is sound once the call is forgotten.
  func_worker_finished_lem :
      (d : Dispatcher) (w : World D) (c : FuncCall) (worker : FuncWorker)
      → Sound d w
      → lookup (full_call_id c) d.assigned_workers ≡ some worker.client_id
      → lookup worker.client_id d.workers ≡ some worker
      → Returns
          (func_worker_finished d w worker)
          (λ r. Sound (forget_call r.0 c) r.1 × (r.0.func_id ≡ d.func_id) × Keeps d.func_id w r.1)
  unfolding func_worker_finished forget_call
  func_worker_finished_lem d w c worker s assigned connected =
      elim (s.tables.runs (full_call_id c) worker.client_id assigned) [
        | inl bad ↦ absurd bad
        | inr (call, there, same) ↦
            let free : Dispatcher = record d {
              running_workers = erase worker.client_id d.running_workers;
            } in
            let loose = finish-Loose d c worker.client_id s.tables assigned in
            rw (ap is_some connected, ap is_some there)
              (>>=-Returns (dispatch_pending_func_call free w worker) _
                (Served d.func_id w (queue_test w d.func_id) free worker.client_id
                  d.pending_func_calls)
                _
                (dispatch_pending_func_call_lem free w worker s.traced s.queue
                  (ap is_some connected) loose.free)
                (λ r v.
                  let settled = settle-Settled (length w.tracer.store) loose s.queue v.split in
                  (
                    Sound-make (forget_call-Inv _ c settled.almost) v.keeps settled.func
                        settled.queue,
                    settled.func,
                    v.keeps,
                  )))
      ]

  -- A call that has come back leaves the dispatcher sound, whether its worker is still there or not.
  pub release_worker_lem :
      (d : Dispatcher) (w : World D) (c : FuncCall)
      → Sound d w
      → Returns (release_worker d w c) (λ r. (r.0 ≡ true) × Sound r.1 r.2)
  unfolding release_worker forget_call
  release_worker_lem d w c s = elim (Option-cases (lookup (full_call_id c) d.assigned_workers)) [
    | inl unknown ↦ rw (unknown, release_worker) (refl, s)
    | inr (client, assigned) ↦ elim (Option-cases (lookup client d.workers)) [
      | inl gone ↦ rw (assigned, release_worker) (rw (gone, release_worker) (refl, forgotten))
      | inr (worker, there) ↦
          rw (assigned, release_worker)
            (rw (there, release_worker)
              (let own = s.tables.keyed client worker there in
                >>=-Returns (func_worker_finished d w worker) _ _ _
                  (func_worker_finished_lem d w c worker s (assigned ∙ ap some (sym own))
                    (ap (λ k. lookup k d.workers) own ∙ there))
                  (λ r v. (refl, v.0))))
    ]
  ]
    where
      forgotten : Sound (forget_call d c) w
      forgotten = record {
        tables = forget_call-Inv d c (record {
          keyed = s.tables.keyed;
          runs = λ id k e. elim (s.tables.runs id k e) [ inl bad ↦ absurd bad | inr r ↦ inr r ];
          counted = s.tables.counted;
        });
        traced = s.traced;
        queue = s.queue;
      }
