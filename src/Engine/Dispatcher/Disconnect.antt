-- ===== src/Engine/Dispatcher/Disconnect.antt =====
-- src/engine/dispatcher.cpp: what a worker that disconnects in the middle of a call leaves behind.
use nightcore.Prelude.{
  ℕ, ◌≡◌, refl, ap, arith, Bool, true, false, is_some, Option, Option-cases, none, some, inl, inr,
  ==_iff, subst,
}
use nightcore.Prelude.Int.{ℤ}
use nightcore.Prelude.Map.{lookup, contains, erase, lookup-erase}
use nightcore.Prelude.Result.{Result, ok, err, Returns, Returns-map, ◌>>=◌}
use nightcore.Protocol.{FuncCall, full_call_id}
use nightcore.Utils.Average.{Doubles}
use nightcore.Engine.World.{FuncWorker, World}
use nightcore.Engine.Tracer
use nightcore.Engine.Tracer.{pointer_of, discard_func_call_info}
use nightcore.Engine.Dispatcher.State.{Dispatcher}
use nightcore.Engine.Dispatcher.Events.{
  release_worker, forget_call, on_func_worker_disconnected, on_func_call_completed,
  on_func_call_failed,
}
use nightcore.Engine.Dispatcher.Queue.{IsTraced}
use nightcore.Engine.Dispatcher.Sound.{Sound}
use nightcore.Engine.Dispatcher.Sound.Tracer.{
  on_func_call_completed-Keeps, on_func_call_failed-Keeps,
}

module _ {D : Doubles} where
  -- The event returned true, and the call is not assigned any more; its worker is gone, but still
  -- counts as running.
  pub record Leaks (client : ℕ) (c : FuncCall) (r : Bool × Dispatcher × World D) : Type 0 where
    pub known : r.0 ≡ true
    pub gone : contains client r.1.workers ≡ false
    pub running : contains client r.1.running_workers ≡ true
    pub forgotten : contains (full_call_id c) r.1.assigned_workers ≡ false

  release_worker-Leaks :
      (d : Dispatcher) (w : World D) (c : FuncCall) (client : ℕ)
      → lookup (full_call_id c) d.assigned_workers ≡ some client
      → contains client d.workers ≡ false
      → contains client d.running_workers ≡ true
      → Returns (release_worker d w c) (Leaks client c)
  unfolding release_worker forget_call
  release_worker-Leaks d w c client assigned gone busy =
      elim (Option-cases (lookup client d.workers)) [
        | inl absent ↦
            let left = lookup-erase (full_call_id c) (full_call_id c) d.assigned_workers in
            rw (assigned, release_worker)
              (rw (absent, release_worker)
                (record { known = refl; gone = gone; running = busy; forgotten = ground arith }))
        | inr (k, there) ↦ cc (gone, ap is_some there)
      ]

  -- The tracer's end of a call that it knows, and then the worker that is not there.
  ended-Leaks :
      (d : Dispatcher) (c : FuncCall) (client p : ℕ) (ended : Result (Option ℕ × World D))
      → lookup (full_call_id c) d.assigned_workers ≡ some client
      → contains client d.workers ≡ false
      → contains client d.running_workers ≡ true
      → Returns ended (λ r. r.0 ≡ some p)
      → Returns {A = Bool × Dispatcher × World D}
          (ended >>= λ r. elim r.0 [
            | none ↦ ok (false, d, r.1)
            | some pointer ↦ release_worker d (discard_func_call_info r.1 c) c
          ])
          (Leaks client c)
  ended-Leaks d c client p (err x) assigned gone busy h = absurd h
  ended-Leaks d c client p (ok (none, w)) assigned gone busy h = cc h
  ended-Leaks d c client p (ok (some q, w)) assigned gone busy h =
      release_worker-Leaks d (discard_func_call_info w c) c client assigned gone busy

  -- On a sound dispatcher, a worker of the function disconnects while a call is assigned to it
  -- that the tracer knows, and then the call completes or fails: each event returns, that of the
  -- call with true, and the call is forgotten; but the client, which is not connected any more, is
  -- still among the running workers.
  pub on_func_worker_disconnected-Leaks :
      (d : Dispatcher) (w : World D) (worker : FuncWorker) (c : FuncCall) (p : ℕ) (time delay : ℤ)
      (output_size : ℕ)
      → Sound d w
      → d.func_id ≡ worker.func_id
      → d.func_id ≡ c.func_id
      → contains worker.client_id d.workers ≡ true
      → lookup (full_call_id c) d.assigned_workers ≡ some worker.client_id
      → pointer_of w c ≡ some p
      → Returns (on_func_worker_disconnected d worker) (λ d'.
        Returns (on_func_call_completed d' w c time delay output_size) (Leaks worker.client_id c)
        × Returns (on_func_call_failed d' w c delay) (Leaks worker.client_id c))
  unfolding on_func_worker_disconnected on_func_call_completed on_func_call_failed
  on_func_worker_disconnected-Leaks d w worker c p time delay output_size s own mine there assigned
        known =
      rw ((==_iff d.func_id worker.func_id).1 own, there, (==_iff d.func_id c.func_id).1 mine)
        (
          ended-Leaks d' c worker.client_id p
              (Tracer.on_func_call_completed w c delay time output_size) assigned gone busy
              (Returns-map (Tracer.on_func_call_completed w c delay time output_size)
                (on_func_call_completed-Keeps w c delay time output_size traced)
                λ r h. rw known at h.0),
          ended-Leaks d' c worker.client_id p (Tracer.on_func_call_failed w c delay) assigned gone
              busy
              (Returns-map (Tracer.on_func_call_failed w c delay)
                (on_func_call_failed-Keeps w c delay traced) λ r h. rw known at h.0),
        )
    where
      d' : Dispatcher
      d' = record d { workers = erase worker.client_id d.workers }

      traced : IsTraced c.func_id w
      traced = subst (λ f. IsTraced f w) mine s.traced

      gone : contains worker.client_id d'.workers ≡ false
      gone =
          rw
            (
              lookup-erase worker.client_id worker.client_id d.workers,
              (==_iff worker.client_id worker.client_id).1 refl,
            )
            refl

      busy : contains worker.client_id d.running_workers ≡ true
      busy = elim (s.tables.runs (full_call_id c) worker.client_id assigned) [
        | inl bad ↦ absurd bad
        | inr (call, here, same) ↦ ap is_some here
      ]
