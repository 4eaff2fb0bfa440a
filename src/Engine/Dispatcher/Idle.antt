-- ===== src/Engine/Dispatcher/Idle.antt =====
-- src/engine/dispatcher.cpp: `PickIdleWorker`, `DetermineConcurrencyLimit` and
-- `MayRequestNewFuncWorker` on a sound engine.
pub mod Pick
use nightcore.Prelude.{
  ℕ, suc, ◌+◌, ◌%◌, ◌^◌, ◌≤◌, ◌<◌, ◌≡◌, ◌≢◌, refl, sym, ap, ◌∙◌, subst, arith, ◌⊎◌, inl, inr, Bool,
  true, false, not, ◌&&◌, ◌||◌, Bool-cases, Option-cases, is_some, Option, none, some, List, [],
  ◌∷◌, ◌==◌, leb, ltb, if◌then◌else◌, length, le→leb, lt→ltb,
}
use nightcore.Prelude.Int.{ℤ, pos}
use nightcore.Prelude.Map.{Map, lookup, insert, contains, size}
use nightcore.Prelude.Result.{Result, ok, err, Returns, Returns-map, if-Returns, >>=-Returns, ◌>>=◌}
use nightcore.Protocol.{FuncCall, max_client_id}
use nightcore.Utils.Average.{Doubles, positive, get_value, get_value_ext}
use nightcore.Engine.World.{FuncWorker, World, now, tick}
use nightcore.Engine.Tracer.{
  get_average_instant_rps, get_average_running_delay, get_average_processing_time2,
}
use nightcore.Engine.Manager.{request_new_func_worker}
use nightcore.Engine.Dispatcher.State.{Dispatcher, size_max}
use nightcore.Engine.Dispatcher.Limits.{
  clamp, estimate, determine_expected_concurrency, determine_concurrency_limit, request_worker,
  interval_refuses, may_request_new_func_worker,
}
use nightcore.Engine.Dispatcher.Dispatch.{set_idle, usable, idle_loop, pick_idle_worker}
use nightcore.Engine.Dispatcher.Queue.{IsTraced}
use nightcore.Engine.Dispatcher.Queue.Drain.{stats_of_lem}
use nightcore.Engine.Dispatcher.Invariant.{In, IsCounted}

clamp_bounds : (x lo hi : ℕ) → lo ≤ hi → (lo ≤ clamp x lo hi) × (clamp x lo hi ≤ hi)
unfolding clamp
clamp_bounds x lo hi h = ground arith

module _ {D : Doubles} where
  -- If the tracer has statistics of the function and the numbers of workers that the configuration
  -- asks for are in order, the concurrency limit is computed and lies between them.
  pub determine_concurrency_limit_lem :
      (d : Dispatcher) (w : World D)
      → IsTraced d.func_id w
      → d.min_workers ≤ d.max_workers
      → Returns (determine_concurrency_limit d w) (λ n. (d.min_workers ≤ n) × (n ≤ d.max_workers))
  unfolding determine_concurrency_limit get_average_instant_rps get_average_running_delay
  determine_concurrency_limit_lem d w t h =
      let (s, there, stats) = stats_of_lem d.func_id w t in
      elim (Bool-cases w.flags.disable_concurrency_limiter) [
        | inl off ↦ rw (off, determine_concurrency_limit) (h, omega arith)
        | inr on ↦
            rw (on, determine_concurrency_limit)
              (rw stats (clamp_bounds _ d.min_workers d.max_workers h))
      ]

  -- A new worker can be asked for: a client id is left, and its pipes can be made.
  pub record CanSpawn (w : World D) : Type 0 where
    pub id_left : w.manager.next_client_id ≤ max_client_id
    pub pipes :
        (w.flags.func_worker_use_engine_socket || w.fifo_create w.manager.next_client_id) ≡ true

  -- Only the requests of the dispatcher may differ, and the tracer is the same.
  pub record Asked (d : Dispatcher) (w : World D) (r : Dispatcher × World D) : Type 0 where
    pub rest : r.0 ≡ record d {
      requested_workers = r.0.requested_workers;
      last_request_worker_timestamp = r.0.last_request_worker_timestamp;
    }
    pub tracer : r.1.tracer ≡ w.tracer

  request_worker_lem :
      (d : Dispatcher) (w : World D) (current : ℤ)
      → CanSpawn w
      → Returns (request_worker d w current) (Asked d w)
  unfolding request_worker request_new_func_worker
  request_worker_lem d w current c =
      elim (Option-cases (lookup d.func_id w.manager.launcher_connections)) [
        | inl absent ↦ rw (absent, request_new_func_worker) (record { rest = refl; tracer = refl })
        | inr (launcher, there) ↦
            rw (there, request_new_func_worker)
              (rw (le→leb w.manager.next_client_id max_client_id c.id_left, c.pipes)
                (record { rest = refl; tracer = refl }))
      ]

  determine_expected_concurrency_lem :
      (d : Dispatcher) (w : World D)
      → IsTraced d.func_id w
      → Returns (determine_expected_concurrency d w) (λ n. Unit {0})
  unfolding determine_expected_concurrency get_average_instant_rps get_average_processing_time2
  determine_expected_concurrency_lem d w t =
      let (s, there, stats) = stats_of_lem d.func_id w t in rw stats tt

  pub may_request_new_func_worker_lem :
      (d : Dispatcher) (w : World D)
      → IsTraced d.func_id w
      → CanSpawn w
      → Returns (may_request_new_func_worker d w) (Asked d w)
  unfolding may_request_new_func_worker
  may_request_new_func_worker_lem d w t c =
      let total = size d.workers + size d.requested_workers in
      let asked = request_worker_lem d (tick w) (now w) (ticked c) in
      if-Returns (leb d.max_workers total) _ _ _ (same w refl) (
        if-Returns (interval_refuses d (tick w) (now w)) _ _ _ (same (tick w) refl) (
          if-Returns w.flags.always_request_worker_if_possible _ _ _ (from_tick asked) (
            >>=-Returns (determine_expected_concurrency d (tick w)) _ _ _
              (determine_expected_concurrency_lem d (tick w) ticked_traced)
              (λ n _. if-Returns (leb n total) _ _ _ (same (tick w) refl) (from_tick asked)))))
    where
      ticked : CanSpawn w → CanSpawn (tick w)
      ticked h = record { id_left = h.id_left; pipes = h.pipes }

      ticked_traced : IsTraced d.func_id (tick w)
      ticked_traced = record {
        in_range = t.in_range;
        has_stats = t.has_stats;
        pointers = t.pointers;
      }

      same : (w' : World D) → w'.tracer ≡ w.tracer → Asked d w (d, w')
      same w' e = record { rest = refl; tracer = e }

      from_tick :
          Returns (request_worker d (tick w) (now w)) (Asked d (tick w))
          → Returns (request_worker d (tick w) (now w)) (Asked d w)
      from_tick h =
          Returns-map (request_worker d (tick w) (now w)) h
            (λ r a. record { rest = a.rest; tracer = a.tracer })
