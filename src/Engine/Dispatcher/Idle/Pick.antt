-- ===== src/Engine/Dispatcher/Idle/Pick.antt =====
-- src/engine/dispatcher.cpp: what `PickIdleWorker` finds.
use nightcore.Prelude.{
  ℕ, ◌≤◌, ◌≡◌, refl, sym, ap, ◌∙◌, arith, ◌⊎◌, inl, inr, true, false, Option-cases, Option, none,
  some, List, [], ◌∷◌, leb,
}
use nightcore.Prelude.Map.{lookup, contains, size}
use nightcore.Prelude.Result.{Returns, if-Returns, >>=-Returns}
use nightcore.Utils.Average.{Doubles}
use nightcore.Engine.World.{FuncWorker, World}
use nightcore.Engine.Dispatcher.State.{Dispatcher}
use nightcore.Engine.Dispatcher.Limits.{determine_concurrency_limit, may_request_new_func_worker}
use nightcore.Engine.Dispatcher.Dispatch.{set_idle, usable, idle_loop, pick_idle_worker}
use nightcore.Engine.Dispatcher.Queue.{IsTraced}
use nightcore.Engine.Dispatcher.Invariant.{In, CountedIn, Inv}
use nightcore.Engine.Dispatcher.Idle.{
  CanSpawn, determine_concurrency_limit_lem, may_request_new_func_worker_lem,
}

usable-some :
    (d : Dispatcher) (c : ℕ) {k : FuncWorker}
    → usable d c ≡ some k
    → (lookup c d.workers ≡ some k) × (contains c d.running_workers ≡ false)
unfolding usable
usable-some d c h = (ground arith, ground arith)

usable-none :
    (d : Dispatcher) (c : ℕ) {k : FuncWorker}
    → usable d c ≡ none
    → lookup c d.workers ≡ some k
    → contains c d.running_workers ≡ true
unfolding usable
usable-none d c h there = ground arith

module _ {D : Doubles} where
  -- A worker was picked that is connected and runs nothing; the rest of the list counts the others.
  pub record Picked (d : Dispatcher) (w : World D) (worker : FuncWorker) (r : Dispatcher × World D)
      : Type 0 where
    pub left : List ℕ
    pub connected : lookup worker.client_id d.workers ≡ some worker
    pub free : contains worker.client_id d.running_workers ≡ false
    pub popped : r ≡ (set_idle d left, w)
    pub counted :
        (c : ℕ) (k : FuncWorker)
        → lookup c d.workers ≡ some k
        → (c ≡ worker.client_id) ⊎ ((contains c d.running_workers ≡ true) ⊎ In c left)

  -- No worker was picked: the tables are the same but for the list and the requests.
  pub record Unpicked (d : Dispatcher) (w : World D) (r : Dispatcher × World D) : Type 0 where
    pub left : List ℕ
    pub rest : r.0 ≡ record d {
      idle_workers = left;
      requested_workers = r.0.requested_workers;
      last_request_worker_timestamp = r.0.last_request_worker_timestamp;
    }
    pub tracer : r.1.tracer ≡ w.tracer
    pub counted : CountedIn d left

  abbrev pub PickResult : Dispatcher → World D → Option FuncWorker → Dispatcher × World D → Type 0
  PickResult d w none x = Unpicked d w x
  PickResult d w (some worker) x = Picked d w worker x

  -- The loop over the idle list drops only clients that are not connected or run a call.
  idle_loop_lem :
      (l : List ℕ) (d : Dispatcher) (w : World D)
      → ((c : ℕ) (k : FuncWorker) → lookup c d.workers ≡ some k → k.client_id ≡ c)
      → CountedIn d l
      → IsTraced d.func_id w
      → CanSpawn w
      → Returns (idle_loop l d w) (λ r. PickResult d w r.0 (r.1, r.2))
  unfolding idle_loop
  idle_loop_lem [] d w keyed counted t c =
      >>=-Returns (may_request_new_func_worker (set_idle d []) w) _ _ _
        (may_request_new_func_worker_lem (set_idle d []) w t c)
        (λ r a. record { left = []; rest = a.rest; tracer = a.tracer; counted = counted })
  idle_loop_lem (client ∷ more) d w keyed counted t c = elim (Option-cases (usable d client)) [
    | inl useless ↦
        rw (useless, idle_loop)
          (idle_loop_lem more d w keyed
            (λ k worker h. elim (counted k worker h) [
              | inl busy ↦ inl busy
              | inr (inl it) ↦ inl (usable-none d k (ap (usable d) it ∙ useless) h)
              | inr (inr later) ↦ inr later
            ])
            t c)
    | inr (worker, free) ↦
        let (there, idle) = usable-some d client free in
        let own = keyed client worker there in
        rw (free, idle_loop)
          (record {
            left = more;
            connected = ap (λ k. lookup k d.workers) own ∙ there;
            free = ap (λ k. contains k d.running_workers) own ∙ idle;
            popped = refl;
            counted = λ k other h. elim (counted k other h) [
              | inl busy ↦ inr (inl busy)
              | inr (inl it) ↦ inl (it ∙ sym own)
              | inr (inr later) ↦ inr (inr later)
            ];
          })
  ]

  -- When the tables are in order, the tracer has statistics of the function, the limits are in
  -- order and a worker could be asked for, PickIdleWorker returns. It picks a connected worker
  -- that runs nothing, or none; either way every other connected worker still runs a call or waits
  -- in the idle list.
  pub pick_idle_worker_lem :
      (d : Dispatcher) (w : World D)
      → Inv d
      → IsTraced d.func_id w
      → d.min_workers ≤ d.max_workers
      → CanSpawn w
      → Returns (pick_idle_worker d w) (λ r. PickResult d w r.0 (r.1, r.2))
  unfolding pick_idle_worker
  pick_idle_worker_lem d w v t h c =
      >>=-Returns (determine_concurrency_limit d w) _ _ _ (determine_concurrency_limit_lem d w t h)
        (λ n bounds.
          if-Returns (leb n (size d.running_workers)) _ _ _
            (record { left = d.idle_workers; rest = refl; tracer = refl; counted = v.counted })
            (idle_loop_lem d.idle_workers d w v.keyed v.counted t c))
