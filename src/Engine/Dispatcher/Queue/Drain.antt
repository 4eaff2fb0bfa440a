-- ===== src/Engine/Dispatcher/Queue/Drain.antt =====
-- src/engine/dispatcher.cpp: what `DispatchPendingFuncCall` does with the queue.
use nightcore.Prelude.{
  get_elem?-lt, ℕ, ◌≡◌, refl, sym, ap, subst, ◌∙◌, inl, inr, Bool, true, false, Bool-cases, Option,
  none, some, List, [], ◌∷◌, ◌++◌, append-nil, append_assoc, map, length, get_elem?, ◌==◌, lt→ltb,
}
use nightcore.Prelude.Int.{ℤ, pos, ◌-ℤ◌}
use nightcore.Prelude.Map.{lookup, contains, lookup-erase}
use nightcore.Prelude.Result.{ok, Returns, Returns-map, >>=-Returns}
use nightcore.Protocol.{FuncCall, full_call_id, max_func_id}
use nightcore.Utils.Average.{Doubles, get_value}
use nightcore.Engine.World.{FuncWorker, FuncCallInfo, PerFuncStatistics, World, now, tick}
use nightcore.Engine.Tracer.{discard_func_call_info, stats_of, get_average_processing_time}
use nightcore.Engine.Dispatcher.State.{Dispatcher, PendingFuncCall}
use nightcore.Engine.Dispatcher.Dispatch.{
  assign, set_pending, discard_func_call, dispatch_func_call, info_of, still_wanted, pending_loop,
  serve_queue, dispatch_pending_func_call,
}
use nightcore.Engine.Dispatcher.Queue.{
  call_of, PointsBelow, AllPending, IsTraced, Keeps, contains-some, get_func_call-Dispatches,
  dispatch_func_call_lem,
}

abbrev pub queued_call : PendingFuncCall → FuncCall
queued_call p = call_of p.dispatch_func_call_message

abbrev pub arrival_at : List FuncCallInfo → Option ℕ → ℤ
arrival_at store none = pos 0
arrival_at store (some i) = elim (get_elem? store i) [
  | none ↦ pos 0
  | some info ↦ info.recv_timestamp
]

-- When the queued call arrived, by the tracer's object that it points to.
abbrev pub arrival : List FuncCallInfo → PendingFuncCall → ℤ
arrival store p = arrival_at store p.func_call_info

abbrev pub AllFail : (PendingFuncCall → Bool) → List PendingFuncCall → Type 0
AllFail test [] = Unit {0}
AllFail test (p ∷ ps) = (test p ≡ false) × AllFail test ps

-- The queue `ps` is `skipped`, then at most one call that passes the test and runs, then `left`.
pub data Splits (test : PendingFuncCall → Bool) (d : Dispatcher) (client : ℕ)
    : List PendingFuncCall → List PendingFuncCall → Bool × Dispatcher → Type 0 where
  drained :
      {ps skipped : List PendingFuncCall} {r : Bool × Dispatcher}
      → ps ≡ skipped
      → r ≡ (false, set_pending d [])
      → Splits test d client ps skipped r
  ran :
      {ps skipped : List PendingFuncCall} {r : Bool × Dispatcher} (p : PendingFuncCall)
      (left : List PendingFuncCall)
      → ps ≡ skipped ++ p ∷ left
      → test p ≡ true
      → r ≡ (true, assign (set_pending d left) client (queued_call p))
      → Splits test d client ps skipped r

Splits-cons :
    (test : PendingFuncCall → Bool) (d : Dispatcher) (client : ℕ) (p : PendingFuncCall)
    {ps skipped : List PendingFuncCall} {r : Bool × Dispatcher}
    → Splits test d client ps skipped r
    → Splits test d client (p ∷ ps) (p ∷ skipped) r
Splits-cons test d client p (drained e k) = drained (ap (λ l. p ∷ l) e) k
Splits-cons test d client p (ran q left e h k) = ran q left (ap (λ l. p ∷ l) e) h k

module _ {D : Doubles} where
  -- Whether the loop runs the call when it comes to it.
  abbrev pub wanted : World D → D.F → ℤ → PendingFuncCall → Bool
  wanted w average current p =
      still_wanted w.flags average (current -ℤ arrival w.tracer.store p) (queued_call p)

  -- The queue is served in order: calls are discarded up to the first that passes the test, which
  -- runs; nothing else changes but what dispatching it changes.
  pub record Served (f : ℕ) (w : World D) (test : PendingFuncCall → Bool) (d : Dispatcher)
      (client : ℕ) (ps : List PendingFuncCall) (r : Bool × Dispatcher × World D) : Type 0 where
    pub skipped : List PendingFuncCall
    pub unwanted : AllFail test skipped
    pub split : Splits test d client ps skipped (r.0, r.1)
    pub keeps : Keeps f w r.2
    pub discarded : r.2.discarded_func_calls ≡ w.discarded_func_calls ++ map queued_call skipped

  -- Forgetting a call leaves the other pointers.
  pub IsTraced-erase :
      (f : ℕ) (w : World D) (c : FuncCall) → IsTraced f w → IsTraced f (discard_func_call_info w c)
  unfolding discard_func_call_info
  IsTraced-erase f w c t = record {
    in_range = t.in_range;
    has_stats = t.has_stats;
    pointers = λ id p h.
        let left = lookup-erase (full_call_id c) id w.tracer.func_call_infos in
        elim (Bool-cases (full_call_id c == id)) [
          | inl same ↦ cc (rw (left, same) at h)
          | inr other ↦ t.pointers id p (rw (left, other) at h)
        ];
  }

  discard-Keeps :
      (f : ℕ) (w : World D) (c : FuncCall) → IsTraced f w → Keeps f w (discard_func_call w c)
  unfolding discard_func_call discard_func_call_info
  discard-Keeps f w c t =
      let left = IsTraced-erase f w c t in
      record {
        traced = record {
          in_range = left.in_range;
          has_stats = left.has_stats;
          pointers = left.pointers;
        };
        stored = refl;
        manager = refl;
      }

  info_of_lem :
      (w : World D) (p : PendingFuncCall)
      → PointsBelow (length w.tracer.store) p.func_call_info
      → (info : FuncCallInfo) × (info_of w p ≡ ok info)
        × (arrival w.tracer.store p ≡ info.recv_timestamp)
  unfolding info_of
  info_of_lem w p h = go p.func_call_info h refl
    where
      go :
          (o : Option ℕ)
          → PointsBelow (length w.tracer.store) o
          → o ≡ p.func_call_info
          → (info : FuncCallInfo) × (info_of w p ≡ ok info)
            × (arrival w.tracer.store p ≡ info.recv_timestamp)
      go none below e = absurd below
      go (some i) below e =
          let (info, there) = get_elem?-lt w.tracer.store i below in
          (
            info,
            rw (← e, there) refl,
            ap (arrival_at w.tracer.store) (sym e) ∙ rw (there, arrival_at),
          )

  Keeps-trans : (f : ℕ) (w w' w'' : World D) → Keeps f w w' → Keeps f w' w'' → Keeps f w w''
  Keeps-trans f w w' w'' k l = record {
    traced = l.traced;
    stored = l.stored ∙ k.stored;
    manager = l.manager ∙ k.manager;
  }

  Keeps-refl : (f : ℕ) (w : World D) → IsTraced f w → Keeps f w w
  Keeps-refl f w t = record { traced = t; stored = refl; manager = refl }

  pub pending_loop_lem :
      (f : ℕ) (ps : List PendingFuncCall) (d : Dispatcher) (w : World D) (worker : FuncWorker)
      (average : D.F) (current : ℤ)
      → IsTraced f w
      → AllPending f (length w.tracer.store) ps
      → contains worker.client_id d.workers ≡ true
      → contains worker.client_id d.running_workers ≡ false
      → Returns
          (pending_loop ps d w worker average current)
          (Served f w (wanted w average current) d worker.client_id ps)
  unfolding pending_loop discard_func_call discard_func_call_info
  pending_loop_lem f [] d w worker average current t h connected free = record {
    skipped = [];
    unwanted = tt;
    split = drained refl refl;
    keeps = Keeps-refl f w t;
    discarded = sym (append-nil w.discarded_func_calls);
  }
  pending_loop_lem f (p ∷ more) d w worker average current t h connected free =
      let (info, found, arrived) = info_of_lem w p h.0.1 in
      let c = get_func_call-Dispatches f p.dispatch_func_call_message h.0.0 in
      let w' = discard_func_call w (queued_call p) in
      let kept = discard-Keeps f w (queued_call p) t in
      elim (Bool-cases
        (still_wanted w.flags average (current -ℤ info.recv_timestamp) (queued_call p))) [
          | inl yes_wanted ↦
              rw (found, c, yes_wanted)
                (>>=-Returns
                  (dispatch_func_call (set_pending d more) w worker p.dispatch_func_call_message) _
                  _ _
                  (dispatch_func_call_lem f (set_pending d more) w worker
                    p.dispatch_func_call_message t h.0.0 connected free)
                  (λ r k. record {
                    skipped = [];
                    unwanted = tt;
                    split = ran p more refl (rw arrived yes_wanted) (ap (λ x. (true, x)) k.0);
                    keeps = k.1;
                    discarded = k.2 ∙ sym (append-nil w.discarded_func_calls);
                  }))
          | inr not_wanted ↦
              rw (found, c, not_wanted)
                (Returns-map (pending_loop more d w' worker average current)
                  (pending_loop_lem f more d w' worker average current kept.traced h.1 connected
                    free)
                  (λ r s. record {
                    skipped = p ∷ s.skipped;
                    unwanted = (rw arrived not_wanted, s.unwanted);
                    split = Splits-cons (wanted w average current) d worker.client_id p s.split;
                    keeps = Keeps-trans f w w' r.2 kept s.keeps;
                    discarded =
                        s.discarded
                        ∙ append_assoc w.discarded_func_calls (queued_call p ∷ [])
                            (map queued_call s.skipped);
                  }))
        ]

  abbrev average_of : Option (PerFuncStatistics D) → D.F
  average_of none = D.scaled (pos 0) 0
  average_of (some s) = get_value D s.processing_time_ema

  -- The average that the test on waiting calls uses.
  abbrev pub processing_average : World D → ℕ → D.F
  processing_average w f = average_of (lookup f w.tracer.per_func_stats)

  IsTraced-tick : (f : ℕ) (w : World D) → IsTraced f w → IsTraced f (tick w)
  IsTraced-tick f w t = record {
    in_range = t.in_range;
    has_stats = t.has_stats;
    pointers = t.pointers;
  }

  pub stats_of_lem :
      (f : ℕ) (w : World D)
      → IsTraced f w
      → (s : PerFuncStatistics D) × (lookup f w.tracer.per_func_stats ≡ some s)
        × (stats_of w f ≡ ok s)
  unfolding stats_of
  stats_of_lem f w t =
      let (s, there) = contains-some (lookup f w.tracer.per_func_stats) t.has_stats in
      (s, there, rw (lt→ltb f max_func_id t.in_range, there))

  -- The test that decides on each queued call.
  abbrev pub queue_test : World D → ℕ → PendingFuncCall → Bool
  queue_test w f = wanted w (processing_average w f) (now w)

  Served-tick :
      (f : ℕ) (w : World D) (average same : D.F) (d : Dispatcher) (client : ℕ)
      (ps : List PendingFuncCall) (r : Bool × Dispatcher × World D)
      → same ≡ average
      → Served f (tick w) (wanted (tick w) average (now w)) d client ps r
      → Served f w (wanted w same (now w)) d client ps r
  Served-tick f w average same d client ps r e s =
      subst (λ a. Served f w (wanted w a (now w)) d client ps r) (sym e)
        (record {
          skipped = s.skipped;
          unwanted = s.unwanted;
          split = s.split;
          keeps = record {
            traced = s.keeps.traced;
            stored = s.keeps.stored;
            manager = s.keeps.manager;
          };
          discarded = s.discarded;
        })

  serve_queue_lem :
      (ps : List PendingFuncCall) (d : Dispatcher) (w : World D) (worker : FuncWorker)
      → IsTraced d.func_id w
      → d.pending_func_calls ≡ ps
      → AllPending d.func_id (length w.tracer.store) ps
      → contains worker.client_id d.workers ≡ true
      → contains worker.client_id d.running_workers ≡ false
      → Returns
          (serve_queue ps d w worker)
          (Served d.func_id w (queue_test w d.func_id) d worker.client_id ps)
  unfolding serve_queue get_average_processing_time
  serve_queue_lem [] d w worker t same h connected free = record {
    skipped = [];
    unwanted = tt;
    split = drained refl (ap (λ l. (false, set_pending d l)) same);
    keeps = Keeps-refl d.func_id w t;
    discarded = sym (append-nil w.discarded_func_calls);
  }
  serve_queue_lem (p ∷ more) d w worker t same h connected free =
      let (s, there, stats) = stats_of_lem d.func_id w t in
      let average = get_value D s.processing_time_ema in
      rw stats (
        Returns-map (pending_loop (p ∷ more) d (tick w) worker average (now w))
          (pending_loop_lem d.func_id (p ∷ more) d (tick w) worker average (now w)
            (IsTraced-tick d.func_id w t) h connected free)
          (λ r.
            Served-tick d.func_id w average (processing_average w d.func_id) d worker.client_id
              (p ∷ more) r (ap average_of there)))

  -- When the tracer has statistics of the function, the queue is in order, and the worker is
  -- connected and runs nothing, DispatchPendingFuncCall returns and serves the queue in order: it
  -- discards calls up to the first that is still wanted, gives that one to the worker, and keeps
  -- the rest.
  pub dispatch_pending_func_call_lem :
      (d : Dispatcher) (w : World D) (worker : FuncWorker)
      → IsTraced d.func_id w
      → AllPending d.func_id (length w.tracer.store) d.pending_func_calls
      → contains worker.client_id d.workers ≡ true
      → contains worker.client_id d.running_workers ≡ false
      → Returns
          (dispatch_pending_func_call d w worker)
          (Served d.func_id w (queue_test w d.func_id) d worker.client_id d.pending_func_calls)
  unfolding dispatch_pending_func_call
  dispatch_pending_func_call_lem d w worker t h connected free =
      serve_queue_lem d.pending_func_calls d w worker t refl h connected free
