-- ===== src/Engine/Dispatcher/Sound/NewCall.antt =====
-- src/engine/dispatcher.cpp: `OnNewFuncCall` on a sound dispatcher.
use nightcore.Prelude.{
  ℕ, ◌<◌, ◌≤◌, ◌≡◌, refl, sym, ap, subst, arith, ◌⊎◌, inl, inr, Bool, true, false, Option, none,
  some, List, [], ◌∷◌, ◌++◌, ◌==◌, ==_iff, is_some, length, le→leb,
}
use nightcore.Prelude.Map.{lookup, contains, lookup-insert}
use nightcore.Prelude.Result.{ok, Returns, Returns-map, >>=-Returns, ◌>>=◌}
use nightcore.Protocol.{FuncCall, IsFuncCall, full_call_id}
use nightcore.Protocol.Message.{
  Message, message_inline_data_size, new_dispatch_func_call_message, set_inline_data_in_message,
}
use nightcore.Utils.Average.{Doubles}
use nightcore.Engine.World.{FuncWorker, World}
use nightcore.Engine.Tracer
use nightcore.Engine.Tracer.{pointer_of}
use nightcore.Engine.Dispatcher.State.{Dispatcher, PendingFuncCall}
use nightcore.Engine.Dispatcher.Dispatch.{
  assign, set_pending, set_idle, dispatch_func_call, pick_idle_worker,
}
use nightcore.Engine.Dispatcher.Events.{dispatch_message, on_new_func_call}
use nightcore.Engine.Dispatcher.Queue.{
  PointsBelow, Dispatches, IsPending, AllPending, IsTraced, call_of, dispatch_func_call_lem,
}
use nightcore.Engine.Dispatcher.Invariant.{Inv, Loose, assign-Almost}
use nightcore.Engine.Dispatcher.Idle.{CanSpawn}
use nightcore.Engine.Dispatcher.Idle.Pick.{Picked, Unpicked, PickResult, pick_idle_worker_lem}
use nightcore.Engine.Dispatcher.Sound.{Sound, Sound-make}
use nightcore.Engine.Dispatcher.Sound.Tracer.{on_new_func_call_lem}

-- The input fits the message, or lies in shared memory.
abbrev pub InputFits : List ℕ → Bool → Type 0
InputFits bytes true = Unit {0}
InputFits bytes false = length bytes ≤ message_inline_data_size

dispatch_message_lem :
    (c : FuncCall) (size : ℕ) (bytes : List ℕ) (shm : Bool)
    → IsFuncCall c
    → InputFits bytes shm
    → Returns (dispatch_message c size bytes shm) (λ m. Dispatches c.func_id m × (call_of m ≡ c))
unfolding dispatch_message new_dispatch_func_call_message set_inline_data_in_message
dispatch_message_lem c size bytes true h fits = (omega arith, ground arith)
dispatch_message_lem c size bytes false h fits =
    rw (le→leb (length bytes) message_inline_data_size fits) (omega arith, ground arith)

PointsBelow-grow : (n m : ℕ) (o : Option ℕ) → n ≤ m → PointsBelow n o → PointsBelow m o
PointsBelow-grow n m none le below = below
PointsBelow-grow n m (some i) le below = omega arith

AllPending-grow :
    (f n m : ℕ) (ps : List PendingFuncCall) → n ≤ m → AllPending f n ps → AllPending f m ps
AllPending-grow f n m [] le h = tt
AllPending-grow f n m (q ∷ ps) le h =
    ((h.0.0, PointsBelow-grow n m q.func_call_info le h.0.1), AllPending-grow f n m ps le h.1)

AllPending-snoc :
    (f n : ℕ) (ps : List PendingFuncCall) (p : PendingFuncCall)
    → AllPending f n ps
    → IsPending f n p
    → AllPending f n (ps ++ p ∷ [])
AllPending-snoc f n [] p h k = (k, tt)
AllPending-snoc f n (q ∷ ps) p h k = (h.0, AllPending-snoc f n ps p h.1 k)

-- What waits in the queue for a message.
abbrev queue_entry : Message → Option ℕ → PendingFuncCall
queue_entry m info = record { dispatch_func_call_message = m; func_call_info = info }

-- The call runs on a worker, or it is the last in the queue.
abbrev pub IsPlaced : Dispatcher → FuncCall → Dispatcher → Type 0
IsPlaced d c d' =
    ((client : ℕ) × (lookup client d'.running_workers ≡ some c)
      × (lookup (full_call_id c) d'.assigned_workers ≡ some client)
      × (d'.pending_func_calls ≡ d.pending_func_calls))
    ⊎ ((p : PendingFuncCall) × (d'.pending_func_calls ≡ d.pending_func_calls ++ p ∷ [])
        × (call_of p.dispatch_func_call_message ≡ c))

module _ {D : Doubles} where
  -- The worker that was picked gets the call.
  place-Picked :
      (d : Dispatcher) (w : World D) (m : Message) (worker : FuncWorker) (x : Dispatcher × World D)
      → Inv d
      → IsTraced d.func_id w
      → AllPending d.func_id (length w.tracer.store) d.pending_func_calls
      → Dispatches d.func_id m
      → Picked d w worker x
      → Returns {A = Bool × Dispatcher × World D}
          (dispatch_func_call x.0 x.1 worker m >>= λ r. ok (true, r.0, r.1))
          (λ r. (r.0 ≡ true) × Sound r.1 r.2 × IsPlaced d (call_of m) r.1)
  unfolding assign
  place-Picked d w m worker x v t q h picked =
      subst
        (λ y.
          Returns {A = Bool × Dispatcher × World D}
            (dispatch_func_call y.0 y.1 worker m >>= λ r. ok (true, r.0, r.1))
            (λ r. (r.0 ≡ true) × Sound r.1 r.2 × IsPlaced d (call_of m) r.1))
        (sym picked.popped)
        (>>=-Returns (dispatch_func_call rested w worker m) _ _ _
          (dispatch_func_call_lem d.func_id rested w worker m t h (ap is_some picked.connected)
            picked.free)
          (λ r k. (
            refl,
            subst (λ y. Sound y r.1) (sym k.0)
                (Sound-make (assign-Almost (call_of m) loose) k.1 refl q),
            subst (IsPlaced d (call_of m)) (sym k.0) (
                inl (
                  worker.client_id,
                  rw (lookup-insert client client (call_of m) d.running_workers, same client) refl,
                  rw (lookup-insert id id client d.assigned_workers, same id) refl,
                  refl,
                )),
          )))
    where
      client : ℕ
      client = worker.client_id

      id : ℕ
      id = full_call_id (call_of m)

      same : (n : ℕ) → (n == n) ≡ true
      same n = (==_iff n n).1 refl

      rested : Dispatcher
      rested = set_idle d picked.left

      loose : Loose (λ k. ⊥) client rested
      loose = record {
        keyed = v.keyed;
        runs = λ k c there. elim (v.runs k c there) [
          | inl bad ↦ absurd bad
          | inr (call, here, own) ↦ inr (
            (λ it. cc (ap (λ j. contains j d.running_workers) it, here, picked.free)),
            (call, here, own),
          )
        ];
        counted = picked.counted;
        free = picked.free;
      }

  -- The call waits in the queue.
  place-Unpicked :
      (d : Dispatcher) (w : World D) (m : Message) (info : Option ℕ) (x : Dispatcher × World D)
      → Inv d
      → IsTraced d.func_id w
      → AllPending d.func_id (length w.tracer.store) d.pending_func_calls
      → Dispatches d.func_id m
      → PointsBelow (length w.tracer.store) info
      → Unpicked d w x
      → Sound (set_pending x.0 (x.0.pending_func_calls ++ queue_entry m info ∷ [])) x.1
        × IsPlaced d
            (call_of m)
            (set_pending x.0 (x.0.pending_func_calls ++ queue_entry m info ∷ []))
  place-Unpicked d w m info x v t q h below un =
      subst
        (λ y.
          Sound (set_pending y (y.pending_func_calls ++ queue_entry m info ∷ [])) x.1
          × IsPlaced d (call_of m)
              (set_pending y (y.pending_func_calls ++ queue_entry m info ∷ [])))
        (sym un.rest)
        (
          record {
            tables = record { keyed = v.keyed; runs = v.runs; counted = un.counted };
            traced = record {
              in_range = t.in_range;
              has_stats =
                  subst (λ a. contains d.func_id a.per_func_stats ≡ true) (sym un.tracer)
                    t.has_stats;
              pointers =
                  subst
                    (λ a. (id p : ℕ) → lookup id a.func_call_infos ≡ some p → p < length a.store)
                    (sym un.tracer) t.pointers;
            };
            queue =
                subst
                  (λ a.
                    AllPending d.func_id (length a.store)
                      (d.pending_func_calls ++ queue_entry m info ∷ []))
                  (sym un.tracer)
                  (AllPending-snoc d.func_id (length w.tracer.store) d.pending_func_calls
                    (queue_entry m info) q (h, below));
          },
          inr (queue_entry m info, refl, refl),
        )

  place :
      (d : Dispatcher) (w : World D) (c : FuncCall) (m : Message) (info : Option ℕ)
      (o : Option FuncWorker) (x : Dispatcher × World D)
      → Inv d
      → IsTraced d.func_id w
      → AllPending d.func_id (length w.tracer.store) d.pending_func_calls
      → Dispatches d.func_id m
      → call_of m ≡ c
      → PointsBelow (length w.tracer.store) info
      → PickResult d w o x
      → Returns {A = Bool × Dispatcher × World D}
          (elim o [
            | none ↦
                ok (true, set_pending x.0 (x.0.pending_func_calls ++ queue_entry m info ∷ []), x.1)
            | some worker ↦ dispatch_func_call x.0 x.1 worker m >>= λ r. ok (true, r.0, r.1)
          ])
          (λ r. (r.0 ≡ true) × Sound r.1 r.2 × IsPlaced d c r.1)
  place d w c m info none x v t q h e below un =
      let both = place-Unpicked d w m info x v t q h below un in
      (
        refl,
        both.0,
        subst
            (λ k.
              IsPlaced d k (set_pending x.0 (x.0.pending_func_calls ++ queue_entry m info ∷ [])))
            e both.1,
      )
  place d w c m info (some worker) x v t q h e below picked =
      Returns-map (dispatch_func_call x.0 x.1 worker m >>= λ r. ok (true, r.0, r.1))
        (place-Picked d w m worker x v t q h picked)
        (λ r k. (k.0, k.1, subst (λ j. IsPlaced d j r.1) e k.2))

  -- On a sound dispatcher, a new call of its function, with its fields in range and an id that the
  -- tracer does not know, whose input fits, when the limits are in order and a worker could be
  -- asked for: OnNewFuncCall returns true, keeps the dispatcher sound, and the call runs on a
  -- worker or is the last in the queue.
  pub on_new_func_call-Sound :
      (d : Dispatcher) (w : World D) (c parent : FuncCall) (size : ℕ) (bytes : List ℕ) (shm : Bool)
      → Sound d w
      → d.func_id ≡ c.func_id
      → IsFuncCall c
      → InputFits bytes shm
      → pointer_of w c ≡ none
      → d.min_workers ≤ d.max_workers
      → CanSpawn w
      → Returns
          (on_new_func_call d w c parent size bytes shm)
          (λ r. (r.0 ≡ true) × Sound r.1 r.2 × IsPlaced d c r.1)
  unfolding on_new_func_call
  on_new_func_call-Sound d w c parent size bytes shm s e h fits new order spawn =
      rw ((==_iff d.func_id c.func_id).1 e) (
        >>=-Returns (dispatch_message c size bytes shm) _ _ _
          (dispatch_message_lem c size bytes shm h fits)
          (λ m about.
            >>=-Returns (Tracer.on_new_func_call w c parent size) _ _ _
              (on_new_func_call_lem w c parent size (subst (λ f. IsTraced f w) e s.traced))
              (λ a kept.
                >>=-Returns (pick_idle_worker d a.1) _ _ _
                  (pick_idle_worker_lem d a.1 s.tables (subst (λ f. IsTraced f a.1) (sym e) kept.0)
                    order (kept.1 spawn))
                  (λ r picked.
                    place d a.1 c m a.0 r.0 (r.1, r.2) s.tables
                      (subst (λ f. IsTraced f a.1) (sym e) kept.0)
                      (AllPending-grow d.func_id _ _ d.pending_func_calls kept.2 s.queue)
                      (subst (λ f. Dispatches f m) (sym e) about.0) about.1
                      (subst (PointsBelow (length a.1.tracer.store)) (sym (kept.3 new))
                        (let longer = kept.4 new in omega arith))
                      picked))))
