-- ===== src/Engine/Dispatcher/Queue.antt =====
-- src/engine/dispatcher.cpp: `DispatchPendingFuncCall` and `DispatchFuncCall` on a sound engine.
pub mod Drain
use nightcore.Prelude.{
  get_elem?-lt, ℕ, suc, ◌-◌, ◌^◌, ◌<◌, ◌≡◌, refl, sym, ap, ◌∙◌, subst, arith, ◌⊎◌, inl, inr, Bool,
  true, false, not, is_some, Bool-cases, Option-cases, Option, none, some, List, [], ◌∷◌, ◌++◌,
  append-nil, append_assoc, map, length, length-set, get_elem?, set,
}
use nightcore.Prelude.Int.{ℤ, pos, ◌-ℤ◌, ◌+ℤ◌}
use nightcore.Prelude.Map.{lookup, contains, lookup-erase}
use nightcore.Prelude.Result.{Result, ok, Returns, Returns-map, >>=-Returns, check, deref, ◌>>=◌}
use nightcore.Protocol.{FuncCall, full_call_id, max_func_id}
use nightcore.Protocol.Message.{Message, code, dispatch_func_call, get_func_call_from_message}
use nightcore.Utils.Average.{Doubles}
use nightcore.Engine.World.{FuncWorker, FuncCallInfo, WorkerManager, World, now, tick, send_message}
use nightcore.Engine.Tracer.{info_at, pointer_of, on_func_call_dispatched, discard_func_call_info}
use nightcore.Engine.Dispatcher.State.{Dispatcher, PendingFuncCall}
use nightcore.Engine.Dispatcher.Dispatch
use nightcore.Engine.Dispatcher.Dispatch.{
  assign, set_pending, discard_func_call, still_wanted, pending_loop, dispatch_pending_func_call,
}

-- The call that a message is about.
abbrev pub call_of : Message → FuncCall
call_of m = record {
  func_id = m.func_id;
  method_id = m.method_id;
  client_id = m.client_id;
  call_id = m.call_id;
  padding = 0;
}

-- A pointer into a store of `n` objects.
abbrev pub PointsBelow : ℕ → Option ℕ → Type 0
PointsBelow n none = ⊥
PointsBelow n (some p) = p < n

-- A message that dispatches a call of function `f`.
abbrev pub Dispatches : ℕ → Message → Type 0
Dispatches f m = (m.message_type ≡ code dispatch_func_call) × (m.func_id ≡ f)

-- A queued call of function `f`, over a store of `n` objects.
abbrev pub IsPending : ℕ → ℕ → PendingFuncCall → Type 0
IsPending f n p = Dispatches f p.dispatch_func_call_message × PointsBelow n p.func_call_info

abbrev pub AllPending : ℕ → ℕ → List PendingFuncCall → Type 0
AllPending f n [] = Unit {0}
AllPending f n (p ∷ ps) = IsPending f n p × AllPending f n ps

pub get_func_call-Dispatches :
    (f : ℕ) (m : Message) → Dispatches f m → get_func_call_from_message m ≡ ok (call_of m)
unfolding get_func_call_from_message
get_func_call-Dispatches f m h = ground (arith, h.0)

pub contains-some {ℓ} : {V : Type ℓ} (o : Option V) → is_some o ≡ true → (v : V) × (o ≡ some v)
contains-some none h = cc
contains-some (some v) h = (v, refl)

module _ {D : Doubles} where
  -- The tracer has statistics for function `f`, and its table points into its store.
  pub record IsTraced (f : ℕ) (w : World D) : Type 0 where
    pub in_range : f < max_func_id
    pub has_stats : contains f w.tracer.per_func_stats ≡ true
    pub pointers :
        (id p : ℕ) → lookup id w.tracer.func_call_infos ≡ some p → p < length w.tracer.store

  -- What the steps of dispatching leave as it was.
  pub record Keeps (f : ℕ) (w w' : World D) : Type 0 where
    pub traced : IsTraced f w'
    pub stored : length w'.tracer.store ≡ length w.tracer.store
    pub manager : w'.manager ≡ w.manager

  pub on_func_call_dispatched-Keeps :
      (f : ℕ) (w : World D) (c : FuncCall) (worker : FuncWorker)
      → IsTraced f w
      → c.func_id ≡ f
      → Returns
          (on_func_call_dispatched w c worker)
          (λ r. Keeps f w r.1 × (r.1.discarded_func_calls ≡ w.discarded_func_calls))
  unfolding on_func_call_dispatched
  on_func_call_dispatched-Keeps f w c worker t e = elim (Option-cases (pointer_of w c)) [
    | inl unknown ↦
        rw (unknown, on_func_call_dispatched)
          (
            record {
              traced = record {
                in_range = t.in_range;
                has_stats = t.has_stats;
                pointers = t.pointers;
              };
              stored = refl;
              manager = refl;
            },
            refl,
          )
    | inr (p, known) ↦
        let (info, there) = get_elem?-lt w.tracer.store p (t.pointers _ p known) in
        let (s, counted) =
          contains-some (lookup c.func_id w.tracer.per_func_stats) (rw e t.has_stats) in
        rw (known, on_func_call_dispatched)
          (rw (there, counted)
            (
              record {
                traced = record {
                  in_range = t.in_range;
                  has_stats = t.has_stats;
                  pointers = λ id q h. rw length-set (t.pointers id q h);
                };
                stored = length-set w.tracer.store p _;
                manager = refl;
              },
              refl,
            ))
  ]

  -- `DispatchFuncCall` returns, and assigns the call of the message to the worker.
  pub dispatch_func_call_lem :
      (f : ℕ) (d : Dispatcher) (w : World D) (worker : FuncWorker) (m : Message)
      → IsTraced f w
      → Dispatches f m
      → contains worker.client_id d.workers ≡ true
      → contains worker.client_id d.running_workers ≡ false
      → Returns (Dispatch.dispatch_func_call d w worker m) (λ r.
        (r.0 ≡ assign d worker.client_id (call_of m))
        × Keeps f w r.1
        × (r.1.discarded_func_calls ≡ w.discarded_func_calls))
  unfolding Dispatch.dispatch_func_call send_message
  dispatch_func_call_lem f d w worker m t h connected free =
      rw (connected, free, get_func_call-Dispatches f m h)
        (>>=-Returns (on_func_call_dispatched w (call_of m) worker) _ _ _
          (on_func_call_dispatched-Keeps f w (call_of m) worker t h.1)
          (λ r k. (
            refl,
            record {
              traced = record {
                in_range = k.0.traced.in_range;
                has_stats = k.0.traced.has_stats;
                pointers = k.0.traced.pointers;
              };
              stored = k.0.stored;
              manager = k.0.manager;
            },
            k.1,
          )))
