-- ===== src/Engine/Dispatcher/Completed.antt =====
-- src/engine/dispatcher.cpp and tracer.cpp: what is recorded of a call when it completes.
use nightcore.Prelude.{
  get_elem?-lt, ℕ, zero, suc, ◌<◌, ◌≡◌, refl, sym, ap, ◌∙◌, subst, ==_iff, ◌⊎◌, Option-cases, inl,
  inr, Option, none, some, List, [], ◌∷◌, length, get_elem?, set, length-set,
}
use nightcore.Prelude.Int.{ℤ, ◌+ℤ◌, narrow32}
use nightcore.Prelude.Map.{lookup}
use nightcore.Prelude.Result.{Returns, Returns-map, >>=-Returns}
use nightcore.Protocol.{FuncCall, full_call_id}
use nightcore.Utils.Average.{Doubles}
use nightcore.Engine.World.{FuncCallInfo, completed, World}
use nightcore.Engine.Tracer
use nightcore.Engine.Tracer.{info_at, set_info, pointer_of, charge_parent, discard_func_call_info}
use nightcore.Engine.Dispatcher.State.{Dispatcher}
use nightcore.Engine.Dispatcher.Dispatch.{
  serve_queue, dispatch_pending_func_call, func_worker_finished,
}
use nightcore.Engine.Dispatcher.Events.{on_func_call_completed, release_worker}
use nightcore.Engine.Dispatcher.Queue.{IsTraced, contains-some}
use nightcore.Engine.Dispatcher.Invariant.{Inv}
use nightcore.Engine.Dispatcher.Sound.{Sound}

get_elem?-set_self {ℓ} :
    {A : Type ℓ} (xs : List A) (i : ℕ) (v a : A)
    → get_elem? xs i ≡ some a
    → get_elem? (set xs i v) i ≡ some v
get_elem?-set_self [] i v a h = cc h
get_elem?-set_self (x ∷ xs) zero v a h = refl
get_elem?-set_self (x ∷ xs) (suc i) v a h = get_elem?-set_self xs i v a h

-- The object at `p` is that of a completed call with these times and this output.
abbrev pub Records : {D : Doubles} → World D → ℕ → ℤ → ℤ → ℕ → Type 0
Records w p time delay output_size =
    (info : FuncCallInfo) × (info_at w p ≡ some info)
    × (info.state ≡ completed)
    × (info.processing_time ≡ time)
    × (info.dispatch_delay ≡ some delay)
    × (info.output_size ≡ output_size)

-- Two objects of a store, one of them written: the other is as it was.
set_other {ℓ} :
    {A : Type ℓ} (xs : List A) (p q : ℕ) (v a : A)
    → get_elem? xs p ≡ some a
    → (p ≡ q) ⊎ (get_elem? (set xs q v) p ≡ some a)
set_other [] p q v a h = cc h
set_other (x ∷ xs) zero zero v a h = inl refl
set_other (x ∷ xs) zero (suc q) v a h = inr h
set_other (x ∷ xs) (suc p) zero v a h = inr h
set_other (x ∷ xs) (suc p) (suc q) v a h = elim (set_other xs p q v a h) [
  | inl e ↦ inl (ap suc e)
  | inr e ↦ inr e
]

module _ {D : Doubles} where
  -- Charging a parent, even the call itself, leaves what is recorded of the call.
  charge_parent-Records :
      (w : World D) (o : Option ℕ) (charge : ℤ) (p : ℕ) (time delay : ℤ) (output_size : ℕ)
      → ((q : ℕ) → o ≡ some q → q < length w.tracer.store)
      → Records w p time delay output_size
      → Returns (charge_parent w o charge) (λ w'. Records w' p time delay output_size)
  unfolding charge_parent
  charge_parent-Records w none charge p time delay output_size below r = r
  charge_parent-Records w (some q) charge p time delay output_size below
        (info, there, state, timed, delayed, sized) =
      let (parent, found) = get_elem?-lt w.tracer.store q (below q refl) in
      let charged = record parent {
        total_queuing_delay = narrow32 (parent.total_queuing_delay +ℤ charge);
      } in
      rw found (elim (set_other w.tracer.store p q charged info there) [
        | inl same ↦
            let own : parent ≡ info =
              cc (found, there, ap (λ k. get_elem? w.tracer.store k) same) in
            (
              charged,
              ap (get_elem? (set w.tracer.store q charged)) same
                  ∙ get_elem?-set_self w.tracer.store q charged parent found,
              ap (λ i. i.state) own ∙ state,
              ap (λ i. i.processing_time) own ∙ timed,
              ap (λ i. i.dispatch_delay) own ∙ delayed,
              ap (λ i. i.output_size) own ∙ sized,
            )
        | inr other ↦ (info, other, state, timed, delayed, sized)
      ])

  -- The tracer's event records the times in the order in which it gets them.
  completed-Records :
      (w : World D) (c : FuncCall) (time delay : ℤ) (output_size p : ℕ)
      → IsTraced c.func_id w
      → pointer_of w c ≡ some p
      → Returns
          (Tracer.on_func_call_completed w c time delay output_size)
          (λ r. (r.0 ≡ some p) × Records r.1 p time delay output_size)
  unfolding Tracer.on_func_call_completed
  completed-Records w c time delay output_size p t known =
      let (info, there) = get_elem?-lt w.tracer.store p (t.pointers _ p known) in
      let (s, counted) = contains-some (lookup c.func_id w.tracer.per_func_stats) t.has_stats in
      rw (known, Tracer.on_func_call_completed)
        (rw (there, counted)
          (>>=-Returns
            (charge_parent _ (pointer_of w info.parent_func_call) info.total_queuing_delay) _ _ _
            (charge_parent-Records _ (pointer_of w info.parent_func_call) info.total_queuing_delay p
              time delay output_size (λ q e. rw length-set (t.pointers _ q e))
              (_, get_elem?-set_self w.tracer.store p _ info there, refl, refl, refl, refl))
            (λ charged r. (refl, r))))

  -- With an empty queue the worker becomes idle, and the engine's state stays.
  release_worker_quiet :
      (d : Dispatcher) (w : World D) (c : FuncCall)
      → Inv d
      → d.pending_func_calls ≡ []
      → Returns (release_worker d w c) (λ r. r.2 ≡ w)
  unfolding release_worker func_worker_finished dispatch_pending_func_call serve_queue
  release_worker_quiet d w c v none_left =
      elim (Option-cases (lookup (full_call_id c) d.assigned_workers)) [
        | inl unknown ↦ rw (unknown, release_worker) refl
        | inr (client, assigned) ↦ elim (Option-cases (lookup client d.workers)) [
          | inl gone ↦ rw (assigned, release_worker) (rw (gone, release_worker) refl)
          | inr (worker, there) ↦ elim (v.runs (full_call_id c) client assigned) [
            | inl bad ↦ absurd bad
            | inr (call, running, same) ↦
                let own = v.keyed client worker there in
                rw (assigned, release_worker)
                  (rw (there, release_worker) (rw (own, there, running, none_left) refl))
          ]
        ]
      ]

  -- When a call of the function that the tracer knows completes on a sound dispatcher and no call
  -- waits, the event returns, and the tracer's object of the call has the dispatch delay for its
  -- processing time and the processing time for its dispatch delay: the two arguments are passed
  -- in the other order.
  pub on_func_call_completed_swaps :
      (d : Dispatcher) (w : World D) (c : FuncCall) (time delay : ℤ) (output_size p : ℕ)
      → Sound d w
      → d.func_id ≡ c.func_id
      → pointer_of w c ≡ some p
      → d.pending_func_calls ≡ []
      → Returns
          (on_func_call_completed d w c time delay output_size)
          (λ r. Records r.2 p delay time output_size)
  unfolding on_func_call_completed discard_func_call_info
  on_func_call_completed_swaps d w c time delay output_size p s e known none_left =
      rw ((==_iff d.func_id c.func_id).1 e) (
        >>=-Returns (Tracer.on_func_call_completed w c delay time output_size) _ _ _
          (completed-Records w c delay time output_size p (subst (λ f. IsTraced f w) e s.traced)
            known)
          (λ r done. rw done.0 (
            Returns-map (release_worker d (discard_func_call_info r.1 c) c)
              (release_worker_quiet d (discard_func_call_info r.1 c) c s.tables none_left)
              (λ x same. subst (λ w'. Records w' p delay time output_size) (sym same) done.1))))
