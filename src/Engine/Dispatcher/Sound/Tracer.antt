-- ===== src/Engine/Dispatcher/Sound/Tracer.antt =====
-- src/engine/tracer.cpp: the tracer's handlers keep what the dispatchers rely on.
use nightcore.Prelude.{
  get_elem?-lt, ℕ, suc, ◌<◌, ◌≤◌, ◌≡◌, refl, ◌∙◌, arith, inl, inr, Bool-cases, Option-cases, Option,
  none, some, [], ◌∷◌, ◌++◌, ◌==◌, ==_iff, lt→ltb, length, length-append, length-set,
}
use nightcore.Prelude.Int.{ℤ}
use nightcore.Prelude.Map.{lookup, lookup-insert}
use nightcore.Prelude.Result.{Returns, Returns-map, >>=-Returns}
use nightcore.Protocol.{FuncCall, full_call_id, max_func_id}
use nightcore.Utils.Average.{Doubles}
use nightcore.Engine.World.{FuncCallInfo, PerFuncStatistics, World, now, tick}
use nightcore.Engine.Tracer.{
  set_info, set_stats, pointer_of, charge_parent, new_info, on_new_func_call,
  on_func_call_completed, on_func_call_failed,
}
use nightcore.Engine.Dispatcher.Idle.{CanSpawn}
use nightcore.Engine.Dispatcher.Queue.{IsTraced, Keeps, contains-some}

module _ {D : Doubles} where
  charge_parent-Keeps :
      (f : ℕ) (w : World D) (o : Option ℕ) (delay : ℤ)
      → IsTraced f w
      → ((p : ℕ) → o ≡ some p → p < length w.tracer.store)
      → Returns (charge_parent w o delay) (Keeps f w)
  unfolding charge_parent
  charge_parent-Keeps f w none delay t h = record { traced = t; stored = refl; manager = refl }
  charge_parent-Keeps f w (some p) delay t h =
      let (info, there) = get_elem?-lt w.tracer.store p (h p refl) in
      rw there (record {
        traced = record {
          in_range = t.in_range;
          has_stats = t.has_stats;
          pointers = λ id q e. rw length-set (t.pointers id q e);
        };
        stored = length-set w.tracer.store p _;
        manager = refl;
      })

  -- New numbers for the function's statistics.
  set_stats-Keeps :
      (f : ℕ) (w w' : World D) (s : PerFuncStatistics D)
      → Keeps f w w'
      → Keeps f w (set_stats w' f s)
  set_stats-Keeps f w w' s k = record {
    traced = record {
      in_range = k.traced.in_range;
      has_stats = rw (lookup-insert f f s w'.tracer.per_func_stats, (==_iff f f).1 refl) refl;
      pointers = k.traced.pointers;
    };
    stored = k.stored;
    manager = k.manager;
  }

  set_stats-IsTraced :
      {f : ℕ} {w : World D} (s : PerFuncStatistics D) → IsTraced f w → IsTraced f (set_stats w f s)
  set_stats-IsTraced {f} {w} s t = record {
    in_range = t.in_range;
    has_stats = rw (lookup-insert f f s w.tracer.per_func_stats, (==_iff f f).1 refl) refl;
    pointers = t.pointers;
  }

  -- An object is written anew, and the clock is read.
  update-Keeps :
      (f : ℕ) (w : World D) (p : ℕ) (info : FuncCallInfo)
      → IsTraced f w
      → Keeps f w (set_info (tick w) p info)
  update-Keeps f w p info t = record {
    traced = record {
      in_range = t.in_range;
      has_stats = t.has_stats;
      pointers = λ id q e. rw length-set (t.pointers id q e);
    };
    stored = length-set w.tracer.store p info;
    manager = refl;
  }

  pub tick-Keeps : (f : ℕ) (w : World D) → IsTraced f w → Keeps f w (tick w)
  tick-Keeps f w t = record {
    traced = record { in_range = t.in_range; has_stats = t.has_stats; pointers = t.pointers };
    stored = refl;
    manager = refl;
  }

  chain-Keeps : {f : ℕ} {w w' w'' : World D} → Keeps f w w' → Keeps f w' w'' → Keeps f w w''
  chain-Keeps k l = record {
    traced = l.traced;
    stored = l.stored ∙ k.stored;
    manager = l.manager ∙ k.manager;
  }

  -- The object of a call is written anew, and its parent is charged.
  charged-Keeps :
      (f : ℕ) (w : World D) (p : ℕ) (info : FuncCallInfo) (parent : FuncCall) (delay : ℤ)
      → IsTraced f w
      → Returns (charge_parent (set_info (tick w) p info) (pointer_of w parent) delay) (Keeps f w)
  charged-Keeps f w p info parent delay t =
      let updated = update-Keeps f w p info t in
      Returns-map (charge_parent (set_info (tick w) p info) (pointer_of w parent) delay)
        (charge_parent-Keeps f (set_info (tick w) p info) (pointer_of w parent) delay updated.traced
          (λ q e. rw length-set (t.pointers (full_call_id parent) q e)))
        (λ charged k. chain-Keeps updated k)

  -- Both ways in which a call ends return, and give a pointer exactly when the call is known.
  pub on_func_call_completed-Keeps :
      (w : World D) (c : FuncCall) (time delay : ℤ) (output_size : ℕ)
      → IsTraced c.func_id w
      → Returns
          (on_func_call_completed w c time delay output_size)
          (λ r. (r.0 ≡ pointer_of w c) × Keeps c.func_id w r.1)
  unfolding on_func_call_completed
  on_func_call_completed-Keeps w c time delay output_size t = elim (Option-cases (pointer_of w c)) [
    | inl unknown ↦ rw (unknown, on_func_call_completed) (refl, tick-Keeps c.func_id w t)
    | inr (p, known) ↦
        let (info, there) = get_elem?-lt w.tracer.store p (t.pointers _ p known) in
        let (s, counted) = contains-some (lookup c.func_id w.tracer.per_func_stats) t.has_stats in
        rw (known, on_func_call_completed)
          (rw (there, counted)
            (>>=-Returns
              (charge_parent _ (pointer_of w info.parent_func_call) info.total_queuing_delay) _ _ _
              (charged-Keeps c.func_id w p _ info.parent_func_call info.total_queuing_delay t)
              (λ charged k. (refl, set_stats-Keeps c.func_id w charged _ k))))
  ]

  pub on_func_call_failed-Keeps :
      (w : World D) (c : FuncCall) (delay : ℤ)
      → IsTraced c.func_id w
      → Returns
          (on_func_call_failed w c delay)
          (λ r. (r.0 ≡ pointer_of w c) × Keeps c.func_id w r.1)
  unfolding on_func_call_failed
  on_func_call_failed-Keeps w c delay t = elim (Option-cases (pointer_of w c)) [
    | inl unknown ↦ rw (unknown, on_func_call_failed) (refl, tick-Keeps c.func_id w t)
    | inr (p, known) ↦
        let (info, there) = get_elem?-lt w.tracer.store p (t.pointers _ p known) in
        let (s, counted) = contains-some (lookup c.func_id w.tracer.per_func_stats) t.has_stats in
        rw (known, on_func_call_failed)
          (rw (there, counted)
            (>>=-Returns
              (charge_parent _ (pointer_of w info.parent_func_call) info.total_queuing_delay) _ _ _
              (charged-Keeps c.func_id w p _ info.parent_func_call info.total_queuing_delay t)
              (λ charged k. (refl, set_stats-Keeps c.func_id w charged _ k))))
  ]

  -- A new call returns. Its pointer, if it was not known before, is the next object of the store.
  pub on_new_func_call_lem :
      (w : World D) (c parent : FuncCall) (input_size : ℕ)
      → IsTraced c.func_id w
      → Returns (on_new_func_call w c parent input_size) (λ r.
        IsTraced c.func_id r.1
        × (CanSpawn w → CanSpawn r.1)
        × (length w.tracer.store ≤ length r.1.tracer.store)
        × (pointer_of w c ≡ none → r.0 ≡ some (length w.tracer.store))
        × (pointer_of w c ≡ none → length r.1.tracer.store ≡ suc (length w.tracer.store)))
  unfolding on_new_func_call
  on_new_func_call_lem w c parent input_size t = elim (Option-cases (pointer_of w c)) [
    | inl new ↦
        let (s, counted) = contains-some (lookup c.func_id w.tracer.per_func_stats) t.has_stats in
        rw (new, on_new_func_call)
          (rw (counted, lt→ltb c.func_id max_func_id t.in_range)
            (
              (set_stats-IsTraced _ (record {
                in_range = t.in_range;
                has_stats = t.has_stats;
                pointers = λ id q h. elim (Bool-cases (full_call_id c == id)) [
                  | inl same ↦
                      let made =
                        lookup-insert (full_call_id c) id (length w.tracer.store)
                          w.tracer.func_call_infos in
                      let longer = one_longer (new_info c parent input_size (now w)) in ground arith
                  | inr other ↦
                      let made =
                        lookup-insert (full_call_id c) id (length w.tracer.store)
                          w.tracer.func_call_infos in
                      let below = t.pointers id q (ground arith) in
                      let longer = one_longer (new_info c parent input_size (now w)) in omega arith
                ];
              })),
              (λ h. record { id_left = h.id_left; pipes = h.pipes }),
              omega (arith, one_longer (new_info c parent input_size (now w))),
              (λ _. refl),
              (λ _. one_longer _),
            ))
    | inr (p, known) ↦
        rw (known, on_new_func_call)
          (
            (tick-Keeps c.func_id w t).traced,
            (λ h. record { id_left = h.id_left; pipes = h.pipes }),
            omega arith,
            (λ bad. cc),
            (λ bad. cc),
          )
  ]
    where
      one_longer :
          (info : FuncCallInfo) → length (w.tracer.store ++ info ∷ []) ≡ suc (length w.tracer.store)
      one_longer info = omega (arith, length-append w.tracer.store (info ∷ []))
