-- ===== src/Engine/Tracer.antt =====
-- src/engine/tracer.cpp: the life of each function call, and the averages per function. Collectors
-- that only report (`AddSample`, `Tick` of src/common/stat.h) and log lines are left out.
use nightcore.Prelude.{
  ℕ, suc, ◌^◌, Option, none, some, [], ◌∷◌, ◌++◌, ltb, is_some, if◌then◌else◌, length, get_elem?,
  set,
}
use nightcore.Prelude.Int.{ℤ, pos, negsuc, ltb_ℤ, leb_ℤ, eq_ℤ, ◌+ℤ◌, ◌-ℤ◌, narrow32}
use nightcore.Prelude.Map.{Map, lookup, insert, erase, contains}
use nightcore.Prelude.Result.{Result, ok, ◌>>=◌, ◌>>◌, check, deref}
use nightcore.Protocol.{FuncCall, full_call_id, max_func_id}
use nightcore.Utils.Average.{
  Doubles, of_ℤ, add_sample, add_sample_ext, get_value, get_value_ext, new_avg, new_avg_ext,
}
use nightcore.Config.{find_by_func_id}
use nightcore.Engine.World.{
  FuncCallInfo, received, dispatched, completed, failed, FuncWorker, PerFuncStatistics, Flags,
  World, now, tick,
}

-- What `OnNewFuncCall` writes into a new object.
abbrev pub new_info : FuncCall → FuncCall → ℕ → ℤ → FuncCallInfo
new_info c parent input_size current = record {
  state = received;
  func_call = c;
  parent_func_call = parent;
  input_size = input_size;
  output_size = 0;
  recv_timestamp = current;
  dispatch_timestamp = pos 0;
  finish_timestamp = pos 0;
  assigned_worker = 0;
  processing_time = pos 0;
  dispatch_delay = none;
  total_queuing_delay = pos 0;
}

module _ {D : Doubles} where
  unfoldable pub new_per_func_statistics : Flags D → PerFuncStatistics D
  new_per_func_statistics f = record {
    inflight_requests = pos 0;
    last_request_timestamp = negsuc 0;
    instant_rps_ema =
        new_avg_ext D f.instant_rps_ema_tau_ms f.instant_rps_ema_alpha f.instant_rps_p_norm;
    running_delay_ema = new_avg D (D.scaled (pos 1) 3);
    processing_time_ema = new_avg D (D.scaled (pos 1) 3);
    processing_time2_ema = new_avg D (D.scaled (pos 1) 3);
  }

  -- `Init` for the function ids below `n`; the code takes them all up to `kMaxFuncId` - 1.
  unfoldable pub init_stats : World D → ℕ → Map (PerFuncStatistics D)
  init_stats w ℕ.zero = []
  init_stats w (suc n) =
      let rest = init_stats w n in
      if is_some (find_by_func_id w.config n)
      then insert n (new_per_func_statistics w.flags) rest
      else rest

  unfoldable pub init : World D → World D
  init w = record w { tracer = record (w.tracer) { per_func_stats = init_stats w max_func_id } }

  abbrev pub info_at : World D → ℕ → Option FuncCallInfo
  info_at w p = get_elem? w.tracer.store p

  abbrev pub set_info : World D → ℕ → FuncCallInfo → World D
  set_info w p info = record w { tracer = record (w.tracer) { store = set w.tracer.store p info } }

  abbrev pub set_stats : World D → ℕ → PerFuncStatistics D → World D
  set_stats w func_id s = record w {
    tracer = record (w.tracer) { per_func_stats = insert func_id s w.tracer.per_func_stats };
  }

  abbrev pub pointer_of : World D → FuncCall → Option ℕ
  pointer_of w c = lookup (full_call_id c) w.tracer.func_call_infos

  -- A request of the function: the rate since the last one, which is at least 1us earlier.
  unfoldable pub count_request : PerFuncStatistics D → ℤ → PerFuncStatistics D
  count_request s reading =
      let current =
        if leb_ℤ reading s.last_request_timestamp
        then s.last_request_timestamp +ℤ pos 1
        else reading in
      let interval = current -ℤ s.last_request_timestamp in
      let rate = D.div (D.scaled (pos (10 ^ 6)) 0) (of_ℤ D interval) in
      let first = eq_ℤ s.last_request_timestamp (negsuc 0) in
      record s {
        instant_rps_ema =
            (if first then s.instant_rps_ema else add_sample_ext D s.instant_rps_ema current rate);
        last_request_timestamp = current;
        inflight_requests = s.inflight_requests +ℤ pos 1;
      }

  unfoldable pub on_new_func_call : World D → FuncCall → FuncCall → ℕ → Result (Option ℕ × World D)
  unfolding count_request
  on_new_func_call w c parent input_size =
      let t = w.tracer in
      let p = length t.store in
      let kept = record (tick w) {
        tracer = record t {
          store = t.store ++ new_info c parent input_size (now w) ∷ [];
          func_call_infos = insert (full_call_id c) p t.func_call_infos;
        };
      } in
      if contains (full_call_id c) t.func_call_infos then ok (none, tick w) else do
        check (ltb c.func_id max_func_id)
        check (contains c.func_id t.per_func_stats)
        s ← deref (lookup c.func_id t.per_func_stats)
        ok (some p, set_stats (tick kept) c.func_id (count_request s (now kept)))

  unfoldable pub on_func_call_dispatched :
      World D → FuncCall → FuncWorker → Result (Option ℕ × World D)
  on_func_call_dispatched w c worker = elim (pointer_of w c) [
    | none ↦ ok (none, tick w)
    | some p ↦ do
      info ← deref (info_at w p)
      s ← deref (lookup c.func_id w.tracer.per_func_stats)
      ok (
        some p,
        set_info (tick w) p (record info {
          state = dispatched;
          dispatch_timestamp = now w;
          assigned_worker = worker.client_id;
          total_queuing_delay =
              narrow32 (info.total_queuing_delay +ℤ narrow32 (now w -ℤ info.recv_timestamp));
        }),
      )
  ]

  -- The queueing delay of a call counts for its parent too, if the parent is still known.
  unfoldable pub charge_parent : World D → Option ℕ → ℤ → Result (World D)
  charge_parent w none delay = ok w
  charge_parent w (some p) delay = do
    parent ← deref (info_at w p)
    ok (
        set_info w p
          (record parent { total_queuing_delay = narrow32 (parent.total_queuing_delay +ℤ delay) }))

  -- `inflight_requests` after `--`, and back to 0 if that is negative.
  unfoldable pub count_finished : PerFuncStatistics D → PerFuncStatistics D
  count_finished s =
      let left = s.inflight_requests -ℤ pos 1 in
      record s { inflight_requests = (if ltb_ℤ left (pos 0) then pos 0 else left) }

  -- The averages that a completed call enters. `queued` is its total queueing delay.
  unfoldable pub average_completed :
      PerFuncStatistics D → FuncCallInfo → ℤ → ℤ → ℤ → PerFuncStatistics D
  average_completed s info current time queued =
      let running_delay = narrow32 (current -ℤ info.dispatch_timestamp) in
      let time2 = current -ℤ info.recv_timestamp -ℤ queued in
      record s {
        running_delay_ema = add_sample D s.running_delay_ema (of_ℤ D running_delay);
        processing_time_ema = add_sample D s.processing_time_ema (of_ℤ D time);
        processing_time2_ema =
            (if ltb_ℤ (pos 0) time2
              then add_sample D s.processing_time2_ema (of_ℤ D (narrow32 time2))
              else s.processing_time2_ema);
      }

  unfoldable pub on_func_call_completed :
      World D → FuncCall → ℤ → ℤ → ℕ → Result (Option ℕ × World D)
  unfolding charge_parent count_finished average_completed
  on_func_call_completed w c time delay output_size = elim (pointer_of w c) [
    | none ↦ ok (none, tick w)
    | some p ↦ do
      info ← deref (info_at w p)
      let done = set_info (tick w) p (record info {
        state = completed;
        output_size = output_size;
        finish_timestamp = now w;
        processing_time = time;
        dispatch_delay = some delay;
      })
      charged ← charge_parent done (pointer_of w info.parent_func_call) info.total_queuing_delay
      s ← deref (lookup c.func_id w.tracer.per_func_stats)
      let finished = count_finished s
      ok (
        some p,
        set_stats charged c.func_id
            (average_completed finished info (now w) time info.total_queuing_delay),
      )
  ]

  unfoldable pub on_func_call_failed : World D → FuncCall → ℤ → Result (Option ℕ × World D)
  unfolding charge_parent count_finished
  on_func_call_failed w c delay = elim (pointer_of w c) [
    | none ↦ ok (none, tick w)
    | some p ↦ do
      info ← deref (info_at w p)
      let done =
          set_info (tick w) p
            (record info { state = failed; finish_timestamp = now w; dispatch_delay = some delay })
      charged ← charge_parent done (pointer_of w info.parent_func_call) info.total_queuing_delay
      s ← deref (lookup c.func_id w.tracer.per_func_stats)
      ok (some p, set_stats charged c.func_id (count_finished s))
  ]

  unfoldable pub discard_func_call_info : World D → FuncCall → World D
  discard_func_call_info w c = record w {
    tracer = record (w.tracer) {
      func_call_infos = erase (full_call_id c) w.tracer.func_call_infos;
    };
  }

  -- The four getters check the function id and read one average.
  unfoldable pub stats_of : World D → ℕ → Result (PerFuncStatistics D)
  stats_of w func_id = do
    check (ltb func_id max_func_id)
    check (contains func_id w.tracer.per_func_stats)
    deref (lookup func_id w.tracer.per_func_stats)

  unfoldable pub get_average_instant_rps : World D → ℕ → Result D.F
  unfolding stats_of
  get_average_instant_rps w func_id = do
    s ← stats_of w func_id
    ok (get_value_ext D s.instant_rps_ema)

  unfoldable pub get_average_running_delay : World D → ℕ → Result D.F
  unfolding stats_of
  get_average_running_delay w func_id = do
    s ← stats_of w func_id
    ok (get_value D s.running_delay_ema)

  unfoldable pub get_average_processing_time : World D → ℕ → Result D.F
  unfolding stats_of
  get_average_processing_time w func_id = do
    s ← stats_of w func_id
    ok (get_value D s.processing_time_ema)

  unfoldable pub get_average_processing_time2 : World D → ℕ → Result D.F
  unfolding stats_of
  get_average_processing_time2 w func_id = do
    s ← stats_of w func_id
    ok (get_value D s.processing_time2_ema)
