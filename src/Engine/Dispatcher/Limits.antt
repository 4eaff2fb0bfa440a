-- ===== src/Engine/Dispatcher/Limits.antt =====
-- src/engine/dispatcher.cpp: the concurrency limits, and the requests for new workers.
use nightcore.Prelude.{ℕ, ◌+◌, Bool, not, ◌&&◌, none, some, ltb, leb, if◌then◌else◌}
use nightcore.Prelude.Int.{ℤ, pos, negsuc, ltb_ℤ, eq_ℤ, ◌+ℤ◌, ms_to_us}
use nightcore.Prelude.Map.{insert, size}
use nightcore.Prelude.Result.{Result, ok, ◌>>=◌}
use nightcore.Utils.Average.{Doubles, positive}
use nightcore.Engine.World.{World, now, tick}
use nightcore.Engine.Tracer.{
  get_average_instant_rps, get_average_running_delay, get_average_processing_time2,
}
use nightcore.Engine.Manager.{request_new_func_worker}
use nightcore.Engine.Dispatcher.State.{Dispatcher, size_max}

-- `std::clamp`, whose precondition is lo ≤ hi; with lo above hi it takes the first test that holds.
unfoldable pub clamp : ℕ → ℕ → ℕ → ℕ
clamp x lo hi = if ltb x lo then lo else if ltb hi x then hi else x

-- coef · delay · rate / 10^6, as a number of calls.
abbrev pub estimate : (D : Doubles) → D.F → D.F → D.F → ℕ
estimate D coef delay rps =
    D.round (D.div (D.mul (D.mul coef delay) rps) (D.scaled (pos 1000000) 0))

module _ {D : Doubles} where
  unfoldable pub determine_expected_concurrency : Dispatcher → World D → Result ℕ
  determine_expected_concurrency d w = do
    delay ← get_average_processing_time2 w d.func_id
    rps ← get_average_instant_rps w d.func_id
    ok (
        if positive D delay && positive D rps
        then estimate D w.flags.expected_concurrency_coef delay rps
        else 0)

  unfoldable pub determine_concurrency_limit : Dispatcher → World D → Result ℕ
  unfolding clamp
  determine_concurrency_limit d w =
      if w.flags.disable_concurrency_limiter then ok d.max_workers else do
        delay ← get_average_running_delay w d.func_id
        rps ← get_average_instant_rps w d.func_id
        ok (
            clamp
              (if positive D delay && positive D rps
                then estimate D w.flags.concurrency_limit_coef delay rps
                else size_max)
              d.min_workers d.max_workers)

  -- The last part of `MayRequestNewFuncWorker`, behind its returns.
  unfoldable pub request_worker : Dispatcher → World D → ℤ → Result (Dispatcher × World D)
  request_worker d w current = do
    (client, w') ← request_new_func_worker w d.func_id
    ok (
      elim client [
        | none ↦ d
        | some client_id ↦ record d {
          requested_workers = insert client_id current d.requested_workers;
          last_request_worker_timestamp = current;
        }
      ],
      w',
    )

  -- The test on the interval since the last request, as it is written.
  unfoldable pub interval_refuses : Dispatcher → World D → ℤ → Bool
  interval_refuses d w current =
      not (eq_ℤ d.last_request_worker_timestamp (negsuc 0))
      && (ltb_ℤ (pos 0) w.flags.min_worker_request_interval_ms
          && ltb_ℤ
              (d.last_request_worker_timestamp +ℤ ms_to_us w.flags.min_worker_request_interval_ms)
              current)

  unfoldable pub may_request_new_func_worker : Dispatcher → World D → Result (Dispatcher × World D)
  may_request_new_func_worker d w =
      let total = size d.workers + size d.requested_workers in
      if leb d.max_workers total
      then ok (d, w)
      else if interval_refuses d (tick w) (now w)
      then ok (d, tick w)
      else if w.flags.always_request_worker_if_possible
      then request_worker d (tick w) (now w)
      else do
        expected ← determine_expected_concurrency d (tick w)
        if leb expected total then ok (d, tick w) else request_worker d (tick w) (now w)
