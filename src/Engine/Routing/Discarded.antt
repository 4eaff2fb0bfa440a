-- ===== src/Engine/Routing/Discarded.antt =====
-- src/engine/engine.cpp: every discarded call is answered once.
use nightcore.Prelude.{
  ℕ, suc, ◌≡◌, refl, sym, subst, ◌∙◌, inl, inr, arith, Bool, true, false, Bool-cases, none, List,
  [], ◌∷◌, ◌==◌, if◌then◌else◌, length,
}
use nightcore.Prelude.Int.{ℤ, pos, ◌-ℤ◌, -ℤ_parts, eq_of_parts}
use nightcore.Prelude.Map.{lookup, lookup-erase}
use nightcore.Protocol.{FuncCall, full_call_id}
use nightcore.Protocol.Gateway.{GatewayMessage, new_func_call_failed_gateway_message}
use nightcore.Utils.Average.{Doubles}
use nightcore.Engine.Routing.{
  Outside, Engine, grab_external_func_call_shm_input, reply, external_func_call_failed,
  fail_through_fifo, fail_discarded, fail_all, process_discarded_func_call_if_necessary,
}

-- The calls that came from the gateway, and those of workers.
abbrev pub externals : List FuncCall → List FuncCall
externals [] = []
externals (c ∷ calls) = if c.client_id == 0 then c ∷ externals calls else externals calls

abbrev pub internals : List FuncCall → List FuncCall
internals [] = []
internals (c ∷ calls) = if c.client_id == 0 then internals calls else c ∷ internals calls

abbrev pub failure : FuncCall → GatewayMessage
failure c = new_func_call_failed_gateway_message c (pos 0)

abbrev pub has_id : ℕ → List FuncCall → Bool
has_id k [] = false
has_id k (c ∷ calls) = if full_call_id c == k then true else has_id k calls

minus_next : (z : ℤ) (n : ℕ) → z -ℤ pos 1 -ℤ pos n ≡ z -ℤ pos (suc n)
minus_next z n =
    eq_of_parts _ _
      (omega (arith, -ℤ_parts z (pos 1), -ℤ_parts (z -ℤ pos 1) (pos n), -ℤ_parts z (pos (suc n))))

minus_zero : (z : ℤ) → z -ℤ pos 0 ≡ z
minus_zero z = eq_of_parts _ _ (omega (arith, -ℤ_parts z (pos 0)))

module _ (outside : Outside) where
  -- One failure for each call in order, sent if there is a connection for it.
  abbrev pub answer :
      List FuncCall → List (Bool × GatewayMessage × List ℕ) → List (Bool × GatewayMessage × List ℕ)
  answer [] replies = replies
  answer (c ∷ calls) replies =
      answer calls ((outside.has_gateway_connection (length replies), failure c, []) ∷ replies)

  -- One failure for each call in order, there if it could be written.
  abbrev pub write_pipes : List FuncCall → List (Bool × FuncCall) → List (Bool × FuncCall)
  write_pipes [] failed = failed
  write_pipes (c ∷ calls) failed =
      write_pipes calls ((outside.fifo_written (length failed), c) ∷ failed)

module _ {D : Doubles} where
  module _ (outside : Outside) where
    -- Of the calls, each external one got one failure and its input is dropped; each internal one got
    -- one through its pipe, if pipes are used. Nothing else of the engine's calls has changed.
    pub record Failed (calls : List FuncCall) (e e' : Engine D) : Type 0 where
      pub replies : e'.replies ≡ answer outside (externals calls) e.replies
      pub pipes : e'.fifo_failed ≡ (
          if e.world.flags.use_fifo_for_nested_call
          then write_pipes outside (internals calls) e.fifo_failed
          else e.fifo_failed)
      pub inputs :
          (k : ℕ)
          → lookup k e'.external_func_call_shm_inputs ≡ (
              if has_id k (externals calls) then none else lookup k e.external_func_call_shm_inputs)
      pub count :
          e'.inflight_external_requests
          ≡ e.inflight_external_requests -ℤ pos (length (externals calls))
      pub dispatchers : e'.dispatchers ≡ e.dispatchers
      pub world : e'.world ≡ e.world

    fail_external :
        (e : Engine D) (c : FuncCall) (calls : List FuncCall) (e' : Engine D)
        → (c.client_id == 0) ≡ true
        → Failed calls
            (external_func_call_failed outside (grab_external_func_call_shm_input e c).1 c)
            e'
        → Failed (c ∷ calls) e e'
    unfolding external_func_call_failed reply grab_external_func_call_shm_input
    fail_external e c calls e' h f = record {
      replies = rw h f.replies;
      pipes = rw h f.pipes;
      inputs = λ k.
          ground
            (arith, h, f.inputs k, lookup-erase (full_call_id c) k e.external_func_call_shm_inputs);
      count = rw h (f.count ∙ minus_next e.inflight_external_requests (length (externals calls)));
      dispatchers = f.dispatchers;
      world = f.world;
    }

    fail_internal :
        (e : Engine D) (c : FuncCall) (calls : List FuncCall) (e' : Engine D)
        → (c.client_id == 0) ≡ false
        → Failed calls
            (if e.world.flags.use_fifo_for_nested_call then fail_through_fifo outside e c else e)
            e'
        → Failed (c ∷ calls) e e'
    fail_internal e c calls e' h f = go e.world.flags.use_fifo_for_nested_call refl f
      where
        go :
            (fifo : Bool)
            → e.world.flags.use_fifo_for_nested_call ≡ fifo
            → Failed calls (if fifo then fail_through_fifo outside e c else e) e'
            → Failed (c ∷ calls) e e'
        go true q g = record {
          replies = rw h g.replies;
          pipes = rw (h, q) (ground (arith, g.pipes, q));
          inputs = λ k. rw h (g.inputs k);
          count = rw h g.count;
          dispatchers = g.dispatchers;
          world = g.world;
        }
        go false q g = record {
          replies = rw h g.replies;
          pipes = rw (h, q) (ground (arith, g.pipes, q));
          inputs = λ k. rw h (g.inputs k);
          count = rw h g.count;
          dispatchers = g.dispatchers;
          world = g.world;
        }

    fail_discarded-external :
        (e : Engine D) (c : FuncCall)
        → (c.client_id == 0) ≡ true
        → fail_discarded outside e c
          ≡ external_func_call_failed outside (grab_external_func_call_shm_input e c).1 c
    unfolding fail_discarded
    fail_discarded-external e c h = rw h refl

    fail_discarded-internal :
        (e : Engine D) (c : FuncCall)
        → (c.client_id == 0) ≡ false
        → fail_discarded outside e c
          ≡ (if e.world.flags.use_fifo_for_nested_call then fail_through_fifo outside e c else e)
    unfolding fail_discarded
    fail_discarded-internal e c h = rw h refl

    fail_all-Failed :
        (calls : List FuncCall) (e : Engine D) → Failed calls e (fail_all outside calls e)
    unfolding fail_all
    fail_all-Failed [] e = record {
      replies = refl;
      pipes = ground arith;
      inputs = λ k. refl;
      count = sym (minus_zero e.inflight_external_requests);
      dispatchers = refl;
      world = refl;
    }
    fail_all-Failed (c ∷ calls) e =
        let e' = fail_discarded outside e c in
        let next = fail_all-Failed calls e' in
        elim (Bool-cases (c.client_id == 0)) [
          | inl h ↦ fail_external e c calls _ h (
              subst (λ y. Failed calls y (fail_all outside calls e'))
                (fail_discarded-external e c h) next)
          | inr h ↦ fail_internal e c calls _ h (
              subst (λ y. Failed calls y (fail_all outside calls e'))
                (fail_discarded-internal e c h) next)
        ]

    -- After ProcessDiscardedFuncCallIfNecessary no discarded call is left: in their order, each
    -- one from the gateway gets one failure as its reply, sent if there is a connection then, is
    -- no longer counted as in flight, and its input is dropped, with no other input touched; for
    -- each one from a worker, if pipes are used, one failure is written to its pipe, unless that
    -- write fails, and otherwise nothing is told to anyone.
    pub process_discarded_func_call_if_necessary-Failed :
        (e : Engine D)
        → Failed e.world.discarded_func_calls
            (record e { world = record (e.world) { discarded_func_calls = [] } })
            (process_discarded_func_call_if_necessary outside e)
    unfolding process_discarded_func_call_if_necessary
    process_discarded_func_call_if_necessary-Failed e = fail_all-Failed _ _
