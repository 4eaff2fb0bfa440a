-- ===== src/Engine/Routing.antt =====
-- src/engine/engine.cpp: what the engine does with the messages that reach it, over the dispatchers.
-- Statistics are left out, but not the reading of the clock that they need.
pub mod Handlers
pub mod Connections
mod Discarded
mod External
mod Tests
use nightcore.Prelude.{
  ℕ, suc, ◌+◌, ◌≤◌, Bool, true, false, Option, none, some, List, [], ◌∷◌, ◌++◌, is_some, ltb, ◌==◌,
  if◌then◌else◌, length,
}
use nightcore.Prelude.Int.{ℤ, pos, negsuc, ◌+ℤ◌, ◌-ℤ◌, leb_ℤ, ltb_ℤ, narrow32}
use nightcore.Prelude.Map.{Map, lookup, insert, erase}
use nightcore.Prelude.Result.{Result, ok, ◌>>=◌}
use nightcore.Protocol.{FuncCall, full_call_id}
use nightcore.Protocol.Gateway.{
  GatewayMessage, new_func_call_complete_gateway_message, new_func_call_failed_gateway_message,
}
use nightcore.Protocol.Message.{Message}
use nightcore.Utils.Average.{Doubles}
use nightcore.Config.{find_by_func_id}
use nightcore.Engine.World.{World, tick, now}
use nightcore.Engine.Dispatcher.State.{Dispatcher, new_dispatcher}

-- What the engine asks of the system: whether a shared-memory region for the input of a call can be
-- made, the region that holds its output, whether the current IO worker has a connection to the
-- gateway when the n-th reply is sent, and whether the n-th failure that is written to a pipe gets
-- there, as the pipe can be missing or the write fail.
pub record Outside : Type 0 where
  pub shm_create : ℕ → Bool
  pub output_shm : ℕ → Option (List ℕ)
  pub has_gateway_connection : ℕ → Bool
  pub fifo_written : ℕ → Bool

-- The engine's end of a connection to a launcher, which has client id 0, or to a worker.
pub record Peer : Type 0 where
  pub connection : ℕ
  pub handshake_done : Bool
  pub func_id : ℕ
  pub client_id : ℕ

-- `replies` lists the messages to the gateway with their payload, newest first, and says of each
-- whether there was a connection to send it on. `fifo_failed` lists the internal calls whose failure
-- was to be written to the pipe of the caller, newest first, and says of each whether it got there. `payloads` are the regions kept for inputs.
pub record Engine (D : Doubles) : Type 0 where
  pub world : World D
  pub dispatchers : Map Dispatcher
  pub external_func_call_shm_inputs : Map (List ℕ)
  pub inflight_external_requests : ℤ
  pub last_external_request_timestamp : ℤ
  pub message_connections : Map Peer
  pub gateway_connections : Map ℕ
  pub replies : List (Bool × GatewayMessage × List ℕ)
  pub fifo_failed : List (Bool × FuncCall)

module _ {D : Doubles} where
  -- The dispatcher of a configured function, made when it is first wanted.
  unfoldable pub get_or_create_dispatcher : Engine D → ℕ → Result (Option Dispatcher × Engine D)
  get_or_create_dispatcher e func_id = elim (lookup func_id e.dispatchers) [
    | some d ↦ ok (some d, e)
    | none ↦ elim (find_by_func_id e.world.config func_id) [
      | none ↦ ok (none, e)
      | some entry ↦ do
        d ← new_dispatcher e.world.config func_id
        ok (some d, record e { dispatchers = insert func_id d e.dispatchers })
    ]
  ]

  -- A dispatcher and the shared state after an event.
  abbrev pub update : Engine D → ℕ → Dispatcher → World D → Engine D
  update e func_id d w = record e { world = w; dispatchers = insert func_id d e.dispatchers }

  -- The region, if any, is no longer kept.
  unfoldable pub grab_external_func_call_shm_input :
      Engine D → FuncCall → Option (List ℕ) × Engine D
  grab_external_func_call_shm_input e c = (
    lookup (full_call_id c) e.external_func_call_shm_inputs,
    record e {
      external_func_call_shm_inputs = erase (full_call_id c) e.external_func_call_shm_inputs;
    },
  )

  module _ (outside : Outside) where
    -- A reply, sent if there is a connection.
    unfoldable pub reply : Engine D → GatewayMessage → List ℕ → Engine D
    reply e message payload = record e {
      inflight_external_requests = e.inflight_external_requests -ℤ pos 1;
      replies = (outside.has_gateway_connection (length e.replies), message, payload) ∷ e.replies;
    }

    unfoldable pub external_func_call_completed : Engine D → FuncCall → List ℕ → ℤ → Engine D
    external_func_call_completed e c output processing_time =
        reply e
          (record (new_func_call_complete_gateway_message c processing_time) {
            payload_size = narrow32 (pos (length output));
          })
          output

    unfoldable pub external_func_call_failed : Engine D → FuncCall → Engine D
    external_func_call_failed e c = reply e (new_func_call_failed_gateway_message c (pos 0)) []

    -- `FifoFuncCallFinished` without success, whose result is not looked at.
    abbrev pub fail_through_fifo : Engine D → FuncCall → Engine D
    fail_through_fifo e c = record e {
      fifo_failed = (outside.fifo_written (length e.fifo_failed), c) ∷ e.fifo_failed;
    }

    -- One call of the list of discarded calls: its input is dropped, and the gateway or the caller
    -- told. An internal call is only answered through pipes.
    unfoldable pub fail_discarded : Engine D → FuncCall → Engine D
    fail_discarded e c =
        if c.client_id == 0
        then external_func_call_failed (grab_external_func_call_shm_input e c).1 c
        else (if e.world.flags.use_fifo_for_nested_call then fail_through_fifo e c else e)

    unfoldable pub fail_all : List FuncCall → Engine D → Engine D
    fail_all [] e = e
    fail_all (c ∷ calls) e = fail_all calls (fail_discarded e c)

    unfoldable pub process_discarded_func_call_if_necessary : Engine D → Engine D
    process_discarded_func_call_if_necessary e =
        fail_all e.world.discarded_func_calls
          (record e { world = record (e.world) { discarded_func_calls = [] } })
