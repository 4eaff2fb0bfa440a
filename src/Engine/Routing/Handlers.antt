-- ===== src/Engine/Routing/Handlers.antt =====
-- src/engine/engine.cpp: calls from the gateway, and messages of workers.
use nightcore.Prelude.{
  ℕ, ◌+◌, Bool, true, false, not, ◌&&◌, ◌||◌, Option, none, some, List, [], is_some, ltb, ◌==◌,
  if◌then◌else◌, length,
}
use nightcore.Prelude.Int.{ℤ, pos, pos_part, neg_part, ◌+ℤ◌, leb_ℤ, ltb_ℤ}
use nightcore.Prelude.Map.{insert}
use nightcore.Prelude.Result.{Result, ok, ◌>>=◌, deref}
use nightcore.Protocol.{FuncCall, full_call_id, invalid_func_call, of_full_call_id}
use nightcore.Protocol.Gateway
use nightcore.Protocol.Gateway.{GatewayMessage}
use nightcore.Protocol.Message.{
  Message, get_func_call_from_message, get_inline_data_from_message, is_invoke_func_message,
  is_func_call_complete_message, is_func_call_failed_message, message_inline_data_size,
  processing_time, dispatch_delay,
}
use nightcore.Utils.Average.{Doubles}
use nightcore.Engine.World.{tick, now, send_message}
use nightcore.Engine.Manager.{get_func_worker}
use nightcore.Engine.Dispatcher.State.{Dispatcher}
use nightcore.Engine.Dispatcher.Events.{
  on_new_func_call, on_func_call_completed, on_func_call_failed,
}
use nightcore.Engine.Routing.{
  Outside, Engine, get_or_create_dispatcher, update, grab_external_func_call_shm_input,
  external_func_call_completed, external_func_call_failed, process_discarded_func_call_if_necessary,
}

-- The timestamps of external calls grow.
abbrev next_timestamp : ℤ → ℤ → ℤ
next_timestamp current last = if leb_ℤ current last then last +ℤ pos 1 else current

module _ {D : Doubles} where
  unfoldable pub stamp : Engine D → Engine D
  stamp e = record e {
    world = tick e.world;
    last_external_request_timestamp =
        next_timestamp (now e.world) e.last_external_request_timestamp;
  }

  unfoldable pub keep_input : Engine D → FuncCall → List ℕ → Engine D
  keep_input e c input = record e {
    external_func_call_shm_inputs = insert (full_call_id c) input e.external_func_call_shm_inputs;
  }

  -- What is done under the lock when a call comes in, up to the dispatcher.
  unfoldable pub admit : Engine D → FuncCall → List ℕ → Bool → Result (Option Dispatcher × Engine D)
  admit e c input large = do
    (dispatcher, e') ← get_or_create_dispatcher (stamp e) c.func_id
    ok (dispatcher, (if large && is_some dispatcher then keep_input e' c input else e'))

module _ {D : Doubles} (outside : Outside) where
  -- The call that the dispatcher got: one that it refuses has failed.
  unfoldable pub submit : Engine D → Dispatcher → FuncCall → List ℕ → Bool → Result (Engine D)
  submit e d c input large = do
    (success, d', w) ←
        on_new_func_call d e.world c invalid_func_call (length input) (if large then [] else input)
          large
    let e' = update e c.func_id d' w
    ok (
        if success
        then e'
        else external_func_call_failed outside (grab_external_func_call_shm_input e' c).1 c)

  unfoldable pub on_external_func_call : Engine D → FuncCall → List ℕ → Result (Engine D)
  on_external_func_call e c input =
      let large = ltb message_inline_data_size (length input) in
      let counted = record e {
        inflight_external_requests = e.inflight_external_requests +ℤ pos 1;
      } in
      if large && not (outside.shm_create (full_call_id c))
      then ok (external_func_call_failed outside counted c)
      else (do
        (dispatcher, e') ← admit counted c input large
        elim dispatcher [
          | none ↦ ok (external_func_call_failed outside e' c)
          | some d ↦ submit e' d c input large
        ])

  unfoldable pub on_recv_gateway_message : Engine D → GatewayMessage → List ℕ → Result (Engine D)
  on_recv_gateway_message e message payload =
      if Gateway.is_dispatch_func_call_message message
      then (do c ← Gateway.get_func_call_from_message message; on_external_func_call e c payload)
      else ok e

  -- `ComputeMessageDelay` reads the clock if the message has a timestamp.
  abbrev read_delay : Engine D → Message → Engine D
  read_delay e message =
      if ltb_ℤ (pos 0) message.send_timestamp then record e { world = tick e.world } else e

  unfoldable pub recv_invoke : Engine D → Message → Result (Engine D)
  recv_invoke e message = do
    c ← get_func_call_from_message message
    (dispatcher, e') ← get_or_create_dispatcher e c.func_id
    let parent = of_full_call_id message.parent_call_id
    let shm_input = ltb_ℤ message.payload_size (pos 0)
    elim dispatcher [
      | none ↦ ok e'
      | some d ↦ do
        (success, d', w) ←
            (if shm_input
              then on_new_func_call d e'.world c parent (neg_part message.payload_size) [] true
              else (do
                input ← get_inline_data_from_message message
                on_new_func_call d e'.world c parent (pos_part message.payload_size) input false))
        ok (update e' c.func_id d' w)
    ]

  -- The gateway is told of an external call that a worker has finished.
  unfoldable pub reply_completed : Engine D → FuncCall → Message → Result (Engine D)
  reply_completed e c message =
      if ltb_ℤ message.payload_size (pos 0)
      then ok (elim (outside.output_shm (full_call_id c)) [
        | none ↦ external_func_call_failed outside e c
        | some output ↦ external_func_call_completed outside e c output (processing_time message)
      ])
      else (do
        output ← get_inline_data_from_message message
        ok (external_func_call_completed outside e c output (processing_time message)))

  -- The dispatcher's part of a finished call: whether it knew the call.
  unfoldable pub dispatch_finished :
      Engine D → Dispatcher → FuncCall → Message → Result (Bool × Engine D)
  dispatch_finished e d c message = do
    (success, d', w) ←
        (if is_func_call_complete_message message
          then on_func_call_completed d e.world c (processing_time message) (dispatch_delay message)
              (pos_part message.payload_size + neg_part message.payload_size)
          else on_func_call_failed d e.world c (dispatch_delay message))
    ok (success, update e c.func_id d' w)

  -- The caller of an internal call is told through the engine, without pipes. The source follows the
  -- pointer to the caller's worker without a check.
  unfoldable pub tell_caller : Engine D → FuncCall → Message → Result (Engine D)
  tell_caller e c message = if e.world.flags.use_fifo_for_nested_call then ok e else (do
    worker ← deref (get_func_worker e.world c.client_id)
    ok (record e { world = send_message e.world worker message }))

  unfoldable pub recv_finished : Engine D → Message → Result (Engine D)
  recv_finished e message = do
    c ← get_func_call_from_message message
    let grabbed = (if c.client_id == 0 then (grab_external_func_call_shm_input e c).1 else e)
    (dispatcher, e') ← get_or_create_dispatcher grabbed c.func_id
    elim dispatcher [
      | none ↦ ok e'
      | some d ↦ do
        (success, e'') ← dispatch_finished e' d c message
        (if not success
            then ok e''
            else if c.client_id == 0
            then (if is_func_call_complete_message message
                then reply_completed e'' c message
                else ok (external_func_call_failed outside e'' c))
            else tell_caller e'' c message)
    ]

  unfoldable pub on_recv_message : Engine D → Message → Result (Engine D)
  on_recv_message e message = do
    e' ←
        (if is_invoke_func_message message
          then recv_invoke (read_delay e message) message
          else if is_func_call_complete_message message || is_func_call_failed_message message
          then recv_finished (read_delay e message) message
          else ok (read_delay e message))
    ok (process_discarded_func_call_if_necessary outside e')
