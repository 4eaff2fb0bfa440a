-- ===== src/Worker/EventDriven/Pipes.antt =====
-- src/worker/event_driven_worker.cpp: workers of the process, and what its pipes bring.
use nightcore.Prelude.{
  ℕ, ◌/◌, ◌%◌, true, false, not, ◌||◌, Option, none, some, List, [], ◌∷◌, ◌==◌, if◌then◌else◌,
  length,
}
use nightcore.Prelude.Int.{pos, neg_part, ltb_ℤ}
use nightcore.Prelude.Map.{lookup, insert, erase}
use nightcore.Prelude.Result.{ok, err, ◌>>=◌, ◌>>◌, check, deref, check_failed}
use nightcore.Protocol.{FuncCall, full_call_id}
use nightcore.Protocol.Message.{
  Message, get_func_call_from_message, get_inline_data_from_message, is_create_func_worker_message,
  is_dispatch_func_call_message, is_func_call_complete_message, is_func_call_failed_message,
  is_handshake_response_message, new_func_worker_handshake_message,
}
use nightcore.Utils.Pool.{give_back}
use nightcore.Worker.WorkerLib.{Shared, fifo_get_func_call_output}
use nightcore.Worker.EventDriven.{
  EventDrivenWorker, Outside, Step, Action, FuncWorkerState, OutgoingFuncCallState,
  watch_fd_readable, stop_watch_fd, outgoing_func_call_complete, send, func_call_to_handle,
  erase_input,
}
use nightcore.Worker.EventDriven.Calls.{execute_func}

-- What a finished call was: it succeeded with an output, or it failed.
abbrev pub completion : FuncCall → Option (List ℕ) → Action
completion c none = outgoing_func_call_complete (func_call_to_handle c) false []
completion c (some output) = outgoing_func_call_complete (func_call_to_handle c) true output

-- The state goes back to the pool, and with it the input region.
abbrev pub without_outgoing : EventDrivenWorker → OutgoingFuncCallState → EventDrivenWorker
without_outgoing w state = record w {
  outgoing_func_calls = erase (full_call_id state.func_call) w.outgoing_func_calls;
  outgoing_func_call_pool = give_back state.object w.outgoing_func_call_pool;
  shared = erase_input state.func_call state.input w.shared;
}

-- The region of an output that is in shared memory goes when it has been looked at.
abbrev pub output_in_shm : OutgoingFuncCallState → Message → Shared → Option (List ℕ) × Shared
output_in_shm state message s = elim (lookup (full_call_id state.func_call) s.output_regions) [
  | none ↦ (none, s)
  | some region ↦ (
    (if length region == neg_part message.payload_size then some region else none),
    record s { output_regions = erase (full_call_id state.func_call) s.output_regions },
  )
]

unfoldable pub on_outgoing_func_call_finished :
    EventDrivenWorker → Message → OutgoingFuncCallState → Step
on_outgoing_func_call_finished w message state =
    let w1 = without_outgoing w state in
    if is_func_call_failed_message message
    then ok (w1, completion state.func_call none ∷ [])
    else (do
      check (is_func_call_complete_message message)
      (if ltb_ℤ message.payload_size (pos 0)
          then (let (output, s) = output_in_shm state message w1.shared in
              ok (record w1 { shared = s }, completion state.func_call output ∷ []))
          else (do
            output ← get_inline_data_from_message message
            ok (w1, completion state.func_call (some output) ∷ []))))

-- The pipe is neither closed nor removed.
unfoldable pub on_output_pipe_readable : EventDrivenWorker → OutgoingFuncCallState → ℕ → Step
on_output_pipe_readable w state fd =
    let (got, s) = fifo_get_func_call_output w.shared state.func_call in
    let output : Option (List ℕ) = elim got [ none ↦ none | some result ↦ result ] in
    ok (
      without_outgoing
          (record w {
            outgoing_func_call_by_output_pipe_fd = erase fd w.outgoing_func_call_by_output_pipe_fd;
            shared = s;
          })
          state,
      stop_watch_fd fd ∷ completion state.func_call output ∷ [],
    )

module _ (o : Outside) where
  -- `response` is what the engine sends back over the new socket.
  unfoldable pub new_func_worker : EventDrivenWorker → ℕ → Option Message → Step
  new_func_worker w client_id response = elim o.connect [
    | none ↦ err check_failed
    | some engine_sock_fd ↦ do
      let handshake = new_func_worker_handshake_message w.config_entry.func_id client_id
      check (o.send_message engine_sock_fd handshake)
      message ← (elim response [ none ↦ err check_failed | some m ↦ ok m ])
      check (is_handshake_response_message message)
      let input_pipe_fd = o.open_input client_id
      let state : FuncWorkerState = record {
        client_id = client_id;
        engine_sock_fd = engine_sock_fd;
        input_pipe_fd = input_pipe_fd;
        output_pipe_fd = o.open_output client_id;
        next_call_id = 0;
      }
      ok (
        record w {
          use_fifo_for_nested_call =
              if message.flags / 2 % 2 == 1 then true else w.use_fifo_for_nested_call;
          func_workers = insert client_id state w.func_workers;
          func_worker_by_input_fd = insert input_pipe_fd client_id w.func_worker_by_input_fd;
        },
        send engine_sock_fd handshake ∷ watch_fd_readable input_pipe_fd ∷ [],
      )
  ]

  unfoldable pub start : EventDrivenWorker → ℕ → Option Message → Step
  unfolding new_func_worker
  start w initial_client_id response = do
    (w1, actions) ← new_func_worker w initial_client_id response
    ok (w1, watch_fd_readable w.message_pipe_fd ∷ actions)

  unfoldable pub on_message_pipe_readable :
      EventDrivenWorker → Option Message → Option Message → Step
  unfolding new_func_worker
  on_message_pipe_readable w received response = elim received [
    | none ↦ err check_failed
    | some message ↦ do
      check (is_create_func_worker_message message)
      new_func_worker w message.client_id response
  ]

  unfoldable pub on_engine_pipe_readable :
      EventDrivenWorker → FuncWorkerState → Option Message → Step
  on_engine_pipe_readable w worker_state received = elim received [
    | none ↦ err check_failed
    | some message ↦
        if is_dispatch_func_call_message message then execute_func o w worker_state message else (do
          check (is_func_call_complete_message message || is_func_call_failed_message message)
          check (not w.use_fifo_for_nested_call)
          c ← get_func_call_from_message message
          (elim (lookup (full_call_id c) w.outgoing_func_calls) [
            | none ↦ ok (w, [])
            | some state ↦ on_outgoing_func_call_finished w message state
          ]))
  ]

  -- `received` is the message that the descriptor has, and `response` that of the engine to a worker
  -- that is created.
  unfoldable pub on_fd_readable : EventDrivenWorker → ℕ → Option Message → Option Message → Step
  on_fd_readable w fd received response =
      if fd == w.message_pipe_fd
      then on_message_pipe_readable w received response
      else (elim (lookup fd w.func_worker_by_input_fd) [
        | some client_id ↦ do
          state ← deref (lookup client_id w.func_workers)
          on_engine_pipe_readable w state received
        | none ↦ elim (lookup fd w.outgoing_func_call_by_output_pipe_fd) [
          | some id ↦ do
            state ← deref (lookup id w.outgoing_func_calls)
            on_output_pipe_readable w state fd
          | none ↦ err check_failed
        ]
      ])
