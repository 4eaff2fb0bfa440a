-- ===== src/Worker/EventDriven/Calls.antt =====
-- src/worker/event_driven_worker.cpp: calls that come in and calls that go out.
use nightcore.Prelude.{
  ℕ, suc, ◌%◌, ◌^◌, Bool, true, false, not, Option, none, some, List, [], ◌∷◌, ◌++◌, if◌then◌else◌,
  get_elem?,
}
use nightcore.Prelude.Int.{ℤ, narrow32, ◌-ℤ◌}
use nightcore.Prelude.Map.{lookup, insert, erase}
use nightcore.Prelude.Names.{Name, bytes, find_name}
use nightcore.Prelude.Result.{Result, ok, err, ◌>>=◌, deref, check_failed}
use nightcore.Config.{find_by_func_name}
use nightcore.Protocol.{
  FuncCall, full_call_id, of_full_call_id, new_func_call, new_func_call_with_method,
}
use nightcore.Protocol.Message.{
  Message, get_func_call_from_message, new_func_call_failed_message, set_dispatch_delay,
}
use nightcore.Utils.Pool.{get, give_back}
use nightcore.Worker.WorkerLib.{
  Shared, func_call_finished, fifo_func_call_finished, get_func_call_input, prepare_new_func_call,
  set_fifo,
}
use nightcore.Worker.EventDriven.{
  EventDrivenWorker, Outside, Step, Action, FuncWorkerState, IncomingFuncCallState,
  OutgoingFuncCallState, incoming_func_call, watch_fd_readable, func_call_to_handle, tick,
  erase_input, erase_fifo, send_message, get_associated_func_worker_state,
}

-- The answer to a call that has been executed.
abbrev pub response_to :
    Outside → EventDrivenWorker → FuncCall → Bool → List ℕ → ℤ → Result (Message × Shared)
response_to o w c success output processing_time =
    if w.use_fifo_for_nested_call
    then fifo_func_call_finished o.system w.shared c success output processing_time
    else func_call_finished o.system w.shared c success output processing_time

module _ (o : Outside) where
  unfoldable pub on_func_execution_finished : EventDrivenWorker → ℕ → Bool → List ℕ → Step
  on_func_execution_finished w handle success output =
      elim (get_associated_func_worker_state w handle) [
        | none ↦ ok (w, [])
        | some worker_state ↦ do
          state ← deref (lookup handle w.incoming_func_calls)
          let c = of_full_call_id handle
          let processing_time = narrow32 (o.now w.readings -ℤ state.start_timestamp)
          (response, s) ← response_to o w c success output processing_time
          let w1 = record w {
            incoming_func_calls = erase handle w.incoming_func_calls;
            incoming_func_call_pool = give_back state.object w.incoming_func_call_pool;
            shared = s;
            readings = suc w.readings;
          }
          send_message o w1 worker_state.output_pipe_fd
              (set_dispatch_delay response state.dispatch_delay)
      ]

  -- The name of the method of a gRPC call; other functions have none.
  unfoldable pub method_of : EventDrivenWorker → FuncCall → Result Name
  method_of w c =
      if w.config_entry.is_grpc_service
      then (elim (get_elem? w.config_entry.grpc_methods c.method_id) [
        | none ↦ err check_failed
        | some method ↦ ok method
      ])
      else ok []

  unfoldable pub execute_func : EventDrivenWorker → FuncWorkerState → Message → Step
  execute_func w worker_state message = do
    let dispatch_delay = narrow32 (o.now w.readings -ℤ message.send_timestamp)
    let w1 = tick w
    c ← get_func_call_from_message message
    input ← get_func_call_input w1.shared message
    (elim input [
      | none ↦ send_message o w1 worker_state.output_pipe_fd (new_func_call_failed_message c)
      | some request ↦ do
        method ← method_of w1 c
        let (object, pool) = get w1.incoming_func_call_pool
        let state : IncomingFuncCallState = record {
          object = object;
          func_call = c;
          recv_client_id = worker_state.client_id;
          dispatch_delay = dispatch_delay;
          start_timestamp = o.now w1.readings;
        }
        ok (
          record w1 {
            incoming_func_call_pool = pool;
            incoming_func_calls = insert (full_call_id c) state w1.incoming_func_calls;
            readings = suc w1.readings;
          },
          incoming_func_call (func_call_to_handle c) method request ∷ [],
        )
    ])

  -- The end of `NewOutgoingFuncCallCommon`: the call is entered and the engine is told.
  unfoldable pub enter_outgoing :
      EventDrivenWorker → FuncCall → FuncWorkerState → List ℕ → Message → Option ℕ → Step
  enter_outgoing w c worker_state input message output_fifo =
      let (object, pool) = get w.outgoing_func_call_pool in
      let state : OutgoingFuncCallState = record {
        object = object;
        func_call = c;
        input = input;
        output_pipe_fd = output_fifo;
      } in
      let by_fd = w.outgoing_func_call_by_output_pipe_fd in
      send_message o
        (record w {
          outgoing_func_call_pool = pool;
          outgoing_func_calls = insert (full_call_id c) state w.outgoing_func_calls;
          outgoing_func_call_by_output_pipe_fd = elim output_fifo [
            | none ↦ by_fd
            | some fd ↦ insert fd (full_call_id c) by_fd
          ];
        })
        worker_state.output_pipe_fd message

  -- `false` is a return of false; an input region that was made goes again.
  unfoldable pub new_outgoing_func_call_common :
      EventDrivenWorker
      → ℕ
      → FuncCall
      → FuncWorkerState
      → List ℕ
      → Result (Bool × EventDrivenWorker × List Action)
  unfolding enter_outgoing
  new_outgoing_func_call_common w parent_handle c worker_state input = do
    (prepared, s) ← prepare_new_func_call o.system w.shared c parent_handle input
    let w1 = record w { shared = s }
    let failed = record w { shared = erase_input c input s }
    (elim prepared [
      | none ↦ ok (false, w1, [])
      | some message ↦
          if w.use_fifo_for_nested_call
          then (if not (o.fifo_create (full_call_id c))
              then ok (false, failed, [])
              else (elim (o.fifo_open (full_call_id c)) [
                | none ↦ ok (false, record failed { shared = erase_fifo c failed.shared }, [])
                | some fd ↦ do
                  (w2, actions) ←
                      enter_outgoing (record w1 { shared = set_fifo w1.shared c [] }) c worker_state
                        input message (some fd)
                  ok (true, w2, watch_fd_readable fd ∷ actions)
              ]))
          else (do
            (w2, actions) ← enter_outgoing w1 c worker_state input message none
            ok (true, w2, actions))
    ])

  -- The next call of a worker: its id is used up, whether the call can be made or not.
  unfoldable pub new_outgoing :
      EventDrivenWorker
      → ℕ
      → (ℕ → ℕ → FuncCall)
      → List ℕ
      → Result (Option (ℕ × Bool) × EventDrivenWorker × List Action)
  unfolding new_outgoing_func_call_common
  new_outgoing w parent_handle make input =
      elim (get_associated_func_worker_state w parent_handle) [
        | none ↦ ok (none, w, [])
        | some worker_state ↦ do
          let c = make worker_state.client_id worker_state.next_call_id
          let later = record worker_state { next_call_id = suc worker_state.next_call_id % 2 ^ 32 }
          (done, w1, actions) ←
              new_outgoing_func_call_common
                (record w { func_workers = insert worker_state.client_id later w.func_workers })
                parent_handle c later input
          ok (some (func_call_to_handle c, done), w1, actions)
      ]

  -- The handle of the new call, and what the method returns; `none` if it returns before there is one.
  unfoldable pub new_outgoing_func_call :
      EventDrivenWorker
      → ℕ
      → Name
      → List ℕ
      → Result (Option (ℕ × Bool) × EventDrivenWorker × List Action)
  unfolding new_outgoing
  new_outgoing_func_call w parent_handle func_name input =
      elim (find_by_func_name w.func_config func_name) [
        | none ↦ ok (none, w, [])
        | some entry ↦
            if entry.is_grpc_service
            then ok (none, w, [])
            else new_outgoing w parent_handle (new_func_call entry.func_id) input
      ]

  unfoldable pub new_outgoing_grpc_call :
      EventDrivenWorker
      → ℕ
      → Name
      → Name
      → List ℕ
      → Result (Option (ℕ × Bool) × EventDrivenWorker × List Action)
  unfolding new_outgoing
  new_outgoing_grpc_call w parent_handle service method request =
      elim (find_by_func_name w.func_config (bytes "grpc:" ++ service)) [
        | none ↦ ok (none, w, [])
        | some entry ↦
            if not entry.is_grpc_service
            then ok (none, w, [])
            else (elim (find_name method entry.grpc_method_ids) [
              | none ↦ ok (none, w, [])
              | some method_id ↦
                  new_outgoing w parent_handle (new_func_call_with_method entry.func_id method_id)
                    request
            ])
      ]
