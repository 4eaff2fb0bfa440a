-- ===== src/Worker/FuncWorker/Serve.antt =====
-- src/worker/v1/func_worker.cpp: calls that the engine dispatches.
use nightcore.Prelude.{
  ℕ, suc, ◌/◌, ◌%◌, Bool, true, Option, none, some, List, [], ◌∷◌, ◌++◌, ◌==◌, if◌then◌else◌,
}
use nightcore.Prelude.Int.{ℤ, pos, ◌-ℤ◌, eq_ℤ, narrow32}
use nightcore.Prelude.Result.{Result, ok, err, ◌>>=◌, ◌>>◌, check, check_failed}
use nightcore.Protocol.{FuncCall, full_call_id}
use nightcore.Protocol.Message.{
  Message, get_func_call_from_message, is_dispatch_func_call_message, is_handshake_response_message,
  new_func_call_failed_message, new_func_worker_handshake_message, set_dispatch_delay,
}
use nightcore.Worker.WorkerLib.{func_call_finished, fifo_func_call_finished, get_func_call_input}
use nightcore.Worker.FuncWorker.{
  Program, finish, append_output, invoke, Outside, FuncWorker, reclaim_invoke_func_resources, send,
}
use nightcore.Worker.FuncWorker.Invoke.{invoke_func}

module _ (o : Outside) where
  -- The function's own run.
  unfoldable pub run : Program → FuncWorker → Result (ℤ × FuncWorker)
  run (finish ret) w = ok (ret, w)
  run (append_output bytes p) w =
      run p (record w { func_output_buffer = w.func_output_buffer ++ bytes })
  run (invoke func_name input next) w = do r ← invoke_func o w func_name input; run (next r.0) r.1

  unfoldable pub respond : FuncWorker → FuncCall → Bool → ℤ → ℤ → Result FuncWorker
  respond w c success processing_time dispatch_delay = do
    (response, s) ←
        (if w.use_fifo_for_nested_call
          then fifo_func_call_finished o.system w.shared c success w.func_output_buffer
              processing_time
          else func_call_finished o.system w.shared c success w.func_output_buffer processing_time)
    send o (record w { shared = s }) (set_dispatch_delay response dispatch_delay)

  -- `ExecuteFunc` once it has looked for the input.
  unfoldable pub execute_input :
      (List ℕ → Program) → FuncWorker → FuncCall → ℤ → Option (List ℕ) → Result FuncWorker
  execute_input func w c dispatch_delay none = send o w (new_func_call_failed_message c)
  execute_input func w c dispatch_delay (some input) = do
    let start_timestamp = o.now w.readings
    (ret, w2) ← run (func input) (record w {
      func_output_buffer = [];
      current_func_call_id = full_call_id c;
      readings = suc w.readings;
    })
    let processing_time = narrow32 (o.now w2.readings -ℤ start_timestamp)
    let w3 = reclaim_invoke_func_resources (record w2 { readings = suc w2.readings })
    respond w3 c (eq_ℤ ret (pos 0)) processing_time dispatch_delay

  unfoldable pub execute_func : (List ℕ → Program) → FuncWorker → Message → Result FuncWorker
  unfolding execute_input
  execute_func func w message = do
    let dispatch_delay = narrow32 (o.now w.readings -ℤ message.send_timestamp)
    c ← get_func_call_from_message message
    input ← get_func_call_input w.shared message
    execute_input func (record w { readings = suc w.readings }) c dispatch_delay input

  -- The loop over the messages of the engine.
  unfoldable pub main_serving_loop :
      (List ℕ → Program) → List Message → FuncWorker → Result FuncWorker
  main_serving_loop func [] w = ok w
  main_serving_loop func (message ∷ messages) w = do
    check (is_dispatch_func_call_message message)
    w1 ← execute_func func w message
    main_serving_loop func messages w1

  -- The engine's response says whether outputs of internal calls go through pipes.
  unfoldable pub handshake_with_engine : ℕ → Option Message → FuncWorker → Result FuncWorker
  handshake_with_engine func_id response w = do
    check (o.send_message (new_func_worker_handshake_message func_id w.client_id))
    (elim response [
      | none ↦ err check_failed
      | some r ↦ do
        check (is_handshake_response_message r)
        ok (record w {
          use_fifo_for_nested_call =
              if r.flags / 2 % 2 == 1 then true else w.use_fifo_for_nested_call;
        })
    ])
