-- ===== src/Worker/EventDriven/Finished.antt =====
-- src/worker/event_driven_worker.cpp: a call that came in is answered once.
use nightcore.Prelude.{ℕ, ◌≡◌, refl, arith, Bool, true, none, some, List, [], ◌∷◌}
use nightcore.Prelude.Int.{ℤ}
use nightcore.Prelude.Map.{lookup, lookup-erase}
use nightcore.Prelude.Result.{ok, Returns, >>=-Returns, Returns-map, if-Returns}
use nightcore.Protocol.{FuncCall, of_full_call_id}
use nightcore.Protocol.Message.{Message, set_dispatch_delay}
use nightcore.Utils.Pool.{give_back}
use nightcore.Worker.WorkerLib.Answers.{
  IsAnswer, altered-IsAnswer, func_call_finished-IsAnswer, fifo_func_call_finished-IsAnswer,
}
use nightcore.Worker.EventDriven.{
  EventDrivenWorker, Outside, Action, FuncWorkerState, IncomingFuncCallState, send, send_message,
  tick, get_associated_func_worker_state,
}
use nightcore.Worker.EventDriven.Calls.{on_func_execution_finished, response_to}

-- Every message can be sent.
abbrev pub IsSending : Outside → Type 0
IsSending o = (fd : ℕ) (m : Message) → o.send_message fd m ≡ true

-- One answer has gone to the descriptor, the call is no longer known, and its object is free.
pub record IsAnswered (w : EventDrivenWorker) (handle fd : ℕ) (object : ℕ)
    (r : EventDrivenWorker × List Action) : Type 0 where
  pub response : Message
  pub sent : r.1 ≡ send fd response ∷ []
  pub answer : IsAnswer (of_full_call_id handle) response
  pub gone : lookup handle r.0.incoming_func_calls ≡ none
  pub returned : r.0.incoming_func_call_pool ≡ give_back object w.incoming_func_call_pool

pub send_message_lem :
    (o : Outside) (w : EventDrivenWorker) (fd : ℕ) (m : Message)
    → IsSending o
    → send_message o w fd m
      ≡ ok (tick w, send fd (record m { send_timestamp = o.now w.readings }) ∷ [])
unfolding send_message
send_message_lem o w fd m sending =
    rw (sending fd (record m { send_timestamp = o.now w.readings })) refl

unknown_handle :
    (w : EventDrivenWorker) (handle : ℕ)
    → lookup handle w.incoming_func_calls ≡ none
    → get_associated_func_worker_state w handle ≡ none
unfolding get_associated_func_worker_state
unknown_handle w handle e = rw (e, get_associated_func_worker_state) refl

-- A handle that is not known, as after its call has been answered, changes and sends nothing.
on_func_execution_finished_unknown :
    (o : Outside) (w : EventDrivenWorker) (handle : ℕ) (success : Bool) (output : List ℕ)
    → lookup handle w.incoming_func_calls ≡ none
    → on_func_execution_finished o w handle success output ≡ ok (w, [])
unfolding on_func_execution_finished
on_func_execution_finished_unknown o w handle success output e =
    rw (unknown_handle w handle e, on_func_execution_finished) refl

module _ (o : Outside) (sending : IsSending o) (w : EventDrivenWorker) (handle : ℕ) (success : Bool)
    (output : List ℕ) (state : IncomingFuncCallState) (worker_state : FuncWorkerState)
    (known : lookup handle w.incoming_func_calls ≡ some state)
    (there : lookup state.recv_client_id w.func_workers ≡ some worker_state) where
  response_to-IsAnswer :
      (c : FuncCall) (t : ℤ) → Returns (response_to o w c success output t) (λ r. IsAnswer c r.0)
  response_to-IsAnswer c t =
      if-Returns w.use_fifo_for_nested_call _ _ (λ r. IsAnswer c r.0)
        (fifo_func_call_finished-IsAnswer o.system w.shared c output t success)
        (func_call_finished-IsAnswer o.system w.shared c output t success)

  associated : get_associated_func_worker_state w handle ≡ some worker_state
  unfolding get_associated_func_worker_state
  associated = simp (known, get_associated_func_worker_state, there)

  on_func_execution_finished-IsAnswered :
      Returns
        (on_func_execution_finished o w handle success output)
        (IsAnswered w handle worker_state.output_pipe_fd state.object)
  unfolding on_func_execution_finished
  on_func_execution_finished-IsAnswered =
      let c = of_full_call_id handle in
      rw (associated, on_func_execution_finished, known)
        (>>=-Returns (response_to o w c success output _) _ (λ r. IsAnswer c r.0) _
          (response_to-IsAnswer c _)
          λ r answer.
            rw
              (send_message_lem o _ worker_state.output_pipe_fd
                (set_dispatch_delay r.0 state.dispatch_delay) sending)
              (record {
                response = record (set_dispatch_delay r.0 state.dispatch_delay) {
                  send_timestamp = _;
                };
                sent = refl;
                answer = altered-IsAnswer c r.0 _ _ _ answer;
                gone = ground (arith, lookup-erase handle handle w.incoming_func_calls);
                returned = refl;
              }))

  -- When messages can be sent and a function has finished for a call that is known, and so is the
  -- worker that received it: OnFuncExecutionFinished returns after sending one message, the
  -- completion or failure of that call, to the engine on the pipe of that worker; the object of
  -- the call is given back to the pool, and when it is called again with the same handle it sends
  -- and changes nothing.
  pub on_func_execution_finished_once :
      (success' : Bool) (output' : List ℕ)
      → Returns (on_func_execution_finished o w handle success output) (λ r.
        IsAnswered w handle worker_state.output_pipe_fd state.object r
        × (on_func_execution_finished o r.0 handle success' output' ≡ ok (r.0, [])))
  on_func_execution_finished_once success' output' =
      Returns-map (on_func_execution_finished o w handle success output)
        on_func_execution_finished-IsAnswered
        λ r answered.
          (answered, on_func_execution_finished_unknown o r.0 handle success' output' answered.gone)
