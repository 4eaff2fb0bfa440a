-- ===== src/Worker/EventDriven/Completed.antt =====
-- src/worker/event_driven_worker.cpp: a call that a function makes ends in one completion.
use nightcore.Prelude.{
  ℕ, suc, ◌%◌, ◌^◌, ◌≤◌, ◌≡◌, ◌∙◌, sym, refl, arith, leb, le→leb, Bool, true, false, Option, none,
  some, List, [], ◌∷◌, length, drop, ap₂, ◌++◌, subst,
}
use nightcore.Prelude.Int.{pos, ltb_ℤ, narrow32}
use nightcore.Prelude.Map.{Map, lookup, insert, erase, lookup-erase, lookup-insert}
use nightcore.Prelude.Names.{Name}
use nightcore.Prelude.Result.{Result, ok, ◌>>=◌, Returns, >>=-Returns}
use nightcore.Config.{Entry, find_by_func_name}
use nightcore.Protocol.Bits.{new_func_call-IsFuncCall}
use nightcore.Protocol.RoundTrip.{get_func_call_from_message-new}
use nightcore.Protocol.{FuncCall, IsFuncCall, full_call_id, new_func_call}
use nightcore.Protocol.Message.{
  Message, code, func_call_complete, func_call_failed, get_func_call_from_message,
  get_inline_data_from_message, message_inline_data_size, new_invoke_func_message,
  set_inline_data_in_message,
}
use nightcore.Utils.Pool.{get}
use nightcore.Worker.WorkerLib.{System, Shared, prepare_new_func_call}
use nightcore.Worker.EventDriven.{
  EventDrivenWorker, Outside, Action, FuncWorkerState, OutgoingFuncCallState, send,
  func_call_to_handle, get_associated_func_worker_state,
}
use nightcore.Worker.EventDriven.Calls.{
  enter_outgoing, new_outgoing, new_outgoing_func_call, new_outgoing_func_call_common,
}
use nightcore.Worker.EventDriven.Finished.{IsSending, send_message_lem}
use nightcore.Worker.EventDriven.Pipes.{
  completion, on_engine_pipe_readable, on_outgoing_func_call_finished,
}

-- The message says that the call has failed, or that it has completed with an inline output.
abbrev pub Reports : FuncCall → Message → Option (List ℕ) → Type 0
Reports c m none = (get_func_call_from_message m ≡ ok c) × (m.message_type ≡ code func_call_failed)
Reports c m (some output) =
    (get_func_call_from_message m ≡ ok c)
    × (m.message_type ≡ code func_call_complete)
    × (ltb_ℤ m.payload_size (pos 0) ≡ false)
    × (get_inline_data_from_message m ≡ ok output)

filled_message :
    (m : Message) (bytes : List ℕ)
    → leb (length bytes) message_inline_data_size ≡ true
    → (filled : Message) × (set_inline_data_in_message m bytes ≡ ok filled)
      × (get_func_call_from_message filled ≡ get_func_call_from_message m)
unfolding set_inline_data_in_message get_func_call_from_message
filled_message m bytes fits = (
  record m {
    payload_size = narrow32 (pos (length bytes));
    inline_data = bytes ++ drop (length bytes) m.inline_data;
  },
  rw fits refl,
  refl,
)

small_input :
    (system : System) (s : Shared) (c : FuncCall) (parent : ℕ) (input : List ℕ)
    → length input ≤ message_inline_data_size
    → IsFuncCall c
    → (filled : Message) × (prepare_new_func_call system s c parent input ≡ ok (some filled, s))
      × (get_func_call_from_message filled ≡ ok c)
unfolding prepare_new_func_call
small_input system s c parent input small valid =
    let fits = le→leb (length input) message_inline_data_size small in
    let (filled, done, same) = filled_message (new_invoke_func_message c parent) input fits in
    (filled, rw (fits, done) refl, same ∙ (get_func_call_from_message-new c parent (pos 0) valid).0)

-- A call that is known has ended with this outcome, and is known no more.
abbrev pub IsCompleted : FuncCall → Option (List ℕ) → EventDrivenWorker × List Action → Type 0
IsCompleted c outcome r =
    (r.1 ≡ completion c outcome ∷ []) × (lookup (full_call_id c) r.0.outgoing_func_calls ≡ none)

erased :
    (c : FuncCall) (m : Map OutgoingFuncCallState)
    → lookup (full_call_id c) (erase (full_call_id c) m) ≡ none
erased c m = ground (arith, lookup-erase (full_call_id c) (full_call_id c) m)

finished-IsCompleted :
    (w : EventDrivenWorker) (state : OutgoingFuncCallState) (m : Message)
    (outcome : Option (List ℕ))
    → Reports state.func_call m outcome
    → Returns (on_outgoing_func_call_finished w m state) (IsCompleted state.func_call outcome)
unfolding on_outgoing_func_call_finished
finished-IsCompleted w state m none r =
    simp (r.1) (refl, erased state.func_call w.outgoing_func_calls)
finished-IsCompleted w state m (some output) r =
    simp (r.1, r.2, r.3) (refl, erased state.func_call w.outgoing_func_calls)

about_known :
    (w : EventDrivenWorker) (c : FuncCall) (state : OutgoingFuncCallState) (m : Message)
    (outcome : Option (List ℕ))
    → state.func_call ≡ c
    → Reports c m outcome
    → Returns (on_outgoing_func_call_finished w m state) (IsCompleted c outcome)
about_known w c state m outcome same r =
    subst (λ d. Returns (on_outgoing_func_call_finished w m state) (IsCompleted d outcome)) same
      (finished-IsCompleted w state m outcome (subst (λ d. Reports d m outcome) (sym same) r))

-- What the engine's pipe brings for a call that is known.
reported-IsCompleted :
    (o : Outside) (w : EventDrivenWorker) (worker_state : FuncWorkerState) (c : FuncCall)
    (state : OutgoingFuncCallState) (m : Message) (outcome : Option (List ℕ))
    → w.use_fifo_for_nested_call ≡ false
    → lookup (full_call_id c) w.outgoing_func_calls ≡ some state
    → state.func_call ≡ c
    → Reports c m outcome
    → Returns (on_engine_pipe_readable o w worker_state (some m)) (IsCompleted c outcome)
unfolding on_engine_pipe_readable
reported-IsCompleted o w worker_state c state m none no_pipes known same r =
    simp (r.0, r.1, no_pipes) (rw (known, Returns) (about_known w c state m none same r))
reported-IsCompleted o w worker_state c state m (some output) no_pipes known same r =
    simp (r.0, r.1, no_pipes) (rw (known, Returns) (about_known w c state m (some output) same r))

-- A call is made, and later the engine's pipe brings a message.
abbrev pub made_and_reported :
    Outside
    → EventDrivenWorker
    → ℕ
    → Name
    → List ℕ
    → FuncWorkerState
    → Message
    → Result (Option (ℕ × Bool) × EventDrivenWorker × List Action)
made_and_reported o w parent func_name input reader m = do
  (handle, w1, actions) ← new_outgoing_func_call o w parent func_name input
  (w2, later_actions) ← on_engine_pipe_readable o w1 reader (some m)
  ok (handle, w2, actions ++ later_actions)

module _ (o : Outside) (sending : IsSending o) (w : EventDrivenWorker) (parent : ℕ)
    (worker_state : FuncWorkerState) (no_pipes : w.use_fifo_for_nested_call ≡ false)
    (associated : get_associated_func_worker_state w parent ≡ some worker_state) (func_name : Name)
    (entry : Entry) (found : find_by_func_name w.func_config func_name ≡ some entry)
    (plain : entry.is_grpc_service ≡ false) (input : List ℕ)
    (small : length input ≤ message_inline_data_size) where
  abbrev call : FuncCall
  call = new_func_call entry.func_id worker_state.client_id worker_state.next_call_id

  -- The call is known and its message has been sent.
  record IsMade (r : Option (ℕ × Bool) × EventDrivenWorker × List Action) : Type 0 where
    made : r.0 ≡ some (full_call_id call, true)
    message : Message
    sent : r.2 ≡ send worker_state.output_pipe_fd message ∷ []
    named : get_func_call_from_message message ≡ ok call
    state : OutgoingFuncCallState
    known : lookup (full_call_id call) r.1.outgoing_func_calls ≡ some state
    about : state.func_call ≡ call
    still_no_pipes : r.1.use_fifo_for_nested_call ≡ false

  -- The worker with the next id of its calls.
  abbrev later : FuncWorkerState
  later = record worker_state { next_call_id = suc worker_state.next_call_id % 2 ^ 32 }

  abbrev counted : EventDrivenWorker
  counted = record w { func_workers = insert worker_state.client_id later w.func_workers }

  plain_call :
      new_outgoing_func_call o w parent func_name input
      ≡ new_outgoing o w parent (new_func_call entry.func_id) input
  unfolding new_outgoing_func_call
  plain_call = simp (found, new_outgoing_func_call, plain)

  abbrev entered : OutgoingFuncCallState
  entered = record {
    object = (get w.outgoing_func_call_pool).0;
    func_call = call;
    input = input;
    output_pipe_fd = none;
  }

  -- The timestamp is no part of the call.
  sent_about :
      (m : Message)
      → get_func_call_from_message m ≡ ok call
      → get_func_call_from_message (record m { send_timestamp = o.now w.readings }) ≡ ok call
  unfolding get_func_call_from_message
  sent_about m h = h

  -- What `NewOutgoingFuncCallCommon` leaves.
  common_call :
      Returns
        (new_outgoing_func_call_common o counted parent call later input)
        (λ r. IsMade (some (full_call_id call, r.0), r.1, r.2))
  unfolding new_outgoing_func_call_common enter_outgoing
  common_call =
      let (message, prepared, named) =
        small_input o.system w.shared call parent input small (
          new_func_call-IsFuncCall entry.func_id worker_state.client_id
            worker_state.next_call_id) in
      simp (prepared, no_pipes)
        (rw (send_message_lem o _ worker_state.output_pipe_fd message sending) (record {
          made = refl;
          message = record message { send_timestamp = o.now w.readings };
          sent = refl;
          named = sent_about message named;
          state = entered;
          known = ground (
            arith,
            lookup-insert (full_call_id call) (full_call_id call) entered w.outgoing_func_calls,
          );
          about = refl;
          still_no_pipes = refl;
        }))

  new_outgoing_func_call-IsMade : Returns (new_outgoing_func_call o w parent func_name input) IsMade
  unfolding new_outgoing
  new_outgoing_func_call-IsMade = rw (plain_call) (
      rw (associated, new_outgoing)
        (>>=-Returns (new_outgoing_func_call_common o counted parent call later input) _ _ IsMade
          common_call (λ r h. h)))

  -- Without pipes for outputs, when messages can be sent, the parent call and its worker are
  -- known, the name is that of a function that is no gRPC service, and the input fits a message:
  -- the call is made with the next id of that worker, and a message about it goes to the engine;
  -- and when the engine's pipe then brings its failure, or its completion with an inline output,
  -- the runtime is told just this, once, for the handle that was returned, and the call is known
  -- no more.
  pub made_and_reported-IsCompleted :
      (reader : FuncWorkerState) (m : Message) (outcome : Option (List ℕ))
      → Reports call m outcome
      → Returns (made_and_reported o w parent func_name input reader m) (λ r.
        (r.0 ≡ some (func_call_to_handle call, true))
        × ((message : Message) × (get_func_call_from_message message ≡ ok call)
            × (r.2 ≡ send worker_state.output_pipe_fd message ∷ completion call outcome ∷ []))
        × (lookup (full_call_id call) r.1.outgoing_func_calls ≡ none))
  made_and_reported-IsCompleted reader m outcome reports =
      >>=-Returns (new_outgoing_func_call o w parent func_name input) _ IsMade _
        new_outgoing_func_call-IsMade
        λ r made.
          >>=-Returns (on_engine_pipe_readable o r.1 reader (some m)) _ (IsCompleted call outcome) _
            (reported-IsCompleted o r.1 reader call made.state m outcome made.still_no_pipes
              made.known made.about reports)
            λ q done. (made.made, (made.message, made.named, ap₂ ◌++◌ made.sent done.0), done.1)
