-- ===== src/Worker/FuncWorker/Buffers.antt =====
-- src/worker/v1/func_worker.cpp: with pipes, the buffers that are lent are those of the outputs kept.
use nightcore.Prelude.{
  ℕ, suc, ◌+◌, ◌≡◌, refl, ◌%◌, ◌^◌, true, Bool-cases, Option, none, some, List, [], ◌∷◌, ◌++◌, inl,
  inr, leb, ◌==◌, if◌then◌else◌, length, Option-cases, not, ◌∙◌, ==_iff,
}
use nightcore.Prelude.Names.{Name}
use nightcore.Prelude.Result.{Result, ok, ◌>>=◌, Returns, >>=-Returns, if-Returns}
use nightcore.Config.{find_by_func_name}
use nightcore.Protocol.{FuncCall, full_call_id, new_func_call}
use nightcore.Protocol.Message.{
  Message, get_func_call_from_message, message_inline_data_size, new_invoke_func_message,
  set_func_call_in_message, set_inline_data_in_message, code, invoke_func as invoke_type,
}
use nightcore.Utils.Pool.{BufferPool, get, give_back, get_buffer, give_back_buffer}
use nightcore.Utils.Pool.Lending.{IsLending, get-IsLending, give_back-IsLending}
use nightcore.Worker.WorkerLib.{
  Shared, System, pipe_buf_size, prepare_new_func_call, set_fifo, fifo_get_func_call_output,
}
use nightcore.Worker.FuncWorker.{
  FuncWorker, InvokeFuncResource, Outside, Program, finish, append_output, invoke, reclaim,
  give_back_kept, erase_output, send, erase_input,
}
use nightcore.Worker.FuncWorker.Invoke.{
  fifo_result, read_fifo, fifo_wait_invoke_func, invoke_func, wait_invoke_func,
}
use nightcore.Worker.FuncWorker.Serve.{run}

-- The buffers of the outputs.
abbrev pub and_kept : Option ℕ → List ℕ → List ℕ
and_kept none xs = xs
and_kept (some x) xs = x ∷ xs

abbrev pub held : List InvokeFuncResource → List ℕ
held [] = []
held (r ∷ rs) = and_kept r.pipe_buffer (held rs)

-- Outputs come through pipes, and each buffer of the pool is free or holds one output that is kept.
pub record IsTidy (w : FuncWorker) : Type 0 where
  pub lending : IsLending w.buffer_pool_for_pipes.buffers (held w.invoke_func_resources)
  pub sized : w.buffer_pool_for_pipes.buffer_size ≡ pipe_buf_size
  pub pipes : w.use_fifo_for_nested_call ≡ true

pub still :
    (w : FuncWorker) (s : Shared) (sent : List Message) (n : ℕ)
    → IsTidy w
    → IsTidy (record w { shared = s; sent = sent; readings = n })
still w s sent n tidy = record { lending = tidy.lending; sized = tidy.sized; pipes = tidy.pipes }

-- Every message can be sent.
abbrev pub IsSending : Outside → Type 0
IsSending o = (m : Message) → o.send_message m ≡ true

give_back_kept-IsLending :
    (kept : Option ℕ) (xs : List ℕ) (pool : BufferPool)
    → IsLending pool.buffers (and_kept kept xs)
    → IsLending (give_back_kept kept pool).buffers xs
      × ((give_back_kept kept pool).buffer_size ≡ pool.buffer_size)
unfolding give_back_buffer
give_back_kept-IsLending none xs pool h = (h, refl)
give_back_kept-IsLending (some x) xs pool h = (give_back-IsLending x pool.buffers xs h, refl)

pub reclaim-IsLending :
    (rs : List InvokeFuncResource) (pool : BufferPool) (s : Shared)
    → IsLending pool.buffers (held rs)
    → IsLending (reclaim rs pool s).0.buffers []
      × ((reclaim rs pool s).0.buffer_size ≡ pool.buffer_size)
unfolding reclaim
reclaim-IsLending [] pool s h = (h, refl)
reclaim-IsLending (r ∷ rs) pool s h =
    let one = give_back_kept-IsLending r.pipe_buffer (held rs) pool h in
    let rest =
      reclaim-IsLending rs (give_back_kept r.pipe_buffer pool)
        (if r.output_region then erase_output r.func_call s else s) one.0 in
    (rest.0, rest.1 ∙ one.1)

-- A buffer has been lent for the pipe.
record IsReading (w : FuncWorker) (buffer : ℕ) : Type 0 where
  lending : IsLending w.buffer_pool_for_pipes.buffers (buffer ∷ held w.invoke_func_resources)
  sized : w.buffer_pool_for_pipes.buffer_size ≡ pipe_buf_size
  pipes : w.use_fifo_for_nested_call ≡ true

fifo_result-IsTidy :
    (w : FuncWorker) (c : FuncCall) (buffer : ℕ) (got : Option (Option (List ℕ)))
    → IsReading w buffer
    → IsTidy (fifo_result w c buffer got).1
unfolding fifo_result give_back_buffer
fifo_result-IsTidy w c buffer got reading =
    let back =
      give_back-IsLending buffer w.buffer_pool_for_pipes.buffers (held w.invoke_func_resources)
        reading.lending in
    cases got back
  where
    cases :
        (got : Option (Option (List ℕ)))
        → IsLending
            (give_back buffer w.buffer_pool_for_pipes.buffers)
            (held w.invoke_func_resources)
        → IsTidy (fifo_result w c buffer got).1
    cases none back = record { lending = back; sized = reading.sized; pipes = reading.pipes }
    cases (some none) back = record { lending = back; sized = reading.sized; pipes = reading.pipes }
    cases (some (some output)) back = elim (Bool-cases (leb (4 + length output) pipe_buf_size)) [
      | inl fits ↦
          rw fits
            (record { lending = reading.lending; sized = reading.sized; pipes = reading.pipes })
      | inr long ↦ rw long (record { lending = back; sized = reading.sized; pipes = reading.pipes })
    ]

read_fifo-IsTidy :
    (w : FuncWorker) (c : FuncCall) → IsTidy w → Returns (read_fifo w c) (λ r. IsTidy r.1)
unfolding read_fifo get_buffer
read_fifo-IsTidy w c tidy =
    let (fresh, lent) =
      get-IsLending w.buffer_pool_for_pipes.buffers (held w.invoke_func_resources) tidy.lending in
    let size : (w.buffer_pool_for_pipes.buffer_size == pipe_buf_size) ≡ true =
      (==_iff w.buffer_pool_for_pipes.buffer_size pipe_buf_size).1 tidy.sized in
    rw size (
      fifo_result-IsTidy _ c (get w.buffer_pool_for_pipes.buffers).0
        (fifo_get_func_call_output w.shared c).0
        (record { lending = lent; sized = tidy.sized; pipes = tidy.pipes }))

-- A message, if there is one, that invokes a function.
abbrev Invokes : Option Message → Type 0
Invokes none = Unit {0}
Invokes (some m) = m.message_type ≡ code invoke_type

prepare_new_func_call-Invokes :
    (system : System) (s : Shared) (c : FuncCall) (parent : ℕ) (input : List ℕ)
    → Returns (prepare_new_func_call system s c parent input) (λ r. Invokes r.0)
unfolding prepare_new_func_call set_inline_data_in_message new_invoke_func_message
    set_func_call_in_message
prepare_new_func_call-Invokes system s c parent input =
    elim (Bool-cases (leb (length input) message_inline_data_size)) [
      | inl small ↦ rw small refl
      | inr large ↦ elim (Bool-cases (system.shm_create (full_call_id c))) [
        | inl made ↦ rw (large, made) refl
        | inr not_made ↦ rw (large, not_made) tt
      ]
    ]

Invokes-about :
    (m : Message) → Invokes (some m) → (c : FuncCall) × (get_func_call_from_message m ≡ ok c)
unfolding get_func_call_from_message
Invokes-about m e = (
  record {
    func_id = m.func_id;
    method_id = m.method_id;
    client_id = m.client_id;
    call_id = m.call_id;
    padding = 0;
  },
  simp e,
)

module _ (o : Outside) (sending : IsSending o) where
  pub send_lem :
      (w : FuncWorker) (m : Message)
      → send o w m
        ≡ ok (record w {
          sent = w.sent ++ record m { send_timestamp = o.now w.readings } ∷ [];
          readings = suc w.readings;
        })
  unfolding send
  send_lem w m = rw (sending (record m { send_timestamp = o.now w.readings })) refl

  fifo_wait_invoke_func-IsTidy :
      (w : FuncWorker) (m : Message) (c : FuncCall)
      → get_func_call_from_message m ≡ ok c
      → IsTidy w
      → Returns (fifo_wait_invoke_func o w m) (λ r. IsTidy r.1)
  unfolding fifo_wait_invoke_func
  fifo_wait_invoke_func-IsTidy w m c about tidy =
      let here : (x : Shared) (l : List Message) (n : ℕ)
          → IsTidy (record w { shared = x; sent = l; readings = n }) =
        λ x l n. still w x l n tidy in
      rw about (
        if-Returns (not (o.fifo_create (full_call_id c))) _ _ (λ r. IsTidy r.1) tidy
          (if-Returns (not (o.fifo_open (full_call_id c))) _ _ (λ r. IsTidy r.1) (here _ _ _)
            (rw (send_lem (record w { shared = set_fifo w.shared c [] }) m) (
              if-Returns (not (o.fifo_poll (full_call_id c))) _ _ (λ r. IsTidy r.1) (here _ _ _)
                (>>=-Returns (read_fifo _ c) _ (λ r. IsTidy r.1) (λ r. IsTidy r.1)
                  (read_fifo-IsTidy _ c (here _ _ _))
                  λ r t. still r.1 _ r.1.sent r.1.readings t)))))

  -- What follows when the message of an invocation has been prepared.
  abbrev sent_off :
      FuncWorker → FuncCall → List ℕ → Option Message → Result (Option (List ℕ) × FuncWorker)
  sent_off w c input none = ok (none, w)
  sent_off w c input (some m) =
      (if w.use_fifo_for_nested_call then fifo_wait_invoke_func o w m else wait_invoke_func o w m)
      >>= λ r. ok (r.0, record r.1 { shared = erase_input c input r.1.shared })

  sent_off-IsTidy :
      (w : FuncWorker) (c : FuncCall) (input : List ℕ) (message : Option Message)
      → Invokes message
      → IsTidy w
      → Returns (sent_off w c input message) (λ r. IsTidy r.1)
  sent_off-IsTidy w c input none e tidy = tidy
  sent_off-IsTidy w c input (some m) e tidy =
      let (about, found) = Invokes-about m e in
      simp (tidy.pipes) (
        >>=-Returns (fifo_wait_invoke_func o w m) _ (λ r. IsTidy r.1) (λ r. IsTidy r.1)
          (fifo_wait_invoke_func-IsTidy w m about found tidy)
          λ r t. still r.1 _ r.1.sent r.1.readings t)

  invoke_func-IsTidy :
      (w : FuncWorker) (name : Name) (input : List ℕ)
      → IsTidy w
      → Returns (invoke_func o w name input) (λ r. IsTidy r.1)
  unfolding invoke_func
  invoke_func-IsTidy w name input tidy =
      elim (Option-cases (find_by_func_name w.func_config name)) [
        | inl unknown ↦ rw (unknown, invoke_func) tidy
        | inr (entry, known) ↦
            let c = new_func_call entry.func_id w.client_id w.next_call_id in
            rw (known, invoke_func)
              (>>=-Returns (prepare_new_func_call o.system w.shared c w.current_func_call_id input)
                _ (λ r. Invokes r.0) _
                (prepare_new_func_call-Invokes o.system w.shared c w.current_func_call_id input)
                λ r e.
                  sent_off-IsTidy
                    (record w { next_call_id = suc w.next_call_id % 2 ^ 32; shared = r.1 }) c input
                    r.0 e
                    (record { lending = tidy.lending; sized = tidy.sized; pipes = tidy.pipes }))
      ]

  pub run-IsTidy : (p : Program) (w : FuncWorker) → IsTidy w → Returns (run o p w) (λ r. IsTidy r.1)
  unfolding run
  run-IsTidy (finish ret) w tidy = tidy
  run-IsTidy (append_output bytes p) w tidy =
      run-IsTidy p _ (record { lending = tidy.lending; sized = tidy.sized; pipes = tidy.pipes })
  run-IsTidy (invoke name input next) w tidy =
      >>=-Returns (invoke_func o w name input) _ _ _ (invoke_func-IsTidy w name input tidy)
        λ r t. run-IsTidy (next r.0) r.1 t
