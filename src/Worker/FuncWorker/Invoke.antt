-- ===== src/Worker/FuncWorker/Invoke.antt =====
-- src/worker/v1/func_worker.cpp: invocations of other functions.
use nightcore.Prelude.{
  ℕ, suc, ◌+◌, ◌%◌, ◌^◌, true, false, not, Option, none, some, List, [], leb, ◌==◌, if◌then◌else◌,
  length,
}
use nightcore.Prelude.Int.{pos, neg_part, ltb_ℤ}
use nightcore.Prelude.Map.{lookup}
use nightcore.Prelude.Names.{Name}
use nightcore.Prelude.Result.{Result, ok, err, ◌>>=◌, ◌>>◌, check, check_failed}
use nightcore.Config.{find_by_func_name}
use nightcore.Protocol.{FuncCall, full_call_id, new_func_call}
use nightcore.Protocol.Message.{
  Message, get_func_call_from_message, get_inline_data_from_message, is_func_call_complete_message,
  is_func_call_failed_message,
}
use nightcore.Utils.Pool.{get_buffer, give_back_buffer}
use nightcore.Worker.WorkerLib.{
  pipe_buf_size, set_fifo, prepare_new_func_call, fifo_get_func_call_output,
}
use nightcore.Worker.FuncWorker.{
  message_size, Outside, FuncWorker, no_resource, keep, erase_output, erase_fifo, erase_input, send,
}

-- The message that comes back has the output, or says that it is in shared memory. `none` is a
-- return of false.
unfoldable pub read_result : FuncWorker → FuncCall → Message → Result (Option (List ℕ) × FuncWorker)
read_result w c message =
    if is_func_call_failed_message message
    then ok (none, record w { ongoing_invoke_func = false })
    else (do
      check (is_func_call_complete_message message)
      (if ltb_ℤ message.payload_size (pos 0)
          then (elim (lookup (full_call_id c) w.shared.output_regions) [
            | none ↦ ok (none, w)
            | some region ↦
                if length region == neg_part message.payload_size
                then ok (
                  some region,
                  record (keep w (record (no_resource c) { output_region = true })) {
                    ongoing_invoke_func = false;
                  },
                )
                else ok (none, record w { shared = erase_output c w.shared })
          ])
          else (do
            let (buffer, size, pool) = get_buffer w.buffer_pool_for_pipes
            check (leb message_size size)
            output ← get_inline_data_from_message message
            ok (
              some output,
              record (keep w (record (no_resource c) { pipe_buffer = some buffer })) {
                buffer_pool_for_pipes = pool;
                ongoing_invoke_func = false;
              },
            ))))

-- A buffer for the pipe is lent. It stays with an output that fits the pipe, and goes back otherwise.
unfoldable pub fifo_result :
    FuncWorker → FuncCall → ℕ → Option (Option (List ℕ)) → Option (List ℕ) × FuncWorker
fifo_result w c buffer none =
    (none, record w { buffer_pool_for_pipes = give_back_buffer buffer w.buffer_pool_for_pipes })
fifo_result w c buffer (some none) = (
  none,
  keep (record w { buffer_pool_for_pipes = give_back_buffer buffer w.buffer_pool_for_pipes })
      (no_resource c),
)
fifo_result w c buffer (some (some output)) =
    if leb (4 + length output) pipe_buf_size
    then (some output, keep w (record (no_resource c) { pipe_buffer = some buffer }))
    else (
      some output,
      keep (record w { buffer_pool_for_pipes = give_back_buffer buffer w.buffer_pool_for_pipes })
          (record (no_resource c) { output_region = true }),
    )

-- What the pipe of the call has.
unfoldable pub read_fifo : FuncWorker → FuncCall → Result (Option (List ℕ) × FuncWorker)
unfolding fifo_result
read_fifo w c = do
  let (buffer, size, pool) = get_buffer w.buffer_pool_for_pipes
  check (size == pipe_buf_size)
  let (got, s) = fifo_get_func_call_output w.shared c
  ok (fifo_result (record w { buffer_pool_for_pipes = pool; shared = s }) c buffer got)

-- The pipe goes again on each way out.
abbrev pub without_fifo : FuncCall → Option (List ℕ) × FuncWorker → Option (List ℕ) × FuncWorker
without_fifo c r = (r.0, record r.1 { shared = erase_fifo c r.1.shared })

module _ (o : Outside) where
  unfoldable pub wait_invoke_func : FuncWorker → Message → Result (Option (List ℕ) × FuncWorker)
  wait_invoke_func w message = do
    c ← get_func_call_from_message message
    check (not w.ongoing_invoke_func)
    w1 ← send o (record w { ongoing_invoke_func = true }) message
    (elim (o.reply message) [
      | none ↦ err check_failed
      | some result_message ↦
          read_result (record w1 { shared = o.meanwhile message w1.shared }) c result_message
    ])

  unfoldable pub fifo_wait_invoke_func :
      FuncWorker → Message → Result (Option (List ℕ) × FuncWorker)
  unfolding read_fifo
  fifo_wait_invoke_func w message = do
    c ← get_func_call_from_message message
    (if not (o.fifo_create (full_call_id c))
        then ok (none, w)
        else (let made = record w { shared = set_fifo w.shared c [] } in
            if not (o.fifo_open (full_call_id c)) then ok (without_fifo c (none, made)) else (do
              w1 ← send o made message
              let w2 = record w1 { shared = o.meanwhile message w1.shared }
              (if not (o.fifo_poll (full_call_id c))
                  then ok (without_fifo c (none, w2))
                  else (do r ← read_fifo w2 c; ok (without_fifo c r))))))

  unfoldable pub invoke_func : FuncWorker → Name → List ℕ → Result (Option (List ℕ) × FuncWorker)
  invoke_func w func_name input = elim (find_by_func_name w.func_config func_name) [
    | none ↦ ok (none, w)
    | some entry ↦ do
      let c = new_func_call entry.func_id w.client_id w.next_call_id
      let w1 = record w { next_call_id = suc w.next_call_id % 2 ^ 32 }
      (message, s) ← prepare_new_func_call o.system w1.shared c w1.current_func_call_id input
      let w2 = record w1 { shared = s }
      (elim message [
        | none ↦ ok (none, w2)
        | some m ↦ do
          r ←
              (if w2.use_fifo_for_nested_call
                then fifo_wait_invoke_func w2 m
                else wait_invoke_func w2 m)
          ok (r.0, record r.1 { shared = erase_input c input r.1.shared })
      ])
  ]
