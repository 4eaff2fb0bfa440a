-- ===== src/Worker/WorkerLib/Answers.antt =====
-- src/worker/worker_lib.cpp: what a finished call is answered with.
use nightcore.Prelude.{
  ℕ, ◌%◌, ◌^◌, ◌≡◌, ◌⊎◌, refl, Bool, true, false, Bool-cases, List, inl, inr, leb, ◌==◌,
  if◌then◌else◌, length,
}
use nightcore.Prelude.Int.{ℤ}
use nightcore.Prelude.Result.{Returns, if-Returns}
use nightcore.Protocol.{FuncCall}
use nightcore.Protocol.Message.{
  Message, code, func_call_complete, func_call_failed, message_inline_data_size,
  new_func_call_complete_message, new_func_call_failed_message, set_func_call_in_message,
  set_inline_data_in_message,
}
use nightcore.Worker.WorkerLib.{
  Shared, System, func_call_finished, fifo_func_call_finished, write_output_to_shm,
  write_output_to_fifo,
}

-- The message says that this call has completed or failed.
pub record IsAnswer (c : FuncCall) (m : Message) : Type 0 where
  pub kind : (m.message_type ≡ code func_call_complete) ⊎ (m.message_type ≡ code func_call_failed)
  pub func_id : m.func_id ≡ c.func_id % 2 ^ 8
  pub method_id : m.method_id ≡ c.method_id % 2 ^ 6
  pub client_id : m.client_id ≡ c.client_id % 2 ^ 14
  pub call_id : m.call_id ≡ c.call_id % 2 ^ 32

pub failed-IsAnswer : (c : FuncCall) → IsAnswer c (new_func_call_failed_message c)
unfolding new_func_call_failed_message set_func_call_in_message
failed-IsAnswer c = record {
  kind = inr refl;
  func_id = refl;
  method_id = refl;
  client_id = refl;
  call_id = refl;
}

complete-IsAnswer :
    (c : FuncCall) (t z : ℤ) (bytes : List ℕ)
    → IsAnswer c
        (record (new_func_call_complete_message c t) { payload_size = z; inline_data = bytes })
unfolding new_func_call_complete_message set_func_call_in_message
complete-IsAnswer c t z bytes = record {
  kind = inl refl;
  func_id = refl;
  method_id = refl;
  client_id = refl;
  call_id = refl;
}

-- The size, the times and the timestamp are no part of what is answered.
pub altered-IsAnswer :
    (c : FuncCall) (m : Message) (z t : ℤ) (p : ℕ)
    → IsAnswer c m
    → IsAnswer c (record m { payload_size = z; send_timestamp = t; parent_call_id = p })
altered-IsAnswer c m z t p a = record {
  kind = a.kind;
  func_id = a.func_id;
  method_id = a.method_id;
  client_id = a.client_id;
  call_id = a.call_id;
}

if-IsAnswer :
    (c : FuncCall) (b : Bool) (m n : Message)
    → IsAnswer c m
    → IsAnswer c n
    → IsAnswer c (if b then m else n)
if-IsAnswer c true m n a b = a
if-IsAnswer c false m n a b = b

module _ (system : System) (s : Shared) (c : FuncCall) (output : List ℕ) (t : ℤ) where
  pub func_call_finished-IsAnswer :
      (success : Bool)
      → Returns (func_call_finished system s c success output t) (λ r. IsAnswer c r.0)
  unfolding func_call_finished set_inline_data_in_message
  func_call_finished-IsAnswer false = failed-IsAnswer c
  func_call_finished-IsAnswer true =
      elim (Bool-cases (leb (length output) message_inline_data_size)) [
        | inl small ↦ rw (small) (complete-IsAnswer c t _ _)
        | inr large ↦ elim (Bool-cases (write_output_to_shm system s c output).0) [
          | inl written ↦ rw (large, written) (complete-IsAnswer c t _ _)
          | inr lost ↦ rw (large, lost) (failed-IsAnswer c)
        ]
      ]

  pub fifo_func_call_finished-IsAnswer :
      (success : Bool)
      → Returns (fifo_func_call_finished system s c success output t) (λ r. IsAnswer c r.0)
  unfolding fifo_func_call_finished
  fifo_func_call_finished-IsAnswer success =
      if-Returns (c.client_id == 0) _ _ (λ r. IsAnswer c r.0) (func_call_finished-IsAnswer success)
        (if-IsAnswer c (write_output_to_fifo system s c success output).0 _ _
          (altered-IsAnswer c _ _ _ _
            (if-IsAnswer c success _ _ (complete-IsAnswer c t _ _) (failed-IsAnswer c)))
          (failed-IsAnswer c))
