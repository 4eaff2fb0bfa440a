-- ===== src/Worker/WorkerLib.antt =====
-- src/worker/worker_lib.cpp: how inputs and outputs of calls travel, inside messages, through pipes
-- or in shared memory.
pub mod Answers
mod RoundTrip
mod Tests
use nightcore.Prelude.{
  ℕ, ◌+◌, ◌-◌, ◌*◌, ◌/◌, ◌%◌, ◌^◌, ◌≤◌, Bool, true, false, not, ◌&&◌, Option, none, some, List, [],
  ◌∷◌, ◌++◌, ltb, leb, ◌==◌, if◌then◌else◌, length, take, drop, get_or,
}
use nightcore.Prelude.Int.{ℤ, pos, negsuc, pos_part, ◌-ℤ◌, ltb_ℤ, narrow32, signed32}
use nightcore.Prelude.Map.{Map, lookup, insert, erase}
use nightcore.Prelude.Result.{Result, ok, ◌>>=◌, ◌>>◌, check}
use nightcore.Protocol.{FuncCall, full_call_id}
use nightcore.Protocol.Message.{
  Message, get_func_call_from_message, get_inline_data_from_message, is_dispatch_func_call_message,
  message_inline_data_size, new_func_call_complete_message, new_func_call_failed_message,
  new_invoke_func_message, set_inline_data_in_message,
}

abbrev pub pipe_buf_size : ℕ
pipe_buf_size = 4096

-- What the system answers, by the id of the call: whether a region can be made, whether the pipe can
-- be opened, and how many of `n` bytes a write takes, or none for an error.
pub record System : Type 0 where
  pub shm_create : ℕ → Bool
  pub fifo_open : ℕ → Bool
  pub fifo_write : ℕ → ℕ → Option ℕ

-- What the processes of a node share, by the id of the call: the regions for inputs and outputs, and
-- the bytes in the pipes for outputs.
pub record Shared : Type 0 where
  pub input_regions : Map (List ℕ)
  pub output_regions : Map (List ℕ)
  pub output_fifos : Map (List ℕ)

-- A 32-bit word in memory, low byte first.
abbrev pub word_bytes : ℕ → List ℕ
word_bytes w = w % 256 ∷ w / 256 % 256 ∷ w / 65536 % 256 ∷ w / 16777216 % 256 ∷ []

abbrev pub bytes_word : List ℕ → ℕ
bytes_word b = get_or b 0 0 + 256 * get_or b 1 0 + 65536 * get_or b 2 0 + 16777216 * get_or b 3 0

-- `success ? output.size() : -1`, a `size_t`, stored as an `int32_t`.
abbrev pub output_header : Bool → List ℕ → List ℕ
output_header success output = word_bytes ((if success then length output else 2 ^ 64 - 1) % 2 ^ 32)

abbrev pub fifo_bytes : Shared → FuncCall → List ℕ
fifo_bytes s c = elim (lookup (full_call_id c) s.output_fifos) [ none ↦ [] | some bytes ↦ bytes ]

abbrev pub set_fifo : Shared → FuncCall → List ℕ → Shared
set_fifo s c bytes = record s { output_fifos = insert (full_call_id c) bytes s.output_fifos }

module _ (system : System) where
  unfoldable pub write_output_to_shm : Shared → FuncCall → List ℕ → Bool × Shared
  write_output_to_shm s c output =
      if system.shm_create (full_call_id c)
      then (true, record s { output_regions = insert (full_call_id c) output s.output_regions })
      else (false, s)

  -- The end of `WriteOutputToFifo`: a write of fewer bytes fails, but leaves them in the pipe.
  unfoldable pub write_fifo : Shared → FuncCall → List ℕ → Bool × Shared
  write_fifo s c bytes = elim (system.fifo_write (full_call_id c) (length bytes)) [
    | none ↦ (false, s)
    | some n ↦ (not (ltb n (length bytes)), set_fifo s c (fifo_bytes s c ++ take n bytes))
  ]

  unfoldable pub write_output_to_fifo : Shared → FuncCall → Bool → List ℕ → Bool × Shared
  write_output_to_fifo s c success output =
      let header = output_header success output in
      if not (system.fifo_open (full_call_id c))
      then (false, s)
      else if not success
      then write_fifo s c header
      else if leb (length output + 4) pipe_buf_size
      then write_fifo s c (header ++ output)
      else (let (written, s') = write_output_to_shm s c output in
          if written then write_fifo s' c header else (false, s'))

  -- The output of a call from the gateway: in the message, or in shared memory.
  unfoldable pub func_call_finished :
      Shared → FuncCall → Bool → List ℕ → ℤ → Result (Message × Shared)
  func_call_finished s c success output processing_time =
      if not success
      then ok (new_func_call_failed_message c, s)
      else if leb (length output) message_inline_data_size
      then (do
        response ←
            set_inline_data_in_message (new_func_call_complete_message c processing_time) output
        ok (response, s))
      else (let (written, s') = write_output_to_shm s c output in
          ok (
            (if written
                then record (new_func_call_complete_message c processing_time) {
                  payload_size = pos 0 -ℤ narrow32 (pos (length output));
                }
                else new_func_call_failed_message c),
            s',
          ))

  -- With pipes, only calls from the gateway are answered so.
  unfoldable pub fifo_func_call_finished :
      Shared → FuncCall → Bool → List ℕ → ℤ → Result (Message × Shared)
  fifo_func_call_finished s c success output processing_time =
      if c.client_id == 0
      then func_call_finished s c success output processing_time
      else (let (written, s') = write_output_to_fifo s c success output in
          ok (
            (if written
                then record (if success
                    then new_func_call_complete_message c processing_time
                    else new_func_call_failed_message c) {
                      payload_size = narrow32 (pos (length output));
                    }
                else new_func_call_failed_message c),
            s',
          ))

  unfoldable pub prepare_new_func_call :
      Shared → FuncCall → ℕ → List ℕ → Result (Option Message × Shared)
  prepare_new_func_call s c parent_func_call input =
      let message = new_invoke_func_message c parent_func_call in
      if leb (length input) message_inline_data_size
      then (do filled ← set_inline_data_in_message message input; ok (some filled, s))
      else ok (
          if system.shm_create (full_call_id c)
          then (
            some (record message { payload_size = pos 0 -ℤ narrow32 (pos (length input)) }),
            record s { input_regions = insert (full_call_id c) input s.input_regions },
          )
          else (none, s))

-- The input of a call that a worker gets; `none` is a return of false.
unfoldable pub get_func_call_input : Shared → Message → Result (Option (List ℕ))
get_func_call_input s message = if not (is_dispatch_func_call_message message) then ok none else (do
  c ← get_func_call_from_message message
  (if ltb_ℤ message.payload_size (pos 0)
      then ok (lookup (full_call_id c) s.input_regions)
      else (do input ← get_inline_data_from_message message; ok (some input))))

-- What the bytes read and their header say of the call. `none` is a return of false, `some none` a
-- call that failed. The region of an output goes when it has been looked at.
unfoldable pub read_headed : Shared → FuncCall → List ℕ → ℤ → Option (Option (List ℕ)) × Shared
read_headed s c buffer (negsuc n) = (some none, s)
read_headed s c buffer (pos output_size) =
    if leb (4 + output_size) pipe_buf_size
    then (
      (if ltb (length buffer) (4 + output_size)
          then none
          else some (some (take output_size (drop 4 buffer)))),
      s,
    )
    else if length buffer == 4
    then elim (lookup (full_call_id c) s.output_regions) [
      | none ↦ (none, s)
      | some region ↦ (
        (if length region == output_size then some (some region) else none),
        record s { output_regions = erase (full_call_id c) s.output_regions },
      )
    ]
    else (none, s)

unfoldable pub read_output : Shared → FuncCall → List ℕ → Option (Option (List ℕ)) × Shared
read_output s c buffer =
    if ltb (length buffer) 4
    then (none, s)
    else read_headed s c buffer (signed32 (bytes_word buffer))

-- `read` takes at most `PIPE_BUF` bytes; it fails on an empty pipe.
unfoldable pub fifo_get_func_call_output : Shared → FuncCall → Option (Option (List ℕ)) × Shared
fifo_get_func_call_output s c =
    let available = fifo_bytes s c in
    if length available == 0
    then (none, s)
    else read_output (set_fifo s c (drop pipe_buf_size available)) c (take pipe_buf_size available)
