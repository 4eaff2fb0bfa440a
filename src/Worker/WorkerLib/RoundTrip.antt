-- ===== src/Worker/WorkerLib/RoundTrip.antt =====
-- src/worker/worker_lib.cpp: the caller of an internal call reads the output that its worker wrote.
use nightcore.Prelude.{
  ℕ, ◌+◌, ◌%◌, ◌^◌, ◌≤◌, ◌<◌, ◌≡◌, refl, ap, ◌∙◌, inl, inr, arith, Bool, true, false, not,
  Bool-cases, Option, none, some, List, [], ◌++◌, ltb, leb, ◌==◌, if◌then◌else◌, length, take_all,
  drop_all, le→leb,
}
use nightcore.Prelude.Int.{ℤ, pos, negsuc, narrow32_id, signed32}
use nightcore.Prelude.Map.{lookup, insert, lookup-insert}
use nightcore.Prelude.Result.{Returns}
use nightcore.Protocol.{FuncCall, full_call_id}
use nightcore.Protocol.Message.{
  code, func_call_complete, func_call_failed, new_func_call_complete_message,
  new_func_call_failed_message, set_func_call_in_message,
}
use nightcore.Worker.WorkerLib.{
  System, Shared, pipe_buf_size, word_bytes, bytes_word, output_header, fifo_bytes, set_fifo,
  write_output_to_shm, write_fifo, write_output_to_fifo, fifo_func_call_finished, read_output,
  read_headed, fifo_get_func_call_output,
}

bytes_word-word_bytes : (w : ℕ) (rest : List ℕ) → w < 2 ^ 32 → bytes_word (word_bytes w ++ rest) ≡ w
bytes_word-word_bytes w rest h = omega arith

-- The system does all that it is asked for the call.
pub record IsServing (system : System) (c : FuncCall) : Type 0 where
  pub creates : system.shm_create (full_call_id c) ≡ true
  pub opens : system.fifo_open (full_call_id c) ≡ true
  pub writes : (n : ℕ) → n ≤ pipe_buf_size → system.fifo_write (full_call_id c) n ≡ some n

fifo_bytes-set_fifo :
    (s : Shared) (c : FuncCall) (bytes : List ℕ) → fifo_bytes (set_fifo s c bytes) c ≡ bytes
fifo_bytes-set_fifo s c bytes =
    let found : lookup (full_call_id c) (insert (full_call_id c) bytes s.output_fifos)
        ≡ some bytes =
      ground (arith, lookup-insert (full_call_id c) (full_call_id c) bytes s.output_fifos) in
    rw (fifo_bytes, found) refl

-- What the reader makes of bytes that are alone in the pipe.
get-set_fifo :
    (s : Shared) (c : FuncCall) (bytes : List ℕ)
    → 0 < length bytes
    → length bytes ≤ pipe_buf_size
    → fifo_get_func_call_output (set_fifo s c bytes) c
      ≡ read_output (set_fifo (set_fifo s c bytes) c []) c bytes
unfolding fifo_get_func_call_output
get-set_fifo s c bytes some_bytes fits =
    let full : (length bytes == 0) ≡ false = ground arith in
    rw
      (
        fifo_bytes-set_fifo s c bytes,
        full,
        take_all pipe_buf_size bytes fits,
        drop_all pipe_buf_size bytes fits,
      )
      refl

write_fifo_lem :
    (system : System) (s : Shared) (c : FuncCall) (bytes : List ℕ)
    → IsServing system c
    → fifo_bytes s c ≡ []
    → length bytes ≤ pipe_buf_size
    → write_fifo system s c bytes ≡ (true, set_fifo s c bytes)
unfolding write_fifo
write_fifo_lem system s c bytes serving empty fits =
    let all : not (ltb (length bytes) (length bytes)) ≡ true = ground arith in
    rw
      (
        serving.writes (length bytes) fits,
        write_fifo,
        empty,
        all,
        take_all (length bytes) bytes (omega arith),
      )
      refl

-- What the reader gets in each of the three cases.
abbrev Read : Shared → FuncCall → Option (List ℕ) → Type 0
Read s c output = (fifo_get_func_call_output s c).0 ≡ some output

read_output-read_headed :
    (s : Shared) (c : FuncCall) (buffer : List ℕ) (header : ℤ)
    → 4 ≤ length buffer
    → signed32 (bytes_word buffer) ≡ header
    → read_output s c buffer ≡ read_headed s c buffer header
unfolding read_output
read_output-read_headed s c buffer header enough e =
    let test : ltb (length buffer) 4 ≡ false = ground arith in
    rw test (ap (read_headed s c buffer) e)

failed-Read :
    (s : Shared) (c : FuncCall) (output : List ℕ)
    → Read (set_fifo s c (output_header false output)) c none
unfolding read_headed
failed-Read s c output =
    let bytes = output_header false output in
    ap (λ r. r.0)
      (get-set_fifo s c bytes (omega arith) (omega arith)
        ∙ read_output-read_headed (set_fifo (set_fifo s c bytes) c []) c bytes (negsuc 0)
            (omega arith) refl)

-- The header of an output that is not too large.
header_lem :
    (output rest : List ℕ)
    → length output < 2 ^ 31
    → signed32 (bytes_word (output_header true output ++ rest)) ≡ pos (length output)
header_lem output rest small =
    let n = length output in
    let word : bytes_word (output_header true output ++ rest) ≡ n % 2 ^ 32 =
      bytes_word-word_bytes (n % 2 ^ 32) rest (omega arith) in
    ground arith

short-Read :
    (s : Shared) (c : FuncCall) (output : List ℕ)
    → length output + 4 ≤ pipe_buf_size
    → Read (set_fifo s c (output_header true output ++ output)) c (some output)
unfolding read_headed
short-Read s c output fits =
    let bytes = output_header true output ++ output in
    let n = length output in
    let fits_too : leb (4 + n) pipe_buf_size ≡ true = le→leb (4 + n) pipe_buf_size (omega arith) in
    let whole : ltb (length bytes) (4 + n) ≡ false = ground arith in
    ap (λ r. r.0)
      (get-set_fifo s c bytes (omega arith) (omega arith)
        ∙ read_output-read_headed (set_fifo (set_fifo s c bytes) c []) c bytes (pos n) (omega arith)
            (header_lem output output (omega arith)))
    ∙ rw (fits_too, whole, take_all n output (omega arith)) refl

long-Read :
    (s : Shared) (c : FuncCall) (output : List ℕ)
    → pipe_buf_size < length output + 4
    → length output < 2 ^ 31
    → lookup (full_call_id c) s.output_regions ≡ some output
    → Read (set_fifo s c (output_header true output)) c (some output)
unfolding read_headed
long-Read s c output long small there =
    let bytes = output_header true output in
    let n = length output in
    let too_long : leb (4 + n) pipe_buf_size ≡ false = ground arith in
    let same : (n == n) ≡ true = ground arith in
    ap (λ r. r.0)
      (get-set_fifo s c bytes (omega arith) (omega arith)
        ∙ read_output-read_headed (set_fifo (set_fifo s c bytes) c []) c bytes (pos n) (omega arith)
            (header_lem output [] small))
    ∙ rw (too_long, there, same) refl

type_of :
    (c : FuncCall) (t : ℤ) (b : Bool)
    → (if b
        then new_func_call_complete_message c t
        else new_func_call_failed_message c).message_type
      ≡ code (if b then func_call_complete else func_call_failed)
unfolding new_func_call_complete_message new_func_call_failed_message set_func_call_in_message
type_of c t true = refl
type_of c t false = refl

module _ (system : System) (s : Shared) (c : FuncCall) (output : List ℕ)
    (serving : IsServing system c) (empty : fifo_bytes s c ≡ [])
    (small : length output < 2 ^ 31) where
  abbrev outcome : Bool → Option (List ℕ)
  outcome success = if success then some output else none

  -- `WriteOutputToFifo` succeeds, and the reader gets the outcome.
  abbrev IsWritten : Bool → Bool × Shared → Type 0
  IsWritten success r = (r.0 ≡ true) × Read r.1 c (outcome success)

  created :
      write_output_to_shm system s c output
      ≡ (true, record s { output_regions = insert (full_call_id c) output s.output_regions })
  unfolding write_output_to_shm
  created = rw (serving.creates) refl

  write_output_to_fifo-IsWritten :
      (success : Bool) → IsWritten success (write_output_to_fifo system s c success output)
  unfolding write_output_to_fifo
  write_output_to_fifo-IsWritten false =
      rw
        (
          serving.opens,
          write_fifo_lem system s c (output_header false output) serving empty (omega arith),
        )
        (refl, failed-Read s c output)
  write_output_to_fifo-IsWritten true = elim (Bool-cases (leb (length output + 4) pipe_buf_size)) [
    | inl short ↦
        let bytes = output_header true output ++ output in
        rw
          (
            serving.opens,
            short,
            write_fifo_lem system s c bytes serving empty (ground (arith, short)),
          )
          (refl, short-Read s c output (ground (arith, short)))
    | inr long ↦
        let kept = record s { output_regions = insert (full_call_id c) output s.output_regions } in
        let there : lookup (full_call_id c) kept.output_regions ≡ some output =
          ground (arith, lookup-insert (full_call_id c) (full_call_id c) output s.output_regions) in
        rw
          (
            serving.opens,
            long,
            created,
            write_fifo_lem system kept c (output_header true output) serving empty (omega arith),
          )
          (refl, long-Read kept c output (ground (arith, long)) small there)
  ]

  -- For an internal call whose output pipe is empty, on a system that does what it is asked, with
  -- an output below 2^31 bytes: FifoFuncCallFinished returns a message of completion or failure
  -- that states the size of the output, and FifoGetFuncCallOutput then reads the same output if
  -- the call succeeded, through the pipe or shared memory, and the failure if not.
  pub fifo_get_func_call_output-finished :
      (success : Bool) (processing_time : ℤ)
      → (c.client_id == 0) ≡ false
      → Returns (fifo_func_call_finished system s c success output processing_time) (λ r.
        ((fifo_get_func_call_output r.1 c).0 ≡ some (if success then some output else none))
        × (r.0.payload_size ≡ pos (length output))
        × (r.0.message_type ≡ code (if success then func_call_complete else func_call_failed)))
  unfolding fifo_func_call_finished
  fifo_get_func_call_output-finished success processing_time internal =
      let w = write_output_to_fifo-IsWritten success in
      rw (internal, w.0)
        (
          w.1,
          narrow32_id (pos (length output)) (omega arith, omega arith),
          type_of c processing_time success,
        )
