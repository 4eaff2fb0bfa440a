-- ===== src/Protocol/Message.antt =====
-- src/common/protocol.h: `Message`, its constructors and accessors.
use nightcore.Prelude.{
  ℕ, zero, suc, ◌+◌, ◌-◌, ◌*◌, ◌/◌, ◌%◌, ◌^◌, Bool, ◌||◌, List, [], ◌∷◌, ◌++◌, ◌==◌, leb, ltb,
  if◌then◌else◌, length, drop,
}
use nightcore.Prelude.Int.{ℤ, pos, negsuc, pos_part, ltb_ℤ, ◌-ℤ◌, signed32, bits32, narrow32}
use nightcore.Prelude.Result.{Result, ok, err, ◌>>◌, check, out_of_bounds}
use nightcore.Protocol.{FuncCall}

pub data MessageType : Type 0 where
  invalid engine_handshake launcher_handshake func_worker_handshake handshake_response : MessageType
  create_func_worker invoke_func dispatch_func_call func_call_complete : MessageType
  func_call_failed : MessageType

abbrev pub code : MessageType → ℕ
code invalid = 0
code engine_handshake = 1
code launcher_handshake = 2
code func_worker_handshake = 3
code handshake_response = 4
code create_func_worker = 5
code invoke_func = 6
code dispatch_func_call = 7
code func_call_complete = 8
code func_call_failed = 9

abbrev pub func_worker_use_engine_socket_flag : ℕ
func_worker_use_engine_socket_flag = 1

abbrev pub use_fifo_for_nested_call_flag : ℕ
use_fifo_for_nested_call_flag = 2

-- `__FAAS_MESSAGE_SIZE - __FAAS_CACHE_LINE_SIZE`.
abbrev pub message_inline_data_size : ℕ
message_inline_data_size = 1024 - 64

-- `parent_call_id` is the 64-bit word of the union, whose halves are `dispatch_delay` and
-- `processing_time`. `inline_data` lists the bytes up to the last one written; the rest are 0.
pub record Message : Type 0 where
  pub message_type : ℕ
  pub func_id : ℕ
  pub method_id : ℕ
  pub client_id : ℕ
  pub call_id : ℕ
  pub parent_call_id : ℕ
  pub send_timestamp : ℤ
  pub payload_size : ℤ
  pub flags : ℕ
  pub inline_data : List ℕ

abbrev pub dispatch_delay : Message → ℤ
dispatch_delay m = signed32 (m.parent_call_id % 2 ^ 32)

abbrev pub processing_time : Message → ℤ
processing_time m = signed32 (m.parent_call_id / 2 ^ 32)

abbrev pub set_dispatch_delay : Message → ℤ → Message
set_dispatch_delay m d = record m {
  parent_call_id = bits32 d + 2 ^ 32 * (m.parent_call_id / 2 ^ 32);
}

abbrev pub set_processing_time : Message → ℤ → Message
set_processing_time m t = record m {
  parent_call_id = m.parent_call_id % 2 ^ 32 + 2 ^ 32 * bits32 t;
}

-- `NEW_EMPTY_MESSAGE`.
abbrev pub empty_message : Message
empty_message = record {
  message_type = 0;
  func_id = 0;
  method_id = 0;
  client_id = 0;
  call_id = 0;
  parent_call_id = 0;
  send_timestamp = pos 0;
  payload_size = pos 0;
  flags = 0;
  inline_data = [];
}

abbrev pub has_type : MessageType → Message → Bool
has_type t m = m.message_type == code t

abbrev pub is_launcher_handshake_message : Message → Bool
is_launcher_handshake_message = has_type launcher_handshake

abbrev pub is_func_worker_handshake_message : Message → Bool
is_func_worker_handshake_message = has_type func_worker_handshake

abbrev pub is_handshake_response_message : Message → Bool
is_handshake_response_message = has_type handshake_response

abbrev pub is_create_func_worker_message : Message → Bool
is_create_func_worker_message = has_type create_func_worker

abbrev pub is_invoke_func_message : Message → Bool
is_invoke_func_message = has_type invoke_func

abbrev pub is_dispatch_func_call_message : Message → Bool
is_dispatch_func_call_message = has_type dispatch_func_call

abbrev pub is_func_call_complete_message : Message → Bool
is_func_call_complete_message = has_type func_call_complete

abbrev pub is_func_call_failed_message : Message → Bool
is_func_call_failed_message = has_type func_call_failed

unfoldable pub set_func_call_in_message : Message → FuncCall → Message
set_func_call_in_message m c = record m {
  func_id = c.func_id % 2 ^ 8;
  method_id = c.method_id % 2 ^ 6;
  client_id = c.client_id % 2 ^ 14;
  call_id = c.call_id % 2 ^ 32;
}

unfoldable pub get_func_call_from_message : Message → Result FuncCall
get_func_call_from_message m = do
  check (
      is_invoke_func_message m
      || is_dispatch_func_call_message m
      || is_func_call_complete_message m
      || is_func_call_failed_message m)
  ok (record {
    func_id = m.func_id;
    method_id = m.method_id;
    client_id = m.client_id;
    call_id = m.call_id;
    padding = 0;
  })

unfoldable pub set_inline_data_in_message : Message → List ℕ → Result Message
set_inline_data_in_message m bytes = do
  check (leb (length bytes) message_inline_data_size)
  ok (record m {
    payload_size = narrow32 (pos (length bytes));
    inline_data = bytes ++ drop (length bytes) m.inline_data;
  })

-- The first `n` bytes of memory that is 0 behind the listed bytes.
unfoldable pub first_bytes : ℕ → List ℕ → List ℕ
first_bytes zero bytes = []
first_bytes (suc n) [] = 0 ∷ first_bytes n []
first_bytes (suc n) (b ∷ bytes) = b ∷ first_bytes n bytes

-- The span is read by the callers, so one past the end of `inline_data` is out of bounds here.
unfoldable pub get_inline_data_from_message : Message → Result (List ℕ)
get_inline_data_from_message m =
    if is_invoke_func_message m
      || is_dispatch_func_call_message m
      || is_func_call_complete_message m
      || is_launcher_handshake_message m
    then (if ltb 0 size
        then (if leb size message_inline_data_size
            then ok (first_bytes size m.inline_data)
            else err out_of_bounds)
        else ok [])
    else ok []
  where
    size : ℕ
    size = pos_part m.payload_size

unfoldable pub compute_message_delay : Message → ℤ → ℤ
compute_message_delay m now =
    if ltb_ℤ (pos 0) m.send_timestamp then narrow32 (now -ℤ m.send_timestamp) else negsuc 0

abbrev pub new_of_type : MessageType → Message
new_of_type t = record empty_message { message_type = code t }

unfoldable pub new_launcher_handshake_message : ℕ → Message
new_launcher_handshake_message func_id = record (new_of_type launcher_handshake) {
  func_id = func_id % 2 ^ 8;
}

unfoldable pub new_func_worker_handshake_message : ℕ → ℕ → Message
new_func_worker_handshake_message func_id client_id = record (new_of_type func_worker_handshake) {
  func_id = func_id % 2 ^ 8;
  client_id = client_id % 2 ^ 14;
}

-- The `uint32_t` is stored to an `int32_t`.
unfoldable pub new_handshake_response_message : ℕ → Message
new_handshake_response_message size = record (new_of_type handshake_response) {
  payload_size = narrow32 (pos size);
}

unfoldable pub new_create_func_worker_message : ℕ → Message
new_create_func_worker_message client_id = record (new_of_type create_func_worker) {
  client_id = client_id % 2 ^ 14;
}

unfoldable pub new_invoke_func_message : FuncCall → ℕ → Message
unfolding set_func_call_in_message
new_invoke_func_message c parent_call_id =
    record (set_func_call_in_message (new_of_type invoke_func) c) {
      parent_call_id = parent_call_id;
    }

unfoldable pub new_dispatch_func_call_message : FuncCall → Message
unfolding set_func_call_in_message
new_dispatch_func_call_message c = set_func_call_in_message (new_of_type dispatch_func_call) c

unfoldable pub new_func_call_complete_message : FuncCall → ℤ → Message
unfolding set_func_call_in_message
new_func_call_complete_message c t =
    set_processing_time (set_func_call_in_message (new_of_type func_call_complete) c) t

unfoldable pub new_func_call_failed_message : FuncCall → Message
unfolding set_func_call_in_message
new_func_call_failed_message c = set_func_call_in_message (new_of_type func_call_failed) c
