-- ===== src/Protocol/RoundTrip.antt =====
-- What is written into a message of src/common/protocol.h is what its accessors read.
use nightcore.Prelude.{
  ℕ, ◌^◌, ◌≤◌, ◌<◌, ◌≡◌, refl, ap, ◌∙◌, arith, ◌⊎◌, List, [], ◌∷◌, ◌++◌, length, drop,
}
use nightcore.Prelude.Int.{ℤ, IsInt32, signed32, narrow32_id, bits32-lt}
use nightcore.Prelude.Result.{ok, ◌>>=◌}
use nightcore.Protocol.{FuncCall, IsFuncCall, full_call_id, of_full_call_id}
use nightcore.Protocol.Bits.{of_full_call_id-full_call_id}
use nightcore.Protocol.Message.{
  Message, invoke_func, dispatch_func_call, func_call_complete, launcher_handshake, code,
  message_inline_data_size, first_bytes, get_func_call_from_message, get_inline_data_from_message,
  set_inline_data_in_message, new_invoke_func_message, new_dispatch_func_call_message,
  new_func_call_complete_message, new_func_call_failed_message, set_dispatch_delay, dispatch_delay,
  processing_time,
}
use nightcore.Protocol.Gateway
use nightcore.Protocol.Gateway.{
  new_engine_handshake_gateway_message, new_dispatch_func_call_gateway_message,
  new_func_call_complete_gateway_message, new_func_call_failed_gateway_message,
}

-- Each of the four messages about a call with fields in range gives that call back.
pub get_func_call_from_message-new :
    (c : FuncCall) (parent : ℕ) (t : ℤ)
    → IsFuncCall c
    → (get_func_call_from_message (new_invoke_func_message c parent) ≡ ok c)
      × (get_func_call_from_message (new_dispatch_func_call_message c) ≡ ok c)
      × (get_func_call_from_message (new_func_call_complete_message c t) ≡ ok c)
      × (get_func_call_from_message (new_func_call_failed_message c) ≡ ok c)
unfolding get_func_call_from_message new_invoke_func_message new_dispatch_func_call_message
    new_func_call_complete_message new_func_call_failed_message
get_func_call_from_message-new c parent t h =
    (ground arith, ground arith, ground arith, ground arith)

-- Each of the three gateway messages about a call with fields in range gives that call back.
pub get_func_call_from_gateway_message-new :
    (c : FuncCall) (t s : ℤ)
    → IsFuncCall c
    → (Gateway.get_func_call_from_message (new_dispatch_func_call_gateway_message c) ≡ ok c)
      × (Gateway.get_func_call_from_message (new_func_call_complete_gateway_message c t) ≡ ok c)
      × (Gateway.get_func_call_from_message (new_func_call_failed_gateway_message c s) ≡ ok c)
unfolding Gateway.get_func_call_from_message new_dispatch_func_call_gateway_message
    new_func_call_complete_gateway_message new_func_call_failed_gateway_message
get_func_call_from_gateway_message-new c t s h = (ground arith, ground arith, ground arith)

-- A gateway message gives back what its constructor put into its union: the 16-bit node and
-- connection ids, the processing time, or the status code, if these are values of an int32_t.
pub gateway_union :
    (c : FuncCall) (node conn : ℕ) (t s : ℤ)
    → node < 2 ^ 16
    → conn < 2 ^ 16
    → IsInt32 t
    → IsInt32 s
    → (Gateway.node_id (new_engine_handshake_gateway_message node conn) ≡ node)
      × (Gateway.conn_id (new_engine_handshake_gateway_message node conn) ≡ conn)
      × (Gateway.processing_time (new_func_call_complete_gateway_message c t) ≡ t)
      × (Gateway.status_code (new_func_call_failed_gateway_message c s) ≡ s)
unfolding new_engine_handshake_gateway_message new_func_call_complete_gateway_message
    new_func_call_failed_gateway_message
gateway_union c node conn t s hn hc ht hs =
    (omega arith, omega arith, narrow32_id t ht, narrow32_id s hs)

-- The union of an invocation gives back the parent call, and that of a completion gives back both
-- times: setting the dispatch delay does not disturb the processing time. The parent has its
-- fields in range, and the times are values of an int32_t.
pub message_union :
    (c p : FuncCall) (d t : ℤ)
    → IsFuncCall p
    → IsInt32 d
    → IsInt32 t
    → (of_full_call_id (new_invoke_func_message c (full_call_id p)).parent_call_id ≡ p)
      × (dispatch_delay (set_dispatch_delay (new_func_call_complete_message c t) d) ≡ d)
      × (processing_time (set_dispatch_delay (new_func_call_complete_message c t) d) ≡ t)
unfolding new_invoke_func_message new_func_call_complete_message
message_union c p d t hp hd ht = (
  of_full_call_id-full_call_id p hp,
  ap signed32 (omega (arith, bits32-lt d)) ∙ narrow32_id d hd,
  ap signed32 (omega (arith, bits32-lt d)) ∙ narrow32_id t ht,
)

first_bytes_exact : (xs ys : List ℕ) → first_bytes (length xs) (xs ++ ys) ≡ xs
unfolding first_bytes
first_bytes_exact [] ys = refl
first_bytes_exact (x ∷ xs) ys = ap (λ t. x ∷ t) (first_bytes_exact xs ys)

-- The types of message that carry inline data.
abbrev pub CarriesData : Message → Type 0
CarriesData m =
    (m.message_type ≡ code invoke_func)
    ⊎ (m.message_type ≡ code dispatch_func_call)
    ⊎ (m.message_type ≡ code func_call_complete)
    ⊎ (m.message_type ≡ code launcher_handshake)

-- For a message of a type that carries data, inline data of at most 960 bytes can be set and then
-- read back unchanged, whatever the message held before.
pub get_inline_data-set_inline_data :
    (m : Message) (bytes : List ℕ)
    → CarriesData m
    → length bytes ≤ message_inline_data_size
    → (set_inline_data_in_message m bytes >>= get_inline_data_from_message) ≡ ok bytes
unfolding set_inline_data_in_message get_inline_data_from_message
get_inline_data-set_inline_data m bytes t h =
    ground (arith, first_bytes_exact bytes (drop (length bytes) m.inline_data))
