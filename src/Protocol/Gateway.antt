-- ===== src/Protocol/Gateway.antt =====
-- src/common/protocol.h: `GatewayMessage`, which engine and gateway exchange.
use nightcore.Prelude.{ℕ, ◌+◌, ◌*◌, ◌/◌, ◌%◌, ◌^◌, Bool, ◌||◌, ◌==◌}
use nightcore.Prelude.Int.{ℤ, pos, signed32, bits32}
use nightcore.Prelude.Result.{Result, ok, ◌>>◌, check}
use nightcore.Protocol.{FuncCall}
use nightcore.Protocol.Message.{
  MessageType, code, engine_handshake, dispatch_func_call, func_call_complete, func_call_failed,
}

-- `word` is the 32-bit union: `node_id` and `conn_id`, or `processing_time`, or `status_code`.
pub record GatewayMessage : Type 0 where
  pub message_type : ℕ
  pub func_id : ℕ
  pub method_id : ℕ
  pub client_id : ℕ
  pub call_id : ℕ
  pub word : ℕ
  pub payload_size : ℤ

abbrev pub node_id : GatewayMessage → ℕ
node_id m = m.word % 2 ^ 16

abbrev pub conn_id : GatewayMessage → ℕ
conn_id m = m.word / 2 ^ 16

abbrev pub processing_time : GatewayMessage → ℤ
processing_time m = signed32 m.word

abbrev pub status_code : GatewayMessage → ℤ
status_code m = signed32 m.word

abbrev pub empty_of_type : MessageType → GatewayMessage
empty_of_type t = record {
  message_type = code t;
  func_id = 0;
  method_id = 0;
  client_id = 0;
  call_id = 0;
  word = 0;
  payload_size = pos 0;
}

abbrev pub has_type : MessageType → GatewayMessage → Bool
has_type t m = m.message_type == code t

abbrev pub is_engine_handshake_message : GatewayMessage → Bool
is_engine_handshake_message = has_type engine_handshake

abbrev pub is_dispatch_func_call_message : GatewayMessage → Bool
is_dispatch_func_call_message = has_type dispatch_func_call

abbrev pub is_func_call_complete_message : GatewayMessage → Bool
is_func_call_complete_message = has_type func_call_complete

abbrev pub is_func_call_failed_message : GatewayMessage → Bool
is_func_call_failed_message = has_type func_call_failed

unfoldable pub set_func_call_in_message : GatewayMessage → FuncCall → GatewayMessage
set_func_call_in_message m c = record m {
  func_id = c.func_id % 2 ^ 8;
  method_id = c.method_id % 2 ^ 6;
  client_id = c.client_id % 2 ^ 14;
  call_id = c.call_id % 2 ^ 32;
}

unfoldable pub get_func_call_from_message : GatewayMessage → Result FuncCall
get_func_call_from_message m = do
  check (
      is_dispatch_func_call_message m
      || is_func_call_complete_message m
      || is_func_call_failed_message m)
  ok (record {
    func_id = m.func_id;
    method_id = m.method_id;
    client_id = m.client_id;
    call_id = m.call_id;
    padding = 0;
  })

unfoldable pub new_engine_handshake_gateway_message : ℕ → ℕ → GatewayMessage
new_engine_handshake_gateway_message node conn = record (empty_of_type engine_handshake) {
  word = node % 2 ^ 16 + 2 ^ 16 * (conn % 2 ^ 16);
}

unfoldable pub new_dispatch_func_call_gateway_message : FuncCall → GatewayMessage
unfolding set_func_call_in_message
new_dispatch_func_call_gateway_message c =
    set_func_call_in_message (empty_of_type dispatch_func_call) c

unfoldable pub new_func_call_complete_gateway_message : FuncCall → ℤ → GatewayMessage
unfolding set_func_call_in_message
new_func_call_complete_gateway_message c t =
    record (set_func_call_in_message (empty_of_type func_call_complete) c) { word = bits32 t }

unfoldable pub new_func_call_failed_gateway_message : FuncCall → ℤ → GatewayMessage
unfolding set_func_call_in_message
new_func_call_failed_gateway_message c status =
    record (set_func_call_in_message (empty_of_type func_call_failed) c) { word = bits32 status }
