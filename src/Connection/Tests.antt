-- ===== src/Connection/Tests.antt =====
-- Two packets are sent in writes of ten bytes and arrive in three reads.
use nightcore.Prelude.Int.{pos, pos_part}
use nightcore.Prelude.Result.{ok, Returns}
use nightcore.Prelude.{
  ℕ, ◌^◌, ◌<◌, ◌≡◌, refl, ap, arith, none, List, [], ◌∷◌, ◌++◌, map, replicate, length-replicate,
  get_or,
}
use nightcore.Protocol.Gateway.{GatewayMessage}
use nightcore.Utils.Buffer.{AppendableBuffer, IsValid, to_span}
use nightcore.Connection.Delivery.{AllBelow, delivered, send_all, recv_all-send_all}
use nightcore.Connection.EngineConnection.{EngineConnection, Action, got, recv_all, write}
use nightcore.Connection.EngineConnection
use nightcore.Connection.Frames.{Layout, Packet, send_message, send_loop, next_write}
use nightcore.Connection.Frames.Receiving.{AllPackets, frame}
use nightcore.Connection.Frames.Sending.{IsMessage, IsLayout, Writes, send_message_lem}
use nightcore.Connection.GatewayConnection.{GatewayConnection}
use nightcore.Connection.GatewayConnection

-- One cell for each field is a layout.
encode_cells : GatewayMessage → List ℕ
encode_cells m =
    m.message_type
    ∷ m.func_id
    ∷ m.method_id
    ∷ m.client_id
    ∷ m.call_id
    ∷ m.word
    ∷ pos_part m.payload_size
    ∷ 0
    ∷ []

decode_cells : List ℕ → GatewayMessage
decode_cells bytes = record {
  message_type = get_or bytes 0 0;
  func_id = get_or bytes 1 0;
  method_id = get_or bytes 2 0;
  client_id = get_or bytes 3 0;
  call_id = get_or bytes 4 0;
  word = get_or bytes 5 0;
  payload_size = pos (get_or bytes 6 0);
}

abbrev cells : Layout
cells = record { header_size = 8; encode = encode_cells; decode = decode_cells }

cells-IsLayout : IsLayout cells
unfolding encode_cells decode_cells
cells-IsLayout = record {
  nonempty = omega arith;
  small = omega arith;
  sized = λ m. refl;
  faithful = λ m n fits small e. ap (λ z. record m { payload_size = z }) (rw e refl);
}

abbrev message : ℕ → ℕ → GatewayMessage
message call size = record {
  message_type = 6;
  func_id = 3;
  method_id = 0;
  client_id = 9;
  call_id = call;
  word = 0;
  payload_size = pos size;
}

abbrev packets : List Packet
packets = (message 1 4, 21 ∷ 22 ∷ 23 ∷ 24 ∷ []) ∷ (message 2 0, []) ∷ []

message-IsMessage : (call size : ℕ) → call < 2 ^ 32 → IsMessage (message call size)
message-IsMessage call size h = record {
  message_type = omega arith;
  func_id = omega arith;
  method_id = omega arith;
  client_id = omega arith;
  call_id = h;
  word = omega arith;
}

packets-AllPackets : AllPackets packets
packets-AllPackets = (
  (message-IsMessage 1 4 (omega arith), refl, omega arith),
  ((message-IsMessage 2 0 (omega arith), refl, omega arith), tt),
)

abbrev buffer : AppendableBuffer
buffer = record { buf_size = 48; pos = 0; heap = none; inline_buf = replicate 48 0 }

buffer-IsValid : IsValid buffer
buffer-IsValid = record {
  sized = refl;
  inline_sized = refl;
  within = omega arith;
  nonempty = omega arith;
}

abbrev sender : GatewayConnection
sender = record { conn_id = 0; state = GatewayConnection.running; read_buffer = buffer }

abbrev receiver : EngineConnection
receiver = record { state = EngineConnection.running; read_buffer = buffer }

abbrev actions : List Action
actions =
    write (6 ∷ 3 ∷ 0 ∷ 9 ∷ 1 ∷ 0 ∷ 4 ∷ 0 ∷ 21 ∷ 22 ∷ [])
    ∷ write (23 ∷ 24 ∷ [])
    ∷ write (6 ∷ 3 ∷ 0 ∷ 9 ∷ 2 ∷ 0 ∷ 0 ∷ 0 ∷ [])
    ∷ []

send_packets : send_all cells 10 sender packets ≡ ok actions
unfolding send_all GatewayConnection.send_message send_message send_loop next_write encode_cells
send_packets = refl

abbrev reads : List (List ℕ)
reads =
    (6 ∷ 3 ∷ 0 ∷ [])
    ∷ (9 ∷ 1 ∷ 0 ∷ 4 ∷ 0 ∷ 21 ∷ 22 ∷ 23 ∷ 24 ∷ 6 ∷ 3 ∷ [])
    ∷ (0 ∷ 9 ∷ 2 ∷ 0 ∷ 0 ∷ 0 ∷ [])
    ∷ []

abbrev malloc : ℕ → List ℕ
malloc n = replicate n 205

send_message_lem_example :
    Returns
      (send_message cells 10 (message 1 4) (21 ∷ 22 ∷ 23 ∷ 24 ∷ []))
      (Writes 10 (encode_cells (message 1 4) ++ (21 ∷ 22 ∷ 23 ∷ 24 ∷ [])))
send_message_lem_example =
    send_message_lem cells cells-IsLayout 10 (omega arith) (message 1 4) (21 ∷ 22 ∷ 23 ∷ 24 ∷ [])
      refl (omega arith)

packets-AllBelow : AllBelow (map (frame cells) packets)
unfolding encode_cells
packets-AllBelow = (omega arith, (omega arith, tt))

reads-AllBelow : AllBelow reads
reads-AllBelow = (omega arith, (omega arith, (omega arith, tt)))

recv_all-send_all_example : Returns (recv_all malloc cells (map got reads) receiver) (λ r.
    (delivered r.1 ≡ packets)
    × (to_span r.0.read_buffer ≡ [])
    × (r.0.read_buffer.buf_size < 2 ^ 31))
recv_all-send_all_example =
    recv_all-send_all cells cells-IsLayout malloc (λ n. length-replicate n 205) 10 sender receiver
      packets actions reads (omega arith) refl buffer-IsValid refl (omega arith) packets-AllPackets
      packets-AllBelow reads-AllBelow send_packets refl
