-- ===== src/Engine/MessageConnection/Tests.antt =====
-- A worker's handshake, for a layout that gives one message.
use nightcore.Prelude.{ℕ, ◌≡◌, refl, arith, inr, true, false, none, List, [], ◌∷◌, replicate}
use nightcore.Prelude.Result.{Returns, err, check_failed}
use nightcore.Protocol.Message.{Message, empty_message}
use nightcore.Engine.MessageConnection.{
  MessageConnection, handshake, schedule_send, recv_handshake_message,
}
use nightcore.Prelude.{some}
use nightcore.Engine.MessageConnection.Handshake.{recv_handshake_message_refused}
use nightcore.Engine.MessageConnection.Pending.{Greeted, recv_handshake_message-Greeted}

abbrev encode : Message → List ℕ
encode m = m.message_type ∷ m.func_id ∷ m.client_id ∷ []

-- The message that came is a worker's handshake.
abbrev decode : List ℕ → Message
decode bytes = record empty_message { message_type = 3; func_id = 7; client_id = 5 }

abbrev connection : MessageConnection
connection = record {
  state = handshake;
  func_id = 0;
  client_id = 0;
  handshake_done = false;
  in_fifo = false;
  out_fifo = false;
  pipe_for_write = false;
  message_buffer = record { buf_size = 48; pos = 3; heap = none; inline_buf = replicate 48 3 };
  pending_messages = empty_message ∷ empty_message ∷ [];
}

recv_handshake_message-Greeted_example :
    Returns
      (recv_handshake_message false false encode decode 4
        (some (empty_message, 1 ∷ [], empty_message ∷ []))
        true
        true
        connection)
      (Greeted 4 encode
        (schedule_send ∷ [])
        (empty_message ∷ empty_message ∷ empty_message ∷ [])
        empty_message
        (1 ∷ []))
recv_handshake_message-Greeted_example =
    recv_handshake_message-Greeted 4 (omega arith) false false encode decode connection
      empty_message (1 ∷ []) (empty_message ∷ []) refl (inr refl)

recv_handshake_message_refused_example :
    recv_handshake_message false false encode decode 4 none true true connection ≡ err check_failed
recv_handshake_message_refused_example =
    recv_handshake_message_refused false encode decode 4 connection true true refl refl refl refl
