-- ===== src/Connection/GatewayConnection.antt =====
-- src/engine/gateway_connection.cpp: the engine's end of a connection. It sends a handshake before
-- it reads.
use nightcore.Prelude.Result.{Result, ok, ◌>>=◌, ◌>>◌, check}
use nightcore.Prelude.{ℕ, Bool, true, false, ◌||◌, List, [], ◌∷◌, map, if◌then◌else◌}
use nightcore.Protocol.Gateway.{GatewayMessage, new_engine_handshake_gateway_message}
use nightcore.Utils.Buffer.{AppendableBuffer, append_data}
use nightcore.Connection.EngineConnection.{
  Action, deliver, write, close_handle, report_closed, Read, failed, got,
}
use nightcore.Connection.Frames.{Layout, process_gateway_messages}
use nightcore.Connection.Frames

pub data State : Type 0 where
  created handshake running closing closed : State

abbrev is_created : State → Bool
is_created created = true
is_created _ = false

abbrev is_handshake : State → Bool
is_handshake handshake = true
is_handshake _ = false

abbrev pub is_running : State → Bool
is_running running = true
is_running _ = false

abbrev is_closing : State → Bool
is_closing closing = true
is_closing _ = false

pub record GatewayConnection : Type 0 where
  pub conn_id : ℕ
  pub state : State
  pub read_buffer : AppendableBuffer

abbrev pub Outcome : Type 0
Outcome = Result (GatewayConnection × List Action)

unfoldable pub schedule_close : GatewayConnection → Outcome
schedule_close c = if is_closing c.state then ok (c, []) else (do
  check (is_handshake c.state || is_running c.state)
  ok (record c { state = closing }, close_handle ∷ []))

unfoldable pub handshake_sent : Bool → GatewayConnection → Outcome
handshake_sent status c = if status then ok (record c { state = running }, []) else schedule_close c

unfoldable pub data_sent : Bool → GatewayConnection → Outcome
data_sent status c = if status then ok (c, []) else schedule_close c

unfoldable pub close : GatewayConnection → Outcome
close c = do check (is_closing c.state); ok (record c { state = closed }, report_closed ∷ [])

module _ (layout : Layout) where
  unfoldable pub start : ℕ → GatewayConnection → Outcome
  start node_id c = do
    check (is_created c.state)
    ok (
      record c { state = handshake },
      write (layout.encode (new_engine_handshake_gateway_message node_id c.conn_id)) ∷ [],
    )

  unfoldable pub send_message : ℕ → GatewayConnection → GatewayMessage → List ℕ → Outcome
  send_message buffer_size c message payload =
      if is_running c.state
      then (do
        writes ← Frames.send_message layout buffer_size message payload
        ok (c, map write writes))
      else ok (c, [])

  module _ (malloc : ℕ → List ℕ) where
    unfoldable pub recv_data : Read → GatewayConnection → Outcome
    recv_data failed c = schedule_close c
    recv_data (got []) c = ok (c, [])
    recv_data (got (byte ∷ bytes)) c = do
      (packets, b) ←
          process_gateway_messages layout (append_data malloc c.read_buffer (byte ∷ bytes))
      ok (record c { read_buffer = b }, map deliver packets)
