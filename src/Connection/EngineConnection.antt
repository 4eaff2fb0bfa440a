-- ===== src/Connection/EngineConnection.antt =====
-- src/gateway/engine_connection.cpp: the gateway's end of a connection. A callback is a function from
-- the connection to its next value and what it asks of others, in order.
use nightcore.Prelude.Result.{Result, ok, ◌>>=◌, ◌>>◌, check}
use nightcore.Prelude.{ℕ, Bool, true, false, List, [], ◌∷◌, ◌++◌, map, if◌then◌else◌}
use nightcore.Protocol.Gateway.{GatewayMessage}
use nightcore.Utils.Buffer.{AppendableBuffer, create, append_data}
use nightcore.Connection.Frames.{Layout, Packet, process_gateway_messages}
use nightcore.Connection.Frames

pub data State : Type 0 where
  created running closing closed : State

abbrev pub is_created : State → Bool
is_created created = true
is_created _ = false

abbrev pub is_running : State → Bool
is_running running = true
is_running _ = false

abbrev pub is_closing : State → Bool
is_closing closing = true
is_closing _ = false

pub record EngineConnection : Type 0 where
  pub state : State
  pub read_buffer : AppendableBuffer

-- What a callback asks for: the server's handler of a packet, a write, `uv_close`, and the IO
-- worker's `OnConnectionClose`.
pub data Action : Type 0 where
  deliver : Packet → Action
  write : List ℕ → Action
  close_handle : Action
  report_closed : Action

abbrev pub Outcome : Type 0
Outcome = Result (EngineConnection × List Action)

-- What libuv reports of a read: an error or the end, or some bytes, `nread` of them.
pub data Read : Type 0 where
  failed : Read
  got : List ℕ → Read

unfoldable pub schedule_close : EngineConnection → Outcome
schedule_close c =
    if is_closing c.state
    then ok (c, [])
    else (do check (is_running c.state); ok (record c { state = closing }, close_handle ∷ []))

-- `status` is whether the write succeeded.
unfoldable pub data_sent : Bool → EngineConnection → Outcome
data_sent status c = if status then ok (c, []) else schedule_close c

unfoldable pub close : EngineConnection → Outcome
close c = do check (is_closing c.state); ok (record c { state = closed }, report_closed ∷ [])

module _ (malloc : ℕ → List ℕ) (layout : Layout) where
  unfoldable pub new_engine_connection : List ℕ → EngineConnection
  new_engine_connection initial_data = record {
    state = created;
    read_buffer = append_data malloc (create malloc 48) initial_data;
  }

  unfoldable pub process : EngineConnection → Outcome
  process c = do
    (packets, b) ← process_gateway_messages layout c.read_buffer
    ok (record c { read_buffer = b }, map deliver packets)

  unfoldable pub start : EngineConnection → Outcome
  start c = do check (is_created c.state); process (record c { state = running })

  unfoldable pub recv_data : Read → EngineConnection → Outcome
  recv_data failed c = schedule_close c
  recv_data (got []) c = ok (c, [])
  recv_data (got (byte ∷ bytes)) c =
      process (record c { read_buffer = append_data malloc c.read_buffer (byte ∷ bytes) })

  -- Reads that come one after the other.
  unfoldable pub recv_all : List Read → EngineConnection → Outcome
  recv_all [] c = ok (c, [])
  recv_all (read ∷ reads) c = do
    (c', actions) ← recv_data read c
    (last, more) ← recv_all reads c'
    ok (last, actions ++ more)

-- The size of the write buffers is the IO worker's.
unfoldable pub send_message : Layout → ℕ → EngineConnection → GatewayMessage → List ℕ → Outcome
send_message layout buffer_size c message payload =
    if is_running c.state
    then (do
      writes ← Frames.send_message layout buffer_size message payload
      ok (c, map write writes))
    else ok (c, [])
