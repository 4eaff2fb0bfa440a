-- ===== src/Engine/MessageConnection.antt =====
-- src/engine/message_connection.cpp: the engine's end of a connection to a launcher or a worker.
-- The messages of a worker go through two pipes, or the socket if the engine is told so.
mod Pending
mod Handshake
mod Tests
use nightcore.Prelude.{
  ℕ, zero, suc, ◌+◌, ◌-◌, Bool, true, false, not, ◌&&◌, ◌||◌, Option, none, some, List, [], ◌∷◌,
  ◌++◌, map, ltb, ◌==◌, if◌then◌else◌, length, take, drop,
}
use nightcore.Prelude.Result.{Result, ok, err, ◌>>=◌, ◌>>◌, check, check_failed}
use nightcore.Protocol.Message.{
  Message, is_launcher_handshake_message, is_func_worker_handshake_message,
}
use nightcore.Utils.Buffer.{AppendableBuffer, append_data, reset, to_span}
use nightcore.Utils.Framing.{read_messages}
use nightcore.Utils.Framing.Stream.{concat}
use nightcore.Connection.EngineConnection.{Read, failed, got}
use nightcore.Connection.Frames.{smaller}

pub data State : Type 0 where
  created handshake running closing closed : State

abbrev pub is_created : State → Bool
is_created created = true
is_created _ = false

abbrev pub is_handshake : State → Bool
is_handshake handshake = true
is_handshake _ = false

abbrev pub is_running : State → Bool
is_running running = true
is_running _ = false

abbrev pub is_closing : State → Bool
is_closing closing = true
is_closing _ = false

-- The handles that are in the scope: the socket is, from `InitUVHandle` on, and the pipes once they
-- are open. `pipe_for_write` says whether the descriptor for direct writes is set.
pub record MessageConnection : Type 0 where
  pub state : State
  pub func_id : ℕ
  pub client_id : ℕ
  pub handshake_done : Bool
  pub in_fifo : Bool
  pub out_fifo : Bool
  pub pipe_for_write : Bool
  pub message_buffer : AppendableBuffer
  pub pending_messages : List Message

-- What a callback asks for: writes to the socket or to where messages go, `uv_close` of all handles,
-- the engine's handler of a message, and the IO worker's `OnConnectionClose`.
pub data Action : Type 0 where
  write_response : List ℕ → Action
  write_chunk : List ℕ → Action
  write_direct : Message → Action
  schedule_send : Action
  close_handles : Action
  deliver : List ℕ → Action
  report_closed : Action

abbrev pub Outcome : Type 0
Outcome = Result (MessageConnection × List Action)

-- The loop over the bytes to write, in buffers of one size, on fuel.
unfoldable pub chunks : ℕ → ℕ → List ℕ → Result (List (List ℕ))
chunks buffer_size zero bytes = err check_failed
chunks buffer_size (suc fuel) bytes =
    let copy_size = smaller buffer_size (length bytes) in
    let round = (do
      rest ← chunks buffer_size fuel (drop copy_size bytes)
      ok (take copy_size bytes ∷ rest)) in
    if ltb 0 (length bytes) then round else ok []

abbrev pub bytes_of : (Message → List ℕ) → List Message → List ℕ
bytes_of encode messages = concat (map encode messages)

-- The flags that matter here: messages go through the socket, and writes to pipes skip the loop.
module _ (use_engine_socket direct_write : Bool) where
  unfoldable pub start : MessageConnection → Outcome
  start c = do check (is_created c.state); ok (record c { state = handshake }, [])

  -- `CloseHandle` checks that the handle is in the scope.
  unfoldable pub schedule_close : MessageConnection → Outcome
  schedule_close c = if is_closing c.state then ok (c, []) else (do
    check (is_handshake c.state || is_running c.state)
    check (not (ltb 0 c.client_id && not use_engine_socket) || (c.in_fifo && c.out_fifo))
    ok (record c { state = closing }, close_handles ∷ []))

  unfoldable pub on_all_handles_closed : MessageConnection → Outcome
  on_all_handles_closed c = do
    check (is_closing c.state)
    ok (record c { state = closed }, report_closed ∷ [])

  -- How messages are laid out in memory, and the size of the IO worker's write buffers.
  module _ (encode : Message → List ℕ) (decode : List ℕ → Message) (buffer_size : ℕ) where
    -- Each round writes a byte at least.
    unfoldable pub send_pending_messages : MessageConnection → Outcome
    send_pending_messages c =
        if is_handshake c.state
        then ok (c, [])
        else if not (is_running c.state)
        then ok (c, [])
        else (do
          let bytes = bytes_of encode c.pending_messages
          writes ← chunks buffer_size (suc (length bytes)) bytes
          ok (record c { pending_messages = [] }, map write_chunk writes))

    -- `pipe_write` is whether a direct write to the pipe takes the whole message.
    unfoldable pub write_message :
        Bool → MessageConnection → Message → MessageConnection × List Action
    write_message pipe_write c message =
        if ltb 0 c.client_id
          && direct_write
          && not use_engine_socket
          && c.pipe_for_write
          && pipe_write
        then (c, write_direct message ∷ [])
        else (
          record c { pending_messages = c.pending_messages ++ (message ∷ []) },
          schedule_send ∷ [],
        )

    -- The two pipes of a worker, opened one after the other.
    unfoldable pub open_fifos : Bool → Bool → MessageConnection → Bool × MessageConnection
    open_fifos in_opens out_opens c =
        if not in_opens
        then (false, c)
        else if not out_opens
        then (false, record c { in_fifo = true })
        else (true, record c { in_fifo = true; out_fifo = true; pipe_for_write = true })

    unfoldable pub finish_handshake : MessageConnection → Message → List ℕ → Outcome
    finish_handshake c response payload = do
      (c', actions) ← send_pending_messages (record c { handshake_done = true; state = running })
      ok (c', write_response (encode response ++ payload) ∷ actions)

    -- The messages that the engine writes to this connection from within its handler of the
    -- handshake. The pipe is not open then, so whether a write to it works is not asked; and the
    -- function that is scheduled to send them runs at once, when it does nothing yet.
    unfoldable pub write_messages :
        List Message → MessageConnection → MessageConnection × List Action
    unfolding write_message
    write_messages [] c = (c, [])
    write_messages (message ∷ messages) c =
        let (c', actions) = write_message true c message in
        let (c'', more) = write_messages messages c' in (c'', actions ++ more)

    abbrev pub after : List Action → Outcome → Outcome
    after actions m = m >>= λ r. ok (r.0, actions ++ r.1)

    -- `accepted` is what `Engine::OnNewHandshake` does: none if it answers false, or else the
    -- response, its payload, and the messages that it writes to this connection.
    unfoldable pub recv_handshake_message :
        Option (Message × List ℕ × List Message) → Bool → Bool → MessageConnection → Outcome
    recv_handshake_message accepted in_opens out_opens c = do
      let message = decode (to_span c.message_buffer)
      let launcher = is_launcher_handshake_message message
      check (launcher || is_func_worker_handshake_message message)
      let known = record c {
        func_id = message.func_id;
        client_id = (if launcher then 0 else message.client_id);
      }
      elim accepted [
        | none ↦ schedule_close known
        | some (response, payload, messages) ↦
            let (told, asked) = write_messages messages known in
            after asked (
              if launcher || use_engine_socket
              then finish_handshake told response payload
              else (let (opened, c') = open_fifos in_opens out_opens told in
                  if opened then finish_handshake c' response payload else schedule_close c'))
      ]

    module _ (malloc : ℕ → List ℕ) (message_size : ℕ) where
      unfoldable pub read_handshake :
          Option (Message × List ℕ × List Message)
          → Bool
          → Bool
          → Read
          → MessageConnection
          → Outcome
      read_handshake accepted in_opens out_opens failed c = schedule_close c
      read_handshake accepted in_opens out_opens (got []) c = ok (c, [])
      read_handshake accepted in_opens out_opens (got (byte ∷ bytes)) c =
          let b = append_data malloc c.message_buffer (byte ∷ bytes) in
          let c' = record c { message_buffer = b } in
          if ltb message_size b.pos
          then schedule_close c'
          else if b.pos == message_size
          then recv_handshake_message accepted in_opens out_opens c'
          else ok (c', [])

      unfoldable pub read_message : Read → MessageConnection → Outcome
      read_message failed c = schedule_close c
      read_message (got []) c = ok (c, [])
      read_message (got (byte ∷ bytes)) c = do
        (messages, b) ← read_messages malloc message_size c.message_buffer (byte ∷ bytes)
        ok (record c { message_buffer = b }, map deliver messages)

  unfoldable pub write_handshake_response : Bool → MessageConnection → Outcome
  write_handshake_response status c =
      if status
      then ok (record c { message_buffer = reset c.message_buffer }, [])
      else schedule_close c

  unfoldable pub message_written : Bool → MessageConnection → Outcome
  message_written status c = if status then ok (c, []) else schedule_close c
