-- ===== src/Engine/MessageConnection/Handshake.antt =====
-- A worker that uses pipes is refused: the connection closes pipes that it never opened.
use nightcore.Prelude.Result.{err, check_failed}
use nightcore.Prelude.{ℕ, ◌≡◌, refl, arith, Bool, true, false, none, List, ltb}
use nightcore.Protocol.Message.{
  Message, is_launcher_handshake_message, is_func_worker_handshake_message,
}
use nightcore.Utils.Buffer.{to_span}
use nightcore.Engine.MessageConnection.{
  MessageConnection, handshake, schedule_close, recv_handshake_message,
}

module _ (direct_write : Bool) (encode : Message → List ℕ) (decode : List ℕ → Message)
    (buffer_size : ℕ) where
  -- When the engine refuses the handshake of a worker with a client id that is not 0, on a
  -- connection in its handshake whose pipes are not open, and workers use pipes:
  -- RecvHandshakeMessage ends in a failed check, since ScheduleClose closes pipes that were never
  -- opened.
  pub recv_handshake_message_refused :
      (c : MessageConnection) (in_opens out_opens : Bool)
      → c.state ≡ handshake
      → c.in_fifo ≡ false
      → is_func_worker_handshake_message (decode (to_span c.message_buffer)) ≡ true
      → ltb 0 (decode (to_span c.message_buffer)).client_id ≡ true
      → recv_handshake_message false direct_write encode decode buffer_size none in_opens out_opens
          c
        ≡ err check_failed
  unfolding recv_handshake_message schedule_close
  recv_handshake_message_refused c in_opens out_opens state closed worker client =
      let other : is_launcher_handshake_message (decode (to_span c.message_buffer)) ≡ false =
        ground (arith, worker) in
      rw (other, worker, state, client, closed) refl
