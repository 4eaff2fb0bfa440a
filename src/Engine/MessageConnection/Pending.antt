-- ===== src/Engine/MessageConnection/Pending.antt =====
-- Messages that wait are written in order, none lost, once the connection runs.
use nightcore.Prelude.Result.{Result, ok, Returns, >>=-Returns, if-Returns}
use nightcore.Prelude.{
  ℕ, zero, suc, ◌≤◌, ◌<◌, ◌≡◌, ◌⊎◌, refl, sym, subst, ap, arith, append_assoc, append-nil, inl, inr,
  Bool, ltb, ◌&&◌, not, true, false, Bool-cases, some, List, [], ◌∷◌, ◌++◌, map, ltb, length, take,
  drop, length-take, length-drop, take-append-drop,
}
use nightcore.Protocol.Message.{
  Message, is_launcher_handshake_message, is_func_worker_handshake_message,
}
use nightcore.Utils.Buffer.{to_span}
use nightcore.Connection.Frames.{smaller}
use nightcore.Connection.Frames.Sending.{Writes, write_first}
use nightcore.Engine.MessageConnection.{
  MessageConnection, Action, Outcome, after, write_message, write_messages, schedule_send, running,
  write_response, finish_handshake, recv_handshake_message, open_fifos, write_chunk, is_handshake,
  is_running, chunks, bytes_of, send_pending_messages,
}

-- The chunks among what a callback asks for.
abbrev pub chunks_in : List Action → List (List ℕ)
chunks_in [] = []
chunks_in (write_chunk bytes ∷ actions) = bytes ∷ chunks_in actions
chunks_in (_ ∷ actions) = chunks_in actions

chunks_in-map : (writes : List (List ℕ)) → chunks_in (map write_chunk writes) ≡ writes
chunks_in-map [] = refl
chunks_in-map (x ∷ writes) = ap (λ t. x ∷ t) (chunks_in-map writes)

module _ (buffer_size : ℕ) (encode : Message → List ℕ) where
  -- What a running connection does with the messages that wait.
  pub record Sent (c : MessageConnection) (r : MessageConnection × List Action) : Type 0 where
    pub emptied : r.0 ≡ record c { pending_messages = [] }
    pub only_chunks : r.1 ≡ map write_chunk (chunks_in r.1)
    pub writes : Writes buffer_size (bytes_of encode c.pending_messages) (chunks_in r.1)

  -- The handshake of a launcher or a worker that the engine accepts, after it has asked for `before`.
  pub record Greeted (before : List Action) (pending : List Message) (response : Message)
      (payload : List ℕ) (r : MessageConnection × List Action) : Type 0 where
    pub actions : List Action
    pub first : r.1 ≡ before ++ write_response (encode response ++ payload) ∷ actions
    pub only_chunks : actions ≡ map write_chunk (chunks_in actions)
    pub writes : Writes buffer_size (bytes_of encode pending) (chunks_in actions)
    pub runs : is_running r.0.state ≡ true
    pub greeted : r.0.handshake_done ≡ true
    pub emptied : r.0.pending_messages ≡ []

module _ (buffer_size : ℕ) (positive : 0 < buffer_size) where
  chunks_lem :
      (fuel : ℕ) (bytes : List ℕ)
      → length bytes < fuel
      → Returns (chunks buffer_size fuel bytes) (Writes buffer_size bytes)
  unfolding chunks
  chunks_lem zero bytes enough = absurd (omega arith)
  chunks_lem (suc fuel) bytes enough = elim (Bool-cases (ltb 0 (length bytes))) [
    | inl more ↦
        let k = smaller buffer_size (length bytes) in
        let low : 0 < k = ground arith in
        let fits : k ≤ buffer_size = ground arith in
        let inside : k ≤ length bytes = ground arith in
        let count : length (take k bytes) ≡ k = ground (arith, length-take k bytes) in
        let left = length-drop k bytes in
        rw more (
          >>=-Returns (chunks buffer_size fuel (drop k bytes)) (λ rest. ok (take k bytes ∷ rest)) _
            (Writes buffer_size bytes) (chunks_lem fuel (drop k bytes) (omega arith))
            λ rest w.
              write_first buffer_size rest (omega arith) (omega arith) (take-append-drop k bytes) w)
    | inr done ↦ rw done (record { whole = sym (empty bytes done); within = tt })
  ]
    where
      empty : (xs : List ℕ) → ltb 0 (length xs) ≡ false → xs ≡ []
      empty [] h = refl
      empty (x ∷ xs) h = absurd (ground (arith, h))

  module _ (use_engine_socket direct_write : Bool) (encode : Message → List ℕ)
      (decode : List ℕ → Message) where
    send_pending_messages-Sent :
        (c : MessageConnection)
        → is_handshake c.state ≡ false
        → is_running c.state ≡ true
        → Returns
            (send_pending_messages use_engine_socket direct_write encode decode buffer_size c)
            (Sent buffer_size encode c)
    unfolding send_pending_messages
    send_pending_messages-Sent c past runs =
        let bytes = bytes_of encode c.pending_messages in
        rw (past, runs)
          (>>=-Returns (chunks buffer_size (suc (length bytes)) bytes) _ _
            (Sent buffer_size encode c) (chunks_lem (suc (length bytes)) bytes (omega arith))
            λ writes w. record {
              emptied = refl;
              only_chunks = sym (ap (map write_chunk) (chunks_in-map writes));
              writes = subst (Writes buffer_size bytes) (sym (chunks_in-map writes)) w;
            })

    finish_handshake-Greeted :
        (c : MessageConnection) (response : Message) (payload : List ℕ)
        → Returns
            (finish_handshake use_engine_socket direct_write encode decode buffer_size c response
              payload)
            (Greeted buffer_size encode [] c.pending_messages response payload)
    unfolding finish_handshake
    finish_handshake-Greeted c response payload =
        let begun = record c { handshake_done = true; state = running } in
        >>=-Returns
          (send_pending_messages use_engine_socket direct_write encode decode buffer_size begun) _
          (Sent buffer_size encode begun)
          (Greeted buffer_size encode [] c.pending_messages response payload)
          (send_pending_messages-Sent begun refl refl)
          λ r sent. record {
            actions = r.1;
            first = refl;
            only_chunks = sent.only_chunks;
            writes = sent.writes;
            runs = rw sent.emptied refl;
            greeted = rw sent.emptied refl;
            emptied = rw sent.emptied refl;
          }

    -- What the engine asks for, before what follows.
    after-Greeted :
        (asked : List Action) (m : Outcome) (pending : List Message) (response : Message)
        (payload : List ℕ)
        → Returns m (Greeted buffer_size encode [] pending response payload)
        → Returns
            (after use_engine_socket direct_write encode decode buffer_size asked m)
            (Greeted buffer_size encode asked pending response payload)
    after-Greeted asked (ok r) pending response payload g = record {
      actions = g.actions;
      first = rw g.first refl;
      only_chunks = g.only_chunks;
      writes = g.writes;
      runs = g.runs;
      greeted = g.greeted;
      emptied = g.emptied;
    }
    after-Greeted asked (Result.err e) pending response payload g = absurd g

    write_message_closed :
        (c : MessageConnection) (message : Message)
        → c.pipe_for_write ≡ false
        → write_message use_engine_socket direct_write encode decode buffer_size true c message ≡ (
          record c { pending_messages = c.pending_messages ++ (message ∷ []) },
          schedule_send ∷ [],
        )
    unfolding write_message
    write_message_closed c message closed =
        let off : (ltb 0 c.client_id
              && direct_write
              && not use_engine_socket
              && c.pipe_for_write
              && true)
            ≡ false =
          ground (arith, closed) in
        rw off refl

    -- The messages wait, as the pipe is not open.
    write_messages_lem :
        (messages : List Message) (c : MessageConnection)
        → c.pipe_for_write ≡ false
        → write_messages use_engine_socket direct_write encode decode buffer_size messages c ≡ (
          record c { pending_messages = c.pending_messages ++ messages },
          map (λ _. schedule_send) messages,
        )
    unfolding write_messages
    write_messages_lem [] c closed = rw (append-nil c.pending_messages) refl
    write_messages_lem (message ∷ messages) c closed =
        let waits : MessageConnection = record c {
          pending_messages = c.pending_messages ++ (message ∷ []);
        } in
        rw
          (
            write_message_closed c message closed,
            write_messages_lem messages waits closed,
            append_assoc c.pending_messages (message ∷ []) messages,
          )
          refl

    -- With write buffers that are not empty, on a connection whose pipe is not open, when the
    -- first message is the handshake of a launcher or a worker, the engine accepts it and the
    -- pipes can be opened: RecvHandshakeMessage returns with the connection running and the
    -- handshake done. For each message that the engine writes meanwhile, sending is scheduled;
    -- then come the response with its payload and, in chunks that fit a write buffer, all the
    -- messages that were waiting and those, in order, and nothing else; and none waits any more.
    pub recv_handshake_message-Greeted :
        (c : MessageConnection) (response : Message) (payload : List ℕ) (messages : List Message)
        → c.pipe_for_write ≡ false
        → (is_launcher_handshake_message (decode (to_span c.message_buffer)) ≡ true)
          ⊎ (is_func_worker_handshake_message (decode (to_span c.message_buffer)) ≡ true)
        → Returns
            (recv_handshake_message use_engine_socket direct_write encode decode buffer_size
              (some (response, payload, messages))
              true
              true
              c)
            (Greeted buffer_size encode
              (map (λ _. schedule_send) messages)
              (c.pending_messages ++ messages)
              response
              payload)
    unfolding recv_handshake_message open_fifos
    recv_handshake_message-Greeted c response payload messages closed (inl launcher) =
        let known : MessageConnection = record c {
          func_id = (decode (to_span c.message_buffer)).func_id;
          client_id = 0;
        } in
        rw (launcher, write_messages_lem messages known closed)
          (after-Greeted (map (λ _. schedule_send) messages) _ (c.pending_messages ++ messages)
            response payload (finish_handshake-Greeted _ response payload))
    recv_handshake_message-Greeted c response payload messages closed (inr worker) =
        let other : is_launcher_handshake_message (decode (to_span c.message_buffer)) ≡ false =
          ground (arith, worker) in
        let known : MessageConnection = record c {
          func_id = (decode (to_span c.message_buffer)).func_id;
          client_id = (decode (to_span c.message_buffer)).client_id;
        } in
        let told : MessageConnection = record known {
          pending_messages = c.pending_messages ++ messages;
        } in
        rw (other, worker, write_messages_lem messages known closed)
          (after-Greeted (map (λ _. schedule_send) messages) _ (c.pending_messages ++ messages)
            response payload
            (if-Returns use_engine_socket _ _
              (Greeted buffer_size encode [] (c.pending_messages ++ messages) response payload)
              (finish_handshake-Greeted told response payload)
              (finish_handshake-Greeted
                (record told { in_fifo = true; out_fifo = true; pipe_for_write = true }) response
                payload)))
