-- ===== src/Connection/Frames.antt =====
-- src/gateway/engine_connection.cpp and src/engine/gateway_connection.cpp have the same two loops:
-- `SendMessage` cuts a message with its payload into writes, `ProcessGatewayMessages` takes whole
-- messages from the front of the read buffer.
pub mod Sending
pub mod Receiving
use nightcore.Prelude.Int.{ℤ, pos, negsuc, narrow32, eq_ℤ}
use nightcore.Prelude.Result.{Result, ok, err, ◌>>=◌, ◌>>◌, check, check_failed, out_of_bounds}
use nightcore.Prelude.{
  ℕ, zero, suc, ◌+◌, ◌-◌, ◌^◌, ◌%◌, List, [], ◌∷◌, ◌++◌, Bool, ltb, leb, ◌==◌, if◌then◌else◌,
  length, take, drop,
}
use nightcore.Protocol.Gateway.{GatewayMessage}
use nightcore.Utils.Buffer.{AppendableBuffer, to_span, consume_front}

-- How the compiler lays a `GatewayMessage` out: `sizeof`, the bytes of a message, the message that
-- some bytes are.
pub record Layout : Type 0 where
  pub header_size : ℕ
  pub encode : GatewayMessage → List ℕ
  pub decode : List ℕ → GatewayMessage

-- A message with its payload.
abbrev pub Packet : Type 0
Packet = GatewayMessage × List ℕ

abbrev pub smaller : ℕ → ℕ → ℕ
smaller a b = if leb a b then a else b

-- `std::max<size_t>(0, payload_size)`: the conversion comes before the comparison, so a negative
-- size wraps.
abbrev pub payload_bytes : ℤ → ℕ
payload_bytes (pos n) = n
payload_bytes (negsuc n) = 2 ^ 64 - 1 - n

module _ (layout : Layout) where
  open layout use {header_size, encode, decode}

  -- What one round of the loop of `SendMessage` writes, from `sent` bytes on.
  unfoldable pub next_write : ℕ → GatewayMessage → List ℕ → ℕ → Result (List ℕ)
  next_write buffer_size message payload sent =
      if sent == 0
      then (do
        check (leb header_size buffer_size)
        ok (encode message ++ take (smaller (buffer_size - header_size) (length payload)) payload))
      else ok (
          take (smaller buffer_size (length payload + header_size - sent))
            (drop (sent - header_size) payload))

  -- The loop, on fuel: what is written, in order. Running out of fuel is a failed check.
  unfoldable pub send_loop : ℕ → ℕ → GatewayMessage → List ℕ → ℕ → Result (List (List ℕ))
  send_loop zero buffer_size message payload sent = err check_failed
  send_loop (suc fuel) buffer_size message payload sent =
      let round = (do
        written ← next_write buffer_size message payload sent
        check (leb (length written) buffer_size)
        writes ← send_loop fuel buffer_size message payload (sent + length written)
        ok (written ∷ writes)) in
      if ltb sent (header_size + length payload) then round else ok []

  -- `SendMessage` of a running connection. Each round writes at least one byte, so there are at most
  -- as many rounds as bytes, and the test that ends the loop.
  unfoldable pub send_message : ℕ → GatewayMessage → List ℕ → Result (List (List ℕ))
  send_message buffer_size message payload = do
    check (eq_ℤ message.payload_size (narrow32 (pos (length payload))))
    send_loop (suc (header_size + length payload)) buffer_size message payload 0

  -- `full_size`, of type `size_t`.
  abbrev pub full_size_of : GatewayMessage → ℕ
  full_size_of message = (header_size + payload_bytes message.payload_size) % 2 ^ 64

  -- The loop of `ProcessGatewayMessages`, on fuel: the packets delivered, and the buffer. A payload
  -- whose size has wrapped would reach beyond the buffer.
  unfoldable pub process_loop : ℕ → AppendableBuffer → Result (List Packet × AppendableBuffer)
  process_loop zero b = err check_failed
  process_loop (suc fuel) b =
      let message = decode (take header_size (to_span b)) in
      let full_size = full_size_of message in
      let round = (do
        check (leb header_size full_size)
        b' ← consume_front b full_size
        (packets, last) ← process_loop fuel b'
        ok (
          (message, take (full_size - header_size) (drop header_size (to_span b))) ∷ packets,
          last,
        )) in
      if leb header_size b.pos
      then (if leb full_size b.pos then round else ok ([], b))
      else ok ([], b)

  unfoldable pub process_gateway_messages :
      AppendableBuffer → Result (List Packet × AppendableBuffer)
  process_gateway_messages b = process_loop (suc b.pos) b
