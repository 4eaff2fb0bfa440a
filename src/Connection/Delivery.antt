-- ===== src/Connection/Delivery.antt =====
-- What the engine's end sends is what the gateway's end delivers, in order.
use nightcore.Prelude.Result.{Result, ok, ◌>>=◌, Returns, >>=-Returns}
use nightcore.Prelude.{
  ℕ, suc, ◌^◌, ◌≤◌, ◌<◌, ◌≡◌, refl, sym, ap, ap₂, ◌∙◌, subst, List, [], ◌∷◌, ◌++◌, map, true,
  length, length-append, append-nil, append_assoc, arith,
}
use nightcore.Utils.Buffer.{AppendableBuffer, IsValid, to_span, append_data}
use nightcore.Utils.Buffer.Contents.{append_data_lem, append_data-lt, length-to_span}
use nightcore.Utils.Framing.Stream.{concat, concat-append}
use nightcore.Connection.EngineConnection.{
  EngineConnection, Action, deliver, write, close_handle, report_closed, got, process, recv_data,
  recv_all,
}
use nightcore.Connection.Frames
use nightcore.Connection.Frames.{Layout, Packet, process_gateway_messages}
use nightcore.Connection.Frames.Receiving.{
  AllPackets, IsPacket, stream, frame, IsShort, Received, process_loop_lem,
}
use nightcore.Connection.Frames.Sending.{IsLayout, send_message_lem}
use nightcore.Connection.GatewayConnection.{GatewayConnection, is_running, send_message}

abbrev pub written : List Action → List (List ℕ)
written [] = []
written (write bytes ∷ actions) = bytes ∷ written actions
written (_ ∷ actions) = written actions

abbrev pub delivered : List Action → List Packet
delivered [] = []
delivered (deliver p ∷ actions) = p ∷ delivered actions
delivered (_ ∷ actions) = delivered actions

-- Each has at most 2^29 bytes.
abbrev pub AllBelow : List (List ℕ) → Type 0
AllBelow [] = Unit {0}
AllBelow (bytes ∷ more) = (length bytes ≤ 2 ^ 29) × AllBelow more

written-append : (xs ys : List Action) → written (xs ++ ys) ≡ written xs ++ written ys
written-append [] ys = refl
written-append (write w ∷ xs) ys = ap (λ t. w ∷ t) (written-append xs ys)
written-append (deliver p ∷ xs) ys = written-append xs ys
written-append (close_handle ∷ xs) ys = written-append xs ys
written-append (report_closed ∷ xs) ys = written-append xs ys

delivered-append : (xs ys : List Action) → delivered (xs ++ ys) ≡ delivered xs ++ delivered ys
delivered-append [] ys = refl
delivered-append (deliver p ∷ xs) ys = ap (λ t. p ∷ t) (delivered-append xs ys)
delivered-append (write w ∷ xs) ys = delivered-append xs ys
delivered-append (close_handle ∷ xs) ys = delivered-append xs ys
delivered-append (report_closed ∷ xs) ys = delivered-append xs ys

written-map : (writes : List (List ℕ)) → written (map write writes) ≡ writes
written-map [] = refl
written-map (w ∷ writes) = ap (λ t. w ∷ t) (written-map writes)

delivered-map : (packets : List Packet) → delivered (map deliver packets) ≡ packets
delivered-map [] = refl
delivered-map (p ∷ packets) = ap (λ t. p ∷ t) (delivered-map packets)

module _ (layout : Layout) where
  -- Packets that the engine sends one after the other.
  unfoldable pub send_all : ℕ → GatewayConnection → List Packet → Result (List Action)
  send_all buffer_size c [] = ok []
  send_all buffer_size c ((message, payload) ∷ packets) = do
    (c', actions) ← send_message layout buffer_size c message payload
    more ← send_all buffer_size c' packets
    ok (actions ++ more)

module _ (layout : Layout) (good : IsLayout layout) where
  send_one :
      (buffer_size : ℕ)
      → layout.header_size ≤ buffer_size
      → (c : GatewayConnection) → is_running c.state ≡ true
      → (p : Packet) → IsPacket p
      → Returns
          (send_message layout buffer_size c p.0 p.1)
          (λ r. (r.0 ≡ c) × (concat (written r.1) ≡ frame layout p))
  unfolding send_message
  send_one buffer_size room c running p (fits, sized, small) = rw running (
      >>=-Returns (Frames.send_message layout buffer_size p.0 p.1)
        (λ writes. ok (c, map write writes)) _
        (λ r. (r.0 ≡ c) × (concat (written r.1) ≡ frame layout p))
        (send_message_lem layout good buffer_size room p.0 p.1 sized small)
        λ writes w. (refl, ap concat (written-map writes) ∙ w.whole))

  IsShort-start : (n : ℕ) (packets : List Packet) → n ≡ 0 → IsShort layout n packets
  IsShort-start n [] e = tt
  IsShort-start n ((m, payload) ∷ packets) e =
      omega (arith, good.nonempty, good.sized m, length-append (layout.encode m) payload)

  -- What a running connection writes is the stream of the packets.
  pub send_all-Returns :
      (buffer_size : ℕ)
      → layout.header_size ≤ buffer_size
      → (c : GatewayConnection) → is_running c.state ≡ true
      → (packets : List Packet) → AllPackets packets
      → Returns
          (send_all layout buffer_size c packets)
          (λ actions. concat (written actions) ≡ stream layout packets)
  unfolding send_all
  send_all-Returns buffer_size room c running [] all = refl
  send_all-Returns buffer_size room c running ((m, payload) ∷ packets) (p, all) =
      >>=-Returns (send_message layout buffer_size c m payload) _ _
        (λ actions. concat (written actions) ≡ stream layout ((m, payload) ∷ packets))
        (send_one buffer_size room c running (m, payload) p)
        λ r (same, first).
          >>=-Returns (send_all layout buffer_size r.0 packets) (λ more. ok (r.1 ++ more)) _
            (λ actions. concat (written actions) ≡ stream layout ((m, payload) ∷ packets))
            (send_all-Returns buffer_size room r.0 (rw same running) packets all)
            λ more others.
              ap concat (written-append r.1 more)
              ∙ concat-append (written r.1) (written more)
              ∙ ap₂ ◌++◌ first others

  module _ (malloc : ℕ → List ℕ) (malloc_size : (n : ℕ) → length (malloc n) ≡ n) where
    process-Received :
        (c : EngineConnection) (q : List ℕ) (packets : List Packet)
        → IsValid c.read_buffer
        → to_span c.read_buffer ++ q ≡ stream layout packets
        → AllPackets packets
        → Returns
            (process malloc layout c)
            (λ r. Received layout c.read_buffer.buf_size q packets (delivered r.1, r.0.read_buffer))
    unfolding process process_gateway_messages
    process-Received c q packets v e all =
        >>=-Returns (process_gateway_messages layout c.read_buffer) _ _
          (λ r. Received layout c.read_buffer.buf_size q packets (delivered r.1, r.0.read_buffer))
          (process_loop_lem layout good (suc c.read_buffer.pos) c.read_buffer q packets
            (omega arith) v e all)
          λ r received.
            subst (λ ps. Received layout c.read_buffer.buf_size q packets (ps, r.1))
              (sym (delivered-map r.0)) received

    -- All the packets, and an empty buffer whose size is an `int`.
    abbrev AllDelivered : List Packet → EngineConnection × List Action → Type 0
    AllDelivered packets r =
        (delivered r.1 ≡ packets)
        × (to_span r.0.read_buffer ≡ [])
        × (r.0.read_buffer.buf_size < 2 ^ 31)

    -- The bytes of an incomplete first packet are few.
    short_start :
        (b : AppendableBuffer) (packets : List Packet) (q : List ℕ)
        → IsValid b
        → IsShort layout b.pos packets
        → AllBelow (map (frame layout) packets)
        → length (to_span b ++ q) ≡ length (stream layout packets)
        → b.pos ≤ 2 ^ 29
    short_start b [] q v short few e =
        omega (arith, length-to_span b v, e, length-append (to_span b) q)
    short_start b (p ∷ packets) q v short few e = omega (arith, short, few.0)

    AllBelow-rest :
        (ps rest : List Packet)
        → AllBelow (map (frame layout) (ps ++ rest))
        → AllBelow (map (frame layout) rest)
    AllBelow-rest [] rest few = few
    AllBelow-rest (p ∷ ps) rest few = AllBelow-rest ps rest few.1

    recv_all-AllDelivered :
        (reads : List (List ℕ)) (c : EngineConnection) (packets : List Packet)
        → IsValid c.read_buffer
        → to_span c.read_buffer ++ concat reads ≡ stream layout packets
        → AllPackets packets
        → IsShort layout c.read_buffer.pos packets
        → c.read_buffer.buf_size < 2 ^ 31
        → AllBelow reads
        → AllBelow (map (frame layout) packets)
        → Returns (recv_all malloc layout (map got reads) c) (AllDelivered packets)
    unfolding recv_all recv_data
    recv_all-AllDelivered [] c [] v e all short int below few = (refl, sym (append-nil _) ∙ e, int)
    recv_all-AllDelivered [] c (p ∷ packets) v e all short int below few = absurd (
        omega (
          arith,
          ap length e,
          length-append (to_span c.read_buffer) [],
          length-to_span c.read_buffer v,
          length-append (frame layout p) (stream layout packets),
          short,
        ))
    recv_all-AllDelivered ([] ∷ reads) c packets v e all short int below few =
        >>=-Returns (recv_all malloc layout (map got reads) c) _ (AllDelivered packets)
          (AllDelivered packets)
          (recv_all-AllDelivered reads c packets v e all short int below.1 few) λ r h. h
    recv_all-AllDelivered ((x ∷ xs) ∷ reads) c packets v e all short int below few =
        let b = append_data malloc c.read_buffer (x ∷ xs) in
        let appended = append_data_lem malloc malloc_size c.read_buffer (x ∷ xs) v in
        let whole : to_span b ++ concat reads ≡ stream layout packets =
          ap (λ l. l ++ concat reads) appended.0
          ∙ append_assoc (to_span c.read_buffer) (x ∷ xs) (concat reads)
          ∙ e in
        let started = short_start c.read_buffer packets _ v short few (ap length e) in
        let still_int =
          append_data-lt malloc malloc_size c.read_buffer (x ∷ xs) int
            (omega (arith, started, below.0)) in
        >>=-Returns (process malloc layout (record c { read_buffer = b })) _ _
          (AllDelivered packets)
          (process-Received (record c { read_buffer = b }) (concat reads) packets appended.1 whole
            all)
          λ r received.
            >>=-Returns (recv_all malloc layout (map got reads) r.0) (λ s. ok (s.0, r.1 ++ s.1))
              (AllDelivered received.rest) (AllDelivered packets)
              (recv_all-AllDelivered reads r.0 received.rest received.valid received.kept
                received.packed received.short (rw received.size_kept still_int) below.1
                (AllBelow-rest (delivered r.1) received.rest
                  (subst (λ ps. AllBelow (map (frame layout) ps)) received.split few)))
              λ s (others, empty, last_int). (
                delivered-append r.1 s.1 ∙ ap (λ t. delivered r.1 ++ t) others ∙ sym received.split,
                empty,
                last_int,
              )

    -- For a layout of the message header that keeps the fields, memory blocks of the size asked
    -- for, and room for a header in a write buffer: when a running GatewayConnection sends packets
    -- in range, of at most 2^29 bytes each with the header, and an EngineConnection with a valid
    -- and empty buffer, whose size is an `int`, gets the bytes that were written, cut in any way
    -- into reads of at most 2^29 bytes, then every read returns, the packets are delivered in
    -- order and complete, and the buffer is empty again, with a size that is an `int`.
    pub recv_all-send_all :
        (buffer_size : ℕ) (sender : GatewayConnection) (receiver : EngineConnection)
        (packets : List Packet) (actions : List Action) (reads : List (List ℕ))
        → layout.header_size ≤ buffer_size
        → is_running sender.state ≡ true
        → IsValid receiver.read_buffer
        → to_span receiver.read_buffer ≡ []
        → receiver.read_buffer.buf_size < 2 ^ 31
        → AllPackets packets
        → AllBelow (map (frame layout) packets)
        → AllBelow reads
        → send_all layout buffer_size sender packets ≡ ok actions
        → concat reads ≡ concat (written actions)
        → Returns (recv_all malloc layout (map got reads) receiver) (λ r.
          (delivered r.1 ≡ packets)
          × (to_span r.0.read_buffer ≡ [])
          × (r.0.read_buffer.buf_size < 2 ^ 31))
    recv_all-send_all buffer_size sender receiver packets actions reads room running v empty int all
          few below sent cut =
        let stream_sent : concat (written actions) ≡ stream layout packets =
          subst (λ m. Returns m (λ done. concat (written done) ≡ stream layout packets)) sent
            (send_all-Returns buffer_size room sender running packets all) in
        recv_all-AllDelivered reads receiver packets v
          (ap (λ l. l ++ concat reads) empty ∙ cut ∙ stream_sent) all
          (IsShort-start receiver.read_buffer.pos packets
            (sym (length-to_span receiver.read_buffer v) ∙ ap length empty))
          int below few
