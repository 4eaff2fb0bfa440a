-- ===== src/Connection/Frames/Sending.antt =====
-- The writes of `SendMessage` are the message and its payload, in order.
use nightcore.Prelude.Int.{pos, narrow32, eq_ℤ}
use nightcore.Prelude.Result.{ok, Returns, >>=-Returns}
use nightcore.Prelude.{
  ℕ, zero, suc, ◌+◌, ◌-◌, ◌^◌, ◌≤◌, ◌<◌, ◌≡◌, refl, sym, ap, ◌∙◌, List, [], ◌∷◌, ◌++◌, true, ltb,
  leb, length, take, drop, length-append, length-take, length-drop, take-append-drop, drop_all,
  append_assoc, arith, inl, inr, Bool-cases, le→leb, lt→ltb,
}
use nightcore.Protocol.Gateway.{GatewayMessage}
use nightcore.Utils.Framing.Stream.{concat}
use nightcore.Connection.Frames.{Layout, next_write, send_loop, send_message, smaller}

-- The field ranges of a message.
pub record IsMessage (m : GatewayMessage) : Type 0 where
  pub message_type : m.message_type < 2 ^ 4
  pub func_id : m.func_id < 2 ^ 8
  pub method_id : m.method_id < 2 ^ 6
  pub client_id : m.client_id < 2 ^ 14
  pub call_id : m.call_id < 2 ^ 32
  pub word : m.word < 2 ^ 32

-- A layout keeps the fields that are in range, in `sizeof` bytes.
pub record IsLayout (layout : Layout) : Type 0 where
  pub nonempty : 0 < layout.header_size
  pub small : layout.header_size < 2 ^ 16
  pub sized : (m : GatewayMessage) → length (layout.encode m) ≡ layout.header_size
  pub faithful :
      (m : GatewayMessage) (n : ℕ)
      → IsMessage m
      → n < 2 ^ 31
      → m.payload_size ≡ pos n
      → layout.decode (layout.encode m) ≡ m

abbrev pub AllWithin : ℕ → List (List ℕ) → Type 0
AllWithin n [] = Unit {0}
AllWithin n (w ∷ ws) = (0 < length w) × (length w ≤ n) × AllWithin n ws

-- The writes are full or shorter buffers, never empty, and make up `bytes`.
pub record Writes (buffer_size : ℕ) (bytes : List ℕ) (writes : List (List ℕ)) : Type 0 where
  pub whole : concat writes ≡ bytes
  pub within : AllWithin buffer_size writes

drop-nil : (n : ℕ) → drop {A = ℕ} n [] ≡ []
drop-nil zero = refl
drop-nil (suc n) = refl

pub drop-drop : (m n : ℕ) (xs : List ℕ) → drop n (drop m xs) ≡ drop (m + n) xs
drop-drop zero n xs = ap (λ k. drop k xs) (omega arith)
drop-drop (suc m) n [] = drop-nil n ∙ sym (drop-nil (suc m + n))
drop-drop (suc m) n (x ∷ xs) = drop-drop m n xs ∙ ap (λ k. drop k (x ∷ xs)) suc_first
  where
    suc_first : suc (m + n) ≡ suc m + n
    suc_first = omega arith

module _ (buffer_size : ℕ) {bytes written left : List ℕ} where
  -- One write in front of the others.
  pub write_first :
      (writes : List (List ℕ))
      → 0 < length written
      → length written ≤ buffer_size
      → written ++ left ≡ bytes
      → Writes buffer_size left writes
      → Writes buffer_size bytes (written ∷ writes)
  write_first writes some_bytes fits split rest = record {
    whole = ap (λ t. written ++ t) rest.whole ∙ split;
    within = (some_bytes, fits, rest.within);
  }

module _ (layout : Layout) (good : IsLayout layout) (buffer_size : ℕ)
    (room : layout.header_size ≤ buffer_size) (message : GatewayMessage) (payload : List ℕ) where
  abbrev size : ℕ
  size = layout.header_size

  abbrev rest_from : ℕ → List ℕ
  rest_from sent = drop (sent - size) payload

  -- Behind the header, the writes are what is left of the payload.
  send_rest :
      (fuel sent : ℕ)
      → size ≤ sent
      → sent ≤ size + length payload
      → size + length payload < sent + fuel
      → Returns
          (send_loop layout fuel buffer_size message payload sent)
          (Writes buffer_size (rest_from sent))
  unfolding send_loop next_write
  send_rest zero sent low high enough = absurd (omega arith)
  send_rest (suc fuel) sent low high enough = elim (Bool-cases (ltb sent (size + length payload))) [
    | inl more ↦
        let left = drop (sent - size) payload in
        let k = smaller buffer_size (length payload + size - sent) in
        let written = take k left in
        let positive = good.nonempty in
        let size_of_rest = length-drop (sent - size) payload in
        let lower : 0 < k = ground arith in
        let upper : k ≤ buffer_size = ground arith in
        let inside : k ≤ length payload + size - sent = ground arith in
        let count : length written ≡ k = ground (arith, length-take k left) in
        let next =
          send_rest fuel (sent + length written) (omega arith) (omega arith) (omega arith) in
        let step : next_write layout buffer_size message payload sent ≡ ok written = ground arith in
        let fits : leb (length written) buffer_size ≡ true =
          le→leb (length written) buffer_size (omega arith) in
        let follows : rest_from (sent + length written) ≡ drop k left =
          ap (λ n. drop n payload) (omega arith) ∙ sym (drop-drop (sent - size) k payload) in
        rw more (
          rw step (
            rw fits (
              >>=-Returns
                (send_loop layout fuel buffer_size message payload (sent + length written))
                (λ writes. ok (written ∷ writes)) _ (Writes buffer_size left) next
                λ writes w.
                  write_first buffer_size writes (omega arith) (omega arith)
                    (ap (λ t. written ++ t) follows ∙ take-append-drop k left) w)))
    | inr done ↦
        rw done
          (record { whole = sym (drop_all (sent - size) payload (ground arith)); within = tt })
  ]

  -- For a layout that keeps the fields, room for a header in a write buffer, and a message that
  -- states the size of its payload, below 2^31: the loop of SendMessage ends, with no check
  -- failing, each write is not empty and fits the buffer, and together they are the header and the
  -- payload.
  pub send_message_lem :
      message.payload_size ≡ pos (length payload)
      → length payload < 2 ^ 31
      → Returns
          (send_message layout buffer_size message payload)
          (Writes buffer_size (layout.encode message ++ payload))
  unfolding send_message send_loop
  send_message_lem sized small =
      let positive = good.nonempty in
      let k = smaller (buffer_size - size) (length payload) in
      let header = layout.encode message in
      let written = header ++ take k payload in
      let header_sized = good.sized message in
      let inside : k ≤ length payload = ground arith in
      let upper : k ≤ buffer_size - size = ground arith in
      let count : length written ≡ size + k =
        ground (arith, length-append header (take k payload), length-take k payload) in
      let step : next_write layout buffer_size message payload 0 ≡ ok written =
        unfold next_write in ground arith in
      let test : eq_ℤ message.payload_size (narrow32 (pos (length payload))) ≡ true =
        ground arith in
      let fits : leb (length written) buffer_size ≡ true =
        le→leb (length written) buffer_size (omega arith) in
      let first : ltb 0 (size + length payload) ≡ true =
        lt→ltb 0 (size + length payload) (omega arith) in
      let advance : 0 + length written ≡ length written = omega arith in
      let next =
        send_rest (size + length payload) (length written) (omega arith) (omega arith)
          (omega arith) in
      let follows : rest_from (length written) ≡ drop k payload =
        ap (λ n. drop n payload) (omega arith) in
      let split : written ++ rest_from (length written) ≡ header ++ payload =
        ap (λ t. written ++ t) follows
        ∙ append_assoc header (take k payload) (drop k payload)
        ∙ ap (λ t. header ++ t) (take-append-drop k payload) in
      rw test (
        rw first (
          rw step (
            rw fits (
              rw advance (
                >>=-Returns
                  (send_loop layout (size + length payload) buffer_size message payload
                    (length written))
                  (λ writes. ok (written ∷ writes)) _ (Writes buffer_size (header ++ payload)) next
                  λ writes w.
                    write_first buffer_size writes (omega arith) (omega arith) split w)))))
