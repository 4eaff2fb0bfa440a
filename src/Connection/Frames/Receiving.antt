-- ===== src/Connection/Frames/Receiving.antt =====
-- `ProcessGatewayMessages` delivers the packets of a stream, however its bytes are split over the
-- reads.
use nightcore.Prelude.Int.{pos}
use nightcore.Prelude.Result.{Returns, >>=-Returns}
use nightcore.Prelude.{
  ℕ, zero, suc, ◌+◌, ◌-◌, ◌^◌, ◌≤◌, ◌<◌, ◌≡◌, refl, sym, ap, ◌∙◌, List, [], ◌∷◌, ◌++◌, true, false,
  leb, length, take, drop, length-append, length-drop, take-append_exact, drop-append_exact,
  take-append_le, drop-append_le, append_assoc, arith, inl, inr, Bool-cases, le→leb, leb→le,
}
use nightcore.Utils.Buffer.{AppendableBuffer, IsValid, to_span, consume_front}
use nightcore.Utils.Buffer.Contents.{consume_front_lem, length-to_span}
use nightcore.Connection.Frames.Sending.{drop-drop, IsMessage, IsLayout}
use nightcore.Connection.Frames.{Layout, Packet, process_loop, full_size_of}

-- A message in range whose payload has the size that it says.
abbrev pub IsPacket : Packet → Type 0
IsPacket p = IsMessage p.0 × (p.0.payload_size ≡ pos (length p.1)) × (length p.1 < 2 ^ 31)

abbrev pub AllPackets : List Packet → Type 0
AllPackets [] = Unit {0}
AllPackets (p ∷ ps) = IsPacket p × AllPackets ps

-- What a list ahead of another begins with.
prefix_split :
    (xs q h t : List ℕ)
    → xs ++ q ≡ h ++ t
    → length h ≤ length xs
    → (take (length h) xs ≡ h) × (drop (length h) xs ++ q ≡ t)
prefix_split xs q h t e fits = (
  sym (take-append_le (length h) xs q fits) ∙ ap (λ l. take (length h) l) e ∙ take-append_exact h t,
  sym (drop-append_le (length h) xs q fits) ∙ ap (λ l. drop (length h) l) e ∙ drop-append_exact h t,
)

module _ (layout : Layout) where
  abbrev pub frame : Packet → List ℕ
  frame p = layout.encode p.0 ++ p.1

  abbrev pub stream : List Packet → List ℕ
  stream [] = []
  stream (p ∷ ps) = frame p ++ stream ps

  -- `n` bytes are not yet the first packet.
  abbrev pub IsShort : ℕ → List Packet → Type 0
  IsShort n [] = Unit {0}
  IsShort n (p ∷ ps) = n < length (frame p)

  -- Of `packets`, the first ones are delivered; the buffer holds the start of the others, with `q`
  -- still to come, and has the size `n`.
  pub record Received (n : ℕ) (q : List ℕ) (packets : List Packet)
      (r : List Packet × AppendableBuffer) : Type 0 where
    pub rest : List Packet
    pub split : packets ≡ r.0 ++ rest
    pub kept : to_span r.1 ++ q ≡ stream rest
    pub short : IsShort r.1.pos rest
    pub valid : IsValid r.1
    pub packed : AllPackets rest
    pub size_kept : r.1.buf_size ≡ n

  module _ (good : IsLayout layout) where
    abbrev size : ℕ
    size = layout.header_size

    -- The size that a header in the buffer gives is that of its packet.
    full_size_lem : (p : Packet) → IsPacket p → full_size_of layout p.0 ≡ size + length p.1
    full_size_lem p (fits, sized, small) = let bound = good.small in rw sized (omega arith)

    Received-cons :
        {n m : ℕ} (q : List ℕ) (p : Packet) (ps : List Packet) (r : List Packet × AppendableBuffer)
        → n ≡ m
        → Received n q ps r
        → Received m q (p ∷ ps) (p ∷ r.0, r.1)
    Received-cons q p ps r e s = record {
      rest = s.rest;
      split = ap (λ t. p ∷ t) s.split;
      kept = s.kept;
      short = s.short;
      valid = s.valid;
      packed = s.packed;
      size_kept = s.size_kept ∙ e;
    }

    shorter :
        (b c : AppendableBuffer) (fuel n : ℕ)
        → IsValid b
        → IsValid c
        → to_span c ≡ drop n (to_span b)
        → 0 < n
        → b.pos < suc fuel
        → (0 < b.pos)
        → c.pos < fuel
    shorter b c fuel n v u e positive enough some_bytes =
        omega
          (arith, length-to_span b v, length-to_span c u, ap length e, length-drop n (to_span b))

    -- The loop stops before an incomplete packet.
    stop :
        (b : AppendableBuffer) (q : List ℕ) (packets : List Packet)
        → IsValid b
        → to_span b ++ q ≡ stream packets
        → AllPackets packets
        → IsShort b.pos packets
        → Received b.buf_size q packets ([], b)
    stop b q packets v e all short = record {
      rest = packets;
      split = refl;
      kept = e;
      short = short;
      valid = v;
      packed = all;
      size_kept = refl;
    }

    -- A buffer that holds a whole header begins with that of the first packet.
    record Begins (b : AppendableBuffer) (q : List ℕ) (p : Packet) (ps : List Packet) : Type 0 where
      message : take size (to_span b) ≡ layout.encode p.0
      behind : drop size (to_span b) ++ q ≡ p.1 ++ stream ps

    begin :
        (b : AppendableBuffer) (q : List ℕ) (p : Packet) (ps : List Packet)
        → IsValid b
        → to_span b ++ q ≡ stream (p ∷ ps)
        → size ≤ b.pos
        → Begins b q p ps
    begin b q p ps v e fits =
        let sized = good.sized p.0 in
        let span = length-to_span b v in
        let parts =
          prefix_split (to_span b) q (layout.encode p.0) (p.1 ++ stream ps)
            (e ∙ append_assoc (layout.encode p.0) p.1 (stream ps)) (omega arith) in
        record {
          message = ap (λ n. take n (to_span b)) (sym sized) ∙ parts.0;
          behind = ap (λ n. drop n (to_span b) ++ q) (sym sized) ∙ parts.1;
        }

    -- A buffer that holds all of the first packet.
    record Whole (b : AppendableBuffer) (q : List ℕ) (p : Packet) (ps : List Packet) : Type 0 where
      payload : take (size + length p.1 - size) (drop size (to_span b)) ≡ p.1
      behind : drop (size + length p.1) (to_span b) ++ q ≡ stream ps

    split_packet :
        (b : AppendableBuffer) (q : List ℕ) (p : Packet) (ps : List Packet)
        → IsValid b
        → Begins b q p ps
        → size + length p.1 ≤ b.pos
        → Whole b q p ps
    split_packet b q p ps v begins fits =
        let span = length-to_span b v in
        let left = length-drop size (to_span b) in
        let same : size + length p.1 - size ≡ length p.1 = omega arith in
        let parts =
          prefix_split (drop size (to_span b)) q p.1 (stream ps) begins.behind (omega arith) in
        record {
          payload = ap (λ n. take n (drop size (to_span b))) same ∙ parts.0;
          behind = ap (λ l. l ++ q) (sym (drop-drop size (length p.1) (to_span b))) ∙ parts.1;
        }

    pub process_loop_lem :
        (fuel : ℕ) (b : AppendableBuffer) (q : List ℕ) (packets : List Packet)
        → b.pos < fuel
        → IsValid b
        → to_span b ++ q ≡ stream packets
        → AllPackets packets
        → Returns (process_loop layout fuel b) (Received b.buf_size q packets)
    unfolding process_loop
    process_loop_lem zero b q packets enough v e all = absurd (omega arith)
    process_loop_lem (suc fuel) b q [] enough v e all =
        let none_there : b.pos ≡ 0 =
          omega (arith, length-to_span b v, ap length e, length-append (to_span b) q) in
        let low : leb size b.pos ≡ false = ground (arith, good.nonempty) in
        rw low (stop b q [] v e all tt)
    process_loop_lem (suc fuel) b q ((m, payload) ∷ ps) enough v e (p, all) =
        elim (Bool-cases (leb size b.pos)) [
          | inr low ↦
              let short : b.pos < length (frame (m, payload)) =
                ground (arith, good.sized m, length-append (layout.encode m) payload) in
              rw low (stop b q ((m, payload) ∷ ps) v e (p, all) short)
          | inl header ↦
              let begins : Begins b q (m, payload) ps =
                begin b q (m, payload) ps v e (leb→le size b.pos header) in
              let head : layout.decode (take size (to_span b)) ≡ m =
                ap layout.decode begins.message ∙ good.faithful m (length payload) p.0 p.2 p.1 in
              let full = full_size_lem (m, payload) p in
              rw header (
                rw (head, full)
                  (elim (Bool-cases (leb (size + length payload) b.pos)) [
                    | inr low ↦
                        let short : b.pos < length (frame (m, payload)) =
                          ground (arith, good.sized m, length-append (layout.encode m) payload) in
                        rw low (stop b q ((m, payload) ∷ ps) v e (p, all) short)
                    | inl whole ↦
                        let fits = leb→le (size + length payload) b.pos whole in
                        let w = split_packet b q (m, payload) ps v begins fits in
                        let above : leb size (size + length payload) ≡ true =
                          le→leb size (size + length payload) (omega arith) in
                        rw (whole, above, w.payload)
                          (>>=-Returns (consume_front b (size + length payload)) _ _
                            (Received b.buf_size q ((m, payload) ∷ ps))
                            (consume_front_lem b (size + length payload) v fits)
                            λ c kept.
                              >>=-Returns (process_loop layout fuel c) _ (Received c.buf_size q ps)
                                (Received b.buf_size q ((m, payload) ∷ ps))
                                (process_loop_lem fuel c q ps
                                  (shorter b c fuel (size + length payload) v kept.1 kept.0
                                    (omega (arith, good.nonempty)) enough
                                    (omega (arith, good.nonempty)))
                                  kept.1 (ap (λ l. l ++ q) kept.0 ∙ w.behind) all)
                                λ r received. Received-cons q (m, payload) ps r kept.2 received)
                  ]))
        ]
