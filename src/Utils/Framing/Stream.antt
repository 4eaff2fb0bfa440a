-- ===== src/Utils/Framing/Stream.antt =====
-- src/utils/appendable_buffer.h: `ReadMessages` delivers the stream's messages, however the bytes
-- are split over the reads.
use nightcore.Prelude.{
  ℕ, zero, suc, ◌+◌, ◌-◌, ◌≤◌, ◌<◌, ◌≡◌, refl, sym, ap, ap₂, subst, ◌∙◌, arith, true, inl, inr,
  Bool-cases, List, [], ◌∷◌, ◌++◌, append_assoc, append-nil, leb, ltb, if◌then◌else◌, leb→le,
  lt→ltb, ==_iff, length, take, drop, length-append, length-take, length-drop, take-append-drop,
  take-append_exact, drop-append_exact,
}
use nightcore.Prelude.Result.{Returns, Returns-map, >>=-Returns}
use nightcore.Utils.Buffer.{AppendableBuffer, IsValid, to_span, append_data, reset}
use nightcore.Utils.Buffer.Contents.{append_data_lem, length-to_span}
use nightcore.Utils.Framing.{read_one, read_loop, read_messages, read_chunks}

abbrev pub concat : List (List ℕ) → List ℕ
concat [] = []
concat (m ∷ ms) = m ++ concat ms

abbrev pub AllSized : ℕ → List (List ℕ) → Type 0
AllSized n [] = Unit {0}
AllSized n (m ∷ ms) = (length m ≡ n) × AllSized n ms

pub concat-append : (xs ys : List (List ℕ)) → concat (xs ++ ys) ≡ concat xs ++ concat ys
concat-append [] ys = refl
concat-append (x ∷ xs) ys =
    ap (λ t. x ++ t) (concat-append xs ys) ∙ sym (append_assoc x (concat xs) (concat ys))

AllSized-append :
    (n : ℕ) (xs ys : List (List ℕ)) → AllSized n xs → AllSized n ys → AllSized n (xs ++ ys)
AllSized-append n [] ys h k = k
AllSized-append n (x ∷ xs) ys h k = (h.0, AllSized-append n xs ys h.1 k)

-- A buffer between two reads: valid, with less than one message in it.
pub record IsPartial (msg_size : ℕ) (b : AppendableBuffer) : Type 0 where
  pub valid : IsValid b
  pub short : b.pos < msg_size

-- Full messages and a partial buffer that together make up the stream.
pub record Frames (msg_size : ℕ) (stream : List ℕ) (r : List (List ℕ) × AppendableBuffer)
    : Type 0 where
  pub sized : AllSized msg_size r.0
  pub whole : concat r.0 ++ to_span r.1 ≡ stream
  pub partial : IsPartial msg_size r.1

-- Two lists of the same length that begin equal lists are equal, and so is what follows them.
split_eq : (m k xs ys : List ℕ) → length m ≡ length k → m ++ xs ≡ k ++ ys → (m ≡ k) × (xs ≡ ys)
split_eq m k xs ys e h = (
  sym (take-append_exact m xs)
      ∙ ap (λ l. take (length m) l) h
      ∙ ap (λ n. take n (k ++ ys)) e
      ∙ take-append_exact k ys,
  sym (drop-append_exact m xs)
      ∙ ap (λ l. drop (length m) l) h
      ∙ ap (λ n. drop n (k ++ ys)) e
      ∙ drop-append_exact k ys,
)

-- A stream has one way to be cut into full messages and a short rest.
frames_unique :
    (n : ℕ) (ms ks : List (List ℕ)) (xs ys : List ℕ)
    → AllSized n ms
    → AllSized n ks
    → length xs < n
    → length ys < n
    → concat ms ++ xs ≡ concat ks ++ ys
    → (ms ≡ ks) × (xs ≡ ys)
frames_unique n [] [] xs ys a b p q h = (refl, h)
frames_unique n [] (k ∷ ks) xs ys a b p q h = absurd (
    omega (arith, b.0, ap length h, length-append (k ++ concat ks) ys, length-append k (concat ks)))
frames_unique n (m ∷ ms) [] xs ys a b p q h = absurd (
    omega (arith, a.0, ap length h, length-append (m ++ concat ms) xs, length-append m (concat ms)))
frames_unique n (m ∷ ms) (k ∷ ks) xs ys a b p q h =
    let parts =
      split_eq m k (concat ms ++ xs) (concat ks ++ ys) (a.0 ∙ sym b.0)
        (sym (append_assoc m (concat ms) xs) ∙ h ∙ append_assoc k (concat ks) ys) in
    let rest = frames_unique n ms ks xs ys a.1 b.1 p q parts.1 in (ap₂ ◌∷◌ parts.0 rest.0, rest.1)

-- What one round does with the `copy` bytes that fill the buffer.
record Round (msg_size : ℕ) (filled left : List ℕ) (r : List ℕ × AppendableBuffer × List ℕ)
    : Type 0 where
  full : length r.0 ≡ msg_size
  message : r.0 ≡ filled
  emptied : to_span r.1 ≡ []
  at_start : r.1.pos ≡ 0
  valid : IsValid r.1
  rest : r.2 ≡ left

module _ (malloc : ℕ → List ℕ) (malloc_size : (n : ℕ) → length (malloc n) ≡ n) (msg_size : ℕ) where
  read_one_lem :
      (b : AppendableBuffer) (bytes : List ℕ)
      → IsPartial msg_size b
      → msg_size ≤ length bytes + b.pos
      → Returns (read_one malloc msg_size b bytes) (
          Round msg_size
            (to_span b ++ take (msg_size - b.pos) bytes)
            (drop (msg_size - b.pos) bytes))
  unfolding read_one reset
  read_one_lem b bytes p h =
      let copied = take (msg_size - b.pos) bytes in
      let appended = append_data_lem malloc malloc_size b copied p.valid in
      let filled = length-to_span (append_data malloc b copied) appended.1 in
      let old = length-to_span b p.valid in
      let both = length-append (to_span b) copied in
      let part = length-take (msg_size - b.pos) bytes in
      let short = p.short in
      let total = ap length appended.0 in
      let full : (append_data malloc b copied).pos ≡ msg_size = omega arith in
      rw ((==_iff _ msg_size).1 full) (record {
        full = filled ∙ full;
        message = appended.0;
        emptied = refl;
        at_start = refl;
        valid = record {
          sized = appended.1.sized;
          inline_sized = appended.1.inline_sized;
          within = omega arith;
          nonempty = appended.1.nonempty;
        };
        rest = refl;
      })

  -- A round, and the frames of what it leaves, are the frames of what it was given.
  Frames-cons :
      (b : AppendableBuffer) (bytes : List ℕ) (r : List ℕ × AppendableBuffer × List ℕ)
      (q : List (List ℕ) × AppendableBuffer)
      → Round msg_size
          (to_span b ++ take (msg_size - b.pos) bytes)
          (drop (msg_size - b.pos) bytes)
          r
      → Frames msg_size (to_span r.1 ++ r.2) q
      → Frames msg_size (to_span b ++ bytes) (r.0 ∷ q.0, q.1)
  Frames-cons b bytes r q round f = record {
    sized = (round.full, f.sized);
    whole =
        append_assoc r.0 (concat q.0) (to_span q.1)
        ∙ ap (λ t. r.0 ++ t) f.whole
        ∙ ap (λ t. r.0 ++ (t ++ r.2)) round.emptied
        ∙ ap (λ t. t ++ r.2) round.message
        ∙ ap (λ t. (to_span b ++ take (msg_size - b.pos) bytes) ++ t) round.rest
        ∙ append_assoc (to_span b) (take (msg_size - b.pos) bytes) (drop (msg_size - b.pos) bytes)
        ∙ ap (λ t. to_span b ++ t) (take-append-drop (msg_size - b.pos) bytes);
    partial = f.partial;
  }

  -- What is left when there is not a whole message.
  Frames-rest :
      (b : AppendableBuffer) (bytes : List ℕ)
      → IsPartial msg_size b
      → length bytes + b.pos < msg_size
      → Frames msg_size
          (to_span b ++ bytes)
          ([], (if ltb 0 (length bytes) then append_data malloc b bytes else b))
  Frames-rest b [] p h = record { sized = tt; whole = sym (append-nil (to_span b)); partial = p }
  Frames-rest b (x ∷ bytes) p h =
      let appended = append_data_lem malloc malloc_size b (x ∷ bytes) p.valid in
      let filled = length-to_span (append_data malloc b (x ∷ bytes)) appended.1 in
      let old = length-to_span b p.valid in
      let both = length-append (to_span b) (x ∷ bytes) in
      let total = ap length appended.0 in
      let test : ltb 0 (length (x ∷ bytes)) ≡ true = lt→ltb 0 (length (x ∷ bytes)) (omega arith) in
      rw test (record {
        sized = tt;
        whole = appended.0;
        partial = record { valid = appended.1; short = omega arith };
      })

  read_loop_lem :
      (fuel : ℕ) (b : AppendableBuffer) (bytes : List ℕ)
      → IsPartial msg_size b
      → length bytes < fuel
      → Returns (read_loop malloc msg_size fuel b bytes) (Frames msg_size (to_span b ++ bytes))
  unfolding read_loop
  read_loop_lem zero b bytes p h = absurd (omega arith)
  read_loop_lem (suc fuel) b bytes p h = elim (Bool-cases (leb msg_size (length bytes + b.pos))) [
    | inl enough ↦ rw enough (
        >>=-Returns (read_one malloc msg_size b bytes) _
          (Round msg_size (to_span b ++ take (msg_size - b.pos) bytes)
            (drop (msg_size - b.pos) bytes))
          (Frames msg_size (to_span b ++ bytes)) (read_one_lem b bytes p (leb→le _ _ enough))
          (λ r round.
            >>=-Returns (read_loop malloc msg_size fuel r.1 r.2) _
              (Frames msg_size (to_span r.1 ++ r.2)) (Frames msg_size (to_span b ++ bytes))
              (read_loop_lem fuel r.1 r.2 (emptied r round) (shorter r round enough))
              (λ q f. Frames-cons b bytes r q round f)))
    | inr short ↦ rw short (Frames-rest b bytes p (ground arith))
  ]
    where
      emptied :
          (r : List ℕ × AppendableBuffer × List ℕ)
          → Round msg_size
              (to_span b ++ take (msg_size - b.pos) bytes)
              (drop (msg_size - b.pos) bytes)
              r
          → IsPartial msg_size r.1
      emptied r round =
          let short = p.short in
          let start = round.at_start in record { valid = round.valid; short = omega arith }

      shorter :
          (r : List ℕ × AppendableBuffer × List ℕ)
          → Round msg_size
              (to_span b ++ take (msg_size - b.pos) bytes)
              (drop (msg_size - b.pos) bytes)
              r
          → leb msg_size (length bytes + b.pos) ≡ true
          → length r.2 < fuel
      shorter r round enough =
          let short = p.short in
          let more = leb→le _ _ enough in
          omega (arith, ap length round.rest, length-drop (msg_size - b.pos) bytes)

  -- With an allocator that gives blocks of the right size, ReadMessages on a partial buffer
  -- returns, with no failed check: the messages delivered have the full size, and with the bytes
  -- kept they are the old bytes and the new ones.
  pub read_messages_lem :
      (b : AppendableBuffer) (bytes : List ℕ)
      → IsPartial msg_size b
      → Returns (read_messages malloc msg_size b bytes) (Frames msg_size (to_span b ++ bytes))
  unfolding read_messages
  read_messages_lem b bytes p =
      rw (lt→ltb b.pos msg_size p.short)
        (read_loop_lem (suc (length bytes)) b bytes p (omega arith))

  Frames-append :
      (stream more : List ℕ) (r q : List (List ℕ) × AppendableBuffer)
      → Frames msg_size stream r
      → Frames msg_size (to_span r.1 ++ more) q
      → Frames msg_size (stream ++ more) (r.0 ++ q.0, q.1)
  Frames-append stream more r q f g = record {
    sized = AllSized-append msg_size r.0 q.0 f.sized g.sized;
    whole =
        ap (λ t. t ++ to_span q.1) (concat-append r.0 q.0)
        ∙ append_assoc (concat r.0) (concat q.0) (to_span q.1)
        ∙ ap (λ t. concat r.0 ++ t) g.whole
        ∙ sym (append_assoc (concat r.0) (to_span r.1) more)
        ∙ ap (λ t. t ++ more) f.whole;
    partial = g.partial;
  }

  -- Any sequence of reads delivers the frames of all the bytes together.
  pub read_chunks_lem :
      (b : AppendableBuffer) (chunks : List (List ℕ))
      → IsPartial msg_size b
      → Returns
          (read_chunks malloc msg_size b chunks)
          (Frames msg_size (to_span b ++ concat chunks))
  unfolding read_chunks
  read_chunks_lem b [] p = record { sized = tt; whole = sym (append-nil (to_span b)); partial = p }
  read_chunks_lem b (bytes ∷ more) p =
      >>=-Returns (read_messages malloc msg_size b bytes) _ (Frames msg_size (to_span b ++ bytes))
        (Frames msg_size (to_span b ++ (bytes ++ concat more))) (read_messages_lem b bytes p)
        (λ r f.
          >>=-Returns (read_chunks malloc msg_size r.1 more) _
            (Frames msg_size (to_span r.1 ++ concat more))
            (Frames msg_size (to_span b ++ (bytes ++ concat more)))
            (read_chunks_lem r.1 more f.partial)
            (λ q g.
              subst (λ s. Frames msg_size s (r.0 ++ q.0, q.1))
                (append_assoc (to_span b) bytes (concat more))
                (Frames-append (to_span b ++ bytes) (concat more) r q f g)))

  -- With an allocator that gives blocks of the right size, how a byte stream is split over the
  -- reads makes no difference: two sequences of reads with the same bytes, from partial buffers
  -- with the same contents, both return, deliver the same messages and keep the same bytes.
  pub read_chunks_split :
      (b c : AppendableBuffer) (chunks others : List (List ℕ))
      → IsPartial msg_size b
      → IsPartial msg_size c
      → to_span b ≡ to_span c
      → concat chunks ≡ concat others
      → Returns (read_chunks malloc msg_size b chunks) (λ r.
        Returns
          (read_chunks malloc msg_size c others)
          (λ q. (r.0 ≡ q.0) × (to_span r.1 ≡ to_span q.1)))
  read_chunks_split b c chunks others p k same bytes =
      Returns-map (read_chunks malloc msg_size b chunks) (read_chunks_lem b chunks p) (λ r f.
        Returns-map (read_chunks malloc msg_size c others) (read_chunks_lem c others k) (λ q g.
          frames_unique msg_size r.0 q.0 (to_span r.1) (to_span q.1) f.sized g.sized
            (rw (length-to_span r.1 f.partial.valid) f.partial.short)
            (rw (length-to_span q.1 g.partial.valid) g.partial.short)
            (f.whole ∙ ap₂ ◌++◌ same bytes ∙ sym g.whole)))
