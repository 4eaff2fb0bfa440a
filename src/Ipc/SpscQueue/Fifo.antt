-- ===== src/Ipc/SpscQueue/Fifo.antt =====
-- src/ipc/spsc_queue-inl.h: the ring of cells is a queue of at most `queue_size` - 1 messages.
use nightcore.Prelude.{
  ◌≤◌, ◌<◌, ◌≡◌, sym, ap, ◌∙◌, true, false, Bool-cases, inl, inr, none, some, List, [], ◌∷◌, ◌==◌,
  ==_iff, length,
}
use nightcore.Prelude.Result.{Returns}
use nightcore.Ipc.SpscQueue.{
  SpscQueue, Region, is_sleeping, awake_head, consumer_sleep_mask, next_index, pop,
  consumer_enter_sleep,
}
use nightcore.Ipc.SpscQueue.Ring.{
  between, plain, awake_again, is_sleeping-lt, awake-sleep, next_index-lt, below_mask, ==-false,
  between-empty, between-pop,
}

module _ {T : Type 0} where
  -- The messages in the queue, oldest first.
  abbrev pub contents : Region T → List T
  contents r = between (awake_head r.head) r.tail r.cells

  -- The indices lie in the ring, and the head is a 64-bit word.
  pub record IsValid (r : Region T) : Type 0 where
    pub ring : 2 ≤ r.queue_size
    pub word : r.queue_size ≤ consumer_sleep_mask
    pub full : length r.cells ≡ r.queue_size
    pub head_in : awake_head r.head < r.queue_size
    pub tail_in : r.tail < r.queue_size

  below : {r : Region T} → IsValid r → awake_head r.head < consumer_sleep_mask
  below {r} v = below_mask r.queue_size (awake_head r.head) v.head_in v.word

  -- The head behind the one that is read is a plain index.
  small :
      {r : Region T} → IsValid r → next_index r.queue_size (awake_head r.head) < consumer_sleep_mask
  small {r} v =
      below_mask r.queue_size _ (next_index-lt r.queue_size (awake_head r.head) v.head_in) v.word

  kept :
      {r : Region T}
      → IsValid r
      → awake_head (next_index r.queue_size (awake_head r.head))
        ≡ next_index r.queue_size (awake_head r.head)
  kept {r} v = plain (next_index r.queue_size (awake_head r.head)) (small v)

  -- The producer's end: it is attached to the region, and a sleeping consumer can be woken.
  pub record IsProducer (q : SpscQueue) (r : Region T) : Type 0 where
    pub side : q.consumer ≡ false
    pub sized : q.queue_size ≡ r.queue_size
    pub can_wake : q.wakeup_consumer_fn ≡ true

  pub record IsConsumer (q : SpscQueue) (r : Region T) : Type 0 where
    pub side : q.consumer ≡ true
    pub sized : q.queue_size ≡ r.queue_size

  -- A message comes out of a valid queue, to a consumer that is attached, exactly when it is not
  -- empty, and it is the oldest one. The region stays valid, and the consumer is not marked as
  -- sleeping any more.
  pub pop_lem :
      (q : SpscQueue) (r : Region T)
      → IsValid r
      → IsConsumer q r
      → Returns (pop q r) (λ x.
        (contents r ≡ elim x.0 [ none ↦ [] | some message ↦ message ∷ contents x.1 ])
        × (is_sleeping x.1.head ≡ false)
        × IsValid x.1)
  unfolding pop next_index
  pop_lem q r v c =
      let head = awake_head r.head in
      elim (Bool-cases (head == r.tail)) [
        | inl empty ↦
            rw (c.side, empty)
              (
                between-empty head r.tail r.cells ((==_iff head r.tail).0 empty),
                is_sleeping-lt head (below v),
                record {
                  ring = v.ring;
                  word = v.word;
                  full = v.full;
                  head_in = rw (awake_again r.head (below v)) v.head_in;
                  tail_in = v.tail_in;
                },
              )
        | inr more ↦
            let (message, there, first) =
              between-pop r.queue_size head r.tail r.cells v.full v.head_in v.tail_in
                (==-false head r.tail more) in
            rw (c.side, more, there, c.sized)
              (
                first ∙ ap (λ h. message ∷ between h r.tail r.cells) (sym (kept v)),
                is_sleeping-lt _ (small v),
                record {
                  ring = v.ring;
                  word = v.word;
                  full = v.full;
                  head_in = rw (kept v) (next_index-lt r.queue_size head v.head_in);
                  tail_in = v.tail_in;
                },
              )
      ]

  -- When an attached consumer goes to sleep, the messages of a valid queue stay as they are, the
  -- sleep bit is set, and the region stays valid.
  pub consumer_enter_sleep_lem :
      (q : SpscQueue) (r : Region T)
      → IsValid r
      → IsConsumer q r
      → Returns
          (consumer_enter_sleep q r)
          (λ x. (contents x ≡ contents r) × (is_sleeping x.head ≡ true) × IsValid x)
  unfolding consumer_enter_sleep
  consumer_enter_sleep_lem q r v c =
      let (head, asleep) = awake-sleep r.head (below v) in
      rw c.side (
        ap (λ h. between h r.tail r.cells) head,
        asleep,
        record {
          ring = v.ring;
          word = v.word;
          full = v.full;
          head_in = rw head v.head_in;
          tail_in = v.tail_in;
        },
      )
