-- ===== src/Ipc/SpscQueue/Tests.antt =====
-- Runs of a queue with three cells, whose messages lie around the end of the ring.
use nightcore.Prelude.{ℕ, ◌+◌, ◌^◌, ◌≡◌, refl, arith, true, false, none, some, [], ◌∷◌}
use nightcore.Prelude.Result.{Returns}
use nightcore.Ipc.SpscQueue.{SpscQueue, Region, is_sleeping, pop}
use nightcore.Ipc.SpscQueue.Fifo.{contents, IsValid, IsConsumer, pop_lem}

-- The consumer sleeps, and one message waits in the last cell.
abbrev region : Region ℕ
region = record {
  message_size = 8;
  queue_size = 3;
  head = 2 ^ 63 + 2;
  tail = 0;
  cells = 5 ∷ 6 ∷ 7 ∷ [];
}

abbrev producer : SpscQueue
producer = record {
  consumer = false;
  queue_size = 3;
  wakeup_consumer_fn = true;
  wakeup_consumer_flag = false;
}

abbrev consumer : SpscQueue
consumer = record producer { consumer = true; wakeup_consumer_fn = false }

region-IsValid : IsValid region
region-IsValid = record {
  ring = omega arith;
  word = omega arith;
  full = refl;
  head_in = omega arith;
  tail_in = omega arith;
}

consumer-IsConsumer : IsConsumer consumer region
consumer-IsConsumer = record { side = refl; sized = refl }

pop_lem_example : Returns (pop consumer region) (λ x.
    (contents region ≡ elim x.0 [ none ↦ [] | some message ↦ message ∷ contents x.1 ])
    × (is_sleeping x.1.head ≡ false)
    × IsValid x.1)
pop_lem_example = pop_lem consumer region region-IsValid consumer-IsConsumer
