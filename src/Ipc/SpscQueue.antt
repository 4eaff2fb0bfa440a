-- ===== src/Ipc/SpscQueue.antt =====
-- src/ipc/spsc_queue.h and spsc_queue-inl.h: the queue in shared memory of one producer and one
-- consumer. An operation is one step here; that of the other side comes before or after it.
pub mod Ring
pub mod Fifo
mod Tests
use nightcore.Prelude.{
  ℕ, suc, ◌+◌, ◌-◌, ◌*◌, ◌^◌, Bool, true, false, not, ◌&&◌, Option, none, some, List, [], ◌∷◌, ◌++◌,
  ◌==◌, leb, ltb, if◌then◌else◌, length, get_elem?, set, take, drop,
}
use nightcore.Prelude.Result.{Result, ok, err, ◌>>=◌, ◌>>◌, check, out_of_bounds}

-- `kConsumerSleepMask`, the highest bit of a 64-bit word.
abbrev pub consumer_sleep_mask : ℕ
consumer_sleep_mask = 2 ^ 63

-- The bit is set in a word below 2^64.
abbrev pub is_sleeping : ℕ → Bool
is_sleeping word = leb consumer_sleep_mask word

-- `word ^ kConsumerSleepMask`.
abbrev pub flip : ℕ → ℕ
flip word = if is_sleeping word then word - consumer_sleep_mask else word + consumer_sleep_mask

-- The shared region behind its two sizes: `cells` has `queue_size` messages.
pub record Region {ℓ} (T : Type ℓ) : Type ℓ where
  pub message_size : ℕ
  pub queue_size : ℕ
  pub head : ℕ
  pub tail : ℕ
  pub cells : List T

-- A process's end of the queue; `wakeup_consumer_fn` tells whether the function is set.
pub record SpscQueue : Type 0 where
  pub consumer : Bool
  pub queue_size : ℕ
  pub wakeup_consumer_fn : Bool
  pub wakeup_consumer_flag : Bool

abbrev pub cache_line_size : ℕ
cache_line_size = 64

-- The size of a region, with messages of `message_size` bytes.
unfoldable pub compute_total_bytesize : ℕ → ℕ → ℕ
compute_total_bytesize message_size queue_size = cache_line_size * 3 + message_size * queue_size

-- The index behind `current`.
unfoldable pub next_index : ℕ → ℕ → ℕ
next_index size current = if suc current == size then 0 else suc current

unfoldable pub set_wakeup_consumer_fn : SpscQueue → Result SpscQueue
set_wakeup_consumer_fn q = do check (not q.consumer); ok (record q { wakeup_consumer_fn = true })

-- The head as `Pop` leaves it before it looks at the tail.
abbrev pub awake_head : ℕ → ℕ
awake_head word = if is_sleeping word then flip word else word

module _ {ℓ} {T : Type ℓ} where
  -- `BuildMemoryLayout`, over whatever the memory of the cells holds.
  unfoldable pub build_memory_layout : ℕ → ℕ → List T → Region T
  build_memory_layout message_size queue_size cells = record {
    message_size = message_size;
    queue_size = queue_size;
    head = 0;
    tail = 0;
    cells = cells;
  }

  -- The constructor, on a region of `bytes` bytes.
  unfoldable pub attach : Bool → ℕ → ℕ → Region T → Result SpscQueue
  attach consumer message_size bytes r = do
    check (r.message_size == message_size)
    check (bytes == compute_total_bytesize message_size r.queue_size)
    ok (record {
      consumer = consumer;
      queue_size = r.queue_size;
      wakeup_consumer_fn = false;
      wakeup_consumer_flag = false;
    })

  unfoldable pub create : ℕ → ℕ → List T → Result (SpscQueue × Region T)
  create message_size queue_size cells = do
    check (leb 2 queue_size)
    let r = build_memory_layout message_size queue_size cells
    q ← attach true message_size (compute_total_bytesize message_size queue_size) r
    ok (q, r)

  -- `Open`, by the producer, on the region of that size.
  unfoldable pub open_queue : ℕ → ℕ → Region T → Result SpscQueue
  open_queue message_size bytes r = attach false message_size bytes r

  -- The result, whether the wake-up function was called, and the two states.
  unfoldable pub push : SpscQueue → Region T → T → Result (Bool × Bool × SpscQueue × Region T)
  unfolding next_index
  push q r message = do
    check (not q.consumer)
    let current = r.tail
    let next = next_index q.queue_size current
    let sleeping = is_sleeping r.head
    let wakes = sleeping && not q.wakeup_consumer_flag
    check (if wakes then q.wakeup_consumer_fn else true)
    let head = (if sleeping then flip r.head else r.head)
    let q' = record q { wakeup_consumer_flag = sleeping }
    (if next == head
        then ok (false, wakes, q', r)
        else if ltb current (length r.cells)
        then ok (true, wakes, q', record r { cells = set r.cells current message; tail = next })
        else err out_of_bounds)

  unfoldable pub pop : SpscQueue → Region T → Result (Option T × Region T)
  unfolding next_index
  pop q r = do
    check q.consumer
    let current = awake_head r.head
    let awake = record r { head = current }
    (if current == r.tail then ok (none, awake) else elim (get_elem? r.cells current) [
      | none ↦ err out_of_bounds
      | some message ↦ ok (some message, record awake { head = next_index q.queue_size current })
    ])

  unfoldable pub consumer_enter_sleep : SpscQueue → Region T → Result (Region T)
  consumer_enter_sleep q r = do
    check q.consumer
    ok (record r { head = (if is_sleeping r.head then r.head else flip r.head) })
