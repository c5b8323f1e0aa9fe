-- ===== src/BoundedQueue.antt =====
-- producer_consumer.c: the circular buffer between the threads. A push waits while the buffer is
-- full and a pop while it is empty; `none` is such a wait. A thread holds the lock from its test to
-- the end of the call, so calls are single steps.
pub mod Fifo
pub mod Threads
pub mod Asleep
pub mod Conditions
pub mod Progress
mod Tests
use leetcode.Base.{
  ℕ, ◌+◌, ◌-◌, ◌*◌, ◌%◌, Option, none, some, List, ◌==◌, ltb, if◌then◌else◌, get_or, set, replicate,
}

abbrev pub queue_size : ℕ
queue_size = 10

abbrev pub num_producers : ℕ
num_producers = 3

abbrev pub num_consumers : ℕ
num_consumers = 3

abbrev pub items_per_producer : ℕ
items_per_producer = 20

pub record Queue : Type 0 where
  pub buffer : List ℕ
  pub head : ℕ
  pub tail : ℕ
  pub count : ℕ

-- The global queue, whose buffer is zero, after queue_init.
abbrev pub queue_init : Queue
queue_init = record { buffer = replicate queue_size 0; head = 0; tail = 0; count = 0 }

unfoldable pub queue_push : Queue → ℕ → Option Queue
queue_push q item =
    if q.count == queue_size
    then none
    else some (record q {
      buffer = set q.buffer q.tail item;
      tail = (q.tail + 1) % queue_size;
      count = q.count + 1;
    })

unfoldable pub queue_pop : Queue → Option (ℕ × Queue)
queue_pop q =
    if q.count == 0
    then none
    else some (
      get_or q.buffer q.head 0,
      record q { head = (q.head + 1) % queue_size; count = q.count - 1 },
    )

-- The item that producer `id` makes in round `i`.
unfoldable pub item_of : (id i : ℕ) → ℕ
item_of id i = id * 1000 + i
