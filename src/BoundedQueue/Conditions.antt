-- ===== src/BoundedQueue/Conditions.antt =====
-- producer_consumer.c: the threads with the conditions that they wait on. A thread holds the lock from
-- its test to the end of the call or to pthread_cond_wait, so that much is one step. A thread that
-- is woken makes the test again. A signal wakes one of the threads that wait, if there are any, and a
-- thread may wake without one.
use leetcode.Base.{ℕ, ◌+◌, ◌<◌, ◌≡◌, Bool, true, false, none, some, [], ◌∷◌, ◌++◌, update}
use leetcode.BoundedQueue.{
  Queue, queue_push, queue_pop, item_of, num_producers, num_consumers, items_per_producer,
}
use leetcode.BoundedQueue.Threads.{System, start}

-- Which producers wait on not_full, and which consumers on not_empty.
pub record Waiting : Type 0 where
  pub system : System
  pub not_full : ℕ → Bool
  pub not_empty : ℕ → Bool

abbrev pub all_awake : Waiting
all_awake = record { system = start; not_full = λ id. false; not_empty = λ id. false }

-- pthread_cond_signal, with n threads that may wait on the condition.
pub data Signal (n : ℕ) (asleep : ℕ → Bool) : (ℕ → Bool) → Type 0 where
  unheard : ((i : ℕ) → i < n → asleep i ≡ false) → Signal n asleep asleep
  wakes : (i : ℕ) → i < n → asleep i ≡ true → Signal n asleep (update asleep i false)

-- A call of queue_push or queue_pop that goes through, with its signal.
pub data Call (w : Waiting) : Waiting → Type 0 where
  pushes :
      (id : ℕ) {q : Queue} {woken : ℕ → Bool}
      → id < num_producers
      → w.not_full id ≡ false
      → w.system.round id < items_per_producer
      → queue_push w.system.queue (item_of id (w.system.round id)) ≡ some q
      → Signal num_consumers w.not_empty woken
      → Call w (record w {
        system = record (w.system) {
          queue = q;
          round = update w.system.round id (w.system.round id + 1);
        };
        not_empty = woken;
      })
  pops :
      (id item : ℕ) {q : Queue} {woken : ℕ → Bool}
      → id < num_consumers
      → w.not_empty id ≡ false
      → queue_pop w.system.queue ≡ some (item, q)
      → Signal num_producers w.not_full woken
      → Call w (record w {
        system = record (w.system) { queue = q; consumed = w.system.consumed ++ item ∷ [] };
        not_full = woken;
      })

pub data Move (w : Waiting) : Waiting → Type 0 where
  calls : {v : Waiting} → Call w v → Move w v
  producer_waits :
      (id : ℕ)
      → id < num_producers
      → w.not_full id ≡ false
      → w.system.round id < items_per_producer
      → queue_push w.system.queue (item_of id (w.system.round id)) ≡ none
      → Move w (record w { not_full = update w.not_full id true })
  consumer_waits :
      (id : ℕ)
      → id < num_consumers
      → w.not_empty id ≡ false
      → queue_pop w.system.queue ≡ none
      → Move w (record w { not_empty = update w.not_empty id true })
  producer_wakes :
      (id : ℕ)
      → id < num_producers
      → w.not_full id ≡ true
      → Move w (record w { not_full = update w.not_full id false })
  consumer_wakes :
      (id : ℕ)
      → id < num_consumers
      → w.not_empty id ≡ true
      → Move w (record w { not_empty = update w.not_empty id false })

pub data Run : Waiting → Type 0 where
  begin : Run all_awake
  then_moves : {w v : Waiting} → Run w → Move w v → Run v
