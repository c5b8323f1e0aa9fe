-- ===== src/BoundedQueue/Tests.antt =====
-- producer_consumer.c: a queue whose items pass the end of the buffer, and a run of two threads.
use leetcode.Base.{
  true, false, ◌<◌, ◌⊎◌, ◌≡◌, refl, [], ◌∷◌, arith, ℕ, ◌++◌, keep, update, ◌==◌, ◌/◌,
}
use leetcode.BoundedQueue.{num_producers, items_per_producer, Queue, queue_push, queue_pop, item_of}
use leetcode.BoundedQueue.Fifo.{items, items_from, IsValid}
use leetcode.BoundedQueue.Conditions.{
  Waiting, Call, pushes, calls, consumer_waits, wakes, Run, begin, then_moves,
}
use leetcode.BoundedQueue.Progress.{no_deadlock}
use leetcode.BoundedQueue.Threads.{System, Reach, here, next, produce, consume, made, no_item_lost}

abbrev wrapped : Queue
wrapped = record {
  buffer = 7 ∷ 8 ∷ 0 ∷ 0 ∷ 0 ∷ 0 ∷ 0 ∷ 0 ∷ 0 ∷ 6 ∷ [];
  head = 9;
  tail = 2;
  count = 3;
}

wrapped-IsValid : IsValid wrapped
wrapped-IsValid = record {
  full_buffer = refl;
  head_in = omega arith;
  count_in = omega arith;
  tail_at = refl;
}

wrapped-items : items wrapped ≡ 6 ∷ 7 ∷ 8 ∷ []
unfolding items_from
wrapped-items = refl

-- Producers 1 and 2 push once each, and a consumer pops.
abbrev two_pushed : Queue
two_pushed = record {
  buffer = 1000 ∷ 2000 ∷ 0 ∷ 0 ∷ 0 ∷ 0 ∷ 0 ∷ 0 ∷ 0 ∷ 0 ∷ [];
  head = 1;
  tail = 2;
  count = 1;
}

abbrev run : System
run = record { queue = two_pushed; round = update (update (λ id. 0) 1 1) 2 1; consumed = 1000 ∷ [] }

reached : Reach run
unfolding queue_push queue_pop item_of
reached =
    next
      (next (next here (produce 1 (omega arith) (omega arith) refl))
        (produce 2 (omega arith) (omega arith) refl))
      (consume 1000 refl)

no_item_lost_example :
    IsValid run.queue
    × ((id : ℕ)
        → keep (λ x. x / 1000 == id) (run.consumed ++ items run.queue) ≡ made id (run.round id))
no_item_lost_example = no_item_lost reached

-- A consumer waits on the empty queue, and the push of a producer wakes it.
abbrev one_pushed : Queue
one_pushed = record {
  buffer = 0 ∷ 0 ∷ 0 ∷ 0 ∷ 0 ∷ 0 ∷ 0 ∷ 0 ∷ 0 ∷ 0 ∷ [];
  head = 0;
  tail = 1;
  count = 1;
}

abbrev woken : Waiting
woken = record {
  system = record { queue = one_pushed; round = update (λ id. 0) 0 1; consumed = [] };
  not_full = λ id. false;
  not_empty = update (update (λ id. false) 2 true) 2 false;
}

woken-Run : Run woken
unfolding queue_push queue_pop item_of
woken-Run =
    then_moves (then_moves begin (consumer_waits 2 (omega arith) refl refl))
      (calls (pushes 0 (omega arith) refl (omega arith) refl (wakes 2 (omega arith) refl)))

no_deadlock_example :
    ((v : Waiting) × Call woken v)
    ⊎ (((id : ℕ) → id < num_producers → woken.system.round id ≡ items_per_producer)
        × (items woken.system.queue ≡ []))
no_deadlock_example = no_deadlock woken-Run
