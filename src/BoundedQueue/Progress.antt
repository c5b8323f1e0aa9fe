-- ===== src/BoundedQueue/Progress.antt =====
-- producer_consumer.c: the threads never wait for each other for ever.
use leetcode.Base.{
  ℕ, zero, suc, ◌+◌, ◌≤◌, ◌<◌, ◌≡◌, ◌≢◌, ◌⊎◌, inl, inr, refl, [], Bool, true, false, none, some,
  arith, Option-cases, Bool-cases, ltb, ◌==◌, ==_iff, update,
}
use leetcode.BoundedQueue.{
  Queue, queue_push, queue_pop, item_of, queue_size, num_producers, num_consumers,
  items_per_producer,
}
use leetcode.BoundedQueue.Fifo.{items, items_from-none}
use leetcode.BoundedQueue.Threads.{produce, consume, Reach, here, next, Reach-IsFair}
use leetcode.BoundedQueue.Asleep.{
  count_asleep, count_asleep_le, count-wake, some_asleep, some_awake, count-none,
}
use leetcode.BoundedQueue.Conditions.{
  Waiting, Signal, unheard, wakes, Call, pushes, pops, Move, calls, producer_waits, consumer_waits,
  producer_wakes, consumer_wakes, Run, begin, then_moves,
}

-- Of the first `n` producers all have ended, or one has a round left.
some_round :
    (round : ℕ → ℕ) (n : ℕ)
    → ((id : ℕ) → round id ≤ items_per_producer)
    → ((id : ℕ) → id < n → round id ≡ items_per_producer)
      ⊎ ((id : ℕ) × (id < n) × (round id < items_per_producer))
some_round round zero h = inl (λ id l. absurd (omega (arith, l)))
some_round round (suc n) h = elim (some_round round n h) [
  | inl all ↦ elim (Bool-cases (ltb (round n) items_per_producer)) [
    | inl e ↦ inr (n, omega arith, ground (arith, e))
    | inr e ↦ inl (λ id l. elim (Bool-cases (id == n)) [
      | inl s ↦ rw ((==_iff id n).0 s) (let b = h n in ground (arith, e, b))
      | inr s ↦ all id (ground (arith, l, s))
    ])
  ]
  | inr (id, l, m) ↦ inr (id, omega (arith, l), m)
]

-- What the calls do to the count.
push_count : (q t : Queue) (item : ℕ) → queue_push q item ≡ some t → t.count ≡ q.count + 1
unfolding queue_push
push_count q t item e = ground (arith, e)

push_waits : (q : Queue) (item : ℕ) → queue_push q item ≡ none → q.count ≡ queue_size
unfolding queue_push
push_waits q item e = ground (arith, e)

push_goes :
    (q : Queue) (item : ℕ) → q.count ≢ queue_size → (t : Queue) × (queue_push q item ≡ some t)
push_goes q item h = elim (Option-cases (queue_push q item)) [
  | inl e ↦ absurd (h (push_waits q item e))
  | inr s ↦ s
]

pop_count : (q t : Queue) (item : ℕ) → queue_pop q ≡ some (item, t) → q.count ≡ t.count + 1
unfolding queue_pop
pop_count q t item e = ground (arith, e)

pop_waits : (q : Queue) → queue_pop q ≡ none → q.count ≡ 0
unfolding queue_pop
pop_waits q e = ground (arith, e)

-- A signal wakes one thread, or none waits.
Signal-count :
    (n : ℕ) (a b : ℕ → Bool)
    → Signal n a b
    → (count_asleep b n ≡ 0) ⊎ (count_asleep a n ≡ count_asleep b n + 1)
Signal-count n a _ (unheard h) = elim (some_asleep a n) [
  | inl (i, lt, e) ↦ absurd (ground (arith, h i lt, e))
  | inr (all, e) ↦ inl e
]
Signal-count n a _ (wakes i lt e) = inr (count-wake a i n lt e)

Signal-some : (n : ℕ) (a : ℕ → Bool) → (b : ℕ → Bool) × Signal n a b
Signal-some n a = elim (some_asleep a n) [
  | inl (i, lt, e) ↦ (update a i false, wakes i lt e)
  | inr (all, e) ↦ (a, unheard all)
]

-- Where producers wait there are at most as many free places as producers that are awake, and
-- where consumers wait at most as many items as consumers that are awake.
record IsAlert (w : Waiting) : Type 0 where
  reached : Reach w.system
  places :
      (count_asleep w.not_full num_producers ≡ 0)
      ⊎ (queue_size + count_asleep w.not_full num_producers ≤ num_producers + w.system.queue.count)
  filled :
      (count_asleep w.not_empty num_consumers ≡ 0)
      ⊎ (w.system.queue.count + count_asleep w.not_empty num_consumers ≤ num_consumers)

Call-IsAlert : {w v : Waiting} → Call w v → IsAlert w → IsAlert v
Call-IsAlert {w} (pushes id {q} {woken} lt awake more e s) f =
    let more_items = push_count w.system.queue q (item_of id (w.system.round id)) e in
    let signal = Signal-count num_consumers w.not_empty woken s in
    record {
      reached = next f.reached (produce id lt more e);
      places = ground (arith, f.places, more_items);
      filled = ground (arith, f.filled, more_items, signal);
    }
Call-IsAlert {w} (pops id item {q} {woken} lt awake e s) f =
    let fewer_items = pop_count w.system.queue q item e in
    let signal = Signal-count num_producers w.not_full woken s in
    record {
      reached = next f.reached (consume item e);
      places = ground (arith, f.places, fewer_items, signal);
      filled = ground (arith, f.filled, fewer_items);
    }

sleep_le :
    (asleep : ℕ → Bool) (i n : ℕ)
    → i < n
    → asleep i ≡ false
    → count_asleep (update asleep i true) n ≤ n
sleep_le asleep i n lt e = count_asleep_le (update asleep i true) n

Move-IsAlert : {w v : Waiting} → Move w v → IsAlert w → IsAlert v
Move-IsAlert (calls c) f = Call-IsAlert c f
Move-IsAlert {w} (producer_waits id lt awake more e) f = record {
  reached = f.reached;
  places = inr (
      omega (
        arith,
        push_waits w.system.queue (item_of id (w.system.round id)) e,
        sleep_le w.not_full id num_producers lt awake,
      ));
  filled = f.filled;
}
Move-IsAlert {w} (consumer_waits id lt awake e) f = record {
  reached = f.reached;
  places = f.places;
  filled =
      inr
        (omega (arith, pop_waits w.system.queue e, sleep_le w.not_empty id num_consumers lt awake));
}
Move-IsAlert {w} (producer_wakes id lt asleep) f = record {
  reached = f.reached;
  places = ground (arith, f.places, count-wake w.not_full id num_producers lt asleep);
  filled = f.filled;
}
Move-IsAlert {w} (consumer_wakes id lt asleep) f = record {
  reached = f.reached;
  places = f.places;
  filled = ground (arith, f.filled, count-wake w.not_empty id num_consumers lt asleep);
}

none_asleep : count_asleep (λ id. false) 3 ≡ 0
unfolding count_asleep
none_asleep = refl

Run-IsAlert : {w : Waiting} → Run w → IsAlert w
Run-IsAlert begin = record { reached = here; places = inl none_asleep; filled = inl none_asleep }
Run-IsAlert (then_moves r m) = Move-IsAlert m (Run-IsAlert r)

-- The waits and signals aside, a run is an interleaving of the calls.
Run-Reach : {w : Waiting} → Run w → Reach w.system
Run-Reach r = (Run-IsAlert r).reached

-- An item is taken, if there is one.
taken :
    (w : Waiting)
    → IsAlert w
    → (item : ℕ) (q : Queue) → queue_pop w.system.queue ≡ some (item, q)
    → (v : Waiting) × Call w v
taken w f item q e =
    let some_item = pop_count w.system.queue q item e in
    let (id, lt, awake) =
      some_awake w.not_empty num_consumers (ground (arith, f.filled, some_item)) in
    let (woken, s) = Signal-some num_producers w.not_full in (_, pops id item lt awake e s)

-- An item is put into an empty queue, if a producer has a round left.
put :
    (w : Waiting) (id : ℕ)
    → IsAlert w
    → id < num_producers
    → w.system.round id < items_per_producer
    → w.system.queue.count ≡ 0
    → (v : Waiting) × Call w v
put w id f lt more empty =
    let all_up : count_asleep w.not_full num_producers ≡ 0 = ground (arith, f.places, empty) in
    let awake = count-none w.not_full num_producers id all_up lt in
    let (q, e) =
      push_goes w.system.queue (item_of id (w.system.round id)) (λ h. ground (arith, h, empty)) in
    let (woken, s) = Signal-some num_consumers w.not_empty in (_, pushes id lt awake more e s)

-- In every state that the threads can reach, with any of them waiting on its condition, a call of
-- one that is awake can go through, unless all producers have ended and the queue is empty: there is
-- no deadlock before the last item is taken.
pub no_deadlock :
    {w : Waiting}
    → Run w
    → ((v : Waiting) × Call w v)
      ⊎ (((id : ℕ) → id < num_producers → w.system.round id ≡ items_per_producer)
          × (items w.system.queue ≡ []))
no_deadlock {w} r =
    let f = Run-IsAlert r in
    elim (Option-cases (queue_pop w.system.queue)) [
      | inr ((item, q), e) ↦ inl (taken w f item q e)
      | inl e ↦
          (let empty = pop_waits w.system.queue e in
            elim (some_round w.system.round num_producers (Reach-IsFair (Run-Reach r)).rounds) [
              | inl all ↦ inr (
                all,
                items_from-none w.system.queue.buffer w.system.queue.head w.system.queue.count
                    empty,
              )
              | inr (id, l, m) ↦ inl (put w id f l m empty)
            ])
    ]
