-- ===== src/BoundedQueue/Threads.antt =====
-- producer_consumer.c: producers and consumers over the queue, in any interleaving of their calls.
use leetcode.Base.{
  ℕ, zero, suc, ◌+◌, ◌/◌, ◌≤◌, ◌<◌, ◌≡◌, refl, List, [], ◌∷◌, ◌++◌, Option, some, arith,
  if◌then◌else◌, ◌==◌, keep, update, true, false,
}
use native.Mathlib.Numerals.{add-one}
use native.Mathlib.Decide.{ℕ_discrete}
use mathlib.Core.List.{append-nil, append_assoc}
use leetcode.BoundedQueue.{
  Queue, queue_init, queue_push, queue_pop, item_of, num_producers, items_per_producer,
}
use leetcode.BoundedQueue.Fifo.{
  items, items_from, IsValid, Pushed, pushed, Popped, popped, push-Pushed, pop-Popped, init-IsValid,
}

-- The queue, the round that each producer is in, and the items that the consumers have taken, in
-- the order of their pops.
pub record System : Type 0 where
  pub queue : Queue
  pub round : ℕ → ℕ
  pub consumed : List ℕ

abbrev pub start : System
start = record { queue = queue_init; round = λ id. 0; consumed = [] }

-- A producer ends a round of its loop, or a consumer one of its own.
pub data Step (s : System) : System → Type 0 where
  produce :
      (id : ℕ) {q : Queue}
      → id < num_producers
      → s.round id < items_per_producer
      → queue_push s.queue (item_of id (s.round id)) ≡ some q
      → Step s (record s { queue = q; round = update s.round id (s.round id + 1) })
  consume :
      (item : ℕ) {q : Queue}
      → queue_pop s.queue ≡ some (item, q)
      → Step s (record s { queue = q; consumed = s.consumed ++ item ∷ [] })

pub data Reach : System → Type 0 where
  here : Reach start
  next : {s t : System} → Reach s → Step s t → Reach t

-- The items of the first `n` rounds of a producer.
unfoldable pub made : (id n : ℕ) → List ℕ
made id zero = []
made id (suc n) = made id n ++ item_of id n ∷ []

-- The items of producer `id` among those taken and those still queued.
abbrev pub trace : System → (id : ℕ) → List ℕ
trace s id = keep (λ x. x / 1000 == id) (s.consumed ++ items s.queue)

pub record IsFair (s : System) : Type 0 where
  pub valid : IsValid s.queue
  pub rounds : (id : ℕ) → s.round id ≤ items_per_producer
  pub in_order : (id : ℕ) → trace s id ≡ made id (s.round id)

keep-snoc :
    (id x : ℕ) (xs : List ℕ)
    → keep (λ x. x / 1000 == id) (xs ++ x ∷ [])
      ≡ keep (λ x. x / 1000 == id) xs ++ (if x / 1000 == id then x ∷ [] else [])
keep-snoc id x [] = ground arith
keep-snoc id x (y ∷ ys) = ground (arith, keep-snoc id x ys)

push_inv :
    (q t : Queue) (x : ℕ)
    → IsValid q
    → queue_push q x ≡ some t
    → IsValid t × (items t ≡ items q ++ x ∷ [])
push_inv q t x v e = go (push-Pushed q x v) e
  where
    go : {r : Option Queue} → Pushed q x r → r ≡ some t → IsValid t × (items t ≡ items q ++ x ∷ [])
    go (Pushed.waits f) e = cc
    go (pushed u f v' i) e = let same : u ≡ t = cc in rw (← same) (v', i)

pop_inv :
    (q t : Queue) (x : ℕ)
    → IsValid q
    → queue_pop q ≡ some (x, t)
    → IsValid t × (items q ≡ x ∷ items t)
pop_inv q t x v e = go (pop-Popped q v) e
  where
    go :
        {r : Option (ℕ × Queue)}
        → Popped q r
        → r ≡ some (x, t)
        → IsValid t × (items q ≡ x ∷ items t)
    go (Popped.waits f) e = cc
    go (popped y u v' i) e =
        let same : u ≡ t = ground arith in
        let head : y ≡ x = ground arith in rw (← same, ← head) (v', i)

producer_of_item : (id i : ℕ) → i < items_per_producer → item_of id i / 1000 ≡ id
unfolding item_of
producer_of_item id i h = omega arith

update_same : (id : ℕ) → (id == id) ≡ true
update_same id = ground arith

made-next : (id n : ℕ) → made id n ++ item_of id n ∷ [] ≡ made id (n + 1)
unfolding made
made-next id n = rw add-one

-- One more item of producer `id` at the end of the queue.
trace-produce :
    (s : System) (id j : ℕ) (q : Queue)
    → id < num_producers
    → s.round id < items_per_producer
    → items q ≡ items s.queue ++ item_of id (s.round id) ∷ []
    → trace s j ≡ made j (s.round j)
    → keep (λ x. x / 1000 == j) (s.consumed ++ items q)
      ≡ made j (update s.round id (s.round id + 1) j)
trace-produce s id j q lt more new old =
    rw (new, ← append_assoc s.consumed (items s.queue), keep-snoc j (item_of id (s.round id)), old)
      (elim (ℕ_discrete j id) [
        | yes p ↦
            let same : (j == id) ≡ true = ground arith in
            rw (producer_of_item id (s.round id) more, p, update_same id)
              (made-next id (s.round id))
        | no p ↦
            let other : (j == id) ≡ false = ground arith in
            let not_it : (id == j) ≡ false = ground arith in
            rw (producer_of_item id (s.round id) more, other, not_it)
              (append-nil (made j (s.round j)))
      ])

Step-IsFair : {s t : System} → Step s t → IsFair s → IsFair t
Step-IsFair {s} (produce id {q} lt more e) f =
    let (v, new) = push_inv s.queue q _ f.valid e in
    record {
      valid = v;
      rounds = λ j. ground (arith, f.rounds j);
      in_order = λ j. trace-produce s id j q lt more new (f.in_order j);
    }
Step-IsFair {s} (consume item {q} e) f =
    let (v, old) = pop_inv s.queue q item f.valid e in
    record {
      valid = v;
      rounds = f.rounds;
      in_order = λ j. rw (append_assoc s.consumed) (rw (← old) (f.in_order j));
    }

pub Reach-IsFair : {s : System} → Reach s → IsFair s
Reach-IsFair here = record {
  valid = init-IsValid;
  rounds = λ id. omega arith;
  in_order = λ id. unfold made items_from in refl;
}
Reach-IsFair (next r st) = Step-IsFair st (Reach-IsFair r)

-- In every interleaving of the threads, the items of a producer that were consumed, followed by
-- those still in the queue, are exactly the items of the rounds that it has finished, each once and
-- in the order of the rounds. The buffer is valid, so it never holds more than QUEUE_SIZE items.
pub no_item_lost :
    {s : System}
    → Reach s
    → IsValid s.queue
      × ((id : ℕ) → keep (λ x. x / 1000 == id) (s.consumed ++ items s.queue) ≡ made id (s.round id))
no_item_lost r = let f = Reach-IsFair r in (f.valid, f.in_order)
