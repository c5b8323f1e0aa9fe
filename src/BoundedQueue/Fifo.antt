-- ===== src/BoundedQueue/Fifo.antt =====
-- producer_consumer.c: the circular buffer is a first-in-first-out queue of at most QUEUE_SIZE items.
use leetcode.Base.{
  ℕ, zero, suc, ◌+◌, ◌-◌, ◌%◌, ◌≤◌, ◌<◌, ◌≡◌, ◌≢◌, refl, ap, ◌∙◌, List, [], ◌∷◌, ◌++◌, Option, none,
  some, arith, get_or, set, length, length-set, get_or-set_self, get_or-set_ne, ◌==◌, inl, inr,
  Bool-cases,
}
use native.Mathlib.Numerals.{add-one}
use leetcode.BoundedQueue.{Queue, queue_size, queue_init, queue_push, queue_pop}

-- The `n` items of the buffer from the position `h` on.
unfoldable pub items_from : List ℕ → (h n : ℕ) → List ℕ
items_from buffer h zero = []
items_from buffer h (suc n) = get_or buffer h 0 ∷ items_from buffer ((h + 1) % queue_size) n

-- The queue that a state stands for, oldest item first.
abbrev pub items : Queue → List ℕ
items q = items_from q.buffer q.head q.count

pub record IsValid (q : Queue) : Type 0 where
  pub full_buffer : length q.buffer ≡ queue_size
  pub head_in : q.head < queue_size
  pub count_in : q.count ≤ queue_size
  pub tail_at : q.tail ≡ (q.head + q.count) % queue_size

-- A write behind the items leaves them, and adds one at their end.
items_from-set :
    (buffer : List ℕ) (h n t v : ℕ)
    → length buffer ≡ queue_size
    → h < queue_size
    → n < queue_size
    → t ≡ (h + n) % queue_size
    → items_from (set buffer t v) h (suc n) ≡ items_from buffer h n ++ v ∷ []
unfolding items_from
items_from-set buffer h zero t v full hin nin e =
    let here : t ≡ h = omega arith in rw here (ground (arith, get_or-set_self buffer h v 0))
items_from-set buffer h (suc n) t v full hin nin e =
    let other : t ≢ h = omega arith in
    cc (
      get_or-set_ne buffer t h v 0 other,
      items_from-set buffer ((h + 1) % queue_size) n t v full (omega arith) (omega arith)
          (omega arith),
    )

length-items_from : (buffer : List ℕ) (h n : ℕ) → length (items_from buffer h n) ≡ n
unfolding items_from
length-items_from buffer h zero = refl
length-items_from buffer h (suc n) = ap suc (length-items_from buffer ((h + 1) % queue_size) n)

pub items_from-none : (buffer : List ℕ) (h n : ℕ) → n ≡ 0 → items_from buffer h n ≡ []
unfolding items_from
items_from-none buffer h n e = rw e

items_from-some :
    (buffer : List ℕ) (h n k : ℕ)
    → n ≡ suc k
    → items_from buffer h n ≡ get_or buffer h 0 ∷ items_from buffer ((h + 1) % queue_size) k
unfolding items_from
items_from-some buffer h n k e = rw e

pub data Pushed (q : Queue) (item : ℕ) : Option Queue → Type 0 where
  waits : length (items q) ≡ queue_size → Pushed q item none
  pushed :
      (t : Queue)
      → length (items q) < queue_size
      → IsValid t
      → items t ≡ items q ++ item ∷ []
      → Pushed q item (some t)

pub data Popped (q : Queue) : Option (ℕ × Queue) → Type 0 where
  waits : items q ≡ [] → Popped q none
  popped : (item : ℕ) (t : Queue) → IsValid t → items q ≡ item ∷ items t → Popped q (some (item, t))

-- On a valid buffer, queue_push waits exactly when the queue holds QUEUE_SIZE items. Otherwise it
-- adds the item behind the others and keeps the buffer valid.
pub push-Pushed : (q : Queue) (item : ℕ) → IsValid q → Pushed q item (queue_push q item)
unfolding queue_push
push-Pushed q item v = elim (Bool-cases (q.count == queue_size)) [
  | inl full ↦ rw full (waits (ground (arith, length-items_from q.buffer q.head q.count)))
  | inr room ↦ rw room (
      pushed _ (ground (arith, length-items_from q.buffer q.head q.count))
        (record {
          full_buffer = length-set q.buffer q.tail item ∙ v.full_buffer;
          head_in = v.head_in;
          count_in = ground arith;
          tail_at = ground arith;
        })
        (rw add-one (
          items_from-set q.buffer q.head q.count q.tail item v.full_buffer v.head_in (ground arith)
            v.tail_at)))
]

-- On a valid buffer, queue_pop waits exactly when the queue is empty. Otherwise it takes the oldest
-- item and keeps the buffer valid.
pub pop-Popped : (q : Queue) → IsValid q → Popped q (queue_pop q)
unfolding queue_pop
pop-Popped q v = elim (Bool-cases (q.count == 0)) [
  | inl empty ↦
      let none_left : q.count ≡ 0 = ground arith in
      rw empty (waits (items_from-none q.buffer q.head q.count none_left))
  | inr some_left ↦
      let one_more : q.count ≡ suc (q.count - 1) = ground arith in
      rw some_left (
        popped _ _
          (record {
            full_buffer = v.full_buffer;
            head_in = omega arith;
            count_in = omega (arith, v.count_in);
            tail_at = omega (arith, v.tail_at, one_more);
          })
          (items_from-some q.buffer q.head q.count (q.count - 1) one_more))
]

pub init-IsValid : IsValid queue_init
init-IsValid = record {
  full_buffer = refl;
  head_in = omega arith;
  count_in = omega arith;
  tail_at = refl;
}
