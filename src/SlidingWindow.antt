-- ===== src/SlidingWindow.antt =====
-- 239.c: the maxima of the windows of an array, by a queue of indices in the array `dq`.
pub mod Queue
pub mod Maxima
mod Tests
use leetcode.Base.{
  ℕ, zero, suc, ◌+◌, ◌-◌, Bool, true, false, ◌&&◌, ◌||◌, not, Option, none, some, ltb, leb, ◌==◌,
  if◌then◌else◌, update,
}
use leetcode.Base.Int.{ℤ, pos, negsuc, ltb_ℤ}

-- A pointer to integers: what it holds at each index.
abbrev pub Ints : Type 0
Ints = ℕ → ℤ

-- The locals of maxSlidingWindow.
pub record Window : Type 0 where
  dq : ℕ → ℕ
  head : ℕ
  tail : ℕ
  result : Ints

-- dq[head] <= i - k, where i - k may be negative.
unfoldable pub expire : (k i : ℕ) → Window → Window
expire k i w =
    if ltb w.head w.tail && leb (w.dq w.head + k) i then record w { head = w.head + 1 } else w

-- The loop that lowers `tail` from where it is, for the value `x`.
unfoldable pub drop_back : (nums : Ints) → (dq : ℕ → ℕ) → (head : ℕ) → (x : ℤ) → (tail : ℕ) → ℕ
drop_back nums dq head x zero = zero
drop_back nums dq head x (suc tail) =
    let rest = drop_back nums dq head x tail in
    if ltb head (suc tail) && not (ltb_ℤ x (nums (dq tail))) then rest else suc tail

unfoldable pub push : (nums : Ints) → (i : ℕ) → Window → Window
unfolding drop_back
push nums i w =
    let t = drop_back nums w.dq w.head (nums i) w.tail in
    record w { dq = update w.dq t i; tail = t + 1 }

-- i >= k - 1 and i - k + 1, for a positive `k`.
unfoldable pub emit : (nums : Ints) → (k i : ℕ) → Window → Window
emit nums k i w =
    if leb k (i + 1)
    then record w { result = update w.result (i + 1 - k) (nums (w.dq w.head)) }
    else w

unfoldable pub slide : (nums : Ints) → (k i : ℕ) → Window → Window
unfolding expire push emit
slide nums k i w = emit nums k i (push nums i (expire k i w))

unfoldable pub slides : (nums : Ints) → (k : ℕ) → (rounds i : ℕ) → Window → Window
unfolding slide
slides nums k zero i w = w
slides nums k (suc rounds) i w = slides nums k rounds (i + 1) (slide nums k i w)

-- The array and *returnSize; none for NULL and 0. `result` and `dq` are what malloc returns.
unfoldable pub max_sliding_window :
    (dq : ℕ → ℕ) → (result nums : Ints) → (nums_size : ℕ) → (k : ℤ) → Option (Ints × ℕ)
unfolding slides
max_sliding_window dq result nums nums_size (negsuc _) = none
max_sliding_window dq result nums nums_size (pos k) =
    if nums_size == 0 || k == 0 || ltb nums_size k
    then none
    else some (
      (slides nums k nums_size 0 (record { dq = dq; head = 0; tail = 0; result = result })).result,
      nums_size - k + 1,
    )
