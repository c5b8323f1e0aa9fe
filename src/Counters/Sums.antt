-- ===== src/Counters/Sums.antt =====
-- Sums over the threads of the counter programs, when one thread moves.
use leetcode.Base.{ℕ, zero, suc, ◌+◌, ◌*◌, ◌≤◌, ◌<◌, ◌≡◌, refl, arith, update}
use native.Mathlib.Nat.{mul-add, add-mul}
use leetcode.Counters.{sum}

module _ {A : Type 0} (g : A → ℕ) (f : ℕ → A) (i : ℕ) (v : A) where
  sum-update_beyond : (n : ℕ) → n ≤ i → sum (λ k. g (update f i v k)) n ≡ sum (λ k. g (f k)) n
  unfolding sum
  sum-update_beyond zero h = refl
  sum-update_beyond (suc n) h = ground (arith, sum-update_beyond n)

  -- The sum moves by as much as the part of thread `i`.
  pub sum-update :
      (n : ℕ) → i < n → sum (λ k. g (update f i v k)) n + g (f i) ≡ sum (λ k. g (f k)) n + g v
  unfolding sum
  sum-update zero h = elim h [ ]
  sum-update (suc n) h = ground (arith, sum-update n, sum-update_beyond n)

pub sum-same : (f g : ℕ → ℕ) (n : ℕ) → ((i : ℕ) → i < n → f i ≡ g i) → sum f n ≡ sum g n
unfolding sum
sum-same f g zero h = refl
sum-same f g (suc n) h = ground (arith, h n, sum-same f g n (λ i lt. h i (omega arith)))

pub sum-scale : (c : ℕ) (f : ℕ → ℕ) (n : ℕ) → sum (λ i. c * f i) n ≡ c * sum f n
unfolding sum
sum-scale c f zero = ground arith
sum-scale c f (suc n) = ground (arith, sum-scale c f n, mul-add c (sum f n) (f n))

pub sum-const : (c n : ℕ) → sum (λ i. c) n ≡ n * c
unfolding sum
sum-const c zero = ground arith
sum-const c (suc n) = ground (arith, sum-const c n, add-mul n 1 c)

pub sum-bound : (c : ℕ) (f : ℕ → ℕ) (n : ℕ) → ((i : ℕ) → f i ≤ c) → sum f n ≤ n * c
unfolding sum
sum-bound c f zero h = ground arith
sum-bound c f (suc n) h = ground (arith, h n, sum-bound c f n h, add-mul n 1 c)
