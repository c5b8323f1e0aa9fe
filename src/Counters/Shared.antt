-- ===== src/Counters/Shared.antt =====
-- Shared_counter.c and Shared_Counter.c: what main prints.
use leetcode.Base.{ℕ, ◌*◌, ◌≤◌, ◌<◌, ◌≡◌, refl, ◌∙◌, ◌⊎◌, inl, inr, arith}
use leetcode.Counters.{
  Child, forked, running, exited, died, Shm, ChildStep, attach, attach_fails, add, leave, ShmReach,
  begin, also, IsFinished, sum, Outcome, failed, printed, Main, shmget_fails, shmat_fails,
  fork_fails, waited, SharedCounterMain, MemBlockMain,
}
use leetcode.Counters.Sums.{sum-bound, sum-same, sum-scale}

-- 1 for a child that attached the memory and ended, 0 for one that could not attach it.
abbrev pub survived : Child → ℕ
survived exited = 1
survived _ = 0

-- The additions that a child has made.
abbrev pub made : (operations : ℕ) → Child → ℕ
made operations forked = 0
made operations (running j) = j
made operations exited = operations
made operations died = 0

module _ (workers operations : ℕ) (small : operations < 4_294_967_296) where
  pub record IsCounting (s : Shm) : Type 0 where
    pub counts : (i : ℕ) → s.counter i ≡ made operations (s.child i)
    pub bounded : (i : ℕ) → made operations (s.child i) ≤ operations

  step-IsCounting : {s t : Shm} → ChildStep workers operations s t → IsCounting s → IsCounting t
  step-IsCounting {s = s} (attach i lt at) w = record {
    counts = λ k. ground (arith, w.counts k, w.bounded k);
    bounded = λ k. ground (arith, w.bounded k);
  }
  step-IsCounting {s = s} (attach_fails i lt at) w = record {
    counts = λ k. ground (arith, w.counts k, w.bounded k);
    bounded = λ k. ground (arith, w.bounded k);
  }
  step-IsCounting {s = s} (add i j lt at more) w = record {
    counts = λ k. ground (arith, w.counts k, w.bounded k);
    bounded = λ k. ground (arith, w.bounded k);
  }
  step-IsCounting {s = s} (leave i lt at) w = record {
    counts = λ k. ground (arith, w.counts k, w.bounded k);
    bounded = λ k. ground (arith, w.bounded k);
  }

  reach-IsCounting : {s : Shm} → ShmReach workers operations s → IsCounting s
  reach-IsCounting begin = record { counts = λ i. refl; bounded = λ i. omega arith }
  reach-IsCounting (also before step) = step-IsCounting step (reach-IsCounting before)

  -- If a child makes fewer than 2 ^ 32 rounds, then however the children interleave and whichever
  -- of them fail to attach the memory, once all have ended the sum of the counters is the number of
  -- rounds times the number of children that attached it, so no addition is lost or made twice.
  pub finished_sum :
      {s : Shm}
      → ShmReach workers operations s
      → IsFinished workers s
      → sum s.counter workers ≡ operations * sum (λ i. survived (s.child i)) workers
  finished_sum {s = s} run end =
      sum-same s.counter (λ i. operations * survived (s.child i)) workers
        (λ i lt. ground (arith, end i lt, (reach-IsCounting run).counts i))
      ∙ sum-scale operations (λ i. survived (s.child i)) workers

failed_prints_nothing : (t : ℕ) → failed ≡ printed t → ⊥
failed_prints_nothing t e = cc

total_of : {o : Outcome} (t : ℕ) → Main 4 100 o → o ≡ printed t → (k : ℕ) × (k ≤ 4) × (t ≡ 100 * k)
total_of t shmget_fails e = elim (failed_prints_nothing t e) [ ]
total_of t shmat_fails e = elim (failed_prints_nothing t e) [ ]
total_of t (fork_fails i lt) e = elim (failed_prints_nothing t e) [ ]
total_of t (waited {s = s} run end) e =
    let k = sum (λ i. survived (s.child i)) 4 in
    let few : k ≤ 4 * 1 = sum-bound 1 (λ i. survived (s.child i)) 4 (λ i. ground (arith)) in
    (k, omega arith, ground (arith, e, few, finished_sum 4 100 (omega arith) run end))

-- In both programs, a total that main prints is 100 times a number of at most 4, in whatever order
-- the children run and whichever of them fail to attach the memory.
pub total_printed :
    (t : ℕ)
    → SharedCounterMain (printed t) ⊎ MemBlockMain (printed t)
    → (k : ℕ) × (k ≤ 4) × (t ≡ 100 * k)
total_printed t (inl m) = total_of t m refl
total_printed t (inr m) = total_of t m refl
