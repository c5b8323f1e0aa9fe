-- ===== src/Counters/Threads.antt =====
-- Atomic_counter_Mutex_Counter.c: what run_benchmark finds in the counters.
use leetcode.Base.{ℕ, ◌+◌, ◌*◌, ◌%◌, ◌≡◌, ap, ◌∙◌, arith, some}
use leetcode.Counters.{
  Thread, between, locked, loaded, Bench, MutexStep, lock, load, store_unlock, AtomicStep,
  fetch_add, Run, created, ran, IsJoined, sum,
}
use leetcode.Counters.Sums.{sum-same, sum-const, sum-update}

abbrev pub rounds : Thread → ℕ
rounds (between d) = d
rounds (locked d) = d
rounds (loaded d v) = d

abbrev pub IsInside : Thread → Type 0
IsInside (between d) = ⊥
IsInside (locked d) = Unit
IsInside (loaded d v) = Unit

abbrev pub HasRead : Thread → ℕ → Type 0
HasRead (between d) c = Unit
HasRead (locked d) c = Unit
HasRead (loaded d v) c = v ≡ c

wrap_suc :
    (a b : ℕ)
    → a ≡ b % 18_446_744_073_709_551_616
    → (a + 1) % 18_446_744_073_709_551_616 ≡ (b + 1) % 18_446_744_073_709_551_616
wrap_suc a b e = omega arith

joined_rounds :
    (n iterations : ℕ) (s : Bench)
    → IsJoined n iterations s
    → sum (λ i. rounds (s.thread i)) n ≡ n * iterations
joined_rounds n iterations s end =
    sum-same (λ i. rounds (s.thread i)) (λ i. iterations) n (λ i lt. ap rounds (end i lt))
    ∙ sum-const iterations n

module _ (n iterations : ℕ) where
  abbrev IsCount : Bench → Type 0
  IsCount s = s.counter ≡ sum (λ i. rounds (s.thread i)) n % 18_446_744_073_709_551_616

  -- The lock keeps the value that a thread has read up to date.
  pub record IsLocking (s : Bench) : Type 0 where
    pub count : IsCount s
    pub owner : (i : ℕ) → IsInside (s.thread i) → s.holder ≡ some i
    pub fresh : (i : ℕ) → HasRead (s.thread i) s.counter

  mutex-IsLocking : {s t : Bench} → MutexStep n iterations s t → IsLocking s → IsLocking t
  mutex-IsLocking {s = s} (lock i done lt at more free) w = record {
    count = ground (arith, w.count, sum-update rounds s.thread i (locked done) n lt);
    owner = λ k. ground (arith, w.owner k);
    fresh = λ k. ground (arith, w.fresh k);
  }
  mutex-IsLocking {s = s} (load i done lt at) w = record {
    count = ground (arith, w.count, sum-update rounds s.thread i (loaded done s.counter) n lt);
    owner = λ k. ground (arith, w.owner k, w.owner i);
    fresh = λ k. ground (arith, w.fresh k);
  }
  mutex-IsLocking {s = s} (store_unlock i done value lt at) w = record {
    count =
        ground (arith, w.count, w.fresh i, sum-update rounds s.thread i (between (done + 1)) n lt);
    owner = λ k. ground (arith, w.owner k, w.owner i);
    fresh = λ k. ground (arith, w.fresh k, w.owner k, w.owner i);
  }

  pub Run-IsLocking : {s : Bench} → Run (MutexStep n iterations) s → IsLocking s
  Run-IsLocking created = record {
    count = ground (arith, sum-const 0 n);
    owner = λ k. ground arith;
    fresh = λ k. tt;
  }
  Run-IsLocking (ran before step) = mutex-IsLocking step (Run-IsLocking before)

  -- However the threads interleave, when all have been joined `mutex_counter` holds the number of
  -- threads times the number of iterations, modulo 2 ^ 64: under the lock no increment is lost.
  pub mutex_counter_lem :
      {s : Bench}
      → Run (MutexStep n iterations) s
      → IsJoined n iterations s
      → s.counter ≡ n * iterations % 18_446_744_073_709_551_616
  mutex_counter_lem {s = s} run end =
      (Run-IsLocking run).count
      ∙ ap (λ x. x % 18_446_744_073_709_551_616) (joined_rounds n iterations s end)

  atomic-IsCount : {s t : Bench} → AtomicStep n iterations s t → IsCount s → IsCount t
  atomic-IsCount {s = s} (fetch_add i done lt at more) w =
      ground (arith, w, sum-update rounds s.thread i (between (done + 1)) n lt)

  Run-IsCount : {s : Bench} → Run (AtomicStep n iterations) s → IsCount s
  Run-IsCount created = ground (arith, sum-const 0 n)
  Run-IsCount (ran before step) = atomic-IsCount step (Run-IsCount before)

  -- However the threads interleave, when all have been joined `atomic_counter`, which they raise
  -- without a lock, holds the number of threads times the number of iterations, modulo 2 ^ 64.
  pub atomic_counter_lem :
      {s : Bench}
      → Run (AtomicStep n iterations) s
      → IsJoined n iterations s
      → s.counter ≡ n * iterations % 18_446_744_073_709_551_616
  atomic_counter_lem {s = s} run end =
      Run-IsCount run ∙ ap (λ x. x % 18_446_744_073_709_551_616) (joined_rounds n iterations s end)
