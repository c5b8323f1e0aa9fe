-- ===== src/Counters/Benchmark.antt =====
-- Atomic_counter_Mutex_Counter.c: main with its two benchmarks, and that the threads never lock each
-- other out.
use leetcode.Base.{
  ℕ, zero, suc, ◌*◌, ◌%◌, ◌≤◌, ◌<◌, ◌≡◌, ◌≢◌, refl, ◌⊎◌, inl, inr, Option, none, some, List, [],
  ◌∷◌, arith, Bool-cases, ◌==◌, CString,
}
use leetcode.Base.Int.{ℤ, pos, negsuc}
use leetcode.Counters.{
  Thread, between, locked, loaded, Bench, MutexStep, lock, load, store_unlock, AtomicStep, Run,
  created, ran, IsJoined,
}
use leetcode.Counters.Threads.{
  IsInside, IsLocking, Run-IsLocking, mutex_counter_lem, atomic_counter_lem,
}

-- How often a loop from 0 to a `long` runs.
abbrev pub times : ℤ → ℕ
times (pos n) = n
times (negsuc n) = 0

-- The arguments behind the name of the program, as atol reads them.
abbrev pub num_threads : (atol : CString → ℤ) → List CString → ℤ
num_threads atol [] = pos 64
num_threads atol (a ∷ args) = atol a

abbrev pub iterations : (atol : CString → ℤ) → List CString → ℤ
iterations atol [] = pos 2_000_000
iterations atol (a ∷ []) = pos 2_000_000
iterations atol (a ∷ b ∷ args) = atol b

-- run_benchmark prints the counter when the last thread has been joined.
pub data Printed (step : Bench → Bench → Type 0) (n k : ℕ) : (counter : ℕ) → Type 0 where
  all_joined : {s : Bench} → Run step s → IsJoined n k s → Printed step n k s.counter

abbrev pub PrintedMutex : (n k counter : ℕ) → Type 0
PrintedMutex n k = Printed (MutexStep n k) n k

abbrev pub PrintedAtomic : (n k counter : ℕ) → Type 0
PrintedAtomic n k = Printed (AtomicStep n k) n k

-- main: the counters that the two benchmarks print. Each starts at 0.
pub data Main (atol : CString → ℤ) (args : List CString) : (mutex atomic : ℕ) → Type 0 where
  ran_both :
      {mutex atomic : ℕ}
      → PrintedMutex (times (num_threads atol args)) (times (iterations atol args)) mutex
      → PrintedAtomic (times (num_threads atol args)) (times (iterations atol args)) atomic
      → Main atol args mutex atomic

mutex_printed : (n k m : ℕ) → PrintedMutex n k m → m ≡ n * k % 18_446_744_073_709_551_616
mutex_printed n k _ (all_joined run end) = mutex_counter_lem n k run end

atomic_printed : (n k m : ℕ) → PrintedAtomic n k m → m ≡ n * k % 18_446_744_073_709_551_616
atomic_printed n k _ (all_joined run end) = atomic_counter_lem n k run end

-- Both benchmarks of main print the number of threads times the number of iterations, modulo
-- 2 ^ 64, whatever the arguments are and however the threads interleave.
pub both_counters :
    (atol : CString → ℤ) (args : List CString) (mutex atomic : ℕ)
    → Main atol args mutex atomic
    → let total = times (num_threads atol args) * times (iterations atol args) in
      (mutex ≡ total % 18_446_744_073_709_551_616) × (atomic ≡ total % 18_446_744_073_709_551_616)
both_counters atol args mutex atomic (ran_both m a) =
    (mutex_printed _ _ mutex m, atomic_printed _ _ atomic a)

module _ (n k : ℕ) where
  abbrev IsWithin : Thread → Type 0
  IsWithin (between d) = d ≤ k
  IsWithin (locked d) = d < k
  IsWithin (loaded d v) = d < k

  -- The lock is held by a thread that is inside, and no thread runs on.
  record IsLive (s : Bench) : Type 0 where
    held : (i : ℕ) → s.holder ≡ some i → (i < n) × IsInside (s.thread i)
    within : (i : ℕ) → IsWithin (s.thread i)

  step-IsLive : {s t : Bench} → MutexStep n k s t → IsLive s → IsLive t
  step-IsLive (lock i done lt at more free) w = record {
    held = λ j. ground (arith, w.held j);
    within = λ j. ground (arith, w.within j, w.within i);
  }
  step-IsLive (load i done lt at) w = record {
    held = λ j. ground (arith, w.held j);
    within = λ j. ground (arith, w.within j, w.within i);
  }
  step-IsLive (store_unlock i done value lt at) w = record {
    held = λ j. ground (arith, w.held j);
    within = λ j. ground (arith, w.within j, w.within i);
  }

  Run-IsLive : {s : Bench} → Run (MutexStep n k) s → IsLive s
  Run-IsLive created = record { held = λ j. ground arith; within = λ j. omega arith }
  Run-IsLive (ran before step) = step-IsLive step (Run-IsLive before)

  at_end : (t : Thread) → (t ≡ between k) ⊎ (t ≢ between k)
  at_end (between d) = elim (Bool-cases (d == k)) [
    | inl e ↦ inl (ground (arith, e))
    | inr e ↦ inr λ f. ground (arith, e, f)
  ]
  at_end (locked d) = inr λ f. ground (arith, f)
  at_end (loaded d v) = inr λ f. ground (arith, f)

  all_at_end :
      (thread : ℕ → Thread) (m : ℕ)
      → ((i : ℕ) → i < m → thread i ≡ between k) ⊎ ((i : ℕ) × (i < m) × (thread i ≢ between k))
  all_at_end thread zero = inl λ i lt. absurd (omega (arith, lt))
  all_at_end thread (suc m) = elim (at_end (thread m)) [
    | inr ne ↦ inr (m, omega arith, ne)
    | inl e ↦ elim (all_at_end thread m) [
      | inr (i, lt, ne) ↦ inr (i, omega (arith, lt), ne)
      | inl all ↦ inl λ i lt. elim (Bool-cases (i == m)) [
        | inl f ↦ ground (arith, e, f)
        | inr f ↦ all i (ground (arith, lt, f))
      ]
    ]
  ]

  -- The holder goes on.
  holder_steps :
      (s : Bench) (i : ℕ) (t : Thread)
      → i < n
      → s.thread i ≡ t
      → IsInside t
      → (u : Bench) × MutexStep n k s u
  holder_steps s i (between d) lt e h = absurd h
  holder_steps s i (locked d) lt e h = (_, load i d lt e)
  holder_steps s i (loaded d v) lt e h = (_, store_unlock i d v lt e)

  -- A thread that is not done takes the free lock.
  free_steps :
      (s : Bench) (i : ℕ) (t : Thread)
      → IsLocking n k s
      → IsLive s
      → i < n
      → s.thread i ≡ t
      → t ≢ between k
      → s.holder ≡ none
      → (u : Bench) × MutexStep n k s u
  free_steps s i (between d) w v lt e ne f =
      (_, lock i d lt e (ground (arith, e, ne, v.within i)) f)
  free_steps s i (locked d) w v lt e ne f = absurd (ground (arith, e, f, w.owner i))
  free_steps s i (loaded d x) w v lt e ne f = absurd (ground (arith, e, f, w.owner i))

  steps :
      (s : Bench) (o : Option ℕ)
      → IsLocking n k s
      → IsLive s
      → s.holder ≡ o
      → IsJoined n k s ⊎ ((t : Bench) × MutexStep n k s t)
  steps s (some i) w v e =
      let (lt, inside) = v.held i e in inr (holder_steps s i (s.thread i) lt refl inside)
  steps s none w v e = elim (all_at_end s.thread n) [
    | inl all ↦ inl all
    | inr (i, lt, ne) ↦ inr (free_steps s i (s.thread i) w v lt refl ne e)
  ]

  -- However far the threads of the benchmark with the lock have come, either all of them are done or
  -- one of them can take a step.
  pub mutex_progress :
      {s : Bench} → Run (MutexStep n k) s → IsJoined n k s ⊎ ((t : Bench) × MutexStep n k s t)
  mutex_progress {s = s} run = steps s s.holder (Run-IsLocking n k run) (Run-IsLive run) refl
