-- ===== src/Counters.antt =====
-- Counters that several threads or processes raise: Shared_counter.c and Shared_Counter.c, which are
-- the same program with other names, and Atomic_counter_Mutex_Counter.c. A step is one atomic
-- action of one of them, so a sequence of steps is an interleaving. An `int` wraps at 2 ^ 32 and a
-- `long` at 2 ^ 64; atol is a parameter, and the clock and the throughput are left out.
pub mod Sums
pub mod Shared
pub mod Threads
pub mod Benchmark
mod Tests
use leetcode.Base.{ℕ, zero, suc, ◌+◌, ◌*◌, ◌%◌, ◌<◌, ◌≡◌, ◌⊎◌, Option, none, some, update}

pub data Child : Type 0 where
  forked : Child
  running : ℕ → Child
  exited : Child
  died : Child

-- The array in shared memory, and what each child is at.
pub record Shm : Type 0 where
  pub counter : ℕ → ℕ
  pub child : ℕ → Child

abbrev pub shm_start : Shm
shm_start = record { counter = λ i. 0; child = λ i. forked }

-- The loops of the children, at `operations` rounds each. A child may step once main has forked it,
-- which is no earlier than in the order of the numbers, so every run of the program is one of these.
pub data ChildStep (workers operations : ℕ) (s : Shm) : Shm → Type 0 where
  attach :
      (i : ℕ)
      → i < workers
      → s.child i ≡ forked
      → ChildStep workers operations s (record s { child = update s.child i (running 0) })
  attach_fails :
      (i : ℕ)
      → i < workers
      → s.child i ≡ forked
      → ChildStep workers operations s (record s { child = update s.child i died })
  add :
      (i j : ℕ)
      → i < workers
      → s.child i ≡ running j
      → j < operations
      → ChildStep workers operations s (record s {
        counter = update s.counter i ((s.counter i + 1) % 4_294_967_296);
        child = update s.child i (running (j + 1));
      })
  leave :
      (i : ℕ)
      → i < workers
      → s.child i ≡ running operations
      → ChildStep workers operations s (record s { child = update s.child i exited })

pub data ShmReach (workers operations : ℕ) : Shm → Type 0 where
  begin : ShmReach workers operations shm_start
  also :
      {s t : Shm}
      → ShmReach workers operations s
      → ChildStep workers operations s t
      → ShmReach workers operations t

-- wait has returned for every child.
abbrev pub IsFinished : (workers : ℕ) → Shm → Type 0
IsFinished workers s = (i : ℕ) → i < workers → (s.child i ≡ exited) ⊎ (s.child i ≡ died)

unfoldable pub sum : (ℕ → ℕ) → (n : ℕ) → ℕ
sum f zero = 0
sum f (suc n) = sum f n + f n

pub data Outcome : Type 0 where
  failed : Outcome
  printed : (total : ℕ) → Outcome

-- main, by what its calls return: a failing call ends it, else it prints the sum of the counters
-- after the last child has ended.
pub data Main (workers operations : ℕ) : Outcome → Type 0 where
  shmget_fails : Main workers operations failed
  shmat_fails : Main workers operations failed
  fork_fails : (i : ℕ) → i < workers → Main workers operations failed
  waited :
      {s : Shm}
      → ShmReach workers operations s
      → IsFinished workers s
      → Main workers operations (printed (sum s.counter workers % 4_294_967_296))

-- Shared_counter.c
abbrev pub workers : ℕ
workers = 4

abbrev pub operations : ℕ
operations = 100

abbrev pub SharedCounterMain : Outcome → Type 0
SharedCounterMain = Main workers operations

-- Shared_Counter.c
abbrev pub child_count : ℕ
child_count = 4

abbrev pub loop_count : ℕ
loop_count = 100

abbrev pub MemBlockMain : Outcome → Type 0
MemBlockMain = Main child_count loop_count

-- Atomic_counter_Mutex_Counter.c: a thread of run_benchmark after `done` rounds of its loop: between
-- two rounds, with the lock, or with the lock and the value that `mutex_counter++` has read.
pub data Thread : Type 0 where
  between : (done : ℕ) → Thread
  locked : (done : ℕ) → Thread
  loaded : (done value : ℕ) → Thread

pub record Bench : Type 0 where
  pub counter : ℕ
  pub holder : Option ℕ
  pub thread : ℕ → Thread

abbrev pub bench_start : Bench
bench_start = record { counter = 0; holder = none; thread = λ i. between 0 }

-- One action of worker_mutex in one of the threads.
pub data MutexStep (num_threads iterations : ℕ) (s : Bench) : Bench → Type 0 where
  lock :
      (i done : ℕ)
      → i < num_threads
      → s.thread i ≡ between done
      → done < iterations
      → s.holder ≡ none
      → MutexStep num_threads iterations s
          (record s { holder = some i; thread = update s.thread i (locked done) })
  load :
      (i done : ℕ)
      → i < num_threads
      → s.thread i ≡ locked done
      → MutexStep num_threads iterations s
          (record s { thread = update s.thread i (loaded done s.counter) })
  store_unlock :
      (i done value : ℕ)
      → i < num_threads
      → s.thread i ≡ loaded done value
      → MutexStep num_threads iterations s (record {
        counter = (value + 1) % 18_446_744_073_709_551_616;
        holder = none;
        thread = update s.thread i (between (done + 1));
      })

-- One action of worker_atomic.
pub data AtomicStep (num_threads iterations : ℕ) (s : Bench) : Bench → Type 0 where
  fetch_add :
      (i done : ℕ)
      → i < num_threads
      → s.thread i ≡ between done
      → done < iterations
      → AtomicStep num_threads iterations s (record s {
        counter = (s.counter + 1) % 18_446_744_073_709_551_616;
        thread = update s.thread i (between (done + 1));
      })

-- run_benchmark with one worker or the other, up to where the last thread is joined.
pub data Run (step : Bench → Bench → Type 0) : Bench → Type 0 where
  created : Run step bench_start
  ran : {s t : Bench} → Run step s → step s t → Run step t

abbrev pub IsJoined : (num_threads iterations : ℕ) → Bench → Type 0
IsJoined num_threads iterations s = (i : ℕ) → i < num_threads → s.thread i ≡ between iterations
