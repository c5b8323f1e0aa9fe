-- ===== src/Counters/Tests.antt =====
-- Short runs of the counter programs.
use leetcode.Base.{[], ◌∷◌, ◌-◌, ◌⊎◌, CString, ◌*◌, ◌%◌, ◌≡◌, refl, arith, update, none}
use leetcode.Counters.{
  forked, running, exited, died, Shm, attach, attach_fails, add, leave, ShmReach, begin, also,
  IsFinished, sum, waited, printed, SharedCounterMain, between, locked, loaded, Bench, MutexStep,
  lock, load, store_unlock, bench_start, AtomicStep, fetch_add, Run, created, ran, IsJoined,
}
use leetcode.Counters.Benchmark.{Main, ran_both, all_joined, both_counters, mutex_progress}
use leetcode.Base.Int.{ℤ, pos}

-- Child 1 cannot attach the memory; child 0 makes its one round.
abbrev after : Shm
after = record {
  counter = update (λ i. 0) 0 1;
  child =
      update (update (update (update (λ i. forked) 1 died) 0 (running 0)) 0 (running 1)) 0 exited;
}

after-reach : ShmReach 2 1 after
after-reach =
    also
      (also (also (also begin (attach_fails 1 (omega arith) refl)) (attach 0 (omega arith) refl))
        (add 0 0 (omega arith) refl (omega arith)))
      (leave 0 (omega arith) refl)

after-IsFinished : IsFinished 2 after
after-IsFinished i lt = ground arith

-- Two threads, a round each.
abbrev joined : Bench
joined = record {
  counter = 2;
  holder = none;
  thread =
      update
        (update
          (update
            (update (update (update (λ i. between 0) 1 (locked 0)) 1 (loaded 0 0)) 1 (between 1)) 0
            (locked 0))
          0 (loaded 0 1))
        0 (between 1);
}

joined-Run : Run (MutexStep 2 1) joined
joined-Run =
    ran
      (ran
        (ran
          (ran
            (ran (ran created (lock 1 0 (omega arith) refl (omega arith) refl))
              (load 1 0 (omega arith) refl))
            (store_unlock 1 0 0 (omega arith) refl))
          (lock 0 0 (omega arith) refl (omega arith) refl))
        (load 0 0 (omega arith) refl))
      (store_unlock 0 0 1 (omega arith) refl)

joined-IsJoined : IsJoined 2 1 joined
joined-IsJoined i lt = ground arith

abbrev added : Bench
added = record {
  counter = 2;
  holder = none;
  thread = update (update (λ i. between 0) 1 (between 1)) 0 (between 1);
}

added-Run : Run (AtomicStep 2 1) added
added-Run =
    ran (ran created (fetch_add 1 0 (omega arith) refl (omega arith)))
      (fetch_add 0 0 (omega arith) refl (omega arith))

added-IsJoined : IsJoined 2 1 added
added-IsJoined i lt = ground arith

-- No child can attach the memory.
none_attached : SharedCounterMain (printed 0)
unfolding sum
none_attached =
    waited
      {s = record {
        counter = λ i. 0;
        child = update (update (update (update (λ i. forked) 0 died) 1 died) 2 died) 3 died;
      }}
      (also
        (also
          (also (also begin (attach_fails 0 (omega arith) refl))
            (attach_fails 1 (omega arith) refl))
          (attach_fails 2 (omega arith) refl))
        (attach_fails 3 (omega arith) refl))
      (λ i lt. ground arith)

-- atol on one digit.
abbrev digit : CString → ℤ
digit [] = pos 0
digit (c ∷ cs) = pos (c - 48)

two_threads : Main digit ((b'2' ∷ []) ∷ (b'1' ∷ []) ∷ []) 2 2
two_threads = ran_both (all_joined joined-Run joined-IsJoined) (all_joined added-Run added-IsJoined)

both_counters_example :
    (2 ≡ 2 * 1 % 18_446_744_073_709_551_616) × (2 ≡ 2 * 1 % 18_446_744_073_709_551_616)
both_counters_example = both_counters digit ((b'2' ∷ []) ∷ (b'1' ∷ []) ∷ []) 2 2 two_threads

mutex_progress_example : IsJoined 2 1 bench_start ⊎ ((t : Bench) × MutexStep 2 1 bench_start t)
mutex_progress_example = mutex_progress 2 1 created
