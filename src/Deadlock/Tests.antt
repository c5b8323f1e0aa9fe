-- ===== src/Deadlock/Tests.antt =====
-- The search for a deadlock on two graphs.
use leetcode.Base.{ℕ, ◌≡◌, refl, ◌⊎◌, Bool, true, false, some, ◌==◌, ◌&&◌, ◌||◌}
use leetcode.Deadlock.{detect_deadlock, detect_cycle_util, scan, child, enter, leave}
use leetcode.Deadlock.Graph.{Cycle}
use leetcode.Deadlock.Verdict.{detect_deadlock_decides}

-- 1 waits for 2, and 2 for 1.
abbrev both_wait : ℕ → ℕ → Bool
both_wait v u = (v == 1) && (u == 2) || (v == 2) && (u == 1)

abbrev one_waits : ℕ → ℕ → Bool
one_waits v u = (v == 1) && (u == 2) || (v == 0) && (u == 2)

both_wait_result : detect_deadlock both_wait 32 ≡ some true
unfolding detect_deadlock detect_cycle_util scan child enter leave
both_wait_result = refl

one_waits_result : detect_deadlock one_waits 32 ≡ some false
unfolding detect_deadlock detect_cycle_util scan child enter leave
one_waits_result = refl

detect_deadlock_decides_example :
    ((detect_deadlock both_wait 3 ≡ some true) × Cycle both_wait 3)
    ⊎ ((detect_deadlock both_wait 3 ≡ some false) × (¬ Cycle both_wait 3))
detect_deadlock_decides_example = detect_deadlock_decides both_wait 3
