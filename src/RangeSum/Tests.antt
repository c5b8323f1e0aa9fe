-- ===== src/RangeSum/Tests.antt =====
-- 327.c: the sums of the ranges of three numbers.
use leetcode.Base.{◌+◌, ◌≡◌, refl, [], ◌∷◌, get_or, arith}
use leetcode.Base.Int.{pos, negsuc, to_int, ◌+ℤ◌, ◌-ℤ◌}
use leetcode.RangeSum.{Ints, count_range_sum}
use leetcode.RangeSum.Sums.{pairs}
use leetcode.RangeSum.Total.{prefix, count_range_sum_lem}

abbrev three : Ints
three i = get_or (negsuc 1 ∷ pos 5 ∷ negsuc 0 ∷ []) i (pos 0)

abbrev junk : Ints
junk i = pos 99

three_ranges : count_range_sum junk junk three 3 (negsuc 1) (pos 2) ≡ pos 3
unfolding count_range_sum ◌+ℤ◌ ◌-ℤ◌ to_int
three_ranges = refl

-- With the bounds exchanged the number is below zero.
exchanged : count_range_sum junk junk three 3 (pos 2) (negsuc 1) ≡ negsuc 0
unfolding count_range_sum ◌+ℤ◌ ◌-ℤ◌ to_int
exchanged = refl

count_range_sum_lem_example :
    count_range_sum junk junk three 3 (negsuc 1) (pos 2)
    ≡ to_int (pos (pairs (negsuc 1) (pos 2) (prefix three) 0 (3 + 1)))
count_range_sum_lem_example = count_range_sum_lem junk junk three 3 (negsuc 1) (pos 2) (omega arith)

-- As many ranges as 65536 zeros have.
too_many : to_int (pos 2_147_516_416) ≡ negsuc 2_147_450_879
unfolding to_int
too_many = refl
