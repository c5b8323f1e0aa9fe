-- ===== src/CountSmaller/Tests.antt =====
-- 315.c: the counts of a few arrays.
use leetcode.Base.{◌≡◌, refl, [], ◌∷◌}
use leetcode.Base.Int.{pos, negsuc}
use leetcode.CountSmaller.{count_smaller, count_smaller_from, insert}
use leetcode.CountSmaller.Counts.{counts, count_smaller-counts}

five_two_six_one : count_smaller (pos 5 ∷ pos 2 ∷ pos 6 ∷ pos 1 ∷ []) ≡ 2 ∷ 1 ∷ 1 ∷ 0 ∷ []
unfolding count_smaller count_smaller_from insert
five_two_six_one = refl

count_smaller-counts_example :
    count_smaller (negsuc 0 ∷ negsuc 0 ∷ negsuc 4 ∷ [])
    ≡ counts (negsuc 0 ∷ negsuc 0 ∷ negsuc 4 ∷ [])
count_smaller-counts_example = count_smaller-counts (negsuc 0 ∷ negsuc 0 ∷ negsuc 4 ∷ [])
