-- ===== src/MedianFinder/Tests.antt =====
-- 295.c: a few numbers.
use leetcode.Base.{ℕ, ◌+◌, ◌*◌, ◌^◌, ◌≤◌, ◌≡◌, refl, some, none, List, [], ◌∷◌}
use leetcode.Base.Int.{ℤ, pos, ◌+ℤ◌, is_int, int_max}
use leetcode.Base.Fallible.{◌>>=◌}
use leetcode.MedianFinder.{Tree, leaf, insert_rbt, add_all, find_median, half_of, descend}
use leetcode.MedianFinder.Contents.{contents, insert_sorted, IsAscending, count}
use leetcode.MedianFinder.Balance.{height}
use leetcode.MedianFinder.Insert.{IsSound, leaf-IsSound, insert_rbt_lem}
use leetcode.MedianFinder.Select.{sort, median, unless_overflow, find_median-sorted, add_all-height}

-- INT_MAX twice.
overflows : (do root ← add_all leaf (pos int_max ∷ pos int_max ∷ []); find_median root) ≡ none
unfolding add_all find_median descend ◌+ℤ◌ is_int
overflows = refl

-- Rising numbers, which a tree without rotations would hang in a row.
abbrev rising : List ℤ
rising = pos 1 ∷ pos 2 ∷ pos 3 ∷ pos 4 ∷ pos 5 ∷ pos 6 ∷ []

median_of_six : (do root ← add_all leaf rising; find_median root) ≡ some (half_of (pos 7))
unfolding add_all find_median descend ◌+ℤ◌ is_int
median_of_six = refl

height_of_six : (do root ← add_all leaf rising; some (height root)) ≡ some 4
unfolding add_all descend height
height_of_six = refl

insert_rbt_lem_example :
    (root : Tree) × (insert_rbt leaf (pos 4) ≡ some root)
    × IsSound root
    × (contents root ≡ insert_sorted (pos 4) (contents leaf))
insert_rbt_lem_example = insert_rbt_lem leaf (pos 4) leaf-IsSound

find_median-sorted_example :
    (root : Tree) × (add_all leaf (pos 6 ∷ pos 2 ∷ pos 9 ∷ []) ≡ some root)
    × IsAscending (contents root)
    × (contents root ≡ sort [] (pos 6 ∷ pos 2 ∷ pos 9 ∷ []))
    × (find_median root ≡ unless_overflow (median (sort [] (pos 6 ∷ pos 2 ∷ pos 9 ∷ []))))
find_median-sorted_example = find_median-sorted (pos 6) (pos 2 ∷ pos 9 ∷ [])

add_all-height_example :
    (root : Tree) × (add_all leaf rising ≡ some root)
    × ((n : ℕ) → 2 * n ≤ height root → 2 ^ n ≤ count root + 1)
add_all-height_example = add_all-height rising
