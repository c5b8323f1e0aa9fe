-- ===== src/ThirdMax/Tests.antt =====
-- 414.c: a few numbers.
use leetcode.Base.{◌≡◌, refl, true, some, none, List, [], ◌∷◌, arith, length, reverse}
use leetcode.Base.Int.{ℤ, pos, negsuc}
use leetcode.MedianFinder.{Tree, leaf}
use leetcode.MedianFinder.Balance.{height}
use leetcode.ThirdMax.{search, insert_all, third_max}
use leetcode.ThirdMax.Result.{distinct, third, third_max_lem}
use leetcode.ThirdMax.Spine.{is_spine, insert_all-height}

-- With one number twice, and through each rotation.
abbrev several : List ℤ
several = pos 5 ∷ pos 3 ∷ pos 4 ∷ pos 4 ∷ pos 9 ∷ negsuc 0 ∷ []

third_of_several : third_max several ≡ some (pos 4)
unfolding third_max search
third_of_several = refl

larger_of_two : third_max (pos 1 ∷ pos 2 ∷ []) ≡ some (pos 2)
unfolding third_max search
larger_of_two = refl

-- thirdMax reads the root of an empty tree.
third_of_none : third_max [] ≡ none
unfolding third_max
third_of_none = refl

third_max_lem_example : third_max several ≡ third (reverse (distinct [] several))
third_max_lem_example = third_max_lem several

abbrev rising : List ℤ
rising = pos 1 ∷ pos 2 ∷ pos 3 ∷ pos 4 ∷ []

insert_all-height_example :
    (root : Tree) × (insert_all leaf rising ≡ some root)
    × (is_spine root ≡ true)
    × (height root ≡ length rising)
insert_all-height_example = insert_all-height rising (ground arith)
