-- ===== src/SortedArray/Tests.antt =====
-- 1649.c: a few instructions.
use leetcode.Base.{ℕ, ◌%◌, ◌≡◌, refl, some, List, [], ◌∷◌, arith}
use leetcode.SortedArray.{low_bit, update_loop, query_loop, create_sorted_array, modulus}
use leetcode.SortedArray.Cost.{insertion_cost, count_less, count_greater, create_sorted_array_lem}

abbrev six : List ℕ
six = 1 ∷ 2 ∷ 3 ∷ 6 ∷ 5 ∷ 4 ∷ []

low_bit_of_12 : low_bit 12 ≡ 4
unfolding low_bit
low_bit_of_12 = refl

cost_of_six : create_sorted_array six ≡ some 3
unfolding create_sorted_array update_loop query_loop low_bit
cost_of_six = refl

create_sorted_array_lem_example : create_sorted_array six ≡ some (3 % modulus)
unfolding insertion_cost count_less count_greater
create_sorted_array_lem_example = create_sorted_array_lem six (ground arith)
