-- ===== src/CountSmaller.antt =====
-- 315.c: how many of the later numbers are smaller than each, by a search tree whose nodes count
-- what lies to their left. A pointer to a node is its subtree, which no other node points to.
pub mod Counts
mod Tests
use leetcode.Base.{ℕ, zero, suc, ◌+◌, Bool, true, false, List, [], ◌∷◌, not, if◌then◌else◌}
use leetcode.Base.Int.{ℤ, ltb_ℤ}

pub data Tree : Type 0 where
  leaf : Tree
  node : (left : Tree) → (val : ℤ) → (count : ℕ) → (right : Tree) → Tree

-- The new tree, and what is stored through `smallerCount`.
unfoldable pub insert : Tree → ℤ → (count : ℕ) → Tree × ℕ
insert leaf val count = (node leaf val 0 leaf, count)
insert (node l x n r) val count = elim (ltb_ℤ x val) [
  | false ↦ let (l', smaller) = insert l val count in (node l' x (n + 1) r, smaller)
  | true ↦ let (r', smaller) = insert r val (count + n + 1) in (node l x n r', smaller)
]

-- The loop of countSmaller, which begins at the end of the array: the tree, and `res`.
unfoldable pub count_smaller_from : List ℤ → Tree × List ℕ
unfolding insert
count_smaller_from [] = (leaf, [])
count_smaller_from (x ∷ nums) =
    let (root, res) = count_smaller_from nums in
    let (root', count) = insert root x 0 in (root', count ∷ res)

unfoldable pub count_smaller : List ℤ → List ℕ
unfolding count_smaller_from
count_smaller nums = (count_smaller_from nums).1
