-- ===== src/Tree/Tests.antt =====
-- The tree functions on small trees.
use leetcode.Base.{ℕ, zero, suc, none, ◌≡◌, ◌↔◌, refl, some, List, true, [], ◌∷◌, arith}
use leetcode.Base.Int.{ℤ, pos, negsuc}
use leetcode.Tree.{
  Tree, leaf, node, inorder, max_depth, is_valid_bst, delete_root, delete_node, find_min, root_val,
}
use leetcode.Tree.Sorted.{IsSorted, is_valid_bst_iff}
use leetcode.Tree.Balance.{build_balanced, balance_bst}
use leetcode.Tree.Traversal.{push_left, visit, traverse, inorder_traversal}
use leetcode.Tree.Delete.{without, delete_node_lem}

abbrev low : Tree
low = node (node leaf (negsuc 1) leaf) (pos 3) (node leaf (pos 4) leaf)

abbrev sample : Tree
sample = node low (pos 5) (node leaf (pos 8) (node leaf (pos 9) leaf))

sample-depth : max_depth sample ≡ 3
unfolding max_depth
sample-depth = refl

delete_five : delete_node sample (pos 5) ≡ node low (pos 8) (node leaf (pos 9) leaf)
unfolding delete_node delete_root find_min root_val
delete_five = refl

is_valid_bst_iff_example : (is_valid_bst sample ≡ true) ↔ IsSorted (inorder sample)
unfolding inorder
is_valid_bst_iff_example = is_valid_bst_iff sample (omega arith) (omega arith)

delete_node_lem_example :
    (inorder (delete_node sample (pos 5)) ≡ without (pos 5) (inorder sample))
    × IsSorted (inorder (delete_node sample (pos 5)))
unfolding inorder
delete_node_lem_example = delete_node_lem sample (pos 5) (omega arith)

abbrev chain : Tree
chain = node leaf (pos 1) (node leaf (pos 2) (node leaf (pos 3) leaf))

chain-balanced :
    balance_bst chain ≡ some (node (node leaf (pos 1) leaf) (pos 2) (node leaf (pos 3) leaf))
unfolding balance_bst build_balanced inorder
chain-balanced = refl

abbrev four : List ℤ
four = pos 1 ∷ pos 2 ∷ pos 3 ∷ pos 4 ∷ []

-- A left spine of 101 nodes does not fit on the stack.
spine : ℕ → Tree
spine zero = leaf
spine (suc n) = node (spine n) (pos n) leaf

spine-overflows : inorder_traversal (spine 101) ≡ none
unfolding inorder_traversal traverse visit push_left spine
spine-overflows = refl
