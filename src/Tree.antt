-- ===== src/Tree.antt =====
-- Binary trees of the LeetCode problems 98, 100, 104, 450 and 700, and the
-- traversal that 1382 begins with. A tree is reached by
-- one pointer only, so a pointer to a node is its subtree, NULL is `leaf`, and a function that
-- relinks nodes returns the new tree. An `int` is an integer.
pub mod Sorted
pub mod Search
pub mod Delete
pub mod Balance
pub mod Even
pub mod Traversal
mod Tests
use leetcode.Base.{
  ℕ, zero, suc, ◌+◌, ◌-◌, ◌/◌, ◌<◌, Bool, true, false, not, ◌&&◌, ◌||◌, Option, none, some, List,
  [], ◌∷◌, ◌++◌, ltb, if◌then◌else◌, length, get_elem?,
}
use leetcode.Base.Int.{ℤ, pos, negsuc, ltb_ℤ, eqb_ℤ}

pub data Tree : Type 0 where
  leaf : Tree
  node : Tree → ℤ → Tree → Tree

-- The values from left to right: what the recursive `inorder` of 1382.c writes.
unfoldable pub inorder : Tree → List ℤ
inorder leaf = []
inorder (node l x r) = inorder l ++ (x ∷ inorder r)

-- 104.c
unfoldable pub max_depth : Tree → ℕ
max_depth leaf = 0
max_depth (node l x r) =
    let left_depth = max_depth l in
    let right_depth = max_depth r in
    (if ltb right_depth left_depth then left_depth else right_depth) + 1

-- 100.c
unfoldable pub is_same_tree : Tree → Tree → Bool
is_same_tree leaf leaf = true
is_same_tree (node l x r) (node l' y r') =
    if not (eqb_ℤ x y) then false else is_same_tree l l' && is_same_tree r r'
is_same_tree _ _ = false

-- 98.c
abbrev pub long_min : ℤ
long_min = negsuc 9_223_372_036_854_775_807

abbrev pub long_max : ℤ
long_max = pos 9_223_372_036_854_775_807

unfoldable pub helper : Tree → (min max : ℤ) → Bool
helper leaf min max = true
helper (node l x r) min max =
    if not (ltb_ℤ min x) || not (ltb_ℤ x max) then false else helper l min x && helper r x max

unfoldable pub is_valid_bst : Tree → Bool
unfolding helper
is_valid_bst t = helper t long_min long_max

-- 700.c
unfoldable pub search_bst : Tree → ℤ → Tree
search_bst leaf val = leaf
search_bst (node l x r) val =
    if eqb_ℤ x val
    then node l x r
    else elim (ltb_ℤ val x) [ true ↦ search_bst l val | false ↦ search_bst r val ]

-- 450.c: findMin, and the field `val` of a node that is not NULL.
unfoldable pub find_min : Tree → Tree
find_min leaf = leaf
find_min (node leaf x r) = node leaf x r
find_min (node (node l y m) x r) = find_min (node l y m)

unfoldable pub root_val : Tree → ℤ
root_val leaf = pos 0
root_val (node l x r) = x

-- The last branch of deleteNode, at the root; `rest` is what its last call returns.
unfoldable pub delete_root : (left right rest : Tree) → Tree
delete_root leaf right rest = right
delete_root (node l x r) leaf rest = node l x r
delete_root (node l x r) (node l' y r') rest =
    node (node l x r) (root_val (find_min (node l' y r'))) rest

unfoldable pub delete_node : Tree → ℤ → Tree
delete_node leaf key = leaf
delete_node (node l x r) key =
    let rest = delete_node r (root_val (find_min r)) in
    elim (ltb_ℤ key x) [
      | true ↦ node (delete_node l key) x r
      | false ↦ elim (ltb_ℤ x key) [
        | true ↦ node l x (delete_node r key)
        | false ↦ delete_root l r rest
      ]
    ]
