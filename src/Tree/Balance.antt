-- ===== src/Tree/Balance.antt =====
-- 1382.c, 109.c and 876.c: balanced trees from rising sequences, and the middle of a list. The nodes
-- of `arr` in 1382.c count by their values, since every link of theirs is set again. A pointer into
-- a list is its position, the pointer behind the last element (NULL) the length of the list.
use leetcode.Base.{
  ℕ, zero, suc, ◌+◌, ◌-◌, ◌/◌, not, ◌&&◌, Option, none, some, List, ltb, leb, ◌==◌, if◌then◌else◌,
  length, get_or,
}
use leetcode.Base.Int.{ℤ, pos}
use leetcode.Tree.{Tree, leaf, node, inorder}

-- 1382.c: buildBalanced on arr[start .. end], with `stop` for end + 1, which is never below 0. Each
-- call has fewer elements than the last, so `stop - start` calls inside each other are enough.
unfoldable pub build_balanced : (fuel : ℕ) → List ℤ → (start stop : ℕ) → Tree
build_balanced zero arr start stop = leaf
build_balanced (suc fuel) arr start stop =
    let mid = start + (stop - 1 - start) / 2 in
    let left = build_balanced fuel arr start mid in
    let right = build_balanced fuel arr (mid + 1) stop in
    if leb stop start then leaf else node left (get_or arr mid (pos 0)) right

abbrev pub arr_size : ℕ
arr_size = 10_000

-- None if the nodes do not fit into `arr`.
unfoldable pub balance_bst : Tree → Option Tree
balance_bst root =
    let arr = inorder root in
    let index = length arr in
    if ltb arr_size index then none else some (build_balanced index arr 0 index)

-- The loop of 876.c and 109.c from `slow` and `fast`; at most one pass for each element.
unfoldable pub middle : (fuel slow fast end : ℕ) → ℕ
middle zero slow fast end = slow
middle (suc fuel) slow fast end =
    let rest = middle fuel (slow + 1) (fast + 1 + 1) end in
    if not (fast == end) && not (fast + 1 == end) then rest else slow

-- 876.c: the position of the node returned.
unfoldable pub middle_node {ℓ} : {A : Type ℓ} → List A → ℕ
unfolding middle
middle_node head = middle (length head) 0 0 (length head)

-- 109.c
unfoldable pub build_tree : (fuel : ℕ) → List ℤ → (start end : ℕ) → Tree
build_tree zero head start end = leaf
build_tree (suc fuel) head start end =
    let slow = middle (end - start) start start end in
    let left = build_tree fuel head start slow in
    let right = build_tree fuel head (slow + 1) end in
    if start == end then leaf else node left (get_or head slow (pos 0)) right

unfoldable pub sorted_list_to_bst : List ℤ → Tree
unfolding build_tree
sorted_list_to_bst head = build_tree (length head) head 0 (length head)
