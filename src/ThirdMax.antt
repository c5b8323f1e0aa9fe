-- ===== src/ThirdMax.antt =====
-- 414.c: the third largest of the distinct numbers, by a tree with colours and sizes. Its nodes are
-- those of 295.c, and so is the way in which a node with parent pointers stands for its subtree with
-- the path above it. `none` is an access through a NULL pointer.
pub mod Loop
pub mod Distinct
pub mod Search
pub mod Insert
pub mod Result
pub mod Spine
mod Tests
use leetcode.Base.{
  ℕ, zero, suc, ◌+◌, ◌-◌, ◌*◌, Bool, true, false, Option, none, some, List, [], ◌∷◌, ltb, leb, ◌==◌,
  if◌then◌else◌, length,
}
use leetcode.Base.Int.{ℤ, negsuc, ltb_ℤ, eqb_ℤ}
use leetcode.Base.Fallible.{◌>>=◌}
use leetcode.MedianFinder.{
  Color, red, black, Tree, leaf, node, Frame, of_left, of_right, Frames, plug, zip, is_red,
  frame_is_red, blacken, blacken_frame, go_left, go_right,
}

abbrev pub create_node : ℤ → Tree
create_node value = node leaf value red 1 leaf

abbrev pub get_size : Tree → ℕ
get_size leaf = 0
get_size (node l v c s r) = s

abbrev pub update_size : Tree → Tree
update_size leaf = leaf
update_size (node l v c s r) = node l v c (get_size l + get_size r + 1) r

-- Without a right child nothing changes.
unfoldable pub left_rotate : Tree → Tree
left_rotate leaf = leaf
left_rotate (node a v c s leaf) = node a v c s leaf
left_rotate (node a xv xc xs (node b yv yc ys c)) =
    update_size (node (update_size (node a xv xc xs b)) yv yc ys c)

unfoldable pub right_rotate : Tree → Tree
right_rotate leaf = leaf
right_rotate (node leaf v c s r) = node leaf v c s r
right_rotate (node (node a yv yc ys b) xv xc xs c) =
    update_size (node a yv yc ys (update_size (node b xv xc xs c)))

-- The last branch of the loop, which is taken with no grandparent: its leftRotate(root, NULL) does
-- nothing.
unfoldable pub without_grandparent : Tree → Frame → Option (Tree × Frames)
unfolding right_rotate
without_grandparent z (of_right l v c s) = some (z, of_right l v black s ∷ [])
without_grandparent z (of_left v c s r) = do
  (parent, up) ← go_right (right_rotate (node z v c s r))
  some (blacken parent, up ∷ [])

-- The parent is a left child and the uncle is not red.
unfoldable pub rotate_round :
    Tree → Frame → ℤ → Color → ℕ → (uncle : Tree) → Frames → Option (Tree × Frames)
unfolding left_rotate right_rotate
rotate_round z (of_right l pv pc ps) v c s y up = do
  (z, p) ← go_left (left_rotate (node l pv pc ps z))
  some (z, p ∷ of_left v c s y ∷ up)
rotate_round z (of_left pv pc ps r) v c s y up = do
  (z, p) ← go_left (right_rotate (node (node z pv black ps r) v red s y))
  some (z, p ∷ up)

-- A round of the loop of fixInsert, below a red parent p. Where the parent is a right child, the
-- uncle is grandParent->right, the parent itself, so it is red.
unfoldable pub fix_round : Tree → (p : Frame) → Frames → Option (Tree × Frames)
unfolding without_grandparent rotate_round
fix_round z p [] = without_grandparent z p
fix_round z p (of_left v c s y ∷ up) =
    if is_red y
    then some (node (plug z (blacken_frame p)) v red s (blacken y), up)
    else rotate_round z p v c s y up
fix_round z p (of_right l v c s ∷ up) = some (node l v red s (plug z (blacken_frame p)), up)

unfoldable pub fix_loop : (fuel : ℕ) → Tree → Frames → Option Tree
unfolding fix_round
fix_loop zero z path = none
fix_loop (suc fuel) z [] = some z
fix_loop (suc fuel) z (p ∷ up) = elim (frame_is_red p) [
  | true ↦ do (z, path) ← fix_round z p up; fix_loop fuel z path
  | false ↦ some (zip z (p ∷ up))
]

-- A round leaves a shorter path, or one as long on which z is a left child.
unfoldable pub fix_insert : Tree → Frames → Option Tree
unfolding fix_loop
fix_insert z path = do root ← fix_loop (2 * length path + 2) z path; some (blacken root)

-- The search of insertValue: the path to the place of the new node, or none for a value that is
-- there.
unfoldable pub search : (val : ℤ) → Tree → Frames → Option Frames
search val leaf path = some path
search val (node l v c s r) path =
    let to_left = search val l (of_left v c s r ∷ path) in
    let to_right = search val r (of_right l v c s ∷ path) in
    if eqb_ℤ val v then none else if ltb_ℤ val v then to_left else to_right

-- updateSize on each node of a path, above a child of size `n`.
unfoldable pub update_sizes : (n : ℕ) → Frames → Frames
update_sizes n [] = []
update_sizes n (of_left v c s r ∷ up) =
    let m = n + get_size r + 1 in of_left v c m r ∷ update_sizes m up
update_sizes n (of_right l v c s ∷ up) =
    let m = get_size l + n + 1 in of_right l v c m ∷ update_sizes m up

unfoldable pub insert_at : Tree → ℤ → Option Frames → Option Tree
unfolding update_sizes fix_insert
insert_at root val none = some root
insert_at root val (some path) = fix_insert (create_node val) (update_sizes 1 path)

unfoldable pub insert_value : Tree → ℤ → Option Tree
unfolding search insert_at
insert_value root val = insert_at root val (search val root [])

unfoldable pub find_kth_largest : Tree → (k : ℕ) → ℤ
find_kth_largest leaf k = negsuc 0
find_kth_largest (node l v c s r) k =
    let root_size = get_size r in
    let to_right = find_kth_largest r k in
    let to_left = find_kth_largest l (k - root_size - 1) in
    if root_size + 1 == k then v else if leb k root_size then to_right else to_left

unfoldable pub insert_all : Tree → List ℤ → Option Tree
unfolding insert_value
insert_all root [] = some root
insert_all root (num ∷ nums) = do root ← insert_value root num; insert_all root nums

-- The end of thirdMax, which reads root->size.
unfoldable pub result : Tree → Option ℤ
unfolding find_kth_largest
result leaf = none
result (node l v c s r) = some (find_kth_largest (node l v c s r) (if ltb s 3 then 1 else 3))

unfoldable pub third_max : List ℤ → Option ℤ
unfolding insert_all result
third_max nums = do root ← insert_all leaf nums; result root
