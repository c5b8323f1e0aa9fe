-- ===== src/MedianFinder.antt =====
-- 295.c: the median of the numbers added so far, by a red-black tree with sizes. A node that is
-- reached through parent pointers is its subtree with the path above it: plugging the subtree into
-- its path gives the tree at `root`. `none` is an access through a NULL pointer, or a sum that overflows.
pub mod Contents
pub mod Balance
pub mod Rounds
pub mod Descend
pub mod Insert
pub mod Select
mod Tests
use leetcode.Base.{
  ℕ, zero, suc, ◌+◌, ◌-◌, ◌/◌, ◌%◌, Bool, true, false, Option, none, some, List, [], ◌∷◌, leb, ◌==◌,
  if◌then◌else◌, length,
}
use leetcode.Base.Int.{ℤ, ltb_ℤ, ◌+ℤ◌, is_int}
use leetcode.Base.Fallible.{◌>>=◌}

pub data Color : Type 0 where
  red black : Color

-- A `RBTNode *` with what hangs under it.
pub data Tree : Type 0 where
  leaf : Tree
  node : (left : Tree) → (val : ℤ) → (color : Color) → (size : ℕ) → (right : Tree) → Tree

-- The parent of a node without the node itself, which is its left or its right child.
pub data Frame : Type 0 where
  of_left : (val : ℤ) → (color : Color) → (size : ℕ) → (right : Tree) → Frame
  of_right : (left : Tree) → (val : ℤ) → (color : Color) → (size : ℕ) → Frame

-- The parent of a node, the parent of that, and so on up to the root.
abbrev pub Frames : Type 0
Frames = List Frame

abbrev pub plug : Tree → Frame → Tree
plug t (of_left v c s r) = node t v c s r
plug t (of_right l v c s) = node l v c s t

-- The tree from its root on.
abbrev pub zip : Tree → Frames → Tree
zip t [] = t
zip t (f ∷ path) = zip (plug t f) path

abbrev pub node_size : Tree → ℕ
node_size leaf = 0
node_size (node l v c s r) = s

abbrev pub new_node : ℤ → Tree
new_node val = node leaf val red 1 leaf

-- The rotation replaces the tree at x by the one at y.
unfoldable pub left_rotate : Tree → Option Tree
left_rotate leaf = none
left_rotate (node a v c s leaf) = none
left_rotate (node a xv xc xs (node b yv yc ys c)) =
    let x_size = 1 + node_size a + node_size b in
    some (node (node a xv xc x_size b) yv yc (1 + x_size + node_size c) c)

unfoldable pub right_rotate : Tree → Option Tree
right_rotate leaf = none
right_rotate (node leaf v c s r) = none
right_rotate (node (node a xv xc xs b) yv yc ys c) =
    let y_size = 1 + node_size b + node_size c in
    some (node a xv xc (1 + node_size a + y_size) (node b yv yc y_size c))

abbrev pub is_red : Tree → Bool
is_red leaf = false
is_red (node l v red s r) = true
is_red (node l v black s r) = false

abbrev pub frame_is_red : Frame → Bool
frame_is_red (of_left v red s r) = true
frame_is_red (of_left v black s r) = false
frame_is_red (of_right l v red s) = true
frame_is_red (of_right l v black s) = false

-- color = BLACK
abbrev pub blacken : Tree → Tree
blacken leaf = leaf
blacken (node l v c s r) = node l v black s r

abbrev pub blacken_frame : Frame → Frame
blacken_frame (of_left v c s r) = of_left v black s r
blacken_frame (of_right l v c s) = of_right l v black s

-- The left or the right child with its parent.
abbrev pub go_left : Tree → Option (Tree × Frame)
go_left leaf = none
go_left (node l v c s r) = some (l, of_left v c s r)

abbrev pub go_right : Tree → Option (Tree × Frame)
go_right leaf = none
go_right (node l v c s r) = some (r, of_right l v c s)

-- if(z == z->parent->right) { z = z->parent; leftRotate(z); }
unfoldable pub turn_left : Tree → Frame → Option (Tree × Frame)
unfolding left_rotate
turn_left z (of_left v c s r) = some (z, of_left v c s r)
turn_left z (of_right l v c s) = do t ← left_rotate (node l v c s z); go_left t

-- if(z == z->parent->left) { z = z->parent; rightRotate(z); }
unfoldable pub turn_right : Tree → Frame → Option (Tree × Frame)
unfolding right_rotate
turn_right z (of_right l v c s) = some (z, of_right l v c s)
turn_right z (of_left v c s r) = do t ← right_rotate (node z v c s r); go_right t

-- What is left of a round when the uncle is not red: gp is rotated, and z is a child of the node
-- that takes its place.
unfoldable pub rotate_left_side :
    Tree → Frame → ℤ → ℕ → (uncle : Tree) → Frames → Option (Tree × Frames)
unfolding turn_left right_rotate
rotate_left_side z p v s y up = do
  (z, p) ← turn_left z p
  t ← right_rotate (node (plug z (blacken_frame p)) v red s y)
  (z, p) ← go_left t
  some (z, p ∷ up)

unfoldable pub rotate_right_side :
    Tree → Frame → (uncle : Tree) → ℤ → ℕ → Frames → Option (Tree × Frames)
unfolding turn_right left_rotate
rotate_right_side z p y v s up = do
  (z, p) ← turn_right z p
  t ← left_rotate (node y v red s (plug z (blacken_frame p)))
  (z, p) ← go_right t
  some (z, p ∷ up)

-- A round of the loop of insertFixup, with the parent p and the path from gp on: the new z.
unfoldable pub fixup_round : Tree → (p : Frame) → Frames → Option (Tree × Frames)
unfolding rotate_left_side rotate_right_side
fixup_round z p [] = none
fixup_round z p (of_left v c s y ∷ up) =
    if is_red y
    then some (node (plug z (blacken_frame p)) v red s (blacken y), up)
    else rotate_left_side z p v s y up
fixup_round z p (of_right y v c s ∷ up) =
    if is_red y
    then some (node (blacken y) v red s (plug z (blacken_frame p)), up)
    else rotate_right_side z p y v s up

-- The loop, and the root after it.
unfoldable pub fixup_loop : (fuel : ℕ) → Tree → Frames → Option Tree
unfolding fixup_round
fixup_loop zero z path = none
fixup_loop (suc fuel) z [] = some z
fixup_loop (suc fuel) z (p ∷ up) = elim (frame_is_red p) [
  | true ↦ do (z, path) ← fixup_round z p up; fixup_loop fuel z path
  | false ↦ some (zip z (p ∷ up))
]

-- Every round leaves a shorter path.
unfoldable pub insert_fixup : Tree → Frames → Option Tree
unfolding fixup_loop
insert_fixup z path = do root ← fixup_loop (length path + 1) z path; some (blacken root)

-- The loop of insertRBT from x on, below the path that it came: where the new node goes. The test
-- after the loop is the last test of the loop.
unfoldable pub descend : (val : ℤ) → Tree → Frames → Frames
descend val leaf path = path
descend val (node l v c s r) path =
    let to_left = descend val l (of_left v c (s + 1) r ∷ path) in
    let to_right = descend val r (of_right l v c (s + 1) ∷ path) in
    if ltb_ℤ val v then to_left else to_right

unfoldable pub insert_rbt : Tree → ℤ → Option Tree
unfolding descend insert_fixup
insert_rbt root val = insert_fixup (new_node val) (descend val root [])

unfoldable pub kth_smallest : Tree → (k : ℕ) → Option ℤ
kth_smallest leaf k = none
kth_smallest (node l v c s r) k =
    let to_left = kth_smallest l k in
    let to_right = kth_smallest r (k - node_size l - 1) in
    if k == node_size l + 1 then some v else if leb k (node_size l) then to_left else to_right

-- A double that is an integer or half of one.
pub data Double : Type 0 where
  whole : ℤ → Double
  half_of : ℤ → Double

-- a + b in `int`, where an overflow is not defined.
unfoldable pub add_int : ℤ → ℤ → Option ℤ
add_int a b = if is_int (a +ℤ b) then some (a +ℤ b) else none

unfoldable pub find_median : Tree → Option Double
unfolding kth_smallest add_int
find_median root =
    let n = node_size root in
    if n % 2 == 1 then (do a ← kth_smallest root (n / 2 + 1); some (whole a)) else (do
      a ← kth_smallest root (n / 2)
      b ← kth_smallest root (n / 2 + 1)
      s ← add_int a b
      some (half_of s))

-- A run of medianFinderAddNum on a new MedianFinder.
unfoldable pub add_all : Tree → List ℤ → Option Tree
unfolding insert_rbt
add_all root [] = some root
add_all root (num ∷ nums) = do root ← insert_rbt root num; add_all root nums
