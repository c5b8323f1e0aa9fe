-- ===== src/MedianFinder/Rounds.antt =====
-- 295.c: a round of the loop of insertFixup, for each of its cases.
use leetcode.Base.{ℕ, suc, ◌+◌, ◌≤◌, ◌≡◌, refl, true, false, Option, some, ◌∷◌, arith, length}
use leetcode.Base.Int.{ℤ}
use mathlib.Core.List.{append_assoc}
use leetcode.MedianFinder.{
  Color, red, black, Tree, leaf, node, Frame, of_left, of_right, Frames, plug, zip, left_rotate,
  right_rotate, rotate_left_side, rotate_right_side, turn_left, turn_right, fixup_round, is_red,
  frame_is_red, node_size,
}
use leetcode.MedianFinder.Contents.{contents, count, IsSized, node_size_lem}
use leetcode.MedianFinder.Balance.{IsBalanced, IsBalancedPath}

-- The round goes on with a red node on a shorter path. Below `up` the tree has the same values, and
-- the sizes and the colours are right, but for a red parent of that node.
pub data Fixed (up : Frames) (t : Tree) : Option (Tree × Frames) → Type 0 where
  fixed :
      (l : Tree) (v : ℤ) (s : ℕ) (r : Tree) (path : Frames) (u : Tree) (n : ℕ)
      → zip (node l v red s r) path ≡ zip u up
      → contents u ≡ contents t
      → (IsSized t → IsSized u)
      → length path ≤ length up + 1
      → IsBalanced (node l v red s r) n
      → IsBalancedPath path n
      → Fixed up t (some (node l v red s r, path))

resized :
    (l : Tree) (v : ℤ) (c : Color) (r : Tree)
    → IsSized l
    → IsSized r
    → IsSized (node l v c (1 + node_size l + node_size r) r)
resized l v c r h k = (omega (arith, node_size_lem l h, node_size_lem r k), h, k)

module _ (a b : Tree) (zv : ℤ) (zs : ℕ) (gv : ℤ) (gs : ℕ) (y : Tree) (up : Frames) (n : ℕ)
    (h : IsBalanced (node a zv red zs b) n) where
  rotated_left :
      (p : Frame)
      → frame_is_red p ≡ true
      → is_red y ≡ false
      → IsBalancedPath (p ∷ of_left gv black gs y ∷ up) n
      → Fixed up
          (plug (plug (node a zv red zs b) p) (of_left gv black gs y))
          (rotate_left_side (node a zv red zs b) p gv gs y up)
  unfolding turn_left left_rotate right_rotate rotate_left_side contents
  rotated_left (of_left pv black ps q) e f k = absurd (ground (arith, e))
  rotated_left (of_right q pv black ps) e f k = absurd (ground (arith, e))
  rotated_left (of_left pv red ps q) e f k =
      fixed a zv zs b _ _ n refl (simp append_assoc refl)
        (λ w.
          resized (node a zv red zs b) pv black (node q gv red (1 + node_size q + node_size y) y)
            w.1.1 (resized q gv red y w.1.2 w.2))
        (omega arith) h ((k.0, f, k.1, k.3.0), k.3.1)
  rotated_left (of_right q pv red ps) e f k =
      fixed q pv _ a _ _ n refl (simp append_assoc refl)
        (λ w.
          resized (node q pv red (1 + node_size q + node_size a) a) zv black
            (node b gv red (1 + node_size b + node_size y) y) (resized q pv red a w.1.1 w.1.2.1)
            (resized b gv red y w.1.2.2 w.2))
        (omega arith) (k.0, h.0, k.1, h.2) ((h.1, f, h.3, k.3.0), k.3.1)

  rotated_right :
      (p : Frame)
      → frame_is_red p ≡ true
      → is_red y ≡ false
      → IsBalancedPath (p ∷ of_right y gv black gs ∷ up) n
      → Fixed up
          (plug (plug (node a zv red zs b) p) (of_right y gv black gs))
          (rotate_right_side (node a zv red zs b) p y gv gs up)
  unfolding turn_right left_rotate right_rotate rotate_right_side contents
  rotated_right (of_left pv black ps q) e f k = absurd (ground (arith, e))
  rotated_right (of_right q pv black ps) e f k = absurd (ground (arith, e))
  rotated_right (of_right q pv red ps) e f k =
      fixed a zv zs b _ _ n refl (simp append_assoc refl)
        (λ w.
          resized (node y gv red (1 + node_size y + node_size q) q) pv black (node a zv red zs b)
            (resized y gv red q w.1 w.2.1) w.2.2)
        (omega arith) h ((f, k.0, k.3.0, k.1), k.3.1)
  rotated_right (of_left pv red ps q) e f k =
      fixed b pv _ q _ _ n refl (simp append_assoc refl)
        (λ w.
          resized (node y gv red (1 + node_size y + node_size a) a) zv black
            (node b pv red (1 + node_size b + node_size q) q) (resized y gv red a w.1 w.2.1.1)
            (resized b pv red q w.2.1.2 w.2.2))
        (omega arith) (h.1, k.0, h.3, k.1) ((f, h.0, k.3.0, h.2), k.3.1)

-- z, its red parent, and its black grandparent, which is the left or the right child of another.
module _ (a b : Tree) (zv : ℤ) (zs : ℕ) (gv : ℤ) (gs : ℕ) (up : Frames) (n : ℕ)
    (h : IsBalanced (node a zv red zs b) n) where
  pub Fixed-left :
      (p : Frame) (y : Tree)
      → frame_is_red p ≡ true
      → IsBalancedPath (p ∷ of_left gv black gs y ∷ up) n
      → Fixed up
          (plug (plug (node a zv red zs b) p) (of_left gv black gs y))
          (fixup_round (node a zv red zs b) p (of_left gv black gs y ∷ up))
  unfolding fixup_round contents count
  Fixed-left p leaf e k = rotated_left a b zv zs gv gs leaf up n h p e refl k
  Fixed-left p (node c yv black ys d) e k =
      rotated_left a b zv zs gv gs (node c yv black ys d) up n h p e refl k
  Fixed-left (of_left pv black ps q) (node c yv red ys d) e k = absurd (ground (arith, e))
  Fixed-left (of_right q pv black ps) (node c yv red ys d) e k = absurd (ground (arith, e))
  Fixed-left (of_left pv red ps q) (node c yv red ys d) e k =
      fixed _ _ _ _ up _ (suc n) refl refl (λ w. w) (omega arith)
        (refl, refl, (n, refl, h, k.1), (n, refl, k.3.0.2, k.3.0.3)) k.3.1
  Fixed-left (of_right q pv red ps) (node c yv red ys d) e k =
      fixed _ _ _ _ up _ (suc n) refl refl (λ w. w) (omega arith)
        (refl, refl, (n, refl, k.1, h), (n, refl, k.3.0.2, k.3.0.3)) k.3.1

  pub Fixed-right :
      (p : Frame) (y : Tree)
      → frame_is_red p ≡ true
      → IsBalancedPath (p ∷ of_right y gv black gs ∷ up) n
      → Fixed up
          (plug (plug (node a zv red zs b) p) (of_right y gv black gs))
          (fixup_round (node a zv red zs b) p (of_right y gv black gs ∷ up))
  unfolding fixup_round contents count
  Fixed-right p leaf e k = rotated_right a b zv zs gv gs leaf up n h p e refl k
  Fixed-right p (node c yv black ys d) e k =
      rotated_right a b zv zs gv gs (node c yv black ys d) up n h p e refl k
  Fixed-right (of_left pv black ps q) (node c yv red ys d) e k = absurd (ground (arith, e))
  Fixed-right (of_right q pv black ps) (node c yv red ys d) e k = absurd (ground (arith, e))
  Fixed-right (of_left pv red ps q) (node c yv red ys d) e k =
      fixed _ _ _ _ up _ (suc n) refl refl (λ w. w) (omega arith)
        (refl, refl, (n, refl, k.3.0.2, k.3.0.3), (n, refl, h, k.1)) k.3.1
  Fixed-right (of_right q pv red ps) (node c yv red ys d) e k =
      fixed _ _ _ _ up _ (suc n) refl refl (λ w. w) (omega arith)
        (refl, refl, (n, refl, k.3.0.2, k.3.0.3), (n, refl, k.1, h)) k.3.1
