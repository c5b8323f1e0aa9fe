-- ===== src/ThirdMax/Loop.antt =====
-- 414.c: the loop of fixInsert keeps the values and the sizes, and ends.
use leetcode.Base.{
  ℕ, zero, suc, ◌+◌, ◌*◌, ◌≤◌, ◌<◌, ◌≡◌, refl, sym, ap, ◌∙◌, subst, Bool, true, false, Bool-cases,
  inl, inr, Option, some, [], ◌∷◌, arith, length, not,
}
use leetcode.Base.Int.{ℤ}
use leetcode.Base.Fallible.{◌>>=◌}
use mathlib.Core.List.{append_assoc}
use leetcode.MedianFinder.{
  Color, red, black, Tree, leaf, node, Frame, of_left, of_right, Frames, plug, zip, is_red,
  frame_is_red, blacken,
}
use leetcode.MedianFinder.Contents.{
  blacken-contents, blacken-IsSized, is_red-blacken, contents, count, IsSized, zip-contents,
  replaced-IsSized,
}
use leetcode.ThirdMax.{
  left_rotate, right_rotate, rotate_round, fix_round, fix_loop, fix_insert, get_size,
}

-- The topmost node, the root, is black.
abbrev pub is_rooted : Frames → Bool
is_rooted [] = true
is_rooted (f ∷ []) = not (frame_is_red f)
is_rooted (f ∷ g ∷ up) = is_rooted (g ∷ up)

-- Falls with each round.
abbrev pub rank : Frames → ℕ
rank [] = 0
rank (of_left v c s r ∷ up) = 2 * length up + 2
rank (of_right l v c s ∷ up) = 2 * length up + 3

-- The round goes on with a lower rank and the same root, and below `up` with the same values and
-- right sizes.
data Fixed (k : ℕ) (up : Frames) (t : Tree) : Option (Tree × Frames) → Type 0 where
  fixed :
      (l : Tree) (v : ℤ) (c : Color) (s : ℕ) (r : Tree) (path : Frames) (u : Tree)
      → zip (node l v c s r) path ≡ zip u up
      → contents u ≡ contents t
      → (IsSized t → IsSized u)
      → rank path < k
      → is_rooted path ≡ true
      → Fixed k up t (some (node l v c s r, path))

pub get_size_lem : (t : Tree) → IsSized t → get_size t ≡ count t
unfolding count
get_size_lem leaf h = refl
get_size_lem (node l v c s r) h = h.0

resized :
    (l : Tree) (v : ℤ) (c : Color) (r : Tree)
    → IsSized l
    → IsSized r
    → IsSized (node l v c (get_size l + get_size r + 1) r)
resized l v c r h k = (omega (arith, get_size_lem l h, get_size_lem r k), h, k)

rooted_tail : (f : Frame) (up : Frames) → is_rooted (f ∷ up) ≡ true → is_rooted up ≡ true
rooted_tail f [] e = refl
rooted_tail f (g ∷ up) e = e

rooted_black :
    (f g : Frame) (up : Frames)
    → frame_is_red f ≡ false
    → is_rooted (g ∷ up) ≡ true
    → is_rooted (f ∷ up) ≡ true
rooted_black f g [] e h = ground (arith, e)
rooted_black f g (x ∷ up) e h = h

rank_le : (path : Frames) → rank path ≤ 2 * length path + 1
rank_le [] = omega arith
rank_le (of_left v c s r ∷ up) = omega arith
rank_le (of_right l v c s ∷ up) = omega arith

rank_ge : (f : Frame) (up : Frames) → 2 * length up + 2 ≤ rank (f ∷ up)
rank_ge (of_left v c s r) up = omega arith
rank_ge (of_right l v c s) up = omega arith

module _ (a b : Tree) (zv : ℤ) (zc : Color) (zs : ℕ) (up : Frames) where
  rotated :
      (gv : ℤ) (gc : Color) (gs : ℕ) (p : Frame) (y : Tree)
      → is_rooted (p ∷ of_left gv gc gs y ∷ up) ≡ true
      → Fixed
          (rank (p ∷ of_left gv gc gs y ∷ up))
          up
          (plug (plug (node a zv zc zs b) p) (of_left gv gc gs y))
          (rotate_round (node a zv zc zs b) p gv gc gs y up)
  unfolding rotate_round left_rotate right_rotate contents count
  rotated gv gc gs (of_left pv pc ps q) y e =
      fixed a zv zc zs b _ _ refl (simp append_assoc refl)
        (λ w.
          resized (node a zv zc zs b) pv black (node q gv red (get_size q + get_size y + 1) y) w.1.1
            (resized q gv red y w.1.2 w.2))
        (omega arith)
        (rooted_black
          (of_left pv black (get_size (node a zv zc zs b) + (get_size q + get_size y + 1) + 1)
            (node q gv red (get_size q + get_size y + 1) y))
          (of_left gv gc gs y) up refl e)
  rotated gv gc gs (of_right q pv pc ps) y e =
      fixed q pv pc _ a _
        (node
          (node (node q pv pc (get_size q + get_size a + 1) a) zv zc
            (get_size q + get_size a + 1 + get_size b + 1) b)
          gv gc gs y)
        refl (simp append_assoc refl)
        (λ w. (
          omega (arith, w.0),
          resized (node q pv pc (get_size q + get_size a + 1) a) zv zc b
              (resized q pv pc a w.1.1 w.1.2.1) w.1.2.2,
          w.2,
        ))
        (omega arith) e

  fix_round_lem :
      (p g : Frame)
      → is_rooted (p ∷ g ∷ up) ≡ true
      → Fixed
          (rank (p ∷ g ∷ up))
          up
          (plug (plug (node a zv zc zs b) p) g)
          (fix_round (node a zv zc zs b) p (g ∷ up))
  unfolding fix_round contents count
  fix_round_lem p (of_left gv gc gs leaf) e = rotated gv gc gs p leaf e
  fix_round_lem p (of_left gv gc gs (node c yv black ys d)) e =
      rotated gv gc gs p (node c yv black ys d) e
  fix_round_lem (of_left pv pc ps q) (of_left gv gc gs (node c yv red ys d)) e =
      fixed (node (node a zv zc zs b) pv black ps q) gv red gs (node c yv black ys d) up
        (node (node (node a zv zc zs b) pv black ps q) gv red gs (node c yv black ys d)) refl refl
        (λ w. w) (omega (arith, rank_le up))
        (rooted_tail (of_left gv gc gs (node c yv red ys d)) up e)
  fix_round_lem (of_right q pv pc ps) (of_left gv gc gs (node c yv red ys d)) e =
      fixed (node q pv black ps (node a zv zc zs b)) gv red gs (node c yv black ys d) up
        (node (node q pv black ps (node a zv zc zs b)) gv red gs (node c yv black ys d)) refl refl
        (λ w. w) (omega (arith, rank_le up))
        (rooted_tail (of_left gv gc gs (node c yv red ys d)) up e)
  fix_round_lem (of_left pv pc ps q) (of_right y gv gc gs) e =
      fixed y gv red gs (node (node a zv zc zs b) pv black ps q) up
        (node y gv red gs (node (node a zv zc zs b) pv black ps q)) refl refl (λ w. w)
        (omega (arith, rank_le up)) (rooted_tail (of_right y gv gc gs) up e)
  fix_round_lem (of_right q pv pc ps) (of_right y gv gc gs) e =
      fixed y gv red gs (node q pv black ps (node a zv zc zs b)) up
        (node y gv red gs (node q pv black ps (node a zv zc zs b))) refl refl (λ w. w)
        (omega (arith, rank_le up)) (rooted_tail (of_right y gv gc gs) up e)

-- A root with the values of `t`, and with right sizes if those of `t` are.
abbrev pub Done : Tree → Option Tree → Type 0
Done t o =
    (root : Tree) × (o ≡ some root) × (contents root ≡ contents t) × (IsSized t → IsSized root)

abbrev IsFixing : (fuel : ℕ) → Type 0
IsFixing fuel =
    (l : Tree) (v : ℤ) (c : Color) (s : ℕ) (r : Tree) (path : Frames)
    → rank path < fuel
    → is_rooted path ≡ true
    → Done (zip (node l v c s r) path) (fix_loop fuel (node l v c s r) path)

after_round :
    (fuel k : ℕ) (up : Frames) (t : Tree) {o : Option (Tree × Frames)}
    → IsFixing fuel
    → k ≤ fuel
    → Fixed k up t o
    → Done (zip t up) (o >>= λ (z, path). fix_loop fuel z path)
after_round fuel k up t ih b (fixed l v c s r path u e d w lower rooted) =
    let (root, f, g, i) = ih l v c s r path (omega (arith, b, lower)) rooted in
    (
      root,
      f,
      g ∙ ap contents e ∙ zip-contents u t up d,
      λ a. i (subst IsSized (sym e) (replaced-IsSized t u up (sym d) w a)),
    )

pub fix_loop_lem : (fuel : ℕ) → IsFixing fuel
unfolding fix_loop
fix_loop_lem zero l v c s r path b e = absurd (omega (arith, b))
fix_loop_lem (suc fuel) l v c s r [] b e = (node l v c s r, refl, refl, λ w. w)
fix_loop_lem (suc fuel) l v c s r (p ∷ []) b e = elim (Bool-cases (frame_is_red p)) [
  | inl d ↦ absurd (ground (arith, d, e))
  | inr d ↦ rw (d, fix_loop) (zip (node l v c s r) (p ∷ []), refl, refl, λ w. w)
]
fix_loop_lem (suc fuel) l v c s r (p ∷ g ∷ up) b e = elim (Bool-cases (frame_is_red p)) [
  | inl d ↦
      rw (d, fix_loop)
        (after_round fuel (rank (p ∷ g ∷ up)) up _ (fix_loop_lem fuel) (omega (arith, b))
          (fix_round_lem l r v c s up p g e))
  | inr d ↦ rw (d, fix_loop) (zip (node l v c s r) (p ∷ g ∷ up), refl, refl, λ w. w)
]

pub fix_insert_lem :
    (l : Tree) (v : ℤ) (c : Color) (s : ℕ) (r : Tree) (path : Frames)
    → is_rooted path ≡ true
    → (root : Tree) × (fix_insert (node l v c s r) path ≡ some root)
      × (contents root ≡ contents (zip (node l v c s r) path))
      × (IsSized (zip (node l v c s r) path) → IsSized root)
      × (is_red root ≡ false)
unfolding fix_insert
fix_insert_lem l v c s r path e =
    let (root, f, g, i) =
      fix_loop_lem (2 * length path + 2) l v c s r path (omega (arith, rank_le path)) e in
    (
      blacken root,
      ap (λ o. o >>= λ t. some (blacken t)) f,
      blacken-contents root ∙ g,
      λ w. blacken-IsSized root (i w),
      is_red-blacken root,
    )
