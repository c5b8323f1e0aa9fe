-- ===== src/ThirdMax/Insert.antt =====
-- 414.c: insertValue keeps the distinct values in order.
use leetcode.Base.{
  ℕ, ◌+◌, ◌≡◌, refl, sym, ap, ◌∙◌, subst, false, Option, some, [], ◌∷◌, ◌++◌, arith,
}
use leetcode.Base.Int.{ℤ}
use mathlib.Core.List.{append-nil}
use leetcode.MedianFinder.{red, black, Tree, leaf, of_left, of_right, Frames, is_red}
use leetcode.MedianFinder.Contents.{contents, count, IsSized, IsSizedPath, zip-IsSized}
use leetcode.MedianFinder.Descend.{before, after, contents-zip}
use leetcode.Tree.Sorted.{IsSorted}
use leetcode.ThirdMax.{create_node, get_size, update_sizes, insert_at, insert_value}
use leetcode.ThirdMax.Loop.{is_rooted, get_size_lem, fix_insert_lem}
use leetcode.ThirdMax.Distinct.{insert_distinct, insert_distinct-IsSorted}
use leetcode.ThirdMax.Search.{IsSizedBeside, Searched, found, missing, search-Searched}

-- updateSize on the path.
update_sizes-IsSizedPath :
    (n : ℕ) (path : Frames) → IsSizedBeside path → IsSizedPath (update_sizes n path) n
unfolding update_sizes
update_sizes-IsSizedPath n [] h = tt
update_sizes-IsSizedPath n (of_left v c s r ∷ up) h =
    let e : n + get_size r + 1 ≡ 1 + n + count r = omega (arith, get_size_lem r h.0) in
    (
      e,
      h.0,
      subst (IsSizedPath (update_sizes (n + get_size r + 1) up)) e
          (update_sizes-IsSizedPath (n + get_size r + 1) up h.1),
    )
update_sizes-IsSizedPath n (of_right l v c s ∷ up) h =
    let e : get_size l + n + 1 ≡ 1 + count l + n = omega (arith, get_size_lem l h.0) in
    (
      e,
      h.0,
      subst (IsSizedPath (update_sizes (get_size l + n + 1) up)) e
          (update_sizes-IsSizedPath (get_size l + n + 1) up h.1),
    )

before-update_sizes : (n : ℕ) (path : Frames) → before (update_sizes n path) ≡ before path
unfolding update_sizes before
before-update_sizes n [] = refl
before-update_sizes n (of_left v c s r ∷ up) = before-update_sizes (n + get_size r + 1) up
before-update_sizes n (of_right l v c s ∷ up) =
    ap (λ xs. xs ++ (contents l ++ (v ∷ []))) (before-update_sizes (get_size l + n + 1) up)

after-update_sizes : (n : ℕ) (path : Frames) → after (update_sizes n path) ≡ after path
unfolding update_sizes after
after-update_sizes n [] = refl
after-update_sizes n (of_left v c s r ∷ up) =
    ap (λ xs. v ∷ (contents r ++ xs)) (after-update_sizes (n + get_size r + 1) up)
after-update_sizes n (of_right l v c s ∷ up) = after-update_sizes (get_size l + n + 1) up

is_rooted-update_sizes : (n : ℕ) (path : Frames) → is_rooted (update_sizes n path) ≡ is_rooted path
unfolding update_sizes
is_rooted-update_sizes n [] = refl
is_rooted-update_sizes n (of_left v red s r ∷ []) = refl
is_rooted-update_sizes n (of_left v black s r ∷ []) = refl
is_rooted-update_sizes n (of_right l v red s ∷ []) = refl
is_rooted-update_sizes n (of_right l v black s ∷ []) = refl
is_rooted-update_sizes n (of_left v c s r ∷ of_left v' c' s' r' ∷ up) =
    is_rooted-update_sizes (n + get_size r + 1) (of_left v' c' s' r' ∷ up)
is_rooted-update_sizes n (of_left v c s r ∷ of_right l' v' c' s' ∷ up) =
    is_rooted-update_sizes (n + get_size r + 1) (of_right l' v' c' s' ∷ up)
is_rooted-update_sizes n (of_right l v c s ∷ of_left v' c' s' r' ∷ up) =
    is_rooted-update_sizes (get_size l + n + 1) (of_left v' c' s' r' ∷ up)
is_rooted-update_sizes n (of_right l v c s ∷ of_right l' v' c' s' ∷ up) =
    is_rooted-update_sizes (get_size l + n + 1) (of_right l' v' c' s' ∷ up)

pub record IsSound (t : Tree) : Type 0 where
  pub sized : IsSized t
  pub sorted : IsSorted (contents t)
  pub black_root : is_red t ≡ false

pub leaf-IsSound : IsSound leaf
unfolding contents
leaf-IsSound = record { sized = tt; sorted = tt; black_root = refl }

inserted :
    (val : ℤ) (t : Tree) {o : Option Frames}
    → IsSound t
    → Searched val t [] o
    → (root : Tree) × (insert_at t val o ≡ some root)
      × IsSound root
      × (contents root ≡ insert_distinct val (contents t))
unfolding insert_at before after count contents
inserted val t w (found e) = (t, refl, w, sym e)
inserted val t w (missing place e rooted beside) =
    let path = update_sizes 1 place in
    let (root, f, g, h, i) =
      fix_insert_lem leaf val red 1 leaf path (is_rooted-update_sizes 1 place ∙ rooted) in
    let values : contents root ≡ insert_distinct val (contents t) =
      g
      ∙ contents-zip (create_node val) path
      ∙ rw (before-update_sizes 1 place, after-update_sizes 1 place)
          (e ∙ append-nil (insert_distinct val (contents t))) in
    (
      root,
      f,
      record {
        sized = h (
            zip-IsSized (create_node val) path (refl, tt, tt)
              (update_sizes-IsSizedPath 1 place beside));
        sorted = subst IsSorted (sym values) (insert_distinct-IsSorted val (contents t) w.sorted);
        black_root = i;
      },
      values,
    )

-- In a tree with right sizes, a black root and its distinct values in order, insertValue goes
-- through no NULL pointer and ends, and it returns such a tree, with the new value in its place if
-- it was not there.
pub insert_value_lem :
    (t : Tree) (val : ℤ)
    → IsSound t
    → (root : Tree) × (insert_value t val ≡ some root)
      × IsSound root
      × (contents root ≡ insert_distinct val (contents t))
unfolding insert_value
insert_value_lem t val w =
    inserted val t w (search-Searched val t [] w.sorted w.sized tt w.black_root)
