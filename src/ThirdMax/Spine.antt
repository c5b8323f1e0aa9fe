-- ===== src/ThirdMax/Spine.antt =====
-- 414.c: values that come in rising order. Where the parent is a right child, the uncle that
-- fixInsert looks at is the parent, so nothing is rotated.
use leetcode.Base.{
  ℕ, zero, suc, ◌+◌, ◌*◌, ◌≡◌, refl, sym, ap, ◌∙◌, subst, Bool, true, false, Option, some, none,
  List, [], ◌∷◌, ◌++◌, arith, All, length,
}
use leetcode.Base.Int.{ℤ, ltb_ℤ, eqb_ℤ, ◌<ℤ◌}
use leetcode.Base.Fallible.{◌>>=◌}
use mathlib.Core.List.{append_assoc, append-nil}
use leetcode.MedianFinder.{red, black, Tree, leaf, node, of_left, of_right, Frames, zip, blacken}
use leetcode.MedianFinder.Contents.{contents, count, length-contents}
use leetcode.MedianFinder.Balance.{height}
use leetcode.Tree.Sorted.{IsSorted, IsSorted-split}
use leetcode.ThirdMax.{
  create_node, search, update_sizes, insert_at, insert_value, insert_all, fix_insert, fix_loop,
  fix_round, without_grandparent,
}
use leetcode.ThirdMax.Insert.{IsSound, leaf-IsSound, insert_value_lem}
use leetcode.ThirdMax.Distinct.{insert_distinct}

-- No node has a left child.
abbrev pub is_spine : Tree → Bool
is_spine leaf = true
is_spine (node leaf v c s r) = is_spine r
is_spine (node (node a b d e f) v c s r) = false

abbrev goes_right : Frames → Bool
goes_right [] = true
goes_right (of_right leaf v c s ∷ up) = goes_right up
goes_right (of_right (node a b d e f) v c s ∷ up) = false
goes_right (of_left v c s r ∷ up) = false

abbrev gives_spine : Option Tree → Bool
gives_spine none = true
gives_spine (some t) = is_spine t

abbrev gives_right : Option Frames → Bool
gives_right none = true
gives_right (some path) = goes_right path

is_spine-zip :
    (t : Tree) (path : Frames)
    → is_spine t ≡ true
    → goes_right path ≡ true
    → is_spine (zip t path) ≡ true
is_spine-zip t [] h k = h
is_spine-zip t (of_right leaf v c s ∷ up) h k = is_spine-zip (node leaf v c s t) up h k
is_spine-zip t (of_right (node a b d e f) v c s ∷ up) h k = absurd (ground (arith, k))
is_spine-zip t (of_left v c s r ∷ up) h k = absurd (ground (arith, k))

fix_loop_spine :
    (fuel : ℕ) (z : Tree) (path : Frames)
    → is_spine z ≡ true
    → goes_right path ≡ true
    → gives_spine (fix_loop fuel z path) ≡ true
unfolding fix_loop fix_round without_grandparent
fix_loop_spine zero z path h k = refl
fix_loop_spine (suc fuel) z [] h k = h
fix_loop_spine (suc fuel) z (of_right leaf v black s ∷ up) h k =
    is_spine-zip (node leaf v black s z) up h k
fix_loop_spine (suc fuel) z (of_right leaf v red s ∷ []) h k =
    fix_loop_spine fuel z (of_right leaf v black s ∷ []) h refl
fix_loop_spine (suc fuel) z (of_right leaf v red s ∷ of_right leaf gv gc gs ∷ up) h k =
    fix_loop_spine fuel (node leaf gv red gs (node leaf v black s z)) up h k
fix_loop_spine (suc fuel) z (of_right leaf v red s ∷ of_right (node a b d e f) gv gc gs ∷ up) h k =
    absurd (ground (arith, k))
fix_loop_spine (suc fuel) z (of_right leaf v red s ∷ of_left gv gc gs r ∷ up) h k =
    absurd (ground (arith, k))
fix_loop_spine (suc fuel) z (of_right (node a b d e f) v c s ∷ up) h k = absurd (ground (arith, k))
fix_loop_spine (suc fuel) z (of_left v c s r ∷ up) h k = absurd (ground (arith, k))

search_spine :
    (val : ℤ) (t : Tree) (path : Frames)
    → is_spine t ≡ true
    → All (λ y. y <ℤ val) (contents t)
    → goes_right path ≡ true
    → gives_right (search val t path) ≡ true
unfolding search contents
search_spine val leaf path h a k = k
search_spine val (node (node x y z w u) v c s r) path h a k = absurd (ground (arith, h))
search_spine val (node leaf v c s r) path h a k =
    let e : eqb_ℤ val v ≡ false = ground (arith, a.0) in
    let f : ltb_ℤ val v ≡ false = ground (arith, a.0) in
    rw (e, f, search) (search_spine val r (of_right leaf v c s ∷ path) h a.1 k)

goes_right-update_sizes :
    (n : ℕ) (path : Frames) → goes_right (update_sizes n path) ≡ goes_right path
unfolding update_sizes
goes_right-update_sizes n [] = refl
goes_right-update_sizes n (of_right leaf v c s ∷ up) = goes_right-update_sizes (0 + n + 1) up
goes_right-update_sizes n (of_right (node a b d e f) v c s ∷ up) = refl
goes_right-update_sizes n (of_left v c s r ∷ up) = refl

is_spine-blacken : (t : Tree) → is_spine (blacken t) ≡ is_spine t
is_spine-blacken leaf = refl
is_spine-blacken (node leaf v c s r) = refl
is_spine-blacken (node (node a b d e f) v c s r) = refl

blackened :
    (o : Option Tree) → gives_spine o ≡ true → gives_spine (o >>= λ t. some (blacken t)) ≡ true
blackened none h = refl
blackened (some t) h = is_spine-blacken t ∙ h

insert_at_spine :
    (t : Tree) (val : ℤ) (o : Option Frames)
    → is_spine t ≡ true
    → gives_right o ≡ true
    → gives_spine (insert_at t val o) ≡ true
unfolding insert_at fix_insert
insert_at_spine t val none h k = h
insert_at_spine t val (some path) h k =
    let up = update_sizes 1 path in
    let fuel = 2 * length up + 2 in
    blackened (fix_loop fuel (create_node val) up)
      (fix_loop_spine fuel (create_node val) up refl (goes_right-update_sizes 1 path ∙ k))

insert_value_spine :
    (t : Tree) (val : ℤ)
    → is_spine t ≡ true
    → All (λ y. y <ℤ val) (contents t)
    → gives_spine (insert_value t val) ≡ true
unfolding insert_value
insert_value_spine t val h a =
    insert_at_spine t val (search val t []) h (search_spine val t [] h a refl)

distinct_last : (v : ℤ) (xs : List ℤ) → All (λ y. y <ℤ v) xs → insert_distinct v xs ≡ xs ++ (v ∷ [])
unfolding insert_distinct
distinct_last v [] a = refl
distinct_last v (x ∷ xs) a =
    let e : eqb_ℤ v x ≡ false = ground (arith, a.0) in
    let f : ltb_ℤ v x ≡ false = ground (arith, a.0) in
    rw (e, f) (ap (λ ys. x ∷ ys) (distinct_last v xs a.1))

height-spine : (t : Tree) → is_spine t ≡ true → height t ≡ count t
unfolding count height
height-spine leaf h = refl
height-spine (node (node a b d e f) v c s r) h = absurd (ground (arith, h))
height-spine (node leaf v c s r) h = ground (arith, height-spine r h)

insert_all_spine :
    (nums : List ℤ) (t : Tree)
    → IsSound t
    → is_spine t ≡ true
    → IsSorted (contents t ++ nums)
    → (root : Tree) × (insert_all t nums ≡ some root)
      × (is_spine root ≡ true)
      × (contents root ≡ contents t ++ nums)
unfolding insert_all
insert_all_spine [] t w h s = (t, refl, h, sym (append-nil (contents t)))
insert_all_spine (num ∷ nums) t w h s =
    let (root, e, v, c) = insert_value_lem t num w in
    let (sl, below, ar, sr) = IsSorted-split (contents t) num nums s in
    let split : contents root ++ nums ≡ contents t ++ (num ∷ nums) =
      ap (λ xs. xs ++ nums) (c ∙ distinct_last num (contents t) below)
      ∙ append_assoc (contents t) (num ∷ []) nums in
    let (final, f, u, d) =
      insert_all_spine nums root v
        (subst (λ o. gives_spine o ≡ true) e (insert_value_spine t num h below))
        (subst IsSorted (sym split) s) in
    (final, ap (λ o. o >>= λ r. insert_all r nums) e ∙ f, u, d ∙ split)

-- Numbers in rising order give a tree in which no node has a left child, so that it is as high as
-- there are numbers.
pub insert_all-height :
    (nums : List ℤ)
    → IsSorted nums
    → (root : Tree) × (insert_all leaf nums ≡ some root)
      × (is_spine root ≡ true)
      × (height root ≡ length nums)
insert_all-height nums s =
    let values : contents leaf ++ nums ≡ nums = unfold contents in refl in
    let (root, e, h, c) =
      insert_all_spine nums leaf leaf-IsSound refl (subst IsSorted (sym values) s) in
    (root, e, h, height-spine root h ∙ sym (length-contents root) ∙ ap length (c ∙ values))
