-- ===== src/ThirdMax/Search.antt =====
-- 414.c: the search of insertValue ends at the place of the value.
use leetcode.Base.{
  ℕ, ◌≡◌, refl, sym, ap, ◌∙◌, subst, true, false, Bool-cases, inl, inr, Option, some, none, [], ◌∷◌,
  ◌++◌, arith, All,
}
use leetcode.Base.Int.{ℤ, ltb_ℤ, eqb_ℤ, ◌<ℤ◌, eqb→eq_ℤ}
use mathlib.Core.List.{append_assoc}
use leetcode.MedianFinder.{Color, red, black, Tree, leaf, node, of_left, of_right, Frames, is_red}
use leetcode.MedianFinder.Contents.{contents, IsSized}
use leetcode.MedianFinder.Descend.{before, after}
use leetcode.Tree.Sorted.{IsSorted, IsSorted-split}
use leetcode.ThirdMax.{search}
use leetcode.ThirdMax.Loop.{is_rooted}
use leetcode.ThirdMax.Distinct.{insert_distinct, distinct_here, distinct_left, distinct_right}

-- The trees beside a path have right sizes.
abbrev pub IsSizedBeside : Frames → Type 0
IsSizedBeside [] = Unit
IsSizedBeside (of_left v c s r ∷ up) = IsSized r × IsSizedBeside up
IsSizedBeside (of_right l v c s ∷ up) = IsSized l × IsSizedBeside up

-- Where the tree that a path leads to is the whole, it has a black root.
abbrev IsRootedAt : Tree → Frames → Type 0
IsRootedAt t [] = is_red t ≡ false
IsRootedAt t (f ∷ up) = is_rooted (f ∷ up) ≡ true

pub data Searched (val : ℤ) (t : Tree) (path : Frames) : Option Frames → Type 0 where
  found : insert_distinct val (contents t) ≡ contents t → Searched val t path none
  missing :
      (place : Frames)
      → before place ++ (val ∷ after place)
        ≡ before path ++ (insert_distinct val (contents t) ++ after path)
      → is_rooted place ≡ true
      → IsSizedBeside place
      → Searched val t path (some place)

rooted_left :
    (l : Tree) (v : ℤ) (c : Color) (s : ℕ) (r : Tree) (path : Frames)
    → IsRootedAt (node l v c s r) path
    → is_rooted (of_left v c s r ∷ path) ≡ true
rooted_left l v red s r [] e = absurd (ground (arith, e))
rooted_left l v black s r [] e = refl
rooted_left l v c s r (f ∷ up) e = e

rooted_right :
    (l : Tree) (v : ℤ) (c : Color) (s : ℕ) (r : Tree) (path : Frames)
    → IsRootedAt (node l v c s r) path
    → is_rooted (of_right l v c s ∷ path) ≡ true
rooted_right l v red s r [] e = absurd (ground (arith, e))
rooted_right l v black s r [] e = refl
rooted_right l v c s r (f ∷ up) e = e

module _ (val : ℤ) (l : Tree) (v : ℤ) (c : Color) (s : ℕ) (r : Tree) (path : Frames) where
  Searched-left :
      {o : Option Frames}
      → ltb_ℤ val v ≡ true
      → Searched val l (of_left v c s r ∷ path) o
      → Searched val (node l v c s r) path o
  unfolding contents before after
  Searched-left e (found d) =
      found (distinct_left val v (contents l) (contents r) e ∙ ap (λ xs. xs ++ (v ∷ contents r)) d)
  Searched-left e (missing place d rooted sized) =
      missing place
        (rw (distinct_left val v (contents l) (contents r) e) (d ∙ simp append_assoc refl)) rooted
        sized

  Searched-right :
      {o : Option Frames}
      → All (λ y. y <ℤ v) (contents l)
      → v <ℤ val
      → Searched val r (of_right l v c s ∷ path) o
      → Searched val (node l v c s r) path o
  unfolding contents before after
  Searched-right a e (found d) =
      found
        (distinct_right val v (contents l) (contents r) a e ∙ ap (λ xs. contents l ++ (v ∷ xs)) d)
  Searched-right a e (missing place d rooted sized) =
      missing place
        (rw (distinct_right val v (contents l) (contents r) a e) (d ∙ simp append_assoc refl))
        rooted sized

pub search-Searched :
    (val : ℤ) (t : Tree) (path : Frames)
    → IsSorted (contents t)
    → IsSized t
    → IsSizedBeside path
    → IsRootedAt t path
    → Searched val t path (search val t path)
unfolding search contents before after insert_distinct
search-Searched val leaf [] w h k e = missing [] refl refl tt
search-Searched val leaf (f ∷ up) w h k e = missing (f ∷ up) refl e k
search-Searched val (node l v c s r) path w h k e =
    let (sl, bl, ar, sr) = IsSorted-split (contents l) v (contents r) w in
    elim (Bool-cases (eqb_ℤ val v)) [
      | inl d ↦
          rw (d, search)
            (found (
              subst
                (λ z.
                  insert_distinct z (contents l ++ (v ∷ contents r))
                  ≡ contents l ++ (v ∷ contents r))
                (sym (eqb→eq_ℤ val v d)) (distinct_here v (contents l) (contents r) bl)))
      | inr d ↦ elim (Bool-cases (ltb_ℤ val v)) [
        | inl f ↦
            rw (d, f, search)
              (Searched-left val l v c s r path f (
                search-Searched val l (of_left v c s r ∷ path) sl h.1 (h.2, k)
                  (rooted_left l v c s r path e)))
        | inr f ↦
            rw (d, f, search)
              (Searched-right val l v c s r path bl (ground (arith, d, f)) (
                search-Searched val r (of_right l v c s ∷ path) sr h.2 (h.1, k)
                  (rooted_right l v c s r path e)))
      ]
    ]
