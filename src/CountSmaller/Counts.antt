-- ===== src/CountSmaller/Counts.antt =====
-- 315.c: the counts of countSmaller.
use leetcode.Base.{
  All-split, ℕ, ◌+◌, ◌≡◌, refl, ap, ◌∙◌, true, false, List, [], ◌∷◌, ◌++◌, if◌then◌else◌, arith,
  All, All-append, Bool-cases, inl, inr, length, length-append,
}
use leetcode.Base.Int.{ℤ, ◌<ℤ◌, ◌≤ℤ◌, ltb_ℤ, ltb→lt_ℤ, ltb_false→le_ℤ}
use leetcode.CountSmaller.{Tree, leaf, node, insert, count_smaller_from, count_smaller}

-- How many elements are smaller than `v`.
unfoldable pub smaller : ℤ → List ℤ → ℕ
smaller v [] = 0
smaller v (x ∷ xs) = (if ltb_ℤ x v then 1 else 0) + smaller v xs

-- The counts by their definition.
unfoldable pub counts : List ℤ → List ℕ
counts [] = []
counts (x ∷ xs) = smaller x xs ∷ counts xs

unfoldable pub values : Tree → List ℤ
values leaf = []
values (node l x n r) = values l ++ x ∷ values r

-- Equal values lie to the left; a node counts the nodes to its left.
abbrev pub IsCounted : Tree → Type 0
IsCounted leaf = Unit
IsCounted (node l x n r) =
    (n ≡ length (values l))
    × All (λ y. y ≤ℤ x) (values l)
    × All (λ y. x <ℤ y) (values r)
    × IsCounted l
    × IsCounted r

smaller-append : (v : ℤ) (xs ys : List ℤ) → smaller v (xs ++ ys) ≡ smaller v xs + smaller v ys
unfolding smaller
smaller-append v [] ys = omega arith
smaller-append v (x ∷ xs) ys = ground (arith, smaller-append v xs ys)

smaller-All : (v x : ℤ) (xs : List ℤ) → x <ℤ v → All (λ y. y ≤ℤ x) xs → smaller v xs ≡ length xs
unfolding smaller
smaller-All v x [] h a = refl
smaller-All v x (y ∷ xs) h a = ground (arith, smaller-All v x xs h a.1)

smaller-none : (v x : ℤ) (xs : List ℤ) → v ≤ℤ x → All (λ y. x <ℤ y) xs → smaller v xs ≡ 0
unfolding smaller
smaller-none v x [] h a = refl
smaller-none v x (y ∷ xs) h a = ground (arith, smaller-none v x xs h a.1)

-- insert stores the number that it is given and the number of smaller values in the tree.
insert-smaller :
    (t : Tree) (v : ℤ) (c : ℕ) → IsCounted t → (insert t v c).1 ≡ c + smaller v (values t)
unfolding insert values smaller
insert-smaller leaf v c w = omega arith
insert-smaller (node l x n r) v c w = ground (
  arith,
  w.0,
  w.1,
  w.2,
  insert-smaller l v c w.3,
  insert-smaller r v (c + n + 1) w.4,
  smaller-append v (values l) (x ∷ values r),
  smaller-All v x (values l),
  smaller-none v x (values r),
)

module _ (l : Tree) (x : ℤ) (n : ℕ) (r : Tree) (v : ℤ) (c : ℕ) where
  insert_left :
      ltb_ℤ x v ≡ false
      → insert (node l x n r) v c ≡ (node (insert l v c).0 x (n + 1) r, (insert l v c).1)
  unfolding insert
  insert_left e = rw (e, insert) refl

  insert_right :
      ltb_ℤ x v ≡ true
      → insert (node l x n r) v c
        ≡ (node l x n (insert r v (c + n + 1)).0, (insert r v (c + n + 1)).1)
  unfolding insert
  insert_right e = rw (e, insert) refl

-- The new value joins the others.
module _ (P : ℤ → Type 0) where
  All-insert : (t : Tree) (v : ℤ) (c : ℕ) → P v → All P (values t) → All P (values (insert t v c).0)
  unfolding values
  All-insert leaf v c h a = unfold insert in (h, tt)
  All-insert (node l x n r) v c h a =
      let (al, ax) = All-split P (values l) (x ∷ values r) a in
      elim (Bool-cases (ltb_ℤ x v)) [
        | inl e ↦
            rw (insert_right l x n r v c e)
              (All-append P (values l) _ al (ax.0, All-insert r v (c + n + 1) h ax.1))
        | inr e ↦
            rw (insert_left l x n r v c e)
              (All-append P (values (insert l v c).0) (x ∷ values r) (All-insert l v c h al) ax)
      ]

length-insert :
    (t : Tree) (v : ℤ) (c : ℕ) → length (values (insert t v c).0) ≡ length (values t) + 1
unfolding insert values
length-insert leaf v c = refl
length-insert (node l x n r) v c = ground (
  arith,
  length-insert l v c,
  length-insert r v (c + n + 1),
  length-append (values l) (x ∷ values r),
  length-append (values (insert l v c).0) (x ∷ values r),
  length-append (values l) (x ∷ values (insert r v (c + n + 1)).0),
)

smaller-insert :
    (u : ℤ) (t : Tree) (v : ℤ) (c : ℕ)
    → smaller u (values (insert t v c).0) ≡ smaller u (v ∷ values t)
unfolding insert values smaller
smaller-insert u leaf v c = refl
smaller-insert u (node l x n r) v c = ground (
  arith,
  smaller-insert u l v c,
  smaller-insert u r v (c + n + 1),
  smaller-append u (values l) (x ∷ values r),
  smaller-append u (values (insert l v c).0) (x ∷ values r),
  smaller-append u (values l) (x ∷ values (insert r v (c + n + 1)).0),
)

insert-IsCounted : (t : Tree) (v : ℤ) (c : ℕ) → IsCounted t → IsCounted (insert t v c).0
unfolding values
insert-IsCounted leaf v c w = unfold insert in (refl, tt, tt, tt, tt)
insert-IsCounted (node l x n r) v c w = elim (Bool-cases (ltb_ℤ x v)) [
  | inl e ↦ rw (insert_right l x n r v c e) (
    w.0,
    w.1,
    All-insert (λ y. x <ℤ y) r v (c + n + 1) (ltb→lt_ℤ x v e) w.2,
    w.3,
    insert-IsCounted r v (c + n + 1) w.4,
  )
  | inr e ↦ rw (insert_left l x n r v c e) (
    omega (arith, w.0, length-insert l v c),
    All-insert (λ y. y ≤ℤ x) l v c (ltb_false→le_ℤ x v e) w.1,
    w.2,
    insert-IsCounted l v c w.3,
    w.4,
  )
]

from_lem :
    (nums : List ℤ)
    → let (root, res) = count_smaller_from nums in
      IsCounted root × (res ≡ counts nums) × ((u : ℤ) → smaller u (values root) ≡ smaller u nums)
unfolding count_smaller_from counts smaller values
from_lem [] = (tt, refl, λ u. refl)
from_lem (x ∷ nums) =
    let (w, e, same) = from_lem nums in
    let root = (count_smaller_from nums).0 in
    (
      insert-IsCounted root x 0 w,
      rw (insert-smaller root x 0 w, same x, e) (ap (λ k. k ∷ counts nums) (omega arith)),
      λ u. smaller-insert u root x 0 ∙ (ap (λ k. (if ltb_ℤ x u then 1 else 0) + k) (same u)),
    )

-- countSmaller returns, for every element, how many of those behind it are smaller.
pub count_smaller-counts : (nums : List ℤ) → count_smaller nums ≡ counts nums
unfolding count_smaller
count_smaller-counts nums = (from_lem nums).1
