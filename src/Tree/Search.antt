-- ===== src/Tree/Search.antt =====
-- 700.c and 100.c: what searchBST finds, and when isSameTree holds.
use leetcode.Base.{
  ◌≡◌, ◌≢◌, refl, inl, inr, ◌⊎◌, ◌↔◌, true, List, [], ◌∷◌, arith, All, All-append, Bool-cases,
}
use leetcode.Base.Int.{ℤ, ◌<ℤ◌, ltb_ℤ, eqb_ℤ, eqb→eq_ℤ, ltb→lt_ℤ}
use leetcode.Tree.{Tree, leaf, node, inorder, is_same_tree, search_bst}
use leetcode.Tree.Sorted.{IsSorted, Below, Above, IsSorted-split}

-- `s` is the tree `t` or a part of it.
pub data IsPart (s : Tree) : Tree → Type 0 where
  whole : IsPart s s
  left : {l r : Tree} {x : ℤ} → IsPart s l → IsPart s (node l x r)
  right : {l r : Tree} {x : ℤ} → IsPart s r → IsPart s (node l x r)

-- The result of a search in `t`.
pub data Searched (t : Tree) (val : ℤ) : Tree → Type 0 where
  found : (l r : Tree) → IsPart (node l val r) t → Searched t val (node l val r)
  absent : All (λ y. y ≢ val) (inorder t) → Searched t val leaf

Above-ne : (k v : ℤ) (xs : List ℤ) → (k ≡ v) ⊎ (v <ℤ k) → Above k xs → All (λ y. y ≢ v) xs
Above-ne k v [] h a = tt
Above-ne k v (x ∷ xs) h a = (ground arith, Above-ne k v xs h a.1)

Below-ne : (k v : ℤ) (xs : List ℤ) → k <ℤ v → Below k xs → All (λ y. y ≢ v) xs
Below-ne k v [] h a = tt
Below-ne k v (x ∷ xs) h a = (ground arith, Below-ne k v xs h a.1)

to_left :
    (l r s : Tree) (x val : ℤ)
    → val <ℤ x
    → Above x (inorder r)
    → Searched l val s
    → Searched (node l x r) val s
unfolding inorder
to_left l r s x val lt a (found l' r' p) = found l' r' (left p)
to_left l r s x val lt a (absent none) = absent (
    All-append (λ y. y ≢ val) (inorder l) _ none
      (ground arith, Above-ne x val (inorder r) (inr lt) a))

to_right :
    (l r s : Tree) (x val : ℤ)
    → x <ℤ val
    → Below x (inorder l)
    → Searched r val s
    → Searched (node l x r) val s
unfolding inorder
to_right l r s x val lt b (found l' r' p) = found l' r' (right p)
to_right l r s x val lt b (absent none) =
    absent (
      All-append (λ y. y ≢ val) (inorder l) _ (Below-ne x val (inorder l) lt b)
        (ground arith, none))

-- In a search tree searchBST returns a node of the tree that holds the value, with what hangs under
-- it, or NULL when no node holds the value.
pub search_bst-Searched :
    (t : Tree) (val : ℤ) → IsSorted (inorder t) → Searched t val (search_bst t val)
unfolding search_bst inorder
search_bst-Searched leaf val s = absent tt
search_bst-Searched (node l x r) val s =
    let (sl, bl, ar, sr) = IsSorted-split (inorder l) x (inorder r) s in
    elim (Bool-cases (eqb_ℤ x val)) [
      | inl e ↦
          let same : x ≡ val = eqb→eq_ℤ x val e in rw (e, search_bst) (rw same (found l r whole))
      | inr n ↦
          rw (n, search_bst)
            (elim (Bool-cases (ltb_ℤ val x)) [
              | inl lt ↦
                  rw lt (to_left l r _ x val (ltb→lt_ℤ val x lt) ar (search_bst-Searched l val sl))
              | inr ge ↦
                  rw ge (to_right l r _ x val (ground arith) bl (search_bst-Searched r val sr))
            ])
    ]

is_same_tree_sound : (p q : Tree) → is_same_tree p q ≡ true → p ≡ q
unfolding is_same_tree
is_same_tree_sound leaf leaf h = refl
is_same_tree_sound leaf (node l y r) h = cc
is_same_tree_sound (node l x r) leaf h = cc
is_same_tree_sound (node l x r) (node l' y r') h =
    ground (arith, eqb→eq_ℤ x y, is_same_tree_sound l l', is_same_tree_sound r r')

is_same_tree_refl : (t : Tree) → is_same_tree t t ≡ true
unfolding is_same_tree
is_same_tree_refl leaf = refl
is_same_tree_refl (node l x r) = ground (arith, is_same_tree_refl l, is_same_tree_refl r)

-- isSameTree returns true exactly of equal trees: of the same shape, with the same values.
pub is_same_tree_iff : (p q : Tree) → (is_same_tree p q ≡ true) ↔ (p ≡ q)
is_same_tree_iff p q = (is_same_tree_sound p q, λ e. rw e (is_same_tree_refl q))
