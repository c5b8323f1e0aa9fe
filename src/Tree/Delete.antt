-- ===== src/Tree/Delete.antt =====
-- 450.c: deleteNode takes one value out of a search tree.
use leetcode.Base.{◌≡◌, refl, sym, ap, subst, ◌∙◌, not, List, [], ◌∷◌, ◌++◌, arith, All, keep}
use mathlib.Core.List.{append-nil}
use leetcode.Base.Int.{ℤ, ◌<ℤ◌, ◌≤ℤ◌, eqb_ℤ}
use leetcode.Tree.{Tree, leaf, node, inorder, find_min, root_val, delete_root, delete_node}
use leetcode.Tree.Sorted.{IsSorted, Below, Above, IsSorted-split}

-- A list without the elements that equal `k`.
abbrev pub without : ℤ → List ℤ → List ℤ
without k = keep (λ y. not (eqb_ℤ y k))

without-append : (k : ℤ) (xs ys : List ℤ) → without k (xs ++ ys) ≡ without k xs ++ without k ys
without-append k [] ys = refl
without-append k (x ∷ xs) ys = ground (arith, without-append k xs ys)

without-Above : (k b : ℤ) (xs : List ℤ) → k ≤ℤ b → Above b xs → without k xs ≡ xs
without-Above k b [] h a = refl
without-Above k b (x ∷ xs) h a = ground (arith, without-Above k b xs h a.1)

without-Below : (k b : ℤ) (xs : List ℤ) → b ≤ℤ k → Below b xs → without k xs ≡ xs
without-Below k b [] h a = refl
without-Below k b (x ∷ xs) h a = ground (arith, without-Below k b xs h a.1)

-- findMin reaches the first of the values.
find_min-first :
    (l r : Tree) (x : ℤ)
    → (xs : List ℤ) × (inorder (node l x r) ≡ root_val (find_min (node l x r)) ∷ xs)
unfolding inorder find_min root_val
find_min-first leaf r x = (inorder r, refl)
find_min-first (node l y m) r x =
    let (xs, e) = find_min-first l m y in (xs ++ x ∷ inorder r, ap (λ ys. ys ++ x ∷ inorder r) e)

without-head : (m : ℤ) (xs : List ℤ) → Above m xs → without m (m ∷ xs) ≡ xs
without-head m xs a = ground (arith, without-Above m m xs)

-- The root goes, if `rest` is the right part without its first value.
delete_root_lem :
    (l r rest : Tree)
    → IsSorted (inorder r)
    → inorder rest ≡ without (root_val (find_min r)) (inorder r)
    → inorder (delete_root l r rest) ≡ inorder l ++ inorder r
unfolding delete_root
delete_root_lem leaf r rest s e = unfold inorder in refl
delete_root_lem (node l x r) leaf rest s e =
    unfold inorder in sym (append-nil (inorder l ++ x ∷ inorder r))
delete_root_lem (node l x r) (node l' y r') rest s e =
    let (xs, f) = find_min-first l' r' y in
    let m = root_val (find_min (node l' y r')) in
    let rise : IsSorted (m ∷ xs) = subst IsSorted f s in
    let left_over : inorder rest ≡ xs = e ∙ ap (without m) f ∙ without-head m xs rise.0 in
    unfold inorder in
    (ap (λ ys. (inorder l ++ x ∷ inorder r) ++ (m ∷ ys)) left_over
      ∙ ap (λ ys. (inorder l ++ x ∷ inorder r) ++ ys) (sym f))

inorder-delete_node :
    (t : Tree) (key : ℤ)
    → IsSorted (inorder t)
    → inorder (delete_node t key) ≡ without key (inorder t)
unfolding inorder delete_node
inorder-delete_node leaf key s = refl
inorder-delete_node (node l x r) key s =
    let (sl, bl, ar, sr) = IsSorted-split (inorder l) x (inorder r) s in
    let root =
      delete_root_lem l r (delete_node r (root_val (find_min r))) sr
        (inorder-delete_node r (root_val (find_min r)) sr) in
    ground (
      arith,
      inorder-delete_node l key sl,
      inorder-delete_node r key sr,
      root,
      without-append key (inorder l) (x ∷ inorder r),
      without-Above key x (inorder r),
      without-Below key x (inorder l),
    )

All-without : (k : ℤ) (P : ℤ → Type 0) (xs : List ℤ) → All P xs → All P (without k xs)
All-without k P [] h = tt
All-without k P (x ∷ xs) h = ground (arith, h.0, All-without k P xs h.1)

without-IsSorted : (k : ℤ) (xs : List ℤ) → IsSorted xs → IsSorted (without k xs)
without-IsSorted k [] s = tt
without-IsSorted k (x ∷ xs) s =
    ground (arith, without-IsSorted k xs s.1, All-without k (λ y. x <ℤ y) xs s.0)

-- deleteNode on a search tree leaves exactly the values other than the key, in their order, and its
-- result is a search tree again.
pub delete_node_lem :
    (t : Tree) (key : ℤ)
    → IsSorted (inorder t)
    → (inorder (delete_node t key) ≡ without key (inorder t))
      × IsSorted (inorder (delete_node t key))
delete_node_lem t key s =
    let e = inorder-delete_node t key s in (e, rw e (without-IsSorted key (inorder t) s))
