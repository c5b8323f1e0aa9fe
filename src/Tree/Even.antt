-- ===== src/Tree/Even.antt =====
-- 1382.c, 109.c and 876.c: the trees keep the values in order and divide them evenly.
use leetcode.Base.{
  ℕ, zero, suc, ◌+◌, ◌-◌, ◌/◌, ◌≤◌, ◌≡◌, refl, ap, sym, ◌∙◌, true, false, some, List, [], ◌∷◌, ◌++◌,
  arith, leb, ◌==◌, length, get_or,
}
use leetcode.Base.Int.{ℤ, pos}
use leetcode.Tree.{Tree, leaf, node, inorder}
use leetcode.Tree.Balance.{
  build_balanced, arr_size, balance_bst, middle, middle_node, build_tree, sorted_list_to_bst,
}

-- `n` elements from position `at`.
unfoldable pub segment : List ℤ → (at n : ℕ) → List ℤ
segment xs at zero = []
segment xs at (suc n) = get_or xs at (pos 0) ∷ segment xs (at + 1) n

length-segment : (xs : List ℤ) (at n : ℕ) → length (segment xs at n) ≡ n
unfolding segment
length-segment xs at zero = refl
length-segment xs at (suc n) = ground (arith, length-segment xs (at + 1) n)

segment-tail : (x : ℤ) (xs : List ℤ) (at n : ℕ) → segment (x ∷ xs) (at + 1) n ≡ segment xs at n
unfolding segment
segment-tail x xs at zero = refl
segment-tail x xs at (suc n) = ground (arith, segment-tail x xs (at + 1) n)

segment-whole : (xs : List ℤ) → segment xs 0 (length xs) ≡ xs
unfolding segment
segment-whole [] = refl
segment-whole (x ∷ xs) = ground (arith, segment-whole xs, segment-tail x xs 0 (length xs))

segment-split :
    (xs : List ℤ) (at a b : ℕ)
    → segment xs at a ++ (get_or xs (at + a) (pos 0) ∷ segment xs (at + a + 1) b)
      ≡ segment xs at (suc (a + b))
unfolding segment
segment-split xs at zero b = ground arith
segment-split xs at (suc a) b =
    let count : suc a + b ≡ suc (a + b) = omega arith in
    let place : at + suc a ≡ at + 1 + a = omega arith in
    rw (count, place) (ap (λ ys. get_or xs at (pos 0) ∷ ys) (segment-split xs (at + 1) a b))

-- Under every node the left part has as many nodes as the right one, or one more or less.
abbrev pub IsEven : Tree → Type 0
IsEven leaf = Unit
IsEven (node l x r) =
    (length (inorder l) ≤ length (inorder r) + 1)
    × (length (inorder r) ≤ length (inorder l) + 1)
    × IsEven l
    × IsEven r

-- A tree over the segment of `n` elements from `at`.
abbrev Spans : List ℤ → (at n : ℕ) → Tree → Type 0
Spans xs at n t = (inorder t ≡ segment xs at n) × IsEven t

Spans-node :
    (xs : List ℤ) (at a b : ℕ) (l r : Tree)
    → a ≤ b + 1
    → b ≤ a + 1
    → Spans xs at a l
    → Spans xs (at + a + 1) b r
    → Spans xs at (suc (a + b)) (node l (get_or xs (at + a) (pos 0)) r)
unfolding inorder
Spans-node xs at a b l r p q (e, s) (f, t) = (
  rw (e, f) (segment-split xs at a b),
  (
    ground (arith, e, length-segment xs at a, f, length-segment xs (at + a + 1) b),
    ground (arith, e, length-segment xs at a, f, length-segment xs (at + a + 1) b),
    s,
    t,
  ),
)

Spans-size : (xs : List ℤ) (at m n : ℕ) (t : Tree) → m ≡ n → Spans xs at m t → Spans xs at n t
Spans-size xs at m n t e (f, even) = (f ∙ ap (segment xs at) e, even)

build_balanced-Spans :
    (fuel : ℕ) (xs : List ℤ) (start n stop : ℕ)
    → n ≤ fuel
    → stop ≡ start + n
    → Spans xs start n (build_balanced fuel xs start stop)
unfolding build_balanced segment inorder
build_balanced-Spans zero xs start n stop h e = let none : n ≡ 0 = omega arith in rw none (refl, tt)
build_balanced-Spans (suc fuel) xs start zero stop h e =
    let done : leb stop start ≡ true = ground arith in rw done (refl, tt)
build_balanced-Spans (suc fuel) xs start (suc n) stop h e =
    let more : leb stop start ≡ false = ground arith in
    let joined =
      Spans-node xs start (n / 2) (n - n / 2) _ _ (omega arith) (omega arith)
        (build_balanced-Spans fuel xs start (n / 2) (start + n / 2) (omega arith) refl)
        (build_balanced-Spans fuel xs (start + n / 2 + 1) (n - n / 2) stop (omega arith)
          (omega arith)) in
    let mid : start + (stop - 1 - start) / 2 ≡ start + n / 2 =
      ap (λ k. start + k / 2) (omega arith) in
    let size : suc n ≡ suc (n / 2 + (n - n / 2)) = omega arith in
    rw (more, mid)
      (Spans-size xs start _ _
        (node (build_balanced fuel xs start (start + n / 2)) (get_or xs (start + n / 2) (pos 0))
          (build_balanced fuel xs (start + n / 2 + 1) stop))
        (sym size) joined)

-- middle stops half way.
middle-half : (fuel slow fast n : ℕ) → n ≤ fuel → middle fuel slow fast (fast + n) ≡ slow + n / 2
unfolding middle
middle-half zero slow fast n h = omega arith
middle-half (suc fuel) slow fast zero h = ground arith
middle-half (suc fuel) slow fast (suc zero) h = ground arith
middle-half (suc fuel) slow fast (suc (suc n)) h =
    ground (arith, middle-half fuel (slow + 1) (fast + 1 + 1) n)

-- middleNode returns the node at half the length of the list: of two middle ones the second.
pub middle_node_lem {ℓ} : {A : Type ℓ} (head : List A) → middle_node head ≡ length head / 2
unfolding middle_node
middle_node_lem head = ground (arith, middle-half (length head) 0 0 (length head))

build_tree-Spans :
    (fuel : ℕ) (xs : List ℤ) (start n stop : ℕ)
    → n ≤ fuel
    → stop ≡ start + n
    → Spans xs start n (build_tree fuel xs start stop)
unfolding build_tree segment inorder
build_tree-Spans zero xs start n stop h e = let none : n ≡ 0 = omega arith in rw none (refl, tt)
build_tree-Spans (suc fuel) xs start zero stop h e =
    let done : (start == stop) ≡ true = ground arith in rw done (refl, tt)
build_tree-Spans (suc fuel) xs start (suc n) stop h e =
    let more : (start == stop) ≡ false = ground arith in
    let sub : start + suc n - start ≡ suc n = omega arith in
    let joined =
      Spans-node xs start (suc n / 2) (n - suc n / 2) _ _ (omega arith) (omega arith)
        (build_tree-Spans fuel xs start (suc n / 2) (start + suc n / 2) (omega arith) refl)
        (build_tree-Spans fuel xs (start + suc n / 2 + 1) (n - suc n / 2) stop (omega arith)
          (omega arith)) in
    let mid : middle (stop - start) start start stop ≡ start + suc n / 2 =
      rw (e, sub) (middle-half (suc n) start start (suc n) (omega arith)) in
    let size : suc n ≡ suc (suc n / 2 + (n - suc n / 2)) = omega arith in
    rw (more, mid)
      (Spans-size xs start _ _
        (node (build_tree fuel xs start (start + suc n / 2)) (get_or xs (start + suc n / 2) (pos 0))
          (build_tree fuel xs (start + suc n / 2 + 1) stop))
        (sym size) joined)

-- balanceBST of a tree that fits into its array: the values and their order stay, and under every
-- node of the result the two parts differ by at most one node.
pub balance_bst_lem :
    (t : Tree)
    → length (inorder t) ≤ arr_size
    → (b : Tree) × (balance_bst t ≡ some b) × (inorder b ≡ inorder t) × IsEven b
unfolding balance_bst
balance_bst_lem t h =
    let xs = inorder t in
    let (e, even) =
      build_balanced-Spans (length xs) xs 0 (length xs) (length xs) (omega arith) (omega arith) in
    (_, ground arith, e ∙ segment-whole xs, even)

-- sortedListToBST makes a tree of the values of the list in their order, in which the two parts
-- under every node differ by at most one node.
pub sorted_list_to_bst_lem :
    (head : List ℤ) → (inorder (sorted_list_to_bst head) ≡ head) × IsEven (sorted_list_to_bst head)
unfolding sorted_list_to_bst
sorted_list_to_bst_lem head =
    let (e, even) =
      build_tree-Spans (length head) head 0 (length head) (length head) (omega arith)
        (omega arith) in
    (e ∙ segment-whole head, even)
