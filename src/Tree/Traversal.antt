-- ===== src/Tree/Traversal.antt =====
-- 94.c: inorderTraversal with its own stack.
use leetcode.Base.{
  ℕ, zero, suc, ◌+◌, ◌≤◌, ◌<◌, ◌≡◌, refl, ap, sym, ◌∙◌, subst, false, Option, none, some, List, [],
  ◌∷◌, ◌++◌, arith, ◌==◌, if◌then◌else◌, length, length-append,
}
use mathlib.Core.List.{append_assoc, append-nil}
use leetcode.Base.Int.{ℤ}
use leetcode.Tree.{Tree, leaf, node, inorder}

-- The cells of `result` and of `stack`; to write more is `none`.
abbrev pub cells : ℕ
cells = 100

-- A pointer on the stack is never NULL: it is the node with its left part, value and right part.
abbrev pub Entry : Type 0
Entry = Tree × ℤ × Tree

-- The inner loop.
unfoldable pub push_left : Tree → List Entry → Option (List Entry)
push_left leaf stack = some stack
push_left (node l x r) stack =
    let rest = push_left l ((l, x, r) ∷ stack) in if length stack == cells then none else rest

-- The rest of a pass of the outer loop after `push_left`, with what the passes after it do.
unfoldable pub visit :
    (Tree → List Entry → List ℤ → Option (List ℤ)) → Option (List Entry) → List ℤ → Option (List ℤ)
visit next none result = none
visit next (some []) result = some result
visit next (some ((l, x, r) ∷ stack)) result =
    if length result == cells then none else next r stack (result ++ x ∷ [])

-- The outer loop. It ends when `root` is NULL and the stack is empty, which is when push_left leaves
-- the stack empty. A pass writes a cell of `result`, so `cells + 1` passes are enough.
unfoldable pub traverse : (fuel : ℕ) → Tree → List Entry → List ℤ → Option (List ℤ)
traverse zero root stack result = none
traverse (suc fuel) root stack result = visit (traverse fuel) (push_left root stack) result

unfoldable pub inorder_traversal : Tree → Option (List ℤ)
unfolding traverse
inorder_traversal root = traverse (cells + 1) root [] []

-- The values still to come from the stack.
unfoldable pub pending : List Entry → List ℤ
pending [] = []
pending ((l, x, r) ∷ stack) = x ∷ (inorder r ++ pending stack)

length-pending : (stack : List Entry) → length stack ≤ length (pending stack)
unfolding pending
length-pending [] = omega arith
length-pending ((l, x, r) ∷ stack) =
    ground (arith, length-pending stack, length-append (inorder r) (pending stack))

push_left-pending :
    (t : Tree) (stack : List Entry)
    → length (inorder t ++ pending stack) ≤ cells
    → (new : List Entry) × (push_left t stack ≡ some new)
      × (pending new ≡ inorder t ++ pending stack)
unfolding push_left inorder
push_left-pending leaf stack h = (stack, refl, refl)
push_left-pending (node l x r) stack h =
    let same : (inorder l ++ x ∷ inorder r) ++ pending stack
        ≡ inorder l ++ pending ((l, x, r) ∷ stack) =
      unfold pending in append_assoc (inorder l) (x ∷ inorder r) (pending stack) in
    let bound : length (inorder l ++ pending ((l, x, r) ∷ stack)) ≤ cells =
      subst (λ ys. length ys ≤ cells) same h in
    let (new, run, left_over) = push_left-pending l ((l, x, r) ∷ stack) bound in
    let room : (length stack == cells) ≡ false = ground (
      arith,
      bound,
      length-pending ((l, x, r) ∷ stack),
      length-append (inorder l) (pending ((l, x, r) ∷ stack)),
    ) in
    (new, rw room run, left_over ∙ sym same)

-- A pass, if the passes after it do what they should.
visit-pending :
    (fuel : ℕ) (stack : List Entry) (result : List ℤ)
    → ((t : Tree) (stack : List Entry) (result : List ℤ)
        → length (inorder t ++ pending stack) < fuel
        → length (result ++ (inorder t ++ pending stack)) ≤ cells
        → traverse fuel t stack result ≡ some (result ++ (inorder t ++ pending stack)))
    → length (pending stack) < suc fuel
    → length (result ++ pending stack) ≤ cells
    → visit (traverse fuel) (some stack) result ≡ some (result ++ pending stack)
unfolding visit pending
visit-pending fuel [] result next lt h = ap some (sym (append-nil result))
visit-pending fuel ((l, x, r) ∷ stack) result next lt h =
    let rest = inorder r ++ pending stack in
    let room : (length result == cells) ≡ false =
      ground (arith, h, length-append result (x ∷ rest)) in
    let same : (result ++ x ∷ []) ++ rest ≡ result ++ x ∷ rest =
      append_assoc result (x ∷ []) rest in
    rw room (next r stack (result ++ x ∷ []) (omega arith) (rw same h) ∙ ap some same)

traverse-pending :
    (fuel : ℕ) (t : Tree) (stack : List Entry) (result : List ℤ)
    → length (inorder t ++ pending stack) < fuel
    → length (result ++ (inorder t ++ pending stack)) ≤ cells
    → traverse fuel t stack result ≡ some (result ++ (inorder t ++ pending stack))
unfolding traverse
traverse-pending zero t stack result lt h = ground arith
traverse-pending (suc fuel) t stack result lt h =
    let xs = inorder t ++ pending stack in
    let fits : length xs ≤ cells = ground (arith, h, length-append result xs) in
    let (new, run, e) = push_left-pending t stack fits in
    let pass =
      visit-pending fuel new result (traverse-pending fuel)
        (subst (λ ys. length ys < suc fuel) (sym e) lt)
        (subst (λ ys. length (result ++ ys) ≤ cells) (sym e) h) in
    ap (λ p. visit (traverse fuel) p result) run ∙ pass ∙ ap (λ ys. some (result ++ ys)) e

-- Of a tree with at most 100 nodes inorderTraversal returns the values from left to right, and
-- neither its stack nor its result overflows.
pub inorder_traversal_lem :
    (root : Tree) → length (inorder root) ≤ cells → inorder_traversal root ≡ some (inorder root)
unfolding inorder_traversal pending
inorder_traversal_lem root h =
    let nil : inorder root ++ [] ≡ inorder root = append-nil (inorder root) in
    traverse-pending (cells + 1) root [] [] (rw nil (omega arith)) (rw nil h) ∙ ap some nil
