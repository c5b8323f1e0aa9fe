-- ===== src/Tree/Sorted.antt =====
-- 98.c: isValidBST holds exactly of the trees whose values rise from left to right.
use leetcode.Base.{All-split, ◌≡◌, refl, ◌↔◌, true, List, [], ◌∷◌, ◌++◌, arith, All, All-append}
use leetcode.Base.Int.{ℤ, ◌<ℤ◌}
use leetcode.Tree.{Tree, leaf, node, inorder, helper, is_valid_bst, long_min, long_max}

-- Strictly rising.
abbrev pub IsSorted : List ℤ → Type 0
IsSorted [] = Unit
IsSorted (x ∷ xs) = All (λ y. x <ℤ y) xs × IsSorted xs

abbrev pub Below : ℤ → List ℤ → Type 0
Below k = All (λ y. y <ℤ k)

abbrev pub Above : ℤ → List ℤ → Type 0
Above k = All (λ y. k <ℤ y)

pub Below-mono : (a b : ℤ) (xs : List ℤ) → a <ℤ b → Below a xs → Below b xs
Below-mono a b [] h p = tt
Below-mono a b (x ∷ xs) h p = (omega arith, Below-mono a b xs h p.1)

pub Above-mono : (a b : ℤ) (xs : List ℤ) → a <ℤ b → Above b xs → Above a xs
Above-mono a b [] h p = tt
Above-mono a b (x ∷ xs) h p = (omega arith, Above-mono a b xs h p.1)

-- A list splits at an element.
pub IsSorted-join :
    (xs : List ℤ) (k : ℤ) (ys : List ℤ)
    → IsSorted xs
    → Below k xs
    → Above k ys
    → IsSorted ys
    → IsSorted (xs ++ k ∷ ys)
IsSorted-join [] k ys s b a s' = (a, s')
IsSorted-join (x ∷ xs) k ys s b a s' = (
  All-append (λ y. x <ℤ y) xs (k ∷ ys) s.0 (b.0, Above-mono x k ys b.0 a),
  IsSorted-join xs k ys s.1 b.1 a s',
)

pub IsSorted-split :
    (xs : List ℤ) (k : ℤ) (ys : List ℤ)
    → IsSorted (xs ++ k ∷ ys)
    → IsSorted xs × Below k xs × Above k ys × IsSorted ys
IsSorted-split [] k ys s = (tt, tt, s.0, s.1)
IsSorted-split (x ∷ xs) k ys s =
    let (a, b, c, d) = IsSorted-split xs k ys s.1 in
    let (e, f) = All-split (λ y. x <ℤ y) xs (k ∷ ys) s.0 in ((e, a), (f.0, b), c, d)

helper_parts :
    (l r : Tree) (x min max : ℤ)
    → helper (node l x r) min max ≡ true
    → (min <ℤ x) × (x <ℤ max) × (helper l min x ≡ true) × (helper r x max ≡ true)
unfolding helper
helper_parts l r x min max h = ground arith

-- helper tests the order of the values, and that they lie between its bounds.
helper-IsSorted :
    (t : Tree) (min max : ℤ)
    → helper t min max ≡ true
    → IsSorted (inorder t) × Above min (inorder t) × Below max (inorder t)
unfolding inorder
helper-IsSorted leaf min max h = (tt, tt, tt)
helper-IsSorted (node l x r) min max h =
    let (lo, hi, left, right) = helper_parts l r x min max h in
    let (sl, al, bl) = helper-IsSorted l min x left in
    let (sr, ar, br) = helper-IsSorted r x max right in
    (
      IsSorted-join (inorder l) x (inorder r) sl bl ar sr,
      All-append (λ y. min <ℤ y) (inorder l) _ al (lo, Above-mono min x (inorder r) lo ar),
      All-append (λ y. y <ℤ max) (inorder l) _ (Below-mono x max (inorder l) hi bl) (hi, br),
    )

helper_complete :
    (t : Tree) (min max : ℤ)
    → IsSorted (inorder t)
    → Above min (inorder t)
    → Below max (inorder t)
    → helper t min max ≡ true
unfolding helper inorder
helper_complete leaf min max s a b = refl
helper_complete (node l x r) min max s a b =
    let (sl, bl, ar, sr) = IsSorted-split (inorder l) x (inorder r) s in
    let (al, ax) = All-split (λ y. min <ℤ y) (inorder l) (x ∷ inorder r) a in
    let (bl', bx) = All-split (λ y. y <ℤ max) (inorder l) (x ∷ inorder r) b in
    ground (arith, helper_complete l min x sl al bl, helper_complete r x max sr ar bx.1)

-- For a tree of values between the bounds of `long`, as every `int` is, isValidBST returns true
-- exactly when the values rise strictly from left to right.
pub is_valid_bst_iff :
    (t : Tree)
    → Above long_min (inorder t)
    → Below long_max (inorder t)
    → (is_valid_bst t ≡ true) ↔ IsSorted (inorder t)
unfolding is_valid_bst
is_valid_bst_iff t a b =
    (λ h. (helper-IsSorted t long_min long_max h).0, λ s. helper_complete t long_min long_max s a b)
