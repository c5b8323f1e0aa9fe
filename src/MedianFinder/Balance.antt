-- ===== src/MedianFinder/Balance.antt =====
-- 295.c: the colours: no red node has a red child, and the paths down have the same black nodes.
use leetcode.Base.{
  ℕ, suc, ◌+◌, ◌*◌, ◌^◌, ◌≤◌, ◌≡◌, refl, Bool, true, false, not, inl, inr, Bool-cases, [], ◌∷◌,
  arith, if◌then◌else◌, leb,
}
use native.Mathlib.Numerals.{towards_suc}
use leetcode.MedianFinder.{
  red, black, Tree, leaf, node, of_left, of_right, Frames, zip, is_red, frame_is_red, blacken,
}
use leetcode.MedianFinder.Contents.{count}

-- With `n` black nodes on every path down.
abbrev pub IsBalanced : Tree → (n : ℕ) → Type 0
IsBalanced leaf n = n ≡ 0
IsBalanced (node l v red s r) n =
    (is_red l ≡ false) × (is_red r ≡ false) × IsBalanced l n × IsBalanced r n
IsBalanced (node l v black s r) n = (m : ℕ) × (n ≡ suc m) × IsBalanced l m × IsBalanced r m

abbrev pub is_below_black : Frames → Bool
is_below_black [] = false
is_below_black (f ∷ up) = not (frame_is_red f)

-- What is above a part with `n` black nodes on every path; the root is black.
abbrev pub IsBalancedPath : Frames → (n : ℕ) → Type 0
IsBalancedPath [] n = Unit
IsBalancedPath (of_left v red s r ∷ up) n =
    (is_red r ≡ false) × IsBalanced r n × (is_below_black up ≡ true) × IsBalancedPath up n
IsBalancedPath (of_left v black s r ∷ up) n = IsBalanced r n × IsBalancedPath up (suc n)
IsBalancedPath (of_right l v red s ∷ up) n =
    (is_red l ≡ false) × IsBalanced l n × (is_below_black up ≡ true) × IsBalancedPath up n
IsBalancedPath (of_right l v black s ∷ up) n = IsBalanced l n × IsBalancedPath up (suc n)

-- The colours of a tree, its root aside.
abbrev pub IsNearlyBalanced : Tree → Type 0
IsNearlyBalanced t = (n : ℕ) × IsBalanced (blacken t) n

pub blacken-IsBalanced : (t : Tree) (n : ℕ) → IsBalanced t n → IsNearlyBalanced t
blacken-IsBalanced leaf n h = (n, h)
blacken-IsBalanced (node l v red s r) n h = (suc n, (n, refl, h.2, h.3))
blacken-IsBalanced (node l v black s r) n h = (n, h)

is_black_child : (t : Tree) → (is_red t ≡ true → false ≡ true) → is_red t ≡ false
is_black_child t c = elim (Bool-cases (is_red t)) [
  | inl e ↦ absurd (ground (arith, c e))
  | inr e ↦ e
]

pub zip-IsBalanced :
    (t : Tree) (n : ℕ) (path : Frames)
    → IsBalanced t n
    → (is_red t ≡ true → is_below_black path ≡ true)
    → IsBalancedPath path n
    → (m : ℕ) × IsBalanced (zip t path) m
zip-IsBalanced t n [] h c k = (n, h)
zip-IsBalanced t n (of_left v red s r ∷ up) h c k =
    zip-IsBalanced (node t v red s r) n up ((is_black_child t c), k.0, h, k.1) (λ _. k.2) k.3
zip-IsBalanced t n (of_left v black s r ∷ up) h c k =
    zip-IsBalanced (node t v black s r) (suc n) up (n, refl, h, k.0)
      (λ e. absurd (ground (arith, e))) k.1
zip-IsBalanced t n (of_right l v red s ∷ up) h c k =
    zip-IsBalanced (node l v red s t) n up (k.0, (is_black_child t c), k.1, h) (λ _. k.2) k.3
zip-IsBalanced t n (of_right l v black s ∷ up) h c k =
    zip-IsBalanced (node l v black s t) (suc n) up (n, refl, k.0, h)
      (λ e. absurd (ground (arith, e))) k.1

-- Twice the black nodes, and one more under a red root.
unfoldable pub height : Tree → ℕ
height leaf = 0
height (node l v c s r) = let a = height l in let b = height r in 1 + (if leb a b then b else a)

pub height-IsBalanced :
    (t : Tree) (n : ℕ) → IsBalanced t n → height t ≤ 2 * n + (if is_red t then 1 else 0)
unfolding height
height-IsBalanced leaf n h = omega arith
height-IsBalanced (node l v red s r) n h =
    let a = height-IsBalanced l n h.2 in
    let b = height-IsBalanced r n h.3 in ground (arith, a, b, h.0, h.1)
height-IsBalanced (node l v black s r) n (m, e, h, k) =
    let a = height-IsBalanced l m h in let b = height-IsBalanced r m k in ground (arith, a, b, e)

pub count-IsBalanced : (t : Tree) (n : ℕ) → IsBalanced t n → 2 ^ n ≤ count t + 1
unfolding count
count-IsBalanced leaf n h = rw h (omega arith)
count-IsBalanced (node l v red s r) n h =
    let a = count-IsBalanced l n h.2 in let b = count-IsBalanced r n h.3 in omega (arith, a, b)
count-IsBalanced (node l v black s r) n (m, e, h, k) =
    let a = count-IsBalanced l m h in
    let b = count-IsBalanced r m k in rw e (simp towards_suc (omega (arith, a, b)))
