-- ===== src/MedianFinder/Descend.antt =====
-- 295.c: where insertRBT puts the new node.
use leetcode.Base.{
  ℕ, ◌+◌, ◌≡◌, refl, sym, ap, ◌∙◌, subst, true, false, inl, inr, Bool-cases, List, [], ◌∷◌, ◌++◌,
  arith,
}
use leetcode.Base.Int.{ℤ, ltb_ℤ}
use mathlib.Core.List.{append_assoc, append-nil}
use leetcode.MedianFinder.{
  red, black, Tree, leaf, node, of_left, of_right, Frames, zip, new_node, descend, is_red,
}
use leetcode.MedianFinder.Contents.{
  contents, count, IsSized, IsSizedPath, IsAscending, insert_sorted, insert_sorted-left,
  insert_sorted-right, IsAscending-parts,
}
use leetcode.MedianFinder.Balance.{IsBalanced, IsBalancedPath, is_below_black}

-- The values before and behind the place that a path leads to.
unfoldable pub before : Frames → List ℤ
before [] = []
before (of_left v c s r ∷ up) = before up
before (of_right l v c s ∷ up) = before up ++ (contents l ++ (v ∷ []))

unfoldable pub after : Frames → List ℤ
after [] = []
after (of_left v c s r ∷ up) = v ∷ (contents r ++ after up)
after (of_right l v c s ∷ up) = after up

pub contents-zip :
    (t : Tree) (path : Frames) → contents (zip t path) ≡ before path ++ (contents t ++ after path)
unfolding contents before after
contents-zip t [] = sym (append-nil (contents t))
contents-zip t (of_left v c s r ∷ up) =
    contents-zip (node t v c s r) up
    ∙ ap (λ zs. before up ++ zs) (append_assoc (contents t) (v ∷ contents r) (after up))
contents-zip t (of_right l v c s ∷ up) = contents-zip (node l v c s t) up ∙ simp append_assoc refl

descend_values :
    (val : ℤ) (t : Tree) (path : Frames)
    → IsAscending (contents t)
    → before (descend val t path) ++ (val ∷ after (descend val t path))
      ≡ before path ++ (insert_sorted val (contents t) ++ after path)
unfolding contents before after descend insert_sorted
descend_values val leaf path h = refl
descend_values val (node l v c s r) path h =
    let (a, b, d) = IsAscending-parts (contents l) v (contents r) h in
    elim (Bool-cases (ltb_ℤ val v)) [
      | inl e ↦
          (let ih = descend_values val l (of_left v c (s + 1) r ∷ path) a in
            let put = insert_sorted-left val v (contents l) (contents r) e in
            rw (e, descend) (rw put (simp append_assoc ih)))
      | inr e ↦
          (let ih = descend_values val r (of_right l v c (s + 1) ∷ path) d in
            let put = insert_sorted-right val v (contents l) (contents r) b e in
            rw (e, descend) (rw put (ih ∙ simp append_assoc refl)))
    ]

-- The values below the path after the new one is in place.
pub descend-contents :
    (val : ℤ) (t : Tree)
    → IsAscending (contents t)
    → contents (zip (new_node val) (descend val t [])) ≡ insert_sorted val (contents t)
unfolding before insert_sorted after
descend-contents val t h =
    contents-zip (new_node val) (descend val t [])
    ∙ unfold contents in descend_values val t [] h ∙ append-nil (insert_sorted val (contents t))

pub descend-IsSizedPath :
    (val : ℤ) (t : Tree) (path : Frames)
    → IsSized t
    → IsSizedPath path (1 + count t)
    → IsSizedPath (descend val t path) 1
unfolding descend count
descend-IsSizedPath val leaf path h k = k
descend-IsSizedPath val (node l v c s r) path h k = elim (Bool-cases (ltb_ℤ val v)) [
  | inl e ↦
      rw (e, descend)
        (descend-IsSizedPath val l (of_left v c (s + 1) r ∷ path) h.1
          (omega (arith, h.0), h.2, subst (IsSizedPath path) (omega arith) k))
  | inr e ↦
      rw (e, descend)
        (descend-IsSizedPath val r (of_right l v c (s + 1) ∷ path) h.2
          (omega (arith, h.0), h.1, subst (IsSizedPath path) (omega arith) k))
]

not_red :
    (t : Tree) (path : Frames) → is_red t ≡ false → is_red t ≡ true → is_below_black path ≡ true
not_red t path e f = absurd (ground (arith, e, f))

pub descend-IsBalancedPath :
    (val : ℤ) (t : Tree) (path : Frames) (n : ℕ)
    → IsBalanced t n
    → (is_red t ≡ true → is_below_black path ≡ true)
    → IsBalancedPath path n
    → IsBalancedPath (descend val t path) 0
unfolding descend
descend-IsBalancedPath val leaf path n h c k = subst (IsBalancedPath path) h k
descend-IsBalancedPath val (node l v red s r) path n h c k = elim (Bool-cases (ltb_ℤ val v)) [
  | inl e ↦
      rw (e, descend)
        (descend-IsBalancedPath val l (of_left v red (s + 1) r ∷ path) n h.2
          (not_red l (of_left v red (s + 1) r ∷ path) h.0) (h.1, h.3, c refl, k))
  | inr e ↦
      rw (e, descend)
        (descend-IsBalancedPath val r (of_right l v red (s + 1) ∷ path) n h.3
          (not_red r (of_right l v red (s + 1) ∷ path) h.1) (h.0, h.2, c refl, k))
]
descend-IsBalancedPath val (node l v black s r) path n (m, q, h, i) c k =
    elim (Bool-cases (ltb_ℤ val v)) [
      | inl e ↦
          rw (e, descend)
            (descend-IsBalancedPath val l (of_left v black (s + 1) r ∷ path) m h (λ _. refl)
              (i, subst (IsBalancedPath path) q k))
      | inr e ↦
          rw (e, descend)
            (descend-IsBalancedPath val r (of_right l v black (s + 1) ∷ path) m i (λ _. refl)
              (h, subst (IsBalancedPath path) q k))
    ]
