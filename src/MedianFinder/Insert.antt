-- ===== src/MedianFinder/Insert.antt =====
-- 295.c: the loop of insertFixup, and insertRBT.
use leetcode.Base.{
  ℕ, zero, suc, ◌+◌, ◌<◌, ◌≡◌, refl, sym, ap, ◌∙◌, subst, true, false, Bool-cases, inl, inr, Option,
  some, [], ◌∷◌, arith, length,
}
use leetcode.Base.Int.{ℤ}
use leetcode.Base.Fallible.{◌>>=◌}
use leetcode.MedianFinder.{
  red, black, Tree, leaf, node, Frame, of_left, of_right, Frames, plug, zip, new_node, blacken,
  is_red, frame_is_red, fixup_round, fixup_loop, insert_fixup, descend, insert_rbt,
}
use leetcode.MedianFinder.Contents.{
  blacken-contents, blacken-IsSized, is_red-blacken, contents, count, IsSized, IsAscending,
  insert_sorted, insert_sorted-IsAscending, zip-contents, replaced-IsSized, zip-IsSized,
}
use leetcode.MedianFinder.Balance.{
  IsBalanced, IsBalancedPath, is_below_black, IsNearlyBalanced, blacken-IsBalanced, zip-IsBalanced,
}
use leetcode.MedianFinder.Rounds.{Fixed, fixed, Fixed-left, Fixed-right}
use leetcode.MedianFinder.Descend.{descend-contents, descend-IsSizedPath, descend-IsBalancedPath}

-- A root with the values of `t`, with right sizes if those of `t` are, and with right colours but
-- for its own.
abbrev Done : Tree → Option Tree → Type 0
Done t o =
    (root : Tree) × (o ≡ some root)
    × (contents root ≡ contents t)
    × (IsSized t → IsSized root)
    × IsNearlyBalanced root

-- The loop with this fuel.
abbrev IsFixing : (fuel : ℕ) → Type 0
IsFixing fuel =
    (l : Tree) (v : ℤ) (s : ℕ) (r : Tree) (path : Frames) (n : ℕ)
    → length path < fuel
    → IsBalanced (node l v red s r) n
    → IsBalancedPath path n
    → Done (zip (node l v red s r) path) (fixup_loop fuel (node l v red s r) path)

after_round :
    (fuel : ℕ) (up : Frames) (t : Tree) {o : Option (Tree × Frames)}
    → IsFixing fuel
    → length up + 1 < fuel
    → Fixed up t o
    → Done (zip t up) (o >>= λ (z, path). fixup_loop fuel z path)
after_round fuel up t ih b (fixed l v s r path u n e c w d h k) =
    let (root, f, g, i, j) = ih l v s r path n (omega (arith, b, d)) h k in
    (
      root,
      f,
      g ∙ ap contents e ∙ zip-contents u t up c,
      λ a. i (subst IsSized (sym e) (replaced-IsSized t u up (sym c) w a)),
      j,
    )

grandparent_black :
    (p : Frame) (up : Frames) (n : ℕ)
    → frame_is_red p ≡ true
    → IsBalancedPath (p ∷ up) n
    → is_below_black up ≡ true
grandparent_black (of_left v red s r) up n e k = k.2
grandparent_black (of_left v black s r) up n e k = absurd (ground (arith, e))
grandparent_black (of_right l v red s) up n e k = k.2
grandparent_black (of_right l v black s) up n e k = absurd (ground (arith, e))

round_Fixed :
    (l : Tree) (v : ℤ) (s : ℕ) (r : Tree) (p g : Frame) (up : Frames) (n : ℕ)
    → frame_is_red p ≡ true
    → frame_is_red g ≡ false
    → IsBalanced (node l v red s r) n
    → IsBalancedPath (p ∷ g ∷ up) n
    → Fixed up (plug (plug (node l v red s r) p) g) (fixup_round (node l v red s r) p (g ∷ up))
round_Fixed l v s r p (of_left gv red gs y) up n e f h k = absurd (ground (arith, f))
round_Fixed l v s r p (of_right y gv red gs) up n e f h k = absurd (ground (arith, f))
round_Fixed l v s r p (of_left gv black gs y) up n e f h k = Fixed-left l r v s gv gs up n h p y e k
round_Fixed l v s r p (of_right y gv black gs) up n e f h k =
    Fixed-right l r v s gv gs up n h p y e k

ended :
    (l : Tree) (v : ℤ) (s : ℕ) (r : Tree) (p : Frame) (up : Frames) (n : ℕ)
    → frame_is_red p ≡ false
    → IsBalanced (node l v red s r) n
    → IsBalancedPath (p ∷ up) n
    → Done (zip (node l v red s r) (p ∷ up)) (some (zip (node l v red s r) (p ∷ up)))
ended l v s r p up n e h k =
    let (m, b) = zip-IsBalanced (node l v red s r) n (p ∷ up) h (λ _. ground (arith, e)) k in
    (_, refl, refl, λ w. w, blacken-IsBalanced _ m b)

fixup_loop_lem : (fuel : ℕ) → IsFixing fuel
unfolding fixup_loop
fixup_loop_lem zero l v s r path n b h k = absurd (omega (arith, b))
fixup_loop_lem (suc fuel) l v s r [] n b h k =
    (node l v red s r, refl, refl, λ w. w, (suc n, (n, refl, h.2, h.3)))
fixup_loop_lem (suc fuel) l v s r (p ∷ []) n b h k = elim (Bool-cases (frame_is_red p)) [
  | inl e ↦ let f = grandparent_black p [] n e k in absurd (ground (arith, f))
  | inr e ↦ rw (e, fixup_loop) (ended l v s r p [] n e h k)
]
fixup_loop_lem (suc fuel) l v s r (p ∷ g ∷ up) n b h k = elim (Bool-cases (frame_is_red p)) [
  | inl e ↦
      (let f : frame_is_red g ≡ false =
          (let f = grandparent_black p (g ∷ up) n e k in ground (arith, f)) in
        rw (e, fixup_loop)
          (after_round fuel up _ (fixup_loop_lem fuel) (omega (arith, b))
            (round_Fixed l v s r p g up n e f h k)))
  | inr e ↦ rw (e, fixup_loop) (ended l v s r p (g ∷ up) n e h k)
]

pub record IsSound (t : Tree) : Type 0 where
  pub sized : IsSized t
  pub ascending : IsAscending (contents t)
  pub balanced : (n : ℕ) × IsBalanced t n
  pub black_root : is_red t ≡ false

pub leaf-IsSound : IsSound leaf
unfolding contents
leaf-IsSound = record { sized = tt; ascending = tt; balanced = (0, refl); black_root = refl }

-- In a tree with right sizes and colours and its values in order, insertRBT goes through no NULL
-- pointer and ends, and it returns such a tree, with the new value in its place among the others.
pub insert_rbt_lem :
    (t : Tree) (val : ℤ)
    → IsSound t
    → (root : Tree) × (insert_rbt t val ≡ some root)
      × IsSound root
      × (contents root ≡ insert_sorted val (contents t))
unfolding insert_rbt insert_fixup count
insert_rbt_lem t val w =
    let path = descend val t [] in
    let (n, b) = w.balanced in
    let above =
      descend-IsBalancedPath val t [] n b (λ e. absurd (ground (arith, e, w.black_root))) tt in
    let (root, e, c, sized, balanced) =
      fixup_loop_lem (length path + 1) leaf val 1 leaf path 0 (omega arith) (refl, refl, refl, refl)
        above in
    let values = blacken-contents root ∙ c ∙ descend-contents val t w.ascending in
    (
      blacken root,
      ap (λ o. o >>= λ r. some (blacken r)) e,
      record {
        sized = blacken-IsSized root (
            sized (
              zip-IsSized (new_node val) path (refl, tt, tt)
                (descend-IsSizedPath val t [] w.sized tt)));
        ascending =
            subst IsAscending (sym values) (insert_sorted-IsAscending val (contents t) w.ascending);
        balanced = balanced;
        black_root = is_red-blacken root;
      },
      values,
    )
