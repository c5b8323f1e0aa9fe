-- ===== src/RangeSum/Round.antt =====
-- 327.c: one round of the loop on `i`, and all of them.
use leetcode.Base.{
  ℕ, zero, suc, ◌+◌, ◌-◌, ◌≤◌, ◌<◌, ◌≡◌, refl, ap, sym, ◌∙◌, subst, Bool, true, false, ◌&&◌, not,
  ltb, if◌then◌else◌, arith, Bool-cases, inl, inr,
}
use leetcode.Base.Int.{ℤ, pos, sub_ℕ, ltb_ℤ, ◌≤ℤ◌, ◌+ℤ◌, ◌-ℤ◌, -ℤ_parts}
use leetcode.RangeSum.{Ints, Locals, copy_while, step, steps}
use leetcode.RangeSum.Sums.{sum, in_range, cross}
use leetcode.RangeSum.Pointers.{IsRising, seek-separates, sum-interval}
use leetcode.RangeSum.Merge.{IsMerged, append-left, copy_while_lem, sum_to}

-- Order and differences.
minus_mono : (a b x : ℤ) → a ≤ℤ b → a -ℤ x ≤ℤ b -ℤ x
minus_mono a b x h = omega (arith, -ℤ_parts, h)

minus_anti : (a x y : ℤ) → x ≤ℤ y → a -ℤ y ≤ℤ a -ℤ x
minus_anti a x y h = omega (arith, -ℤ_parts, h)

-- The tests of the two loops, for the element `x`.
abbrev too_low : (lower x y : ℤ) → Bool
too_low lower x y = ltb_ℤ (y -ℤ x) lower

abbrev low_enough : (upper x y : ℤ) → Bool
low_enough upper x y = not (ltb_ℤ upper (y -ℤ x))

too_low-anti : (l x x' a b : ℤ) → x ≤ℤ x' → a ≤ℤ b → too_low l x b ≡ true → too_low l x' a ≡ true
too_low-anti l x x' a b h g e =
    let m = minus_mono a b x g in let n = minus_anti a x x' h in ground (arith, e, m, n)

low_enough-anti :
    (u x x' a b : ℤ) → x ≤ℤ x' → a ≤ℤ b → low_enough u x b ≡ true → low_enough u x' a ≡ true
low_enough-anti u x x' a b h g e =
    let m = minus_mono a b x g in let n = minus_anti a x x' h in ground (arith, e, m, n)

add_count : (z : ℤ) (c j k : ℕ) → z ≡ pos c → k ≤ j → z +ℤ sub_ℕ j k ≡ pos (c + (j - k))
unfolding ◌+ℤ◌
add_count z c j k e h = rw e (ground (arith, h))

le_of_lt : (a b c : ℤ) → ltb_ℤ a b ≡ true → b ≤ℤ c → a ≤ℤ c
le_of_lt a b c e h = ground (arith, e, h)

ge_of_not_lt : (a b c : ℤ) → ltb_ℤ a b ≡ false → a ≤ℤ c → b ≤ℤ c
ge_of_not_lt a b c e h = ground (arith, e, h)

in_range-tests :
    (l u x y : ℤ) → in_range l u x y ≡ (if not (too_low l x y) && low_enough u x y then 1 else 0)
unfolding in_range
in_range-tests l u x y = refl

module _ (s : Ints) (left mid right : ℕ) (lower upper : ℤ) where
  -- The elements between the two indices are those in the range.
  between_indices :
      (x : ℤ) (k j : ℕ)
      → lower ≤ℤ upper
      → mid ≤ right
      → (mid ≤ k)
        × (k ≤ right)
        × ((p : ℕ) → mid ≤ p → p < k → too_low lower x (s p) ≡ true)
        × ((p : ℕ) → k ≤ p → p < right → too_low lower x (s p) ≡ false)
      → (mid ≤ j)
        × (j ≤ right)
        × ((p : ℕ) → mid ≤ p → p < j → low_enough upper x (s p) ≡ true)
        × ((p : ℕ) → j ≤ p → p < right → low_enough upper x (s p) ≡ false)
      → (k ≤ j) × (sum (in_range lower upper x) s mid (right - mid) ≡ j - k)
  between_indices x k j o r (k1, k2, k3, k4) (j1, j2, j3, j4) =
      let ordered : k ≤ j = elim (Bool-cases (ltb j k)) [
        | inl e ↦
            (let a = k3 j j1 (ground (arith, e)) in
              let b = j4 j (omega arith) (ground (arith, e, k2)) in
              absurd (ground (arith, a, b, o)))
        | inr e ↦ ground (arith, e)
      ] in
      let counted =
        sum-interval (in_range lower upper x) s mid (right - mid) k j ordered (omega (arith, j2, r))
          (λ p a b.
            let c : too_low lower x (s p) ≡ ltb p k = elim (Bool-cases (ltb p k)) [
              | inl e ↦ k3 p a (ground (arith, e)) ∙ sym e
              | inr e ↦ k4 p (ground (arith, e)) (omega (arith, b, r)) ∙ sym e
            ] in
            let d : low_enough upper x (s p) ≡ ltb p j = elim (Bool-cases (ltb p j)) [
              | inl e ↦ j3 p a (ground (arith, e)) ∙ sym e
              | inr e ↦ j4 p (ground (arith, e)) (omega (arith, b, r)) ∙ sym e
            ] in
            in_range-tests lower upper x (s p) ∙ rw (c, d) (ground arith)) in
      (ordered, ground (arith, counted, k1))

  -- Before round `i`: what the indices `k` and `j` have passed is below the ranges of all the sums
  -- that are left, and not above them.
  pub record IsCounted (i : ℕ) (c : ℕ) (l : Locals) : Type 0 where
    pub k_inside : (mid ≤ l.k) × (l.k ≤ right)
    pub j_inside : (mid ≤ l.j) × (l.j ≤ right)
    pub k_passed :
        (q : ℕ) → i ≤ q → q < mid → (p : ℕ) → mid ≤ p → p < l.k → too_low lower (s q) (s p) ≡ true
    pub j_passed :
        (q : ℕ)
        → i ≤ q
        → q < mid
        → (p : ℕ) → mid ≤ p
        → p < l.j
        → low_enough upper (s q) (s p) ≡ true
    pub merged : IsMerged s left mid right i l.merged
    pub counted : l.count ≡ pos (c + cross lower upper s left (i - left) mid (right - mid))

  step-IsCounted :
      (i c : ℕ) (l : Locals)
      → IsCounted i c l
      → left ≤ i
      → i < mid
      → lower ≤ℤ upper
      → IsRising s left mid
      → IsRising s mid right
      → IsCounted (i + 1) c (step s right lower upper i l)
  unfolding step
  step-IsCounted i c l w b d o up up' =
      let x = s i in
      let (k1, k2, k3, k4) =
        seek-separates (too_low lower x) s mid right l.k
          (λ e f. too_low-anti lower x x e f (omega arith)) up' w.k_inside.0 w.k_inside.1
          (w.k_passed i (omega arith) d) in
      let (j1, j2, j3, j4) =
        seek-separates (low_enough upper x) s mid right l.j
          (λ e f. low_enough-anti upper x x e f (omega arith)) up' w.j_inside.0 w.j_inside.1
          (w.j_passed i (omega arith) d) in
      let m = copy_while (λ y. ltb_ℤ y x) s right right l.merged in
      let copied =
        copy_while_lem s left mid right (λ y. ltb_ℤ y x) i right l.merged w.merged (omega arith) up'
          (λ t _ e q f g. le_of_lt (s t) x (s q) e (up i q b f g)) in
      let last =
        sum_to s left mid right (λ z. sum (in_range lower upper z) s mid (right - mid)) left i b in
      let (ordered, found) =
        between_indices x _ _ o (omega (arith, w.k_inside)) (k1, k2, k3, k4) (j1, j2, j3, j4) in
      record {
        k_inside = (k1, k2);
        j_inside = (j1, j2);
        k_passed = λ q e f p g h.
            too_low-anti lower x (s q) (s p) (s p) (up i q b (omega (arith, e)) f) (omega arith)
              (k3 p g h);
        j_passed = λ q e f p g h.
            low_enough-anti upper x (s q) (s p) (s p) (up i q b (omega (arith, e)) f) (omega arith)
              (j3 p g h);
        merged = append-left s left mid right i m copied.0 b d up (λ q e f.
            ge_of_not_lt (s m.t) x (s q) (copied.1 (omega (arith, e, f)))
              (up' m.t q copied.0.inside.0 e f));
        counted = add_count l.count _ _ _ w.counted ordered ∙ ap pos (omega (arith, last, found));
      }

  pub steps-IsCounted :
      (rounds i c : ℕ) (l : Locals)
      → IsCounted i c l
      → left ≤ i
      → i + rounds ≡ mid
      → lower ≤ℤ upper
      → IsRising s left mid
      → IsRising s mid right
      → IsCounted mid c (steps s right lower upper rounds i l)
  unfolding steps
  steps-IsCounted zero i c l w b e o up up' = subst (λ n. IsCounted n c l) (omega (arith, e)) w
  steps-IsCounted (suc rounds) i c l w b e o up up' =
      steps-IsCounted rounds (i + 1) c _ (step-IsCounted i c l w b (omega (arith, e)) o up up')
        (omega (arith, b)) (omega (arith, e)) o up up'
