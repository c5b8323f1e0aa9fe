-- ===== src/RangeSum/Count.antt =====
-- 327.c: the number that mergeCount returns, and the array that it leaves.
use leetcode.Base.{
  ℕ, zero, suc, ◌+◌, ◌-◌, ◌/◌, ◌≤◌, ◌<◌, ◌≡◌, refl, ap, sym, ◌∙◌, subst, leb, arith, Bool-cases,
  inl, inr,
}
use leetcode.Base.Int.{ℤ, pos, ◌≤ℤ◌, ◌+ℤ◌}
use leetcode.RangeSum.{Ints, merge, merge_count}
use leetcode.RangeSum.Sums.{sum, sum-ext, in_range, pairs, cross, pairs-split}
use leetcode.RangeSum.Pointers.{IsRising}
use leetcode.RangeSum.Halves.{IsSortedPart, whole, merge_lem}

pub pairs-ext :
    (lower upper : ℤ) (a b : Ints) (l n : ℕ)
    → ((p : ℕ) → l ≤ p → p < l + n → a p ≡ b p)
    → pairs lower upper a l n ≡ pairs lower upper b l n
unfolding pairs
pairs-ext lower upper a b l zero h = refl
pairs-ext lower upper a b l (suc n) h =
    let ih =
      pairs-ext lower upper a b (l + 1) n (λ p c d. h p (omega (arith, c)) (omega (arith, d))) in
    let first =
      sum-ext (in_range lower upper (a l)) (in_range lower upper (b l)) a b (l + 1) (l + 1) n
        (λ p c.
          ap (λ x. in_range lower upper x (a (l + 1 + p))) (h l (omega arith) (omega arith))
          ∙ ap (in_range lower upper (b l)) (h (l + 1 + p) (omega arith) (omega (arith, c)))) in
    omega (arith, ih, first)

add_pos : (c d : ℤ) (a b : ℕ) → c ≡ pos a → d ≡ pos b → c +ℤ d ≡ pos (a + b)
unfolding ◌+ℤ◌
add_pos c d a b e g = rw (e, g) (ground arith)

pairs_single : (lower upper : ℤ) (s : Ints) (l n : ℕ) → n ≤ 1 → pairs lower upper s l n ≡ 0
unfolding pairs sum
pairs_single lower upper s l zero h = refl
pairs_single lower upper s l (suc zero) h = refl
pairs_single lower upper s l (suc (suc n)) h = absurd (omega (arith, h))

-- Two neighbouring parts, sorted one after the other.
module _ (s s1 s2 : Ints) (left mid right : ℕ) (h : left ≤ mid) (k : mid ≤ right)
    (u : IsSortedPart s left mid s1) (v : IsSortedPart s1 mid right s2) where
  left_same : (f : ℤ → ℕ) → sum f s2 left (mid - left) ≡ sum f s left (mid - left)
  left_same f =
      sum-ext f f s2 s1 left left (mid - left)
        (λ p b. ap f (v.outside (left + p) (ground (arith, b))))
      ∙ u.same f

  right_same : (f : ℤ → ℕ) → sum f s2 mid (right - mid) ≡ sum f s mid (right - mid)
  right_same f =
      v.same f
      ∙ sum-ext f f s1 s mid mid (right - mid) (λ p b. ap f (u.outside (mid + p) (ground arith)))

  left-IsRising : IsRising s2 left mid
  left-IsRising p q a b c =
      rw (v.outside p (ground (arith, b, c)), v.outside q (ground (arith, c))) (u.rising p q a b c)

  -- The pairs across the halves are the same after the halves are sorted.
  cross-sorted :
      (lower upper : ℤ)
      → cross lower upper s2 left (mid - left) mid (right - mid)
        ≡ cross lower upper s left (mid - left) mid (right - mid)
  cross-sorted lower upper =
      sum-ext (λ x. sum (in_range lower upper x) s2 mid (right - mid))
        (λ x. sum (in_range lower upper x) s mid (right - mid)) s2 s2 left left (mid - left)
        (λ p _. right_same (in_range lower upper (s2 (left + p))))
      ∙ left_same (λ x. sum (in_range lower upper x) s mid (right - mid))

  join-IsSortedPart : (s3 : Ints) → IsSortedPart s2 left right s3 → IsSortedPart s left right s3
  join-IsSortedPart s3 w = record {
    rising = w.rising;
    same = λ f.
        let a = w.same f in
        let b = whole f s2 left mid right h k in
        let c = whole f s left mid right h k in
        let d = left_same f in let e = right_same f in omega (arith, a, b, c, d, e);
    outside = λ p e.
        w.outside p e ∙ v.outside p (ground (arith, e, h)) ∙ u.outside p (ground (arith, e, k));
  }

module _ (cache : Ints) (lower upper : ℤ) (ordered : lower ≤ℤ upper) where
  abbrev IsCount : (s : Ints) (left right : ℕ) → ℤ × Ints → Type 0
  IsCount s left right r =
      (r.0 ≡ pos (pairs lower upper s left (right - left))) × IsSortedPart s left right r.1

  short-IsCount : (s : Ints) (left right : ℕ) → right ≤ left + 1 → IsCount s left right (pos 0, s)
  short-IsCount s left right h = (
    ap pos (sym (pairs_single lower upper s left (right - left) (omega (arith, h)))),
    record {
      rising =
          λ p q a b c. subst (λ z. s p ≤ℤ s z) {x = p} (omega (arith, h, a, b, c)) (omega arith);
      same = λ f. refl;
      outside = λ p _. refl;
    },
  )

  pairs-whole :
      (s : Ints) (l m r : ℕ)
      → l ≤ m
      → m ≤ r
      → pairs lower upper s l (r - l)
        ≡ pairs lower upper s l (m - l)
          + pairs lower upper s m (r - m)
          + cross lower upper s l (m - l) m (r - m)
  pairs-whole s l m r h k =
      let e = pairs-split lower upper s l (m - l) (r - m) in
      let g : l + (m - l) ≡ m = omega (arith, h) in
      let n : m - l + (r - m) ≡ r - l = omega (arith, h, k) in
      let a = ap (pairs lower upper s l) n in
      let b = ap (λ z. pairs lower upper s z (r - m)) g in
      let c = ap (λ z. cross lower upper s l (m - l) z (r - m)) g in omega (arith, e, a, b, c)

  join-IsCount :
      (s s1 s2 : Ints) (left mid right : ℕ) (c1 c2 : ℤ)
      → left ≤ mid
      → mid ≤ right
      → IsCount s left mid (c1, s1)
      → IsCount s1 mid right (c2, s2)
      → IsCount s left right (merge cache s2 left mid right lower upper (c1 +ℤ c2))
  join-IsCount s s1 s2 left mid right c1 c2 h k (e1, u) (e2, v) =
      let a = pairs lower upper s left (mid - left) in
      let b = pairs lower upper s1 mid (right - mid) in
      let (n, w) =
        merge_lem lower upper ordered cache s2 left mid right (a + b) h k
          (left-IsRising s s1 s2 left mid right h k u v) v.rising in
      let x = cross-sorted s s1 s2 left mid right h k u v lower upper in
      let y =
        pairs-ext lower upper s1 s mid (right - mid) (λ p d e. u.outside p (ground (arith, d))) in
      let z = pairs-whole s left mid right h k in
      subst (λ c. IsCount s left right (merge cache s2 left mid right lower upper c))
        (sym (add_pos c1 c2 a b e1 e2))
        (n ∙ ap pos (omega (arith, x, y, z)), join-IsSortedPart s s1 s2 left mid right h k u v _ w)

  -- With fuel for the length of the part, and a lower bound that is at most the upper one, mergeCount
  -- returns the number of pairs of indices p < q from `left` up to `right` with sums[q] - sums[p] in
  -- the range; it sorts that part of the array, which keeps its values, and leaves the rest as it
  -- was. `cache` may hold anything when it is allocated.
  pub merge_count_lem :
      (fuel : ℕ) (s : Ints) (left right : ℕ)
      → right ≤ left + fuel
      → IsCount s left right (merge_count cache lower upper fuel s left right)
  unfolding merge_count
  merge_count_lem zero s left right h = short-IsCount s left right (omega (arith, h))
  merge_count_lem (suc fuel) s left right h = elim (Bool-cases (leb right (left + 1))) [
    | inl e ↦ rw (e, merge_count) (short-IsCount s left right (ground (arith, e)))
    | inr e ↦
        (let mid = (left + right) / 2 in
          let (r1, s1) = merge_count cache lower upper fuel s left mid in
          let (r2, s2) = merge_count cache lower upper fuel s1 mid right in
          let a = merge_count_lem fuel s left mid (ground (arith, e, h)) in
          let b = merge_count_lem fuel s1 mid right (ground (arith, e, h)) in
          rw (e, merge_count)
            (join-IsCount s s1 s2 left mid right r1 r2 (ground (arith, e)) (ground (arith, e)) a b))
  ]
