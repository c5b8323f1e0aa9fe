-- ===== src/RangeSum/Halves.antt =====
-- 327.c: the body of mergeCount after its two calls.
use leetcode.Base.{
  ℕ, ◌+◌, ◌-◌, ◌≤◌, ◌<◌, ◌≡◌, refl, ap, ◌∙◌, true, false, ◌&&◌, ltb, leb, arith, Bool-cases, inl,
  inr,
}
use leetcode.Base.Int.{ℤ, pos, ◌≤ℤ◌}
use leetcode.RangeSum.{Ints, Merged, Locals, copy_while, copy_back, steps, merge}
use leetcode.RangeSum.Sums.{sum, sum-ext, sum-split, in_range, cross}
use leetcode.RangeSum.Pointers.{IsRising}
use leetcode.RangeSum.Merge.{IsMerged, copy_while_lem, copy_back_lem}
use leetcode.RangeSum.Round.{IsCounted, steps-IsCounted}

-- The array is sorted between the bounds, of the same values, and elsewhere as it was.
pub record IsSortedPart (s : Ints) (left right : ℕ) (s' : Ints) : Type 0 where
  pub rising : IsRising s' left right
  pub same : (f : ℤ → ℕ) → sum f s' left (right - left) ≡ sum f s left (right - left)
  pub outside : (p : ℕ) → (leb left p && ltb p right) ≡ false → s' p ≡ s p

pub whole :
    (f : ℤ → ℕ) (s : Ints) (l m r : ℕ)
    → l ≤ m
    → m ≤ r
    → sum f s l (m - l) + sum f s m (r - m) ≡ sum f s l (r - l)
whole f s l m r h k =
    let e = sum-split f s l (m - l) (r - m) in
    let g : l + (m - l) ≡ m = omega (arith, h) in
    let n : m - l + (r - m) ≡ r - l = omega (arith, h, k) in
    let a = ap (sum f s l) n in let b = ap (λ z. sum f s z (r - m)) g in omega (arith, e, a, b)

module _ (lower upper : ℤ) (ordered : lower ≤ℤ upper) where
  self_minus : (l : ℕ) → l - l ≡ 0
  self_minus l = omega arith

  empty_sum : (f : ℤ → ℕ) (s : Ints) (l : ℕ) → sum f s l (l - l) ≡ 0
  unfolding sum
  empty_sum f s l = ap (sum f s l) (self_minus l)

  no_sum : (f : ℤ → ℕ) (s : Ints) (l : ℕ) → sum f s l 0 ≡ 0
  unfolding sum
  no_sum f s l = refl

  shifted : (l p : ℕ) → l + p - l ≡ 0 + p
  shifted l p = omega arith

  start-IsCounted :
      (cache s : Ints) (left mid right c : ℕ)
      → mid ≤ right
      → IsCounted s left mid right lower upper left c (record {
        j = mid;
        k = mid;
        merged = record { t = mid; r = 0; cache = cache };
        count = pos c;
      })
  start-IsCounted cache s left mid right c h = record {
    k_inside = (omega arith, h);
    j_inside = (omega arith, h);
    k_passed = λ q _ _ p a b. absurd (omega (arith, a, b));
    j_passed = λ q _ _ p a b. absurd (omega (arith, a, b));
    merged = record {
      inside = (omega arith, h);
      size = omega arith;
      same = λ f. omega (arith, empty_sum f s left, empty_sum f s mid, no_sum f cache 0);
      rising = λ p q _ a b. absurd (omega (arith, b));
      left_above = λ q _ _ p b. absurd (omega (arith, b));
      right_above = λ q _ _ p b. absurd (omega (arith, b));
    };
    counted =
        ap pos
          (omega (arith, empty_sum (λ x. sum (in_range lower upper x) s mid (right - mid)) s left));
  }

  sorted_part :
      (s : Ints) (left mid right : ℕ) (m : Merged)
      → left ≤ mid
      → mid ≤ right
      → IsMerged s left mid right mid m
      → m.t ≡ right
      → IsSortedPart s left right (copy_back left m.cache m.r 0 s)
  sorted_part s left mid right m h k w e =
      let size : m.r ≡ right - left = omega (arith, w.size, e) in
      let cell = copy_back_lem left m.cache m.r 0 s in
      let in_cell : (p : ℕ)
          → left ≤ p
          → p < right
          → copy_back left m.cache m.r 0 s p ≡ m.cache (p - left) =
        λ p a b. let c = cell p in ground (arith, c, a, b, size) in
      record {
        rising = λ p q a b c.
            rw (in_cell p a (omega (arith, b, c)), in_cell q (omega (arith, a, b)) c)
              (w.rising (p - left) (q - left) (omega arith) (omega (arith, b))
                (omega (arith, a, b, c, size)));
        same = λ f.
            let x =
              sum-ext f f (copy_back left m.cache m.r 0 s) m.cache left 0 (right - left) (λ p b.
                ap f (
                  in_cell (left + p) (omega arith) (omega (arith, b))
                  ∙ ap m.cache (shifted left p))) in
            let y = ap (sum f m.cache 0) size in
            let z = w.same f in
            let u = ap (λ t. sum f s mid (t - mid)) e in
            let v = whole f s left mid right h k in omega (arith, x, y, z, u, v);
        outside = λ p a. let c = cell p in ground (arith, c, a, size);
      }

  pub merge_lem :
      (cache s : Ints) (left mid right c : ℕ)
      → left ≤ mid
      → mid ≤ right
      → IsRising s left mid
      → IsRising s mid right
      → let r = merge cache s left mid right lower upper (pos c) in
        (r.0 ≡ pos (c + cross lower upper s left (mid - left) mid (right - mid)))
        × IsSortedPart s left right r.1
  unfolding merge
  merge_lem cache s left mid right c h k up up' =
      let m : Merged = record { t = mid; r = 0; cache = cache } in
      let l : Locals = record { j = mid; k = mid; merged = m; count = pos c } in
      let w =
        steps-IsCounted s left mid right lower upper (mid - left) left c l
          (start-IsCounted cache s left mid right c k) (omega arith) (omega (arith, h)) ordered up
          up' in
      let l' = steps s right lower upper (mid - left) left l in
      let m' = copy_while (λ _. true) s right right l'.merged in
      let (v, done) =
        copy_while_lem s left mid right (λ _. true) mid right _ w.merged (omega arith) up'
          (λ t _ _ q a b. absurd (omega (arith, a, b))) in
      (
        w.counted,
        sorted_part s left mid right _ h k v (elim (Bool-cases (ltb m'.t right)) [
          | inl e ↦ absurd (ground (arith, done, e))
          | inr e ↦ ground (arith, v.inside, e)
        ]),
      )
