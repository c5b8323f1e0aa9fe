-- ===== src/RangeSum/Total.antt =====
-- 327.c: the prefix sums, and the number that countRangeSum returns.
use leetcode.Base.{true, ℕ, zero, suc, ◌+◌, ◌-◌, ◌≤◌, ◌≡◌, ap, ◌∙◌, arith, update, update-cases}
use leetcode.Base.Int.{ℤ, pos, ◌≤ℤ◌, ◌+ℤ◌, is_int, to_int, to_int-is_int}
use leetcode.RangeSum.{Ints, fill_sums, merge_count, count_range_sum}
use leetcode.RangeSum.Sums.{pairs}
use leetcode.RangeSum.Count.{pairs-ext, merge_count_lem}

-- nums[0] + ... + nums[n - 1]
abbrev pub prefix : (nums : Ints) → (n : ℕ) → ℤ
prefix nums zero = pos 0
prefix nums (suc n) = prefix nums n +ℤ nums n

fill_sums_lem :
    (nums : Ints) (rounds i : ℕ) (s : Ints)
    → ((p : ℕ) → p ≤ i → s p ≡ prefix nums p)
    → (p : ℕ) → p ≤ i + rounds
    → fill_sums nums rounds i s p ≡ prefix nums p
unfolding fill_sums
fill_sums_lem nums zero i s h p l = h p (omega (arith, l))
fill_sums_lem nums (suc rounds) i s h p l =
    fill_sums_lem nums rounds (i + 1) _
      (λ q b.
        update-cases (λ v. v ≡ prefix nums q) s (i + 1) (s i +ℤ nums i) q
          (λ e. rw (h i (omega arith)) (ap (prefix nums) {x = suc i} (omega (arith, e))))
          (λ n. h q (omega (arith, b, n))))
      p (omega (arith, l))

merge_count_total :
    (cache sums nums : Ints) (nums_size : ℕ) (lower upper : ℤ)
    → lower ≤ℤ upper
    → (merge_count cache lower upper
        (nums_size + 1)
        (fill_sums nums nums_size 0 (update sums 0 (pos 0)))
        0
        (nums_size + 1)).0
      ≡ pos (pairs lower upper (prefix nums) 0 (nums_size + 1))
merge_count_total cache sums nums nums_size lower upper h =
    let start = update sums 0 (pos 0) in
    let s = fill_sums nums nums_size 0 start in
    (merge_count_lem cache lower upper h (nums_size + 1) s 0 (nums_size + 1) (omega arith)).0
    ∙ ap (λ n. pos (pairs lower upper s 0 n)) {x = nums_size + 1 - 0} (omega arith)
    ∙ ap pos (
        pairs-ext lower upper s (prefix nums) 0 (nums_size + 1) (λ p _ b.
          fill_sums_lem nums nums_size 0 start
            (λ q l.
              update-cases (λ v. v ≡ prefix nums q) sums 0 (pos 0) q
                (λ e. ap (prefix nums) {x = 0} (omega (arith, e)))
                (λ n. absurd (omega (arith, l, n))))
            p (omega (arith, b))))

-- For lower <= upper, countRangeSum returns the number of pairs p < q of positions in
-- 0, ..., nums_size for which the sum of the elements from p up to q, a difference of two prefix
-- sums, is in the range, cast to `int`: the number itself if it is below 2 ^ 31, else what is congruent
-- to it modulo 2 ^ 32. The two arrays may hold anything when they are allocated.
pub count_range_sum_lem :
    (cache sums nums : Ints) (nums_size : ℕ) (lower upper : ℤ)
    → lower ≤ℤ upper
    → count_range_sum cache sums nums nums_size lower upper
      ≡ to_int (pos (pairs lower upper (prefix nums) 0 (nums_size + 1)))
unfolding count_range_sum
count_range_sum_lem cache sums nums nums_size lower upper h =
    ap to_int (merge_count_total cache sums nums nums_size lower upper h)

-- The number itself, where it is an `int`.
pub count_range_sum_exact :
    (cache sums nums : Ints) (nums_size : ℕ) (lower upper : ℤ)
    → lower ≤ℤ upper
    → is_int (pos (pairs lower upper (prefix nums) 0 (nums_size + 1))) ≡ true
    → count_range_sum cache sums nums nums_size lower upper
      ≡ pos (pairs lower upper (prefix nums) 0 (nums_size + 1))
count_range_sum_exact cache sums nums nums_size lower upper h small =
    count_range_sum_lem cache sums nums nums_size lower upper h
    ∙ to_int-is_int (pos (pairs lower upper (prefix nums) 0 (nums_size + 1))) small
