-- ===== src/RangeSum.antt =====
-- 327.c: how many ranges of an array have a sum in [lower, upper], by a merge sort of the prefix
-- sums. The sums are unbounded here, as no `long` overflows on 32-bit numbers.
pub mod Sums
pub mod Pointers
pub mod Merge
pub mod Round
pub mod Halves
pub mod Count
pub mod Total
mod Tests
use leetcode.Base.{
  ℕ, zero, suc, ◌+◌, ◌-◌, ◌/◌, Bool, true, false, ◌&&◌, not, ltb, leb, if◌then◌else◌, update,
}
use leetcode.Base.Int.{ℤ, pos, sub_ℕ, ltb_ℤ, ◌+ℤ◌, ◌-ℤ◌, to_int}

-- A pointer to integers: what it holds at each index.
abbrev pub Ints : Type 0
Ints = ℕ → ℤ

-- The loops on `k` and `j`: `while (k < right && test(sums[k])) k++`.
unfoldable pub seek : (test : ℤ → Bool) → (sums : Ints) → (right : ℕ) → (rounds k : ℕ) → ℕ
seek test sums right zero k = k
seek test sums right (suc rounds) k =
    let rest = seek test sums right rounds (k + 1) in
    if ltb k right && test (sums k) then rest else k

-- The array `cache` with its length `r`, and the index `t`.
pub record Merged : Type 0 where
  t : ℕ
  r : ℕ
  cache : Ints

-- cache[r++] = v
unfoldable pub append : Merged → ℤ → Merged
append m v = record m { cache = update m.cache m.r v; r = m.r + 1 }

-- The loops on `t`, the one at the end with a test that always holds.
unfoldable pub copy_while :
    (test : ℤ → Bool) → (sums : Ints) → (right : ℕ) → (rounds : ℕ) → Merged → Merged
unfolding append
copy_while test sums right zero m = m
copy_while test sums right (suc rounds) m =
    let a = append m (sums m.t) in
    let rest = copy_while test sums right rounds (record a { t = m.t + 1 }) in
    if ltb m.t right && test (sums m.t) then rest else m

-- The locals of the loop on `i`.
pub record Locals : Type 0 where
  j : ℕ
  k : ℕ
  merged : Merged
  count : ℤ

unfoldable pub step : (sums : Ints) → (right : ℕ) → (lower upper : ℤ) → (i : ℕ) → Locals → Locals
unfolding seek copy_while append
step sums right lower upper i l =
    let x = sums i in
    let k = seek (λ y. ltb_ℤ (y -ℤ x) lower) sums right right l.k in
    let j = seek (λ y. not (ltb_ℤ upper (y -ℤ x))) sums right right l.j in
    let m = copy_while (λ y. ltb_ℤ y x) sums right right l.merged in
    record { j = j; k = k; merged = append m x; count = l.count +ℤ sub_ℕ j k }

unfoldable pub steps :
    (sums : Ints) → (right : ℕ) → (lower upper : ℤ) → (rounds i : ℕ) → Locals → Locals
unfolding step
steps sums right lower upper zero i l = l
steps sums right lower upper (suc rounds) i l =
    steps sums right lower upper rounds (i + 1) (step sums right lower upper i l)

-- The loop that copies `cache` back.
unfoldable pub copy_back : (left : ℕ) → (cache : Ints) → (rounds i : ℕ) → Ints → Ints
copy_back left cache zero i sums = sums
copy_back left cache (suc rounds) i sums =
    copy_back left cache rounds (i + 1) (update sums (left + i) (cache i))

-- mergeCount after its two calls.
unfoldable pub merge :
    (cache sums : Ints) → (left mid right : ℕ) → (lower upper : ℤ) → (count : ℤ) → ℤ × Ints
unfolding steps copy_back
merge cache sums left mid right lower upper count =
    let m : Merged = record { t = mid; r = 0; cache = cache } in
    let l : Locals = record { j = mid; k = mid; merged = m; count = count } in
    let l = steps sums right lower upper (mid - left) left l in
    let m = copy_while (λ _. true) sums right right l.merged in
    (l.count, copy_back left m.cache m.r 0 sums)

-- The number and the array. C leaves the order of the two calls open; here the left one is first.
-- `cache` is what each malloc returns.
unfoldable pub merge_count :
    (cache : Ints) → (lower upper : ℤ) → (fuel : ℕ) → (sums : Ints) → (left right : ℕ) → ℤ × Ints
unfolding merge
merge_count cache lower upper zero sums left right = (pos 0, sums)
merge_count cache lower upper (suc fuel) sums left right = elim (leb right (left + 1)) [
  | true ↦ (pos 0, sums)
  | false ↦
      (let mid = (left + right) / 2 in
        let (a, sums) = merge_count cache lower upper fuel sums left mid in
        let (b, sums) = merge_count cache lower upper fuel sums mid right in
        merge cache sums left mid right lower upper (a +ℤ b))
]

-- sums[i + 1] = sums[i] + nums[i]
unfoldable pub fill_sums : (nums : Ints) → (rounds i : ℕ) → Ints → Ints
fill_sums nums zero i sums = sums
fill_sums nums (suc rounds) i sums =
    fill_sums nums rounds (i + 1) (update sums (i + 1) (sums i +ℤ nums i))

-- `sums` is what malloc returns.
unfoldable pub count_range_sum : (cache sums nums : Ints) → (nums_size : ℕ) → (lower upper : ℤ) → ℤ
unfolding merge_count fill_sums
count_range_sum cache sums nums nums_size lower upper =
    let sums = fill_sums nums nums_size 0 (update sums 0 (pos 0)) in
    let (ans, sums) = merge_count cache lower upper (nums_size + 1) sums 0 (nums_size + 1) in
    to_int ans
