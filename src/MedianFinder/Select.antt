-- ===== src/MedianFinder/Select.antt =====
-- 295.c: kthSmallest and the median.
use leetcode.Base.{
  ℕ, zero, suc, ◌+◌, ◌-◌, ◌*◌, ◌/◌, ◌%◌, ◌^◌, ◌≤◌, ◌<◌, ◌≡◌, refl, sym, ap, ◌∙◌, Bool-cases, inl,
  inr, Option, some, none, List, [], ◌∷◌, ◌++◌, arith, length, leb, ◌==◌, if◌then◌else◌, get_elem?,
}
use leetcode.Base.Int.{ℤ, ◌+ℤ◌, is_int}
use leetcode.Base.Fallible.{◌>>=◌}
use leetcode.MedianFinder.{
  Tree, leaf, node, node_size, kth_smallest, find_median, add_int, Double, whole, half_of, add_all,
}
use leetcode.MedianFinder.Contents.{
  contents, count, length-contents, IsSized, node_size_lem, IsAscending, insert_sorted,
  insert_sorted-IsAscending,
}
use leetcode.MedianFinder.Balance.{height, height-IsBalanced, count-IsBalanced}
use leetcode.MedianFinder.Insert.{IsSound, leaf-IsSound, insert_rbt_lem}

pub elem-before :
    (xs : List ℤ) (v : ℤ) (ys : List ℤ) (k : ℕ)
    → k < length xs
    → get_elem? (xs ++ (v ∷ ys)) k ≡ get_elem? xs k
elem-before [] v ys k h = elim h [ ]
elem-before (x ∷ xs) v ys zero h = refl
elem-before (x ∷ xs) v ys (suc k) h = elem-before xs v ys k (omega arith)

pub elem-at :
    (xs : List ℤ) (v : ℤ) (ys : List ℤ) (k : ℕ)
    → k ≡ length xs
    → get_elem? (xs ++ (v ∷ ys)) k ≡ some v
elem-at [] v ys zero e = refl
elem-at [] v ys (suc k) e = absurd (omega (arith, e))
elem-at (x ∷ xs) v ys zero e = absurd (omega (arith, e))
elem-at (x ∷ xs) v ys (suc k) e = elem-at xs v ys k (omega (arith, e))

pub elem-after :
    (xs : List ℤ) (v : ℤ) (ys : List ℤ) (k j : ℕ)
    → k ≡ length xs + suc j
    → get_elem? (xs ++ (v ∷ ys)) k ≡ get_elem? ys j
elem-after xs v ys zero j e = absurd (omega (arith, e))
elem-after [] v ys (suc k) j e = ap (get_elem? ys) (omega (arith, e))
elem-after (x ∷ xs) v ys (suc k) j e = elem-after xs v ys k j (omega (arith, e))

-- In a tree with right sizes kthSmallest returns the k-th value in order, and runs into a NULL
-- pointer exactly when the tree has fewer.
pub kth_smallest_lem :
    (t : Tree) (k : ℕ) → IsSized t → kth_smallest t (suc k) ≡ get_elem? (contents t) k
unfolding kth_smallest contents
kth_smallest_lem leaf k h = refl
kth_smallest_lem (node l v c s r) k h =
    let left = node_size_lem l h.1 in
    let size = length-contents l in
    elim (Bool-cases (suc k == node_size l + 1)) [
      | inl e ↦
          rw (e, kth_smallest)
            (sym (elem-at (contents l) v (contents r) k (ground (arith, e, left, size))))
      | inr e ↦ elim (Bool-cases (leb (suc k) (node_size l))) [
        | inl f ↦
            rw (e, f, kth_smallest)
              (kth_smallest_lem l k h.1
                ∙ sym (elem-before (contents l) v (contents r) k (ground (arith, f, left, size))))
        | inr f ↦
            (let j = k - node_size l - 1 in
              let more : suc k - node_size l - 1 ≡ suc j = ground (arith, e, f) in
              rw (e, f, kth_smallest)
                (ap (kth_smallest r) more
                  ∙ kth_smallest_lem r j h.2
                  ∙ sym (
                      elem-after (contents l) v (contents r) k j
                        (ground (arith, e, f, left, size)))))
      ]
    ]

unfoldable pub sort : List ℤ → List ℤ → List ℤ
sort sorted [] = sorted
sort sorted (num ∷ nums) = sort (insert_sorted num sorted) nums

-- The middle element of a list, or half the sum of the two middle ones.
unfoldable pub median : List ℤ → Option Double
median xs =
    let n = length xs in
    if n % 2 == 1
    then (do a ← get_elem? xs (n / 2); some (whole a))
    else (do a ← get_elem? xs (n / 2 - 1); b ← get_elem? xs (n / 2); some (half_of (a +ℤ b)))

-- Nothing, where the two middle ones have a sum that is no `int`.
unfoldable pub unless_overflow : Option Double → Option Double
unless_overflow none = none
unless_overflow (some (whole a)) = some (whole a)
unless_overflow (some (half_of s)) = if is_int s then some (half_of s) else none

kth_at : (t : Tree) (k j : ℕ) → IsSized t → k ≡ suc j → kth_smallest t k ≡ get_elem? (contents t) j
kth_at t k j h e = ap (kth_smallest t) e ∙ kth_smallest_lem t j h

odd_lem : (a : Option ℤ) → (do x ← a; some (whole x)) ≡ unless_overflow (do x ← a; some (whole x))
unfolding unless_overflow
odd_lem none = refl
odd_lem (some x) = refl

even_lem :
    (a b : Option ℤ)
    → (do x ← a; y ← b; s ← add_int x y; some (half_of s))
      ≡ unless_overflow (do x ← a; y ← b; some (half_of (x +ℤ y)))
unfolding unless_overflow add_int
even_lem none b = refl
even_lem (some x) none = refl
even_lem (some x) (some y) = elim (Bool-cases (is_int (x +ℤ y))) [
  | inl e ↦ rw e refl
  | inr e ↦ rw e refl
]

find_median_lem :
    (t : Tree)
    → IsSized t
    → 0 < length (contents t)
    → find_median t ≡ unless_overflow (median (contents t))
unfolding find_median median
find_median_lem t h more =
    let n = length (contents t) in
    let e : node_size t ≡ n = node_size_lem t h ∙ sym (length-contents t) in
    let upper = kth_at t (n / 2 + 1) (n / 2) h (omega arith) in
    rw e (elim (Bool-cases (n % 2 == 1)) [
      | inl s ↦ rw (s, upper) (odd_lem (get_elem? (contents t) (n / 2)))
      | inr s ↦
          (let lower = kth_at t (n / 2) (n / 2 - 1) h (ground (arith, s, more)) in
            rw (s, lower, upper)
              (even_lem (get_elem? (contents t) (n / 2 - 1)) (get_elem? (contents t) (n / 2))))
    ])

length-insert_sorted : (v : ℤ) (xs : List ℤ) → length (insert_sorted v xs) ≡ 1 + length xs
unfolding insert_sorted
length-insert_sorted v [] = omega arith
length-insert_sorted v (x ∷ xs) = ground (arith, length-insert_sorted v xs)

add_all_lem :
    (nums : List ℤ) (t : Tree)
    → IsSound t
    → (root : Tree) × (add_all t nums ≡ some root)
      × IsSound root
      × (contents root ≡ sort (contents t) nums)
unfolding add_all sort
add_all_lem [] t w = (t, refl, w, refl)
add_all_lem (num ∷ nums) t w =
    let (root, e, v, c) = insert_rbt_lem t num w in
    let (final, f, u, d) = add_all_lem nums root v in
    (final, ap (λ o. o >>= λ r. add_all r nums) e ∙ f, u, d ∙ ap (λ xs. sort xs nums) c)

pub sort-IsAscending : (xs nums : List ℤ) → IsAscending xs → IsAscending (sort xs nums)
unfolding sort
sort-IsAscending xs [] h = h
sort-IsAscending xs (num ∷ nums) h =
    sort-IsAscending (insert_sorted num xs) nums (insert_sorted-IsAscending num xs h)

length-sort : (xs nums : List ℤ) → length (sort xs nums) ≡ length xs + length nums
unfolding sort
length-sort xs [] = omega arith
length-sort xs (num ∷ nums) =
    omega (arith, length-sort (insert_sorted num xs) nums, length-insert_sorted num xs)

sort_some : (num : ℤ) (nums : List ℤ) → 0 < length (sort [] (num ∷ nums))
sort_some num nums = omega (arith, length-sort [] (num ∷ nums))

pow_le : (n m : ℕ) → n ≤ m → 2 ^ n ≤ 2 ^ m
pow_le zero zero h = omega arith
pow_le zero (suc m) h = let a = pow_le zero m (omega arith) in omega (arith, a)
pow_le (suc n) zero h = absurd (omega (arith, h))
pow_le (suc n) (suc m) h = let a = pow_le n m (omega (arith, h)) in omega (arith, a)

-- After any numbers, at least one, have been added, none of the calls has gone through a NULL
-- pointer, the tree holds the numbers in order, and findMedian returns the median of the numbers: the
-- middle one of them in order, or half the sum of the two middle ones. It has no result exactly where
-- it adds two middle ones whose sum is no `int`.
pub find_median-sorted :
    (num : ℤ) (nums : List ℤ)
    → (root : Tree) × (add_all leaf (num ∷ nums) ≡ some root)
      × IsAscending (contents root)
      × (contents root ≡ sort [] (num ∷ nums))
      × (find_median root ≡ unless_overflow (median (sort [] (num ∷ nums))))
find_median-sorted num nums =
    let (root, e, w, c) = add_all_lem (num ∷ nums) leaf leaf-IsSound in
    let values : contents root ≡ sort [] (num ∷ nums) = c ∙ unfold contents in refl in
    (
      root,
      e,
      w.ascending,
      values,
      find_median_lem root w.sized (rw values (sort_some num nums))
          ∙ ap (λ xs. unless_overflow (median xs)) values,
    )

-- The tree that the calls make of any numbers has a height of at most twice the logarithm of its
-- size: a tree of height 2 * n or more has at least 2 ^ n - 1 nodes.
pub add_all-height :
    (nums : List ℤ)
    → (root : Tree) × (add_all leaf nums ≡ some root)
      × ((n : ℕ) → 2 * n ≤ height root → 2 ^ n ≤ count root + 1)
add_all-height nums =
    let (root, e, w, c) = add_all_lem nums leaf leaf-IsSound in
    (
      root,
      e,
      λ n h.
          let (m, b) = w.balanced in
          let low = height-IsBalanced root m b in
          let many = count-IsBalanced root m b in
          let half : n ≤ m = ground (arith, low, h, w.black_root) in
          omega (arith, pow_le n m half, many),
    )
