-- ===== src/ThirdMax/Result.antt =====
-- 414.c: findKthLargest and thirdMax.
use leetcode.Base.{
  ℕ, suc, ◌+◌, ◌-◌, ◌<◌, ◌≡◌, refl, sym, ap, ◌∙◌, Bool, true, false, Bool-cases, inl, inr, Option,
  some, none, List, [], ◌∷◌, ◌++◌, arith, length, length-append, leb, ltb, ◌==◌, if◌then◌else◌,
  get_elem?, reverse,
}
use leetcode.Base.Int.{ℤ, negsuc}
use leetcode.Base.Fallible.{◌>>=◌}
use mathlib.Core.List.{reverse-append, reverse-cons, append_assoc}
use leetcode.MedianFinder.{Color, Tree, leaf, node}
use leetcode.MedianFinder.Contents.{contents, count, IsSized}
use leetcode.MedianFinder.Select.{elem-before, elem-at, elem-after}
use leetcode.Tree.Sorted.{IsSorted}
use leetcode.ThirdMax.{get_size, find_kth_largest, insert_all, result, third_max}
use leetcode.ThirdMax.Loop.{get_size_lem}
use leetcode.ThirdMax.Insert.{IsSound, leaf-IsSound, insert_value_lem}
use leetcode.ThirdMax.Distinct.{insert_distinct, insert_distinct-IsSorted}

-- The values from the largest on.
unfoldable falling : Tree → List ℤ
falling leaf = []
falling (node l v c s r) = falling r ++ (v ∷ falling l)

falling-reverse : (t : Tree) → falling t ≡ reverse (contents t)
unfolding falling contents
falling-reverse leaf = refl
falling-reverse (node l v c s r) =
    rw (falling-reverse l, falling-reverse r)
      (sym (
        reverse-append (contents l) (v ∷ contents r)
        ∙ rw (reverse-cons v (contents r))
            (append_assoc (reverse (contents r)) (v ∷ []) (reverse (contents l)))))

length-falling : (t : Tree) → length (falling t) ≡ count t
unfolding falling count
length-falling leaf = refl
length-falling (node l v c s r) =
    omega (arith, length-append (falling r) (v ∷ falling l), length-falling l, length-falling r)

or_minus_one : Option ℤ → ℤ
or_minus_one none = negsuc 0
or_minus_one (some v) = v

find_kth_largest_lem :
    (t : Tree) (k : ℕ)
    → IsSized t
    → find_kth_largest t (suc k) ≡ or_minus_one (get_elem? (falling t) k)
unfolding find_kth_largest falling or_minus_one
find_kth_largest_lem leaf k h = refl
find_kth_largest_lem (node l v c s r) k h =
    let right = get_size_lem r h.2 in
    let size = length-falling r in
    elim (Bool-cases (get_size r + 1 == suc k)) [
      | inl e ↦
          rw (e, find_kth_largest)
            (sym (
              ap or_minus_one
                (elem-at (falling r) v (falling l) k (ground (arith, e, right, size)))))
      | inr e ↦ elim (Bool-cases (leb (suc k) (get_size r))) [
        | inl f ↦
            rw (e, f, find_kth_largest)
              (find_kth_largest_lem r k h.2
                ∙ ap or_minus_one (
                    sym (elem-before (falling r) v (falling l) k (ground (arith, f, right, size)))))
        | inr f ↦
            (let j = k - get_size r - 1 in
              let more : suc k - get_size r - 1 ≡ suc j = ground (arith, e, f) in
              rw (e, f, find_kth_largest)
                (ap (find_kth_largest l) more
                  ∙ find_kth_largest_lem l j h.1
                  ∙ ap or_minus_one (
                      sym (
                        elem-after (falling r) v (falling l) k j
                          (ground (arith, e, f, right, size))))))
      ]
    ]

-- The distinct numbers in order, after those of `sorted`.
unfoldable pub distinct : (sorted nums : List ℤ) → List ℤ
distinct sorted [] = sorted
distinct sorted (num ∷ nums) = distinct (insert_distinct num sorted) nums

pub distinct-IsSorted : (sorted nums : List ℤ) → IsSorted sorted → IsSorted (distinct sorted nums)
unfolding distinct
distinct-IsSorted sorted [] h = h
distinct-IsSorted sorted (num ∷ nums) h =
    distinct-IsSorted (insert_distinct num sorted) nums (insert_distinct-IsSorted num sorted h)

-- Of numbers from the largest on, the third, or the first where there are fewer than three.
abbrev pub third : List ℤ → Option ℤ
third [] = none
third (a ∷ []) = some a
third (a ∷ b ∷ []) = some a
third (a ∷ b ∷ c ∷ xs) = some c

insert_all_lem :
    (nums : List ℤ) (t : Tree)
    → IsSound t
    → (root : Tree) × (insert_all t nums ≡ some root)
      × IsSound root
      × (contents root ≡ distinct (contents t) nums)
unfolding insert_all distinct
insert_all_lem [] t w = (t, refl, w, refl)
insert_all_lem (num ∷ nums) t w =
    let (root, e, v, c) = insert_value_lem t num w in
    let (final, f, u, d) = insert_all_lem nums root v in
    (final, ap (λ o. o >>= λ r. insert_all r nums) e ∙ f, u, d ∙ ap (λ xs. distinct xs nums) c)

third_of :
    (xs : List ℤ) (b : Bool)
    → ltb (length xs) 3 ≡ b
    → 0 < length xs
    → some (or_minus_one (get_elem? xs (if b then 0 else 2))) ≡ third xs
unfolding or_minus_one
third_of [] b e h = absurd (omega (arith, h))
third_of (a ∷ []) true e h = refl
third_of (a ∷ []) false e h = absurd (ground (arith, e))
third_of (a ∷ b' ∷ []) true e h = refl
third_of (a ∷ b' ∷ []) false e h = absurd (ground (arith, e))
third_of (a ∷ b' ∷ c ∷ xs) true e h = absurd (ground (arith, e))
third_of (a ∷ b' ∷ c ∷ xs) false e h = refl

result_node :
    (l : Tree) (v : ℤ) (c : Color) (s : ℕ) (r : Tree)
    → result (node l v c s r) ≡ some (find_kth_largest (node l v c s r) (if ltb s 3 then 1 else 3))
unfolding result
result_node l v c s r = refl

result_leaf : result leaf ≡ third (falling leaf)
unfolding result falling
result_leaf = refl

result_lem : (t : Tree) → IsSized t → result t ≡ third (falling t)
unfolding count
result_lem leaf h = result_leaf
result_lem (node l v c s r) h =
    let t = node l v c s r in
    let n : s ≡ length (falling t) = h.0 ∙ sym (length-falling t) in
    let more : 0 < length (falling t) = omega (arith, h.0, n) in
    result_node l v c s r ∙ elim (Bool-cases (ltb s 3)) [
      | inl e ↦ rw e (
          ap some (find_kth_largest_lem t 0 h)
          ∙ third_of (falling t) true (ap (λ m. ltb m 3) (sym n) ∙ e) more)
      | inr e ↦ rw e (
          ap some (find_kth_largest_lem t 2 h)
          ∙ third_of (falling t) false (ap (λ m. ltb m 3) (sym n) ∙ e) more)
    ]

-- On any numbers thirdMax goes through no NULL pointer but for the root of an empty tree, which it
-- reads when there are no numbers. Otherwise it returns the third largest of the distinct numbers,
-- or the largest where they are fewer than three.
pub third_max_lem : (nums : List ℤ) → third_max nums ≡ third (reverse (distinct [] nums))
unfolding third_max
third_max_lem nums =
    let (root, e, w, c) = insert_all_lem nums leaf leaf-IsSound in
    let values : contents root ≡ distinct [] nums = c ∙ unfold contents in refl in
    ap (λ o. o >>= result) e
    ∙ result_lem root w.sized
    ∙ ap third (falling-reverse root ∙ ap reverse values)
