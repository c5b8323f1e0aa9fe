-- ===== src/Arrays.antt =====
-- 1.c, 217.c and 387.c: twoSum, containsDuplicate and firstUniqChar. An `int` does not overflow;
-- qsort is a parameter.
pub mod Pairs
pub mod Duplicates
pub mod Unique
mod Tests
use leetcode.Base.{
  ℕ, zero, suc, ◌+◌, ◌-◌, Bool, true, false, ◌&&◌, ◌||◌, Option, none, some, List, [], ◌∷◌, leb,
  ◌==◌, if◌then◌else◌, length, CString,
}
use leetcode.Base.Int.{ℤ, pos, negsuc, eqb_ℤ, ◌+ℤ◌}
use leetcode.Base.Fallible.{◌>>=◌}

-- The inner loop of twoSum, from j on: the place at which it breaks.
unfoldable pub find_partner : (target x : ℤ) → (j : ℕ) → List ℤ → Option ℕ
find_partner target x j [] = none
find_partner target x j (y ∷ ys) =
    let rest = find_partner target x (j + 1) ys in if eqb_ℤ (x +ℤ y) target then some j else rest

-- returnValues after a round of the outer loop.
abbrev pub or_kept : (return_values : ℕ × ℕ) → (i : ℕ) → Option ℕ → ℕ × ℕ
or_kept return_values i none = return_values
or_kept return_values i (some j) = (i, j)

-- The outer loop from i on; a round for the last element has no round of the inner loop.
unfoldable pub outer_loop : (target : ℤ) → (i : ℕ) → List ℤ → (return_values : ℕ × ℕ) → ℕ × ℕ
unfolding find_partner
outer_loop target i [] return_values = return_values
outer_loop target i (x ∷ xs) return_values =
    outer_loop target (i + 1) xs (or_kept return_values i (find_partner target x (i + 1) xs))

-- `junk` is what stands in the memory that malloc gives.
unfoldable pub two_sum : (nums : List ℤ) → (target : ℤ) → (junk : ℕ × ℕ) → ℕ × ℕ
unfolding outer_loop
two_sum nums target junk = outer_loop target 0 nums junk

-- The loop of containsDuplicate.
unfoldable pub has_equal_next : List ℤ → Bool
has_equal_next [] = false
has_equal_next (x ∷ []) = false
has_equal_next (x ∷ y ∷ ys) = eqb_ℤ y x || has_equal_next (y ∷ ys)

unfoldable pub contains_duplicate : (qsort : List ℤ → List ℤ) → List ℤ → Bool
unfolding has_equal_next
contains_duplicate qsort nums = if leb (length nums) 1 then false else has_equal_next (qsort nums)

-- The first loop of firstUniqChar; none is a write outside of freq.
unfoldable pub count_chars : (freq : ℕ → ℕ) → CString → Option (ℕ → ℕ)
count_chars freq [] = some freq
count_chars freq (c ∷ s) =
    let rest = count_chars (λ k. if k == c - b'a' then freq k + 1 else freq k) s in
    if leb b'a' c && leb c b'z' then rest else none

unfoldable pub find_once : (freq : ℕ → ℕ) → (i : ℕ) → CString → ℤ
find_once freq i [] = negsuc 0
find_once freq i (c ∷ s) =
    let rest = find_once freq (i + 1) s in if freq (c - b'a') == 1 then pos i else rest

unfoldable pub first_uniq_char : CString → Option ℤ
unfolding count_chars find_once
first_uniq_char s = do freq ← count_chars (λ k. 0) s; some (find_once freq 0 s)
