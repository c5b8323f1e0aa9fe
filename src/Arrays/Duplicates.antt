-- ===== src/Arrays/Duplicates.antt =====
-- 217.c: containsDuplicate, with any qsort that sorts.
use leetcode.Base.{
  ℕ, ◌+◌, ◌≤◌, ◌≡◌, ◌↔◌, refl, ap, inl, inr, Bool-cases, true, false, List, [], ◌∷◌, arith, All,
  leb, length, if◌then◌else◌,
}
use leetcode.Base.Int.{ℤ, eqb_ℤ, ◌≤ℤ◌, ◌<ℤ◌}
use leetcode.Arrays.{has_equal_next, contains_duplicate}

abbrev pub IsAscending : List ℤ → Type 0
IsAscending [] = Unit
IsAscending (x ∷ xs) = All (λ y. x ≤ℤ y) xs × IsAscending xs

unfoldable pub occurrences : ℤ → List ℤ → ℕ
occurrences v [] = 0
occurrences v (x ∷ xs) = (if eqb_ℤ v x then 1 else 0) + occurrences v xs

-- A number that is in the list twice.
abbrev pub HasTwice : List ℤ → Type 0
HasTwice xs = (v : ℤ) × (2 ≤ occurrences v xs)

-- What is documented of qsort with this cmp.
pub record Sorts (qsort : List ℤ → List ℤ) : Type 0 where
  pub ascending : (xs : List ℤ) → IsAscending (qsort xs)
  pub same : (v : ℤ) (xs : List ℤ) → occurrences v (qsort xs) ≡ occurrences v xs

occurrences_le : (v : ℤ) (xs : List ℤ) → occurrences v xs ≤ length xs
unfolding occurrences
occurrences_le v [] = omega arith
occurrences_le v (x ∷ xs) = ground (arith, occurrences_le v xs)

equal_next_twice : (xs : List ℤ) → has_equal_next xs ≡ true → HasTwice xs
unfolding has_equal_next occurrences
equal_next_twice [] e = absurd (ground (arith, e))
equal_next_twice (x ∷ []) e = absurd (ground (arith, e))
equal_next_twice (x ∷ y ∷ ys) e = elim (Bool-cases (eqb_ℤ y x)) [
  | inl d ↦ (x, ground (arith, d))
  | inr d ↦ (let (v, h) = equal_next_twice (y ∷ ys) (ground (arith, d, e)) in (v, omega (arith, h)))
]

absent_below : (x : ℤ) (xs : List ℤ) → All (λ y. x <ℤ y) xs → occurrences x xs ≡ 0
unfolding occurrences
absent_below x [] a = refl
absent_below x (y ∷ ys) a = ground (arith, absent_below x ys a.1, a.0)

above_next : (x y : ℤ) (ys : List ℤ) → x <ℤ y → All (λ z. y ≤ℤ z) ys → All (λ z. x <ℤ z) ys
above_next x y [] h a = tt
above_next x y (z ∷ ys) h a = (omega (arith, h, a.0), above_next x y ys h a.1)

at_most_once :
    (v : ℤ) (xs : List ℤ) → IsAscending xs → has_equal_next xs ≡ false → occurrences v xs ≤ 1
unfolding has_equal_next occurrences
at_most_once v [] a e = omega arith
at_most_once v (x ∷ []) a e = ground arith
at_most_once v (x ∷ y ∷ ys) a e =
    let ne : eqb_ℤ y x ≡ false = ground (arith, e) in
    let lt : x <ℤ y = ground (arith, ne, a.0.0) in
    let none = absent_below x (y ∷ ys) (lt, above_next x y ys lt a.1.0) in
    let ih = at_most_once v (y ∷ ys) a.1 (ground (arith, e)) in
    elim (Bool-cases (eqb_ℤ v x)) [
      | inl d ↦
          (let same : v ≡ x = ground (arith, d) in
            ground (arith, d, none, ap (λ z. occurrences z (y ∷ ys)) same))
      | inr d ↦ ground (arith, d, ih)
    ]

-- If qsort sorts, containsDuplicate returns true exactly if a number is in the array twice.
pub contains_duplicate_iff :
    (qsort : List ℤ → List ℤ) (nums : List ℤ)
    → Sorts qsort
    → (contains_duplicate qsort nums ≡ true) ↔ HasTwice nums
unfolding contains_duplicate
contains_duplicate_iff qsort nums w = elim (Bool-cases (leb (length nums) 1)) [
  | inl e ↦ (
    λ f. absurd (ground (arith, e, f)),
    λ (v, h). absurd (ground (arith, e, h, occurrences_le v nums)),
  )
  | inr e ↦ (
    λ f.
        let (v, h) = equal_next_twice (qsort nums) (ground (arith, e, f)) in
        (v, omega (arith, h, w.same v nums)),
    λ (v, h). elim (Bool-cases (has_equal_next (qsort nums))) [
      | inl d ↦ ground (arith, e, d)
      | inr d ↦
          absurd (omega (arith, h, w.same v nums, at_most_once v (qsort nums) (w.ascending nums) d))
    ],
  )
]
