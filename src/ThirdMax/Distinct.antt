-- ===== src/ThirdMax/Distinct.antt =====
-- 414.c: the distinct values in order, by lists.
use leetcode.Base.{
  ◌≡◌, refl, ap, true, false, Bool-cases, inl, inr, List, [], ◌∷◌, ◌++◌, arith, All, if◌then◌else◌,
}
use leetcode.Base.Int.{ℤ, ltb_ℤ, eqb_ℤ, ◌<ℤ◌}
use leetcode.Tree.Sorted.{IsSorted}

-- In its place, if it is not there.
unfoldable pub insert_distinct : ℤ → List ℤ → List ℤ
insert_distinct v [] = v ∷ []
insert_distinct v (x ∷ xs) =
    let rest = insert_distinct v xs in
    if eqb_ℤ v x then x ∷ xs else if ltb_ℤ v x then v ∷ x ∷ xs else x ∷ rest

pub distinct_here :
    (v : ℤ) (xs ys : List ℤ)
    → All (λ y. y <ℤ v) xs
    → insert_distinct v (xs ++ (v ∷ ys)) ≡ xs ++ (v ∷ ys)
unfolding insert_distinct
distinct_here v [] ys a = let e : eqb_ℤ v v ≡ true = ground arith in rw e refl
distinct_here v (x ∷ xs) ys a =
    let e : eqb_ℤ v x ≡ false = ground (arith, a.0) in
    let f : ltb_ℤ v x ≡ false = ground (arith, a.0) in
    rw (e, f) (ap (λ zs. x ∷ zs) (distinct_here v xs ys a.1))

pub distinct_left :
    (v x : ℤ) (xs ys : List ℤ)
    → ltb_ℤ v x ≡ true
    → insert_distinct v (xs ++ (x ∷ ys)) ≡ insert_distinct v xs ++ (x ∷ ys)
unfolding insert_distinct
distinct_left v x [] ys e = let f : eqb_ℤ v x ≡ false = ground (arith, e) in rw (e, f) refl
distinct_left v x (y ∷ xs) ys e = elim (Bool-cases (eqb_ℤ v y)) [
  | inl s ↦ rw s refl
  | inr s ↦ elim (Bool-cases (ltb_ℤ v y)) [
    | inl t ↦ rw (s, t) refl
    | inr t ↦ rw (s, t) (ap (λ zs. y ∷ zs) (distinct_left v x xs ys e))
  ]
]

pub distinct_right :
    (v x : ℤ) (xs ys : List ℤ)
    → All (λ y. y <ℤ x) xs
    → x <ℤ v
    → insert_distinct v (xs ++ (x ∷ ys)) ≡ xs ++ (x ∷ insert_distinct v ys)
unfolding insert_distinct
distinct_right v x [] ys a h =
    let e : eqb_ℤ v x ≡ false = ground (arith, h) in
    let f : ltb_ℤ v x ≡ false = ground (arith, h) in rw (e, f) refl
distinct_right v x (y ∷ xs) ys a h =
    let e : eqb_ℤ v y ≡ false = ground (arith, h, a.0) in
    let f : ltb_ℤ v y ≡ false = ground (arith, h, a.0) in
    rw (e, f) (ap (λ zs. y ∷ zs) (distinct_right v x xs ys a.1 h))

distinct-All :
    (P : ℤ → Type 0) (v : ℤ) (xs : List ℤ) → P v → All P xs → All P (insert_distinct v xs)
unfolding insert_distinct
distinct-All P v [] p a = (p, tt)
distinct-All P v (x ∷ xs) p a = elim (Bool-cases (eqb_ℤ v x)) [
  | inl s ↦ rw s a
  | inr s ↦ elim (Bool-cases (ltb_ℤ v x)) [
    | inl t ↦ rw (s, t) (p, a)
    | inr t ↦ rw (s, t) (a.0, distinct-All P v xs p a.1)
  ]
]

All-lt : (v x : ℤ) (xs : List ℤ) → v <ℤ x → All (λ y. x <ℤ y) xs → All (λ y. v <ℤ y) xs
All-lt v x [] h a = tt
All-lt v x (y ∷ xs) h a = (omega (arith, h, a.0), All-lt v x xs h a.1)

pub insert_distinct-IsSorted : (v : ℤ) (xs : List ℤ) → IsSorted xs → IsSorted (insert_distinct v xs)
unfolding insert_distinct
insert_distinct-IsSorted v [] h = (tt, tt)
insert_distinct-IsSorted v (x ∷ xs) h = elim (Bool-cases (eqb_ℤ v x)) [
  | inl s ↦ rw s h
  | inr s ↦ elim (Bool-cases (ltb_ℤ v x)) [
    | inl t ↦ rw (s, t) ((ground (arith, t), All-lt v x xs (ground (arith, t)) h.0), h)
    | inr t ↦
        rw (s, t)
          (
            distinct-All (λ y. x <ℤ y) v xs (ground (arith, s, t)) h.0,
            insert_distinct-IsSorted v xs h.1,
          )
  ]
]
