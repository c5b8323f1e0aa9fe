-- ===== src/SortedArray/Cost.antt =====
-- 1649.c: createSortedArray against the definition of the cost.
use leetcode.Base.{
  ℕ, ◌+◌, ◌-◌, ◌%◌, ◌≤◌, ◌<◌, ◌≡◌, refl, ap, ◌∙◌, subst, some, List, [], ◌∷◌, arith, All, ltb,
  length, if◌then◌else◌,
}
use leetcode.SortedArray.{modulus, max_val, instruct, create_sorted_array}
use leetcode.SortedArray.Fenwick.{count_between, IsFenwick, query_lem, update-IsFenwick}

unfoldable pub count_less : ℕ → List ℕ → ℕ
count_less x [] = 0
count_less x (v ∷ values) = (if ltb v x then 1 else 0) + count_less x values

unfoldable pub count_greater : ℕ → List ℕ → ℕ
count_greater x [] = 0
count_greater x (v ∷ values) = (if ltb x v then 1 else 0) + count_greater x values

abbrev pub smaller : ℕ → ℕ → ℕ
smaller a b = if ltb a b then a else b

-- The cost of the instructions, after some that are done: of each, the smaller number of the less
-- and of the greater values before it.
unfoldable pub insertion_cost : (done instructions : List ℕ) → ℕ
insertion_cost done [] = 0
insertion_cost done (x ∷ instructions) =
    smaller (count_less x done) (count_greater x done) + insertion_cost (x ∷ done) instructions

abbrev pub IsValue : ℕ → Type 0
IsValue x = (0 < x) × (x ≤ max_val)

less_lem :
    (x : ℕ) (done : List ℕ)
    → All IsValue done
    → 0 < x
    → count_between 0 (x - 1) done ≡ count_less x done
unfolding count_between count_less
less_lem x [] a p = refl
less_lem x (v ∷ done) a p = ground (arith, less_lem x done a.1 p, a.0)

greater_lem :
    (x : ℕ) (done : List ℕ)
    → All IsValue done
    → count_between 0 x done + count_greater x done ≡ length done
unfolding count_between count_greater
greater_lem x [] a = refl
greater_lem x (v ∷ done) a = ground (arith, greater_lem x done a.1, a.0)

instruct_lem :
    (bit : ℕ → ℕ) (done : List ℕ) (cost : ℕ) (instructions : List ℕ)
    → IsFenwick bit done
    → All IsValue done
    → All IsValue instructions
    → cost < modulus
    → instruct bit (length done) cost instructions
      ≡ some ((cost + insertion_cost done instructions) % modulus)
unfolding instruct insertion_cost
instruct_lem bit done cost [] w d a b = ap some (omega (arith, b))
instruct_lem bit done cost (x ∷ instructions) w d ((p, h), a) b =
    let (raised, e, v) = update-IsFenwick bit done x w p h in
    let less = query_lem bit done w (x - 1) (omega (arith, h)) ∙ ap some (less_lem x done d p) in
    let rest : length done - count_between 0 x done ≡ count_greater x done =
      omega (arith, greater_lem x done d) in
    let step = smaller (count_less x done) (count_greater x done) in
    rw (less, query_lem bit done w x h, e, rest)
      (subst
        (λ n.
          instruct raised n ((cost + step) % modulus) instructions
          ≡ some ((cost + (step + insertion_cost (x ∷ done) instructions)) % modulus))
        (omega arith)
        (instruct_lem raised (x ∷ done) ((cost + step) % modulus) instructions v ((p, h), d) a
            (omega arith)
          ∙ ap some (omega arith)))

empty-IsFenwick : IsFenwick (λ i. 0) []
unfolding count_between
empty-IsFenwick i p h = refl

-- For instructions from 1 to MAX_VAL, createSortedArray ends, and returns the sum of their costs,
-- modulo MOD: the cost of an instruction is the smaller of the number of the values before it that
-- are less and of the number of those that are greater.
pub create_sorted_array_lem :
    (instructions : List ℕ)
    → All IsValue instructions
    → create_sorted_array instructions ≡ some (insertion_cost [] instructions % modulus)
unfolding create_sorted_array
create_sorted_array_lem instructions a =
    instruct_lem (λ i. 0) [] 0 instructions empty-IsFenwick tt a (omega arith)
    ∙ ap some (omega arith)
