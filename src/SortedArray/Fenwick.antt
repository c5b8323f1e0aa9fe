-- ===== src/SortedArray/Fenwick.antt =====
-- 1649.c: query and update keep the Fenwick tree, which counts the values inserted so far.
use leetcode.Base.{
  ℕ, zero, suc, ◌+◌, ◌-◌, ◌≤◌, ◌<◌, ◌≡◌, refl, ap, ◌∙◌, Bool, Bool-cases, inl, inr, some, List, [],
  ◌∷◌, arith, ltb, leb, ◌&&◌, if◌then◌else◌,
}
use leetcode.SortedArray.{max_val, low_bit, add_at, update_loop, update, query_loop, query}
use leetcode.SortedArray.LowBit.{low_bit-IsLow, IsLow-bounds, next_counted, counts_before}

-- How many of the values are above `low` and at most `high`.
unfoldable pub count_between : (low high : ℕ) → List ℕ → ℕ
count_between low high [] = 0
count_between low high (v ∷ values) =
    (if ltb low v && leb v high then 1 else 0) + count_between low high values

-- Each index has the count of the values that end there.
abbrev pub IsFenwick : (ℕ → ℕ) → List ℕ → Type 0
IsFenwick bit values =
    (i : ℕ) → 0 < i → i ≤ max_val → bit i ≡ count_between (i - low_bit i) i values

count_between-split :
    (low mid high : ℕ) (values : List ℕ)
    → low ≤ mid
    → mid ≤ high
    → count_between low high values ≡ count_between low mid values + count_between mid high values
unfolding count_between
count_between-split low mid high [] h k = refl
count_between-split low mid high (v ∷ values) h k =
    ground (arith, count_between-split low mid high values h k)

count_between-none : (n : ℕ) (values : List ℕ) → count_between n n values ≡ 0
unfolding count_between
count_between-none n [] = refl
count_between-none n (v ∷ values) = ground (arith, count_between-none n values)

low_bit-bounds : (i : ℕ) → 0 < i → i ≤ max_val → (0 < low_bit i) × (low_bit i ≤ i)
low_bit-bounds i p h = IsLow-bounds i (low_bit i) p (low_bit-IsLow i p (omega (arith, h)))

module _ (bit : ℕ → ℕ) (values : List ℕ) (w : IsFenwick bit values) where
  query_loop_lem :
      (fuel index res : ℕ)
      → index < fuel
      → index ≤ max_val
      → query_loop fuel bit index res ≡ some (res + count_between 0 index values)
  unfolding query_loop
  query_loop_lem zero index res h k = absurd (omega (arith, h))
  query_loop_lem (suc fuel) index res h k = elim (Bool-cases (ltb 0 index)) [
    | inl e ↦
        (let p : 0 < index = ground (arith, e) in
          let (lower, upper) = low_bit-bounds index p k in
          rw (e, query_loop)
            (query_loop_lem fuel (index - low_bit index) (res + bit index)
                (omega (arith, lower, h, p)) (omega (arith, k))
              ∙ ap some (
                  omega (
                    arith,
                    w index p k,
                    count_between-split 0 (index - low_bit index) index values (omega arith)
                        (omega (arith, upper)),
                  ))))
    | inr e ↦
        (let z : index ≡ 0 = ground (arith, e) in
          rw (e, query_loop)
            (ap some
              (omega (arith, ap (λ n. count_between 0 n values) z, count_between-none 0 values))))
  ]

  -- On a Fenwick tree of the values, query ends, and gives the number of the values from 1 to
  -- `index`.
  pub query_lem :
      (index : ℕ) → index ≤ max_val → query bit index ≡ some (count_between 0 index values)
  unfolding query
  query_lem index h = query_loop_lem (index + 1) index 0 (omega arith) h ∙ ap some (omega arith)

-- Whether index i counts the value x.
abbrev counts : (i x : ℕ) → Bool
counts i x = ltb (i - low_bit i) x && leb x i

-- To one more at `i`, if it counts the value `x`.
abbrev IsRaised : (bit raised : ℕ → ℕ) → (x : ℕ) → Type 0
IsRaised bit raised x =
    (i : ℕ) → 0 < i → i ≤ max_val → raised i ≡ bit i + (if counts i x then 1 else 0)

IsRaised-next :
    (bit raised : ℕ → ℕ) (x : ℕ)
    → 0 < x
    → x ≤ max_val
    → IsRaised (add_at bit x 1) raised (x + low_bit x)
    → IsRaised bit raised x
unfolding add_at
IsRaised-next bit raised x p h next i q k =
    let l = low_bit-IsLow i q (omega (arith, k)) in
    let m = low_bit-IsLow x p (omega (arith, h)) in
    let (li, ui) = low_bit-bounds i q k in
    let (lx, ux) = low_bit-bounds x p h in
    let to_next = next_counted i (low_bit i) x (low_bit x) l m in
    let from_next = counts_before i (low_bit i) x (low_bit x) l m in
    ground (arith, next i q k, li, ui, lx, ux, to_next, from_next)

update_loop_lem :
    (fuel : ℕ) (bit : ℕ → ℕ) (x : ℕ)
    → 0 < x
    → max_val + 1 < x + fuel
    → 0 < fuel
    → (raised : ℕ → ℕ) × (update_loop fuel bit x 1 ≡ some raised) × IsRaised bit raised x
unfolding update_loop
update_loop_lem zero bit x p h f = absurd (omega (arith, f))
update_loop_lem (suc fuel) bit x p h f = elim (Bool-cases (leb x max_val)) [
  | inl e ↦
      (let k : x ≤ max_val = ground (arith, e) in
        let (lower, upper) = low_bit-bounds x p k in
        let (raised, g, next) =
          update_loop_lem fuel (add_at bit x 1) (x + low_bit x) (omega (arith, p))
            (omega (arith, h, lower)) (omega (arith, h, k)) in
        (raised, rw (e, update_loop) g, IsRaised-next bit raised x p k next))
  | inr e ↦ (bit, rw (e, update_loop) refl, λ i q k. ground (arith, e, k))
]

-- On a Fenwick tree of the values, update of a value from 1 to MAX_VAL ends, and gives a Fenwick
-- tree of the values with that value.
pub update-IsFenwick :
    (bit : ℕ → ℕ) (values : List ℕ) (x : ℕ)
    → IsFenwick bit values
    → 0 < x
    → x ≤ max_val
    → (raised : ℕ → ℕ) × (update bit x 1 ≡ some raised) × IsFenwick raised (x ∷ values)
unfolding update count_between
update-IsFenwick bit values x w p h =
    let (raised, e, up) = update_loop_lem (max_val + 1) bit x p (omega (arith, p)) (omega arith) in
    (raised, e, λ i q k. omega (arith, up i q k, w i q k))
