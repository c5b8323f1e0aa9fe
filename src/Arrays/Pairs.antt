-- ===== src/Arrays/Pairs.antt =====
-- 1.c: twoSum.
use leetcode.Base.{
  ℕ, zero, suc, ◌+◌, ◌<◌, ◌≡◌, ◌⊎◌, inl, inr, Bool-cases, Option-cases, none, some, List, [], ◌∷◌,
  arith, get_elem?, ◌∙◌, sym, ap, ◌≢◌, ltb, ◌==◌, ◌-◌,
}
use leetcode.Base.Int.{ℤ, eqb_ℤ, eqb→eq_ℤ, eqb_false→ne_ℤ, ◌+ℤ◌}
use leetcode.Arrays.{find_partner, outer_loop, two_sum}

-- The elements at i and at j, which is behind it, have the sum.
pub record IsPair (nums : List ℤ) (target : ℤ) (i j : ℕ) : Type 0 where
  pub x : ℤ
  pub y : ℤ
  pub order : i < j
  pub at_i : get_elem? nums i ≡ some x
  pub at_j : get_elem? nums j ≡ some y
  pub sum : x +ℤ y ≡ target

-- The rest of the array from i on.
abbrev IsRest : List ℤ → ℕ → List ℤ → Type 0
IsRest nums i xs = (k : ℕ) → get_elem? nums (i + k) ≡ get_elem? xs k

IsRest-tail :
    (nums : List ℤ) (i : ℕ) (x : ℤ) (xs : List ℤ) → IsRest nums i (x ∷ xs) → IsRest nums (i + 1) xs
IsRest-tail nums i x xs h k = ap (get_elem? nums) (omega arith) ∙ h (suc k)

IsRest-head :
    (nums : List ℤ) (i : ℕ) (x : ℤ) (xs : List ℤ)
    → IsRest nums i (x ∷ xs)
    → get_elem? nums i ≡ some x
IsRest-head nums i x xs h = ap (get_elem? nums) (omega arith) ∙ h 0

none_behind :
    {target : ℤ} (x z : ℤ) (j : ℕ) (ys : List ℤ)
    → x +ℤ z ≢ target
    → ((k : ℕ) (y : ℤ) → get_elem? ys k ≡ some y → x +ℤ y ≢ target)
    → (k : ℕ) (y : ℤ) → get_elem? (z ∷ ys) k ≡ some y
    → x +ℤ y ≢ target
none_behind x z j ys ne h zero y e f =
    let same : z ≡ y = ground (arith, e) in ne (ap (λ t. x +ℤ t) same ∙ f)
none_behind x z j ys ne h (suc k) y e f = h k y e f

module _ (nums : List ℤ) (target : ℤ) where
  find_partner_lem :
      (i : ℕ) (x : ℤ) (j : ℕ) (ys : List ℤ)
      → get_elem? nums i ≡ some x
      → i < j
      → IsRest nums j ys
      → (p : ℕ) → find_partner target x j ys ≡ some p
      → IsPair nums target i p
  unfolding find_partner
  find_partner_lem i x j [] e lt h p f = absurd (ground (arith, f))
  find_partner_lem i x j (y ∷ ys) e lt h p f = elim (Bool-cases (eqb_ℤ (x +ℤ y) target)) [
    | inl d ↦
        (let same : j ≡ p = ground (arith, d, f) in
          record {
            x = x;
            y = y;
            order = omega (arith, lt, same);
            at_i = e;
            at_j = ap (get_elem? nums) (sym same) ∙ IsRest-head nums j y ys h;
            sum = eqb→eq_ℤ (x +ℤ y) target d;
          })
    | inr d ↦
        find_partner_lem i x (j + 1) ys e (omega (arith, lt)) (IsRest-tail nums j y ys h) p
          (ground (arith, d, f))
  ]

  find_partner_none :
      (x : ℤ) (j : ℕ) (ys : List ℤ)
      → find_partner target x j ys ≡ none
      → (k : ℕ) (y : ℤ) → get_elem? ys k ≡ some y
      → x +ℤ y ≢ target
  unfolding find_partner
  find_partner_none x j [] f k y e = absurd (ground (arith, e))
  find_partner_none x j (z ∷ ys) f k y e = elim (Bool-cases (eqb_ℤ (x +ℤ z) target)) [
    | inl d ↦ absurd (ground (arith, d, f))
    | inr d ↦
        none_behind x z j ys (eqb_false→ne_ℤ (x +ℤ z) target d)
          (find_partner_none x (j + 1) ys (ground (arith, d, f))) k y e
  ]

  -- No pair starts before i.
  abbrev NoneBefore : ℕ → Type 0
  NoneBefore i = (a b : ℕ) → a < i → ¬ IsPair nums target a b

  none_at :
      (i : ℕ) (x : ℤ) (xs : List ℤ)
      → IsRest nums i (x ∷ xs)
      → find_partner target x (i + 1) xs ≡ none
      → NoneBefore i
      → NoneBefore (i + 1)
  none_at i x xs h f before a b lt p = elim (Bool-cases (a == i)) [
    | inr d ↦ before a b (ground (arith, d, lt)) p
    | inl d ↦
        (let same : a ≡ i = ground (arith, d) in
          let first : x ≡ p.x =
            ground (arith, IsRest-head nums i x xs h, ap (get_elem? nums) same, p.at_i) in
          let k = b - (i + 1) in
          let place : i + 1 + k ≡ b = omega (arith, same, p.order) in
          let second : get_elem? xs k ≡ some p.y =
            sym (IsRest-tail nums i x xs h k) ∙ ap (get_elem? nums) place ∙ p.at_j in
          find_partner_none x (i + 1) xs f k p.y second (ap (λ z. z +ℤ p.y) first ∙ p.sum))
  ]

  outer_loop_lem :
      (i : ℕ) (xs : List ℤ) (r : ℕ × ℕ)
      → IsRest nums i xs
      → IsPair nums target r.0 r.1 ⊎ NoneBefore i
      → let (a, b) = outer_loop target i xs r in
        IsPair nums target a b ⊎ ((a b : ℕ) → ¬ IsPair nums target a b)
  unfolding outer_loop
  outer_loop_lem i [] r h (inl p) = inl p
  outer_loop_lem i [] r h (inr none_yet) = inr λ a b p. elim (Bool-cases (ltb a i)) [
    | inl d ↦ none_yet a b (ground (arith, d)) p
    | inr d ↦
        (let place : i + (a - i) ≡ a = ground (arith, d) in
          let out : none ≡ some p.x = sym (h (a - i)) ∙ ap (get_elem? nums) place ∙ p.at_i in
          ground (arith, out))
  ]
  outer_loop_lem i (x ∷ xs) r h p =
      let next = IsRest-tail nums i x xs h in
      elim (Option-cases (find_partner target x (i + 1) xs)) [
        | inl e ↦
            rw (e, outer_loop)
              (outer_loop_lem (i + 1) xs r next
                (elim p [ inl q ↦ inl q | inr q ↦ inr (none_at i x xs h e q) ]))
        | inr (j, e) ↦
            rw (e, outer_loop)
              (outer_loop_lem (i + 1) xs (i, j) next
                (inl (
                  find_partner_lem i x (i + 1) xs (IsRest-head nums i x xs h) (omega arith) next j
                    e)))
      ]

  -- If two elements have the target as their sum, then twoSum returns the places of two such
  -- elements, in rising order.
  pub two_sum_lem :
      (junk : ℕ × ℕ)
      → let (a, b) = two_sum nums target junk in
        IsPair nums target a b ⊎ ((a b : ℕ) → ¬ IsPair nums target a b)
  unfolding two_sum
  two_sum_lem junk =
      outer_loop_lem 0 nums junk (λ k. ap (get_elem? nums) (omega arith))
        (inr λ a b lt p. omega (arith, lt))
