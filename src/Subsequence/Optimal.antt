-- ===== src/Subsequence/Optimal.antt =====
-- 1143.c: common subsequences, and the recursion that the table follows.
use leetcode.Base.{
  ℕ, ◌+◌, ◌≤◌, ◌≡◌, refl, subst, [], ◌∷◌, ◌++◌, ◌==◌, if◌then◌else◌, length, CString, arith,
  Bool-cases, inl, inr, reverse, ==_iff, ltb, false, ◌⊎◌,
}
use mathlib.Core.List.{reverse-cons, append-nil}
use leetcode.Subsequence.{max}

-- `w` is `s` with some elements left out.
pub data Subsequence : CString → CString → Type 0 where
  done : Subsequence [] []
  skip : {w s : CString} (c : ℕ) → Subsequence w s → Subsequence w (c ∷ s)
  take : {w s : CString} (c : ℕ) → Subsequence w s → Subsequence (c ∷ w) (c ∷ s)

pub empty-Subsequence : (s : CString) → Subsequence [] s
empty-Subsequence [] = done
empty-Subsequence (c ∷ s) = skip c (empty-Subsequence s)

append-Subsequence :
    {w s u t : CString} → Subsequence w s → Subsequence u t → Subsequence (w ++ u) (s ++ t)
append-Subsequence done h = h
append-Subsequence (skip c g) h = skip c (append-Subsequence g h)
append-Subsequence (take c g) h = take c (append-Subsequence g h)

pub reverse-Subsequence : {w s : CString} → Subsequence w s → Subsequence (reverse w) (reverse s)
reverse-Subsequence done = done
reverse-Subsequence {w} (skip {s = s} c g) =
    subst (λ v. Subsequence v (reverse (c ∷ s))) (append-nil (reverse w))
      (rw (reverse-cons c s) (append-Subsequence (reverse-Subsequence g) (skip c done)))
reverse-Subsequence (take {w = w} {s = s} c g) =
    rw (reverse-cons c s, reverse-cons c w)
      (append-Subsequence (reverse-Subsequence g) (take c done))

unfoldable pub lcs : CString → CString → ℕ
lcs [] ys = 0
lcs (x ∷ xs) [] = 0
lcs (x ∷ xs) (y ∷ ys) =
    let both = 1 + lcs xs ys in
    let one = max (lcs xs (y ∷ ys)) (lcs (x ∷ xs) ys) in if x == y then both else one

-- There is a common subsequence of this length,
pub lcs-reached :
    (xs ys : CString) → (w : CString) × Subsequence w xs × Subsequence w ys × (length w ≡ lcs xs ys)
unfolding lcs max
lcs-reached [] ys = ([], done, empty-Subsequence ys, refl)
lcs-reached (x ∷ xs) [] = ([], empty-Subsequence (x ∷ xs), done, refl)
lcs-reached (x ∷ xs) (y ∷ ys) =
    let (w, a, b, e) = lcs-reached xs ys in
    let (u, c, d, f) = lcs-reached xs (y ∷ ys) in
    let (v, g, h, i) = lcs-reached (x ∷ xs) ys in
    elim (Bool-cases (x == y)) [
      | inl s ↦ (
        x ∷ w,
        take x a,
        subst (λ z. Subsequence (x ∷ w) (z ∷ ys)) ((==_iff x y).0 s) (take x b),
        rw s (omega (arith, e)),
      )
      | inr s ↦ elim (Bool-cases (ltb (lcs (x ∷ xs) ys) (lcs xs (y ∷ ys)))) [
        | inl t ↦ (u, skip x c, d, rw (s, t) f)
        | inr t ↦ (v, g, skip y h, rw (s, t) i)
      ]
    ]

tail-Subsequence : {c : ℕ} {w : CString} (s : CString) → Subsequence (c ∷ w) s → Subsequence w s
tail-Subsequence {c = c} {w = w} [] g = elim g [ ]
tail-Subsequence (_ ∷ s) (skip d g) = skip d (tail-Subsequence s g)
tail-Subsequence (_ ∷ s) (take d g) = skip d g

behead-Subsequence : {c x : ℕ} {w s : CString} → Subsequence (c ∷ w) (x ∷ s) → Subsequence w s
behead-Subsequence {s = s} (skip d g) = tail-Subsequence s g
behead-Subsequence (take d g) = g

max-left : (a b : ℕ) → a ≤ max a b
unfolding max
max-left a b = ground arith

max-right : (a b : ℕ) → b ≤ max a b
unfolding max
max-right a b = ground arith

-- Of two unequal heads at least one is left out.
one_skipped :
    {c x y : ℕ} {w xs ys : CString}
    → (x == y) ≡ false
    → Subsequence (c ∷ w) (x ∷ xs)
    → Subsequence (c ∷ w) (y ∷ ys)
    → Subsequence (c ∷ w) xs ⊎ Subsequence (c ∷ w) ys
one_skipped e (skip d g) h = inl g
one_skipped e (take d g) (skip d' h) = inr h
one_skipped e (take d g) (take _ h) = absurd (ground (arith, e))

-- and none is longer.
pub lcs-most : (w xs ys : CString) → Subsequence w xs → Subsequence w ys → length w ≤ lcs xs ys
unfolding lcs
lcs-most [] xs ys g h = omega arith
lcs-most (c ∷ w) [] ys g h = elim g [ ]
lcs-most (c ∷ w) (x ∷ xs) [] g h = elim h [ ]
lcs-most (c ∷ w) (x ∷ xs) (y ∷ ys) g h =
    let both = lcs-most w xs ys (behead-Subsequence g) (behead-Subsequence h) in
    elim (Bool-cases (x == y)) [
      | inl s ↦ rw s (omega (arith, both))
      | inr s ↦ elim (one_skipped s g h) [
        | inl g' ↦
            (let rest = lcs-most (c ∷ w) xs (y ∷ ys) g' h in
              let left = max-left (lcs xs (y ∷ ys)) (lcs (x ∷ xs) ys) in
              rw s (omega (arith, rest, left)))
        | inr h' ↦
            (let rest = lcs-most (c ∷ w) (x ∷ xs) ys g h' in
              let right = max-right (lcs xs (y ∷ ys)) (lcs (x ∷ xs) ys) in
              rw s (omega (arith, rest, right)))
      ]
    ]
