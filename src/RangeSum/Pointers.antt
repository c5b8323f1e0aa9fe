-- ===== src/RangeSum/Pointers.antt =====
-- 327.c: where the loops on `k` and `j` stop, and how many indices lie between them.
use leetcode.Base.{
  ℕ, zero, suc, ◌+◌, ◌-◌, ◌≤◌, ◌<◌, ◌≡◌, Bool, true, false, ◌&&◌, ltb, leb, ◌==◌, if◌then◌else◌,
  arith, Bool-cases, inl, inr, ==_iff,
}
use leetcode.Base.Int.{ℤ, ◌≤ℤ◌}
use leetcode.RangeSum.{Ints, seek}
use leetcode.RangeSum.Sums.{sum}

module _ (test : ℤ → Bool) (s : Ints) (right : ℕ) where
  -- The test holds of the elements passed, and fails at the one reached.
  seek_lem :
      (rounds k : ℕ)
      → k ≤ right
      → right ≤ k + rounds
      → (k ≤ seek test s right rounds k)
        × (seek test s right rounds k ≤ right)
        × ((p : ℕ) → k ≤ p → p < seek test s right rounds k → test (s p) ≡ true)
        × (seek test s right rounds k < right → test (s (seek test s right rounds k)) ≡ false)
  unfolding seek
  seek_lem zero k h l =
      (omega arith, h, λ p a b. absurd (omega (arith, a, b)), λ a. absurd (omega (arith, a, l)))
  seek_lem (suc rounds) k h l = elim (Bool-cases (ltb k right && test (s k))) [
    | inl e ↦
        (let (low, high, passed, stop) =
            seek_lem rounds (k + 1) (ground (arith, e)) (omega (arith, l)) in
          rw e (
            omega (arith, low),
            high,
            λ p a b. elim (Bool-cases (p == k)) [
              | inl r ↦ rw ((==_iff p k).0 r) (ground (arith, e))
              | inr r ↦ passed p (ground (arith, a, r)) b
            ],
            stop,
          ))
    | inr e ↦
        rw e (omega arith, h, λ p a b. absurd (omega (arith, a, b)), λ a. ground (arith, a, e))
  ]

abbrev pub IsRising : Ints → (l h : ℕ) → Type 0
IsRising a l h = (p q : ℕ) → l ≤ p → p ≤ q → q < h → a p ≤ℤ a q

-- A sum of ones at the indices from `k` to `j`.
pub sum-interval :
    (f : ℤ → ℕ) (s : Ints) (l n k j : ℕ)
    → k ≤ j
    → j ≤ l + n
    → ((p : ℕ) → l ≤ p → p < l + n → f (s p) ≡ (if leb k p && ltb p j then 1 else 0))
    → sum f s l n ≡ j - (if ltb k l then l else k)
unfolding sum
sum-interval f s l zero k j a b h = ground (arith, a, b)
sum-interval f s l (suc n) k j a b h =
    let ih =
      sum-interval f s (l + 1) n k j a (omega (arith, b))
        (λ p c d. h p (omega (arith, c)) (omega (arith, d))) in
    let first = h l (omega arith) (omega arith) in ground (arith, ih, first, a, b)

-- On a rising part of the array and with a test that holds of all below what it holds of, the
-- index separates the elements of which it holds from the others.
pub seek-separates :
    (test : ℤ → Bool) (s : Ints) (mid right k : ℕ)
    → ((a b : ℤ) → a ≤ℤ b → test b ≡ true → test a ≡ true)
    → IsRising s mid right
    → mid ≤ k
    → k ≤ right
    → ((p : ℕ) → mid ≤ p → p < k → test (s p) ≡ true)
    → let k' = seek test s right right k in
      (mid ≤ k')
      × (k' ≤ right)
      × ((p : ℕ) → mid ≤ p → p < k' → test (s p) ≡ true)
      × ((p : ℕ) → k' ≤ p → p < right → test (s p) ≡ false)
seek-separates test s mid right k anti up a b passed =
    let (k1, k2, k3, k4) = seek_lem test s right right k b (omega arith) in
    (
      omega (arith, a, k1),
      k2,
      λ p c d. elim (Bool-cases (ltb p k)) [
        | inl e ↦ passed p c (ground (arith, e))
        | inr e ↦ k3 p (ground (arith, e)) d
      ],
      λ p c d. elim (Bool-cases (test (s p))) [
        | inl e ↦
            (let k' = seek test s right right k in
              let t = anti (s k') (s p) (up k' p (omega (arith, a, k1)) c d) e in
              let f = k4 (omega (arith, c, d)) in absurd (ground (arith, t, f)))
        | inr e ↦ e
      ],
    )
